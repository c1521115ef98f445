-- ===== src/Engine/Roles/Authority.antt =====
-- Who may manage roles and assignments (scoped_access/engine.py: `can_manage_role`,
-- `can_manage_assignment`), by the assignments in force.
use django_auth_with_scoped.Base.{
  ℕ, ◌≡◌, refl, ◌∙◌, sym, ◌↔◌, ◌⊎◌, inl, inr, Bool, true, false, ◌&&◌, ◌||◌, Option, none, some,
  List, [], ◌∷◌, String, arith, string_eq, any, contains, union, contains-union, any_sound,
  any_complete, Bool-cases, Option-cases, guarded_iff,
}
use django_auth_with_scoped.World.{Obj}
use django_auth_with_scoped.Models.{User, Role, Assignment, Granted, Db, is_root_scope, role_perms}
use django_auth_with_scoped.Config.{Env}
use django_auth_with_scoped.Engine.Scope.{assignment_is_valid, resolve_anchor}
use django_auth_with_scoped.Engine.Scope.Ancestors.{HasFiniteDepth}
use django_auth_with_scoped.Engine.Decision.{effective_assignments, has_perm, anchor_of}
use django_auth_with_scoped.Engine.Decision.Access.{
  IsInForce, IsAuthorized, mem-effective_assignments, has_perm_iff,
}
use django_auth_with_scoped.Engine.Roles.{
  permission, collect_root, holds_at_root, owner_of, manages_role, manages_assignments,
  can_manage_role, can_manage_assignment,
}

module _ (env : Env) (db : Db) where
  -- One root assignment in force has the permission in its role.
  abbrev pub IsRootAuthorized : User → String → Option ℕ → Type 0
  IsRootAuthorized user perm at =
      (g : Granted) × IsInForce env db user at g
      × (g.scope_id ≡ none)
      × (contains perm (role_perms db g.role) ≡ true)

  root_test : String → Granted → Bool
  root_test perm g =
      assignment_is_valid env g
      && (is_root_scope g.assignment && contains perm (role_perms db g.role))

  is_root_scope_iff : (a : Assignment) → (is_root_scope a ≡ true) ↔ (a.scope_id ≡ none)
  is_root_scope_iff a = ground arith

  any-root_test_iff :
      (user : User) (perm : String) (at : Option ℕ)
      → (any (root_test perm) (effective_assignments env db user at) ≡ true)
        ↔ IsRootAuthorized user perm at
  unfolding root_test
  any-root_test_iff user perm at = (
    λ h.
        let (g, m, q) = any_sound (root_test perm) _ h in
        (
          g,
          (mem-effective_assignments env db user at g).0 (m, ground arith),
          (is_root_scope_iff g.assignment).0 (ground arith),
          ground arith,
        ),
    λ (g, inforce, root, p).
        any_complete (root_test perm) ((mem-effective_assignments env db user at g).1 inforce).0
          (rw (inforce.valid, (is_root_scope_iff g.assignment).1 root, p) refl),
  )

  pub holds_at_root_iff :
      (user : User) (perm : String) (at : Option ℕ)
      → (holds_at_root env db user perm at ≡ true) ↔ IsRootAuthorized user perm at
  unfolding holds_at_root root_test
  holds_at_root_iff user perm at = any-root_test_iff user perm at

  contains-collect_root :
      (perm : String) (held : List String) (gs : List Granted)
      → contains perm (collect_root env db held gs)
        ≡ (contains perm held || any (root_test perm) gs)
  unfolding collect_root any root_test
  contains-collect_root perm held [] = ground arith
  contains-collect_root perm held (g ∷ gs) =
      elim (Bool-cases (assignment_is_valid env g && is_root_scope g.assignment)) [
        | inr e ↦ rw e (ground (arith, contains-collect_root perm held gs))
        | inl e ↦ rw e (
            ground (
              arith,
              contains-collect_root perm (union held (role_perms db g.role)) gs,
              contains-union perm held (role_perms db g.role),
            ))
      ]

  -- What the actor is said to hold globally is what a root assignment in force has.
  pub collect_root_iff :
      (user : User) (perm : String) (at : Option ℕ)
      → (contains perm (collect_root env db [] (effective_assignments env db user at)) ≡ true)
        ↔ IsRootAuthorized user perm at
  unfolding contains
  collect_root_iff user perm at = (
    λ h.
        (any-root_test_iff user perm at).0
          (sym (contains-collect_root perm [] (effective_assignments env db user at)) ∙ h),
    λ r.
        contains-collect_root perm [] (effective_assignments env db user at)
        ∙ (any-root_test_iff user perm at).1 r,
  )

  -- what managing a role takes of an active actor who is no superuser
  abbrev pub ManagesRole : User → Option Obj → Option ℕ → Type 0
  ManagesRole actor none at =
      IsRootAuthorized actor (permission env.role_app "manage_global_roles") at
  ManagesRole actor (some owner) at =
      IsAuthorized env db actor (permission env.role_app "manage_roles") at
        (resolve_anchor env owner)

  -- what managing assignments at a node, or globally, takes of such an actor
  abbrev pub ManagesAssignments : User → Option Obj → Option ℕ → Type 0
  ManagesAssignments actor none at =
      IsRootAuthorized actor (permission env.assignment_app "manage_assignments") at
  ManagesAssignments actor (some n) at =
      IsAuthorized env db actor (permission env.assignment_app "manage_assignments") at
        (resolve_anchor env n)

  module _ (finite : HasFiniteDepth env) where
    active_has_perm_iff :
        (actor : User) (perm : String) (obj : Obj) (at : Option ℕ)
        → actor.is_active ≡ true
        → actor.is_superuser ≡ false
        → (has_perm env db actor perm (some obj) at ≡ true)
          ↔ IsAuthorized env db actor perm at (resolve_anchor env obj)
    unfolding anchor_of
    active_has_perm_iff actor perm obj at e s =
        let iff = has_perm_iff env db finite actor perm (some obj) at in
        (
          λ h. elim (iff.0 h).1 [ inl super ↦ absurd (ground arith) | inr auth ↦ auth ],
          λ auth. iff.1 (e, inr auth),
        )

    manages_role_iff :
        (actor : User) (owner : Option Obj) (at : Option ℕ)
        → actor.is_active ≡ true
        → actor.is_superuser ≡ false
        → (manages_role env db actor owner at ≡ true) ↔ ManagesRole actor owner at
    unfolding manages_role
    manages_role_iff actor none at e s =
        holds_at_root_iff actor (permission env.role_app "manage_global_roles") at
    manages_role_iff actor (some owner) at e s =
        active_has_perm_iff actor (permission env.role_app "manage_roles") owner at e s

    manages_assignments_iff :
        (actor : User) (scope : Option Obj) (at : Option ℕ)
        → actor.is_active ≡ true
        → actor.is_superuser ≡ false
        → (manages_assignments env db actor scope at ≡ true) ↔ ManagesAssignments actor scope at
    unfolding manages_assignments
    manages_assignments_iff actor none at e s =
        holds_at_root_iff actor (permission env.assignment_app "manage_assignments") at
    manages_assignments_iff actor (some n) at e s =
        active_has_perm_iff actor (permission env.assignment_app "manage_assignments") n at e s

    -- An actor may manage a role exactly when it is an active user's, the role's owner, if it
    -- has one, exists, and the actor is a superuser, or holds `manage_roles` at the owner of a
    -- custom role, or `manage_global_roles` by a root assignment for a system role. It holds
    -- where parents lead to smaller depths (HasFiniteDepth).
    pub can_manage_role_iff :
        (actor : User) (role : Role) (at : Option ℕ)
        → (can_manage_role env db (some actor) role at ≡ true) ↔ (
            (actor.is_active ≡ true)
            × (owner : Option Obj) × (owner_of env db role ≡ some owner)
            × ((actor.is_superuser ≡ true) ⊎ ManagesRole actor owner at))
    unfolding can_manage_role
    can_manage_role_iff actor role at =
        let iff = λ (owner : Option Obj).
          guarded_iff actor.is_active actor.is_superuser (manages_role env db actor owner at)
            (manages_role_iff actor owner at) in
        elim (Option-cases (owner_of env db role)) [
          | inl e ↦ (λ h. absurd (ground arith), λ (_, _, e', _). absurd (ground arith))
          | inr (owner, e) ↦ (
            λ h. let (a, who) = (iff owner).0 (ground arith) in (a, owner, e, who),
            λ (a, owner', e', who). let h = (iff owner').1 (a, who) in ground arith,
          )
        ]

    -- An actor may manage assignments at a node, or globally, exactly when the account is active
    -- and it is a superuser's, or holds `manage_assignments` at the node, or by a root
    -- assignment. It holds where parents lead to smaller depths (HasFiniteDepth).
    pub can_manage_assignment_iff :
        (actor : User) (scope : Option Obj) (at : Option ℕ)
        → (can_manage_assignment env db (some actor) scope at ≡ true) ↔ (
            (actor.is_active ≡ true)
            × ((actor.is_superuser ≡ true) ⊎ ManagesAssignments actor scope at))
    unfolding can_manage_assignment
    can_manage_assignment_iff actor scope at =
        guarded_iff actor.is_active actor.is_superuser (manages_assignments env db actor scope at)
          (manages_assignments_iff actor scope at)
