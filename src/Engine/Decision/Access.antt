-- ===== src/Engine/Decision/Access.antt =====
-- The permission decision (scoped_access/engine.py) against its specification (SPEC 5): who is
-- allowed what, by which row of the assignment table.
use django_auth_with_scoped.Base.{
  ℕ, ◌≡◌, refl, ◌↔◌, ◌⊎◌, inl, inr, Bool, true, ◌&&◌, ◌||◌, Option, some, List, [], ◌∷◌, Memᴰ,
  String, arith, ◌==◌, nat_eq, string_eq, get_or, any, contains, union, contains-union, any_sound,
  any_complete, mem-filter, filter-mem, Bool-cases,
}
use django_auth_with_scoped.World.{Obj}
use django_auth_with_scoped.Models.{
  User, Granted, Db, role_perms, role_with, is_effective, effective,
}
use django_auth_with_scoped.Models.Effective.{
  IsEffective, is_effective_iff, mem-select_related, select_related-mem,
}
use django_auth_with_scoped.Config.{Env}
use django_auth_with_scoped.Engine.Scope.{
  Anchor, node, global, denied, unregistered, assignment_is_valid, covers_anchor,
}
use django_auth_with_scoped.Engine.Scope.Ancestors.{HasFiniteDepth}
use django_auth_with_scoped.Engine.Scope.Coverage.{CoversAnchor, covers_anchor_iff}
use django_auth_with_scoped.Engine.Decision.{
  fetch_effective, effective_assignments, collect, anchor_of, is_unregistered, user_permissions,
  has_perm,
}

module _ (env : Env) (db : Db) where
  -- The assignment is a row of the user's, effective at the time, joined to its role, and valid.
  pub record IsInForce (user : User) (at : Option ℕ) (g : Granted) : Type 0 where
    pub stored : Memᴰ g.assignment db.assignments
    pub own : g.user_id ≡ user.pk
    pub in_window : IsEffective (get_or at env.now) g.assignment
    pub joined : role_with db g.role_id ≡ some g.role
    pub valid : assignment_is_valid env g ≡ true

  -- Some assignment in force covers the anchor.
  abbrev pub IsCovered : User → Option ℕ → Anchor → Type 0
  IsCovered user at anchor =
      (g : Granted) × IsInForce user at g × CoversAnchor env g.assignment anchor

  -- One assignment in force both covers the anchor and has the permission in its role.
  abbrev pub IsAuthorized : User → String → Option ℕ → Anchor → Type 0
  IsAuthorized user perm at anchor =
      (g : Granted) × IsInForce user at g
      × CoversAnchor env g.assignment anchor
      × (contains perm (role_perms db g.role) ≡ true)

  pub mem-effective_assignments :
      (user : User) (at : Option ℕ) (g : Granted)
      → (Memᴰ g (effective_assignments env db user at) × (assignment_is_valid env g ≡ true))
        ↔ IsInForce user at g
  unfolding effective_assignments fetch_effective effective
  mem-effective_assignments user at g = (
    λ (m, valid).
        let (m', joined) = mem-select_related db _ g m in
        let (m'', in_window) = mem-filter (is_effective (get_or at env.now)) _ m' in
        let (stored, own) = mem-filter (λ a. a.user_id == user.pk) db.assignments m'' in
        record {
          stored = stored;
          own = (nat_eq.same_iff g.user_id user.pk).0 own;
          in_window = (is_effective_iff (get_or at env.now) g.assignment).0 in_window;
          joined = joined;
          valid = valid;
        },
    λ h. (
      select_related-mem db g
          (filter-mem (is_effective (get_or at env.now))
            (filter-mem (λ a. a.user_id == user.pk) h.stored
              ((nat_eq.same_iff g.user_id user.pk).1 h.own))
            ((is_effective_iff (get_or at env.now) g.assignment).1 h.in_window))
          h.joined,
      h.valid,
    ),
  )

  -- the test that one turn of the loop in `user_permissions` makes for one permission
  unfoldable pub grants : Anchor → String → Granted → Bool
  grants anchor perm g =
      assignment_is_valid env g
      && (covers_anchor env g.assignment anchor && contains perm (role_perms db g.role))

  pub contains-collect :
      (anchor : Anchor) (perm : String) (perms : List String) (gs : List Granted)
      → contains perm (collect env db anchor perms gs)
        ≡ (contains perm perms || any (grants anchor perm) gs)
  unfolding collect any grants
  contains-collect anchor perm perms [] = ground arith
  contains-collect anchor perm perms (g ∷ gs) = elim (Bool-cases (assignment_is_valid env g)) [
    | inr e ↦ rw e (contains-collect anchor perm perms gs)
    | inl e ↦ elim (Bool-cases (covers_anchor env g.assignment anchor)) [
      | inr c ↦ rw (e, c) (contains-collect anchor perm perms gs)
      | inl c ↦
          rw (e, c)
            (ground (
              arith,
              contains-collect anchor perm (union perms (role_perms db g.role)) gs,
              contains-union perm perms (role_perms db g.role),
            ))
    ]
  ]

  module _ (finite : HasFiniteDepth env) where
    any-grants_iff :
        (user : User) (perm : String) (at : Option ℕ) (anchor : Anchor)
        → (any (grants anchor perm) (effective_assignments env db user at) ≡ true)
          ↔ IsAuthorized user perm at anchor
    unfolding grants
    any-grants_iff user perm at anchor = (
      λ h.
          let (g, m, q) = any_sound (grants anchor perm) _ h in
          (
            g,
            (mem-effective_assignments user at g).0 (m, ground arith),
            (covers_anchor_iff env finite g.assignment anchor).0 (ground arith),
            ground arith,
          ),
      λ (g, inforce, c, p).
          any_complete (grants anchor perm) ((mem-effective_assignments user at g).1 inforce).0
            (rw (inforce.valid, (covers_anchor_iff env finite g.assignment anchor).1 c, p) refl),
    )

    unregistered_iff :
        (user : User) (perm : String) (at : Option ℕ) (anchor : Anchor)
        → is_unregistered env db anchor ≡ true
        → IsAuthorized user perm at anchor
        → ⊥
    unfolding is_unregistered
    unregistered_iff user perm at unregistered h (_, _, c, _) = c
    unregistered_iff user perm at global h _ = cc
    unregistered_iff user perm at denied h _ = cc
    unregistered_iff user perm at (node n) h _ = cc

    -- `user_permissions` holds a permission exactly when the user is active and one assignment
    -- in force both covers the object's anchor and has the permission in its role. It holds
    -- where parents lead to smaller depths (HasFiniteDepth).
    pub user_permissions_iff :
        (user : User) (perm : String) (obj : Option Obj) (at : Option ℕ)
        → (contains perm (user_permissions env db user obj at) ≡ true)
          ↔ ((user.is_active ≡ true) × IsAuthorized user perm at (anchor_of env db obj))
    unfolding user_permissions contains
    user_permissions_iff user perm obj at =
        let collected =
          contains-collect (anchor_of env db obj) perm [] (effective_assignments env db user at) in
        let iff = any-grants_iff user perm at (anchor_of env db obj) in
        (
          λ h. elim (Bool-cases user.is_active) [
            | inr e ↦ absurd (ground arith)
            | inl e ↦ elim (Bool-cases (is_unregistered env db (anchor_of env db obj))) [
              | inl u ↦ absurd (ground arith)
              | inr u ↦ (e, iff.0 (ground arith))
            ]
          ],
          λ (e, auth). elim (Bool-cases (is_unregistered env db (anchor_of env db obj))) [
            | inl u ↦ absurd (unregistered_iff user perm at (anchor_of env db obj) u auth)
            | inr u ↦ rw (e, u) (ground (arith, iff.1 auth))
          ],
        )

    -- A user has a permission exactly when the account is active, and it is a superuser's or one
    -- assignment in force both covers the object's anchor and has the permission in its role. It
    -- holds where parents lead to smaller depths (HasFiniteDepth).
    pub has_perm_iff :
        (user : User) (perm : String) (obj : Option Obj) (at : Option ℕ)
        → (has_perm env db user perm obj at ≡ true) ↔ (
            (user.is_active ≡ true)
            × ((user.is_superuser ≡ true) ⊎ IsAuthorized user perm at (anchor_of env db obj)))
    unfolding has_perm
    has_perm_iff user perm obj at =
        let iff = user_permissions_iff user perm obj at in
        (
          λ h. elim (Bool-cases user.is_active) [
            | inr e ↦ absurd (ground arith)
            | inl e ↦ elim (Bool-cases user.is_superuser) [
              | inl s ↦ (e, inl s)
              | inr s ↦ (e, inr ((iff.0 (ground arith)).1))
            ]
          ],
          λ (e, who). elim who [
            | inl s ↦ ground arith
            | inr auth ↦ ground (arith, iff.1 (e, auth))
          ],
        )
