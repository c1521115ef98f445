-- ===== src/Engine/Scope/Tenancy.antt =====
-- Custom roles stay in their owner's subtree, and no scope reaches upward
-- (scoped_access/engine.py: `role_assignable`, `_assignment_is_valid`, `covers`).
use django_auth_with_scoped.Base.{
  ℕ, ◌<◌, ◌≡◌, refl, sym, ap, ◌∙◌, ◌≢◌, inl, inr, true, false, Option, none, some, arith, nat_eq,
  option_eq, any_sound, Bool-cases, Option-cases,
}
use django_auth_with_scoped.World.{Obj, HasDistinctContentTypes, HasSoundReferences}
use django_auth_with_scoped.Registry
use django_auth_with_scoped.Models.{Role, Assignment, Granted}
use django_auth_with_scoped.Config.{Env}
use django_auth_with_scoped.Engine.Scope.{
  node, resolve_anchor, parent_of, iter_ancestors, found_or_none, assignment_scope_or_none,
  is_owner, owner_above, role_assignable, assignment_scope_is_valid, root_shape_is_valid,
  assignment_is_valid, covers,
}
use django_auth_with_scoped.Engine.Scope.Ancestors.{
  HasFiniteDepth, IsAncestor, itself, above, IsAncestor-trans, iter_ancestors_iff,
  IsAncestor-depth-le,
}
use django_auth_with_scoped.Engine.Scope.Coverage.{
  InScope, CoversAnchor, resolve_anchor_node, covers_iff,
}

-- Two objects stand for one database row.
abbrev pub SameRow : Obj → Obj → Type 0
SameRow n m = (n.pk ≡ m.pk) × (n.model ≡ m.model)

-- Objects for one row have parents for one row: a node's parent is read from the database.
abbrev pub HasStableParents : Env → Type 0
HasStableParents env =
    (n m up : Obj)
    → n.pk ≡ m.pk
    → n.model ≡ m.model
    → parent_of env n ≡ some up
    → (up' : Obj) × (parent_of env m ≡ some up') × (up.pk ≡ up'.pk) × (up.model ≡ up'.model)

module _ (env : Env) where
  -- the role's owner is the node or above it
  abbrev pub InOwnerSubtree : Role → Obj → Type 0
  InOwnerSubtree role n =
      (owner : Obj) × IsAncestor env n owner
      × (owner.pk ≡ role.owner_id)
      × (some (env.content_type owner.model) ≡ role.owner_ct_id)

  IsAncestor-SameRow :
      HasStableParents env
      → {n m a : Obj} → IsAncestor env n a
      → SameRow n m
      → (b : Obj) × IsAncestor env m b × (a.pk ≡ b.pk) × (a.model ≡ b.model)
  IsAncestor-SameRow stable {m = m} itself same = (m, itself, same.0, same.1)
  IsAncestor-SameRow stable {m = m} (above {n} {up} e h) same =
      let (up', e', pk, model) = stable n m up same.0 same.1 e in
      let (b, h', bpk, bmodel) = IsAncestor-SameRow stable h (pk, model) in
      (b, above e' h', bpk, bmodel)

  is_owner_sound :
      (role : Role) (n : Obj)
      → is_owner env role n ≡ true
      → (n.pk ≡ role.owner_id) × (some (env.content_type n.model) ≡ role.owner_ct_id)
  unfolding is_owner
  is_owner_sound role n h = ground (
    arith,
    (option_eq {A = ℕ}).same_iff n.pk role.owner_id,
    (option_eq {A = ℕ}).same_iff (some (env.content_type n.model)) role.owner_ct_id,
  )

  owner_above_sound :
      HasFiniteDepth env
      → (role : Role) (name : ℕ) (n : Obj) → owner_above env role name n ≡ true
      → InOwnerSubtree role n
  unfolding owner_above
  owner_above_sound finite role name n h = elim (Option-cases (Registry.level env.hierarchy name)) [
    | inl e ↦ absurd (ground arith)
    | inr (l, e) ↦
        let (owner, m, q) = any_sound (is_owner env role) (iter_ancestors env n) (ground arith) in
        let (pk, ct) = is_owner_sound role owner q in
        (owner, (iter_ancestors_iff env finite n owner).0 m, pk, ct)
  ]

  -- A custom role is assignable only at a node in its owner's subtree, with a level, and so
  -- never at root. It holds where parents lead to smaller depths (HasFiniteDepth).
  pub role_assignable_sound :
      HasFiniteDepth env
      → (role : Role) (o : ℕ) (level : Option ℕ) (scope : Option Obj) → role.owner_id ≡ some o
      → role_assignable env role level scope ≡ true
      → (n : Obj) × (scope ≡ some n) × (level ≢ none) × InOwnerSubtree role n
  unfolding role_assignable
  role_assignable_sound finite role o level none custom h = absurd (ground arith)
  role_assignable_sound finite role o none (some n) custom h = absurd (ground arith)
  role_assignable_sound finite role o (some name) (some n) custom h =
      (n, refl, (λ e. cc), owner_above_sound finite role name n (ground arith))

  -- The role of a valid assignment, if custom, has its owner above the assignment's scope node.
  pub assignment_is_valid_sound :
      HasFiniteDepth env
      → (g : Granted) (o : ℕ) → g.role.owner_id ≡ some o
      → assignment_is_valid env g ≡ true
      → (n : Obj) × (assignment_scope_or_none env g.assignment ≡ some n)
        × (g.level ≢ none)
        × InOwnerSubtree g.role n
  unfolding assignment_is_valid
  assignment_is_valid_sound finite g o custom h =
      role_assignable_sound finite g.role o g.level (assignment_scope_or_none env g.assignment)
        custom (ground arith)

  scope_found :
      HasSoundReferences env.world
      → (a : Assignment) (n : Obj) → assignment_scope_or_none env a ≡ some n
      → (some (env.content_type n.model) ≡ a.scope_ct_id) × (n.pk ≡ a.scope_id)
  unfolding assignment_scope_or_none found_or_none
  scope_found sound a n h = ground (arith, sound a.scope_ct_id a.scope_id n)

  -- A valid assignment with no scope has no content type either.
  pub valid_root_shape :
      (g : Granted) → assignment_is_valid env g ≡ true → g.scope_id ≡ none → g.scope_ct_id ≡ none
  unfolding assignment_is_valid assignment_scope_is_valid root_shape_is_valid
  valid_root_shape g h root = ground arith

  InScope-owner :
      HasDistinctContentTypes env.world
      → HasStableParents env
      → (a : Assignment) (role : Role) (scope n : Obj)
      → (some (env.content_type scope.model) ≡ a.scope_ct_id) × (scope.pk ≡ a.scope_id)
      → InOwnerSubtree role scope
      → InScope env a n
      → InOwnerSubtree role n
  InScope-owner distinct stable a role scope n found owned inside =
      let (owner, up, pk, ct) = owned in
      let (top, above_n, top_pk, top_ct) = inside in
      let same_model : scope.model ≡ top.model = distinct scope.model top.model (ground arith) in
      let (b, up', bpk, bmodel) = IsAncestor-SameRow stable up (found.1 ∙ sym top_pk, same_model) in
      (
        b,
        IsAncestor-trans above_n up',
        sym bpk ∙ pk,
        ap (λ m. some (env.content_type m)) (sym bmodel) ∙ ct,
      )

  -- A custom role never acts outside its owner's subtree: where an assignment of it covers an
  -- object with an anchor node, the role's owner is that node or above it. It holds where
  -- parents lead to smaller depths, references are sound, content types tell models apart, and
  -- the parent is a matter of the row (HasFiniteDepth, HasSoundReferences,
  -- HasDistinctContentTypes, HasStableParents).
  pub covers_tenant :
      HasFiniteDepth env
      → HasSoundReferences env.world
      → HasDistinctContentTypes env.world
      → HasStableParents env
      → (g : Granted) (o : ℕ) (obj n : Obj) → g.role.owner_id ≡ some o
      → resolve_anchor env obj ≡ node n
      → covers env g obj ≡ true
      → InOwnerSubtree g.role n
  covers_tenant finite sound distinct stable g o obj n custom anchor h =
      let (valid, c) = (covers_iff env finite g obj).0 h in
      let (scope, fetched, _, owned) = assignment_is_valid_sound finite g o custom valid in
      let found = scope_found sound g.assignment scope fetched in
      let c' : CoversAnchor env g.assignment (node n) = rw anchor at c in
      elim c' [
        | inl root ↦ let no_ct = valid_root_shape g valid root in absurd (ground arith)
        | inr inside ↦ InScope-owner distinct stable g.assignment g.role scope n found owned inside
      ]

  -- Coverage is never upward: an assignment with a scope that its reference finds covers no node
  -- at a smaller depth than that scope, where parents lead to smaller depths, references are
  -- sound, content types tell models apart, and depth is a matter of the row.
  pub covers_not_upward :
      HasFiniteDepth env
      → HasSoundReferences env.world
      → HasDistinctContentTypes env.world
      → ((n m : Obj) → n.pk ≡ m.pk → n.model ≡ m.model → env.depth n ≡ env.depth m)
      → (g : Granted) (scope n : Obj) → assignment_scope_or_none env g.assignment ≡ some scope
      → Registry.is_node_model env.world env.hierarchy n.model ≡ true
      → g.scope_id ≢ none
      → env.depth n < env.depth scope
      → covers env g n ≡ false
  covers_not_upward finite sound distinct level_depth g scope n fetched isn scoped lt =
      elim (Bool-cases (covers env g n)) [
        | inr e ↦ e
        | inl h ↦
            let (ct, pk) = scope_found sound g.assignment scope fetched in
            let c : CoversAnchor env g.assignment (node n) =
              rw (resolve_anchor_node env n isn) at (((covers_iff env finite g n).0 h).1) in
            elim c [
              | inl root ↦ absurd (scoped root)
              | inr (top, up, top_pk, top_ct) ↦
                  let same : scope.model ≡ top.model =
                    distinct scope.model top.model (ground arith) in
                  absurd (
                    omega (
                      arith,
                      level_depth scope top (pk ∙ sym top_pk) same,
                      IsAncestor-depth-le env finite up,
                    ))
            ]
      ]
