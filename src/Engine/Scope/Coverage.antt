-- ===== src/Engine/Scope/Coverage.antt =====
-- The coverage rule (scoped_access/engine.py, `covers`) against its statement by ancestors.
use django_auth_with_scoped.Base.{
  ◌≡◌, ◌↔◌, ◌⊎◌, inl, inr, true, none, some, arith, nat_eq, option_eq, any_sound, any_complete,
  Bool-cases, ℕ,
}
use django_auth_with_scoped.World.{Obj}
use django_auth_with_scoped.Registry.{is_node_model}
use django_auth_with_scoped.Models.{Assignment, Granted, is_root_scope}
use django_auth_with_scoped.Config.{Env}
use django_auth_with_scoped.Engine.Scope.{
  Anchor, node, global, denied, unregistered, resolve_anchor, iter_ancestors, same_node,
  assignment_is_valid, any_same_node, covers_anchor, covers,
}
use django_auth_with_scoped.Engine.Scope.Ancestors.{
  HasFiniteDepth, IsAncestor, IsAncestor-trans, iter_ancestors_iff,
}

module _ (env : Env) where
  -- the node is the one that the assignment names
  abbrev pub IsScope : Assignment → Obj → Type 0
  IsScope a n = (n.pk ≡ a.scope_id) × (some (env.content_type n.model) ≡ a.scope_ct_id)

  -- the node lies in the subtree of the assignment's scope
  abbrev pub InScope : Assignment → Obj → Type 0
  InScope a n =
      (scope : Obj) × IsAncestor env n scope
      × (scope.pk ≡ a.scope_id)
      × (some (env.content_type scope.model) ≡ a.scope_ct_id)

  -- what the assignment must satisfy to cover an object with this anchor
  abbrev pub CoversAnchor : Assignment → Anchor → Type 0
  CoversAnchor a unregistered = ⊥
  CoversAnchor a global = Unit {0}
  CoversAnchor a denied = a.scope_id ≡ none
  CoversAnchor a (node n) = (a.scope_id ≡ none) ⊎ InScope a n

  pub same_node_iff : (a : Assignment) (n : Obj) → (same_node env a n ≡ true) ↔ IsScope a n
  unfolding same_node
  same_node_iff a n = ground (
    arith,
    (option_eq {A = ℕ}).same_iff n.pk a.scope_id,
    (option_eq {A = ℕ}).same_iff (some (env.content_type n.model)) a.scope_ct_id,
  )

  pub resolve_anchor_node :
      (obj : Obj)
      → is_node_model env.world env.hierarchy obj.model ≡ true
      → resolve_anchor env obj ≡ node obj
  unfolding resolve_anchor
  resolve_anchor_node obj h = rw h

  module _ (finite : HasFiniteDepth env) where
    pub any_same_node_iff :
        (a : Assignment) (n : Obj) → (any_same_node env a n ≡ true) ↔ InScope a n
    unfolding any_same_node
    any_same_node_iff a n = (
      λ h.
          let (scope, m, e) = any_sound (same_node env a) (iter_ancestors env n) h in
          let (pk, ct) = (same_node_iff a scope).0 e in
          (scope, (iter_ancestors_iff env finite n scope).0 m, pk, ct),
      λ (scope, up, pk, ct).
          any_complete (same_node env a) ((iter_ancestors_iff env finite n scope).1 up)
            ((same_node_iff a scope).1 (pk, ct)),
    )

    is_root_scope_iff : (a : Assignment) → (is_root_scope a ≡ true) ↔ (a.scope_id ≡ none)
    is_root_scope_iff a = ground arith

    pub covers_anchor_iff :
        (a : Assignment) (anchor : Anchor)
        → (covers_anchor env a anchor ≡ true) ↔ CoversAnchor a anchor
    unfolding covers_anchor
    covers_anchor_iff a unregistered = ground arith
    covers_anchor_iff a global = ground arith
    covers_anchor_iff a denied = is_root_scope_iff a
    covers_anchor_iff a (node n) = (
      λ h. elim (Bool-cases (is_root_scope a)) [
        | inl root ↦ inl ((is_root_scope_iff a).0 root)
        | inr other ↦ inr ((any_same_node_iff a n).0 (rw other at h))
      ],
      λ h. elim h [
        | inl root ↦ rw root
        | inr inside ↦ ground (arith, (any_same_node_iff a n).1 inside)
      ],
    )

    -- An assignment covers an object exactly when it is valid and the object is global, or has
    -- an anchor node that is the assignment's scope or lies below it, or the assignment is a
    -- root assignment and the object is not unregistered under the strict policy. It holds where
    -- parents lead to smaller depths (HasFiniteDepth).
    pub covers_iff :
        (g : Granted) (obj : Obj)
        → (covers env g obj ≡ true) ↔ (
            (assignment_is_valid env g ≡ true) × CoversAnchor g.assignment (resolve_anchor env obj))
    unfolding covers
    covers_iff g obj = (
      λ h. elim (Bool-cases (assignment_is_valid env g)) [
        | inl valid ↦
            (valid, (covers_anchor_iff g.assignment (resolve_anchor env obj)).0 (rw valid at h))
        | inr not_valid ↦ absurd (ground arith)
      ],
      λ (valid, c). rw valid ((covers_anchor_iff g.assignment (resolve_anchor env obj)).1 c),
    )

    InScope-down : (a : Assignment) {n m : Obj} → IsAncestor env m n → InScope a n → InScope a m
    InScope-down a up (scope, h, pk, ct) = (scope, IsAncestor-trans up h, pk, ct)

    -- Coverage is inclusive downward: an assignment that covers a node covers every node below
    -- it. It holds where parents lead to smaller depths (HasFiniteDepth).
    pub covers_downward :
        (g : Granted) (n m : Obj)
        → is_node_model env.world env.hierarchy n.model ≡ true
        → is_node_model env.world env.hierarchy m.model ≡ true
        → IsAncestor env m n
        → covers env g n ≡ true
        → covers env g m ≡ true
    covers_downward g n m isn ism up h =
        let (valid, c) = (covers_iff g n).0 h in
        (covers_iff g m).1
          (valid, rw (resolve_anchor_node m ism) (lower (rw (resolve_anchor_node n isn) at c)))
      where
        lower : CoversAnchor g.assignment (node n) → CoversAnchor g.assignment (node m)
        lower (inl root) = inl root
        lower (inr inside) = inr (InScope-down g.assignment up inside)
