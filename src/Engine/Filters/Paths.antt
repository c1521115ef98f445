-- ===== src/Engine/Filters/Paths.antt =====
-- Lookups along accessors (scoped_access/engine.py: `_up_path`) against the walk up the hierarchy.
use mathlib.Core.List.{◌++◌}
use django_auth_with_scoped.Base.{
  ℕ, zero, suc, ◌+◌, ◌-◌, ◌≤◌, ◌<◌, ◌≡◌, refl, ◌∙◌, ap, inl, inr, true, false, none, some, List, [],
  ◌∷◌, Memᴰ, arith, option_eq, nat_eq, get_elem?, Option-cases, subst, ◌≢◌,
}
use django_auth_with_scoped.World.{
  Obj, Accessor, HasSoundReferences, HasDistinctContentTypes, HasTypedRows, HasUniqueKeys,
  HasTypedRelations,
}
use django_auth_with_scoped.Registry
use django_auth_with_scoped.Registry.{Level}
use django_auth_with_scoped.Models.{Granted, is_root_scope}
use django_auth_with_scoped.Config.{Env}
use django_auth_with_scoped.Engine.Scope.{
  follow_parts, parent_of, assignment_scope_or_none, level_holds, node_shape_is_valid,
  assignment_scope_is_valid, assignment_is_valid,
}
use django_auth_with_scoped.Engine.Scope.Ancestors.{HasFiniteDepth, IsAncestor, itself, above}
use django_auth_with_scoped.Engine.Filters.{up_path}

-- Where a level has an accessor, it is the one of its model, and it leads to a row of the model of
-- the level above.
pub record IsChained (env : Env) : Type 0 where
  pub parent :
      (r : ℕ) (l : Level) (path : Accessor) (n up : Obj)
      → get_elem? env.hierarchy.levels r ≡ some l
      → l.parent ≡ some path
      → Registry.model env.world l ≡ some n.model
      → follow_parts env n path ≡ some up
      → (parent_of env n ≡ some up)
        × (k : Level) × (get_elem? env.hierarchy.levels (r - 1) ≡ some k)
        × (Registry.model env.world k ≡ some up.model)

-- Every node is at one level: an instance of a level's model is at a level of that model, a row of
-- a level at its rank, and what is above a node is one level up, where the accessor of the node's
-- level leads.
pub record IsLayered (env : Env) : Type 0 where
  pub rank_of : Obj → ℕ
  pub placed :
      (r : ℕ) (l : Level) (row : Obj)
      → get_elem? env.hierarchy.levels r ≡ some l
      → Memᴰ row (Registry.queryset env.world l)
      → rank_of row ≡ r
  pub leveled :
      (n : Obj)
      → Registry.is_node_model env.world env.hierarchy n.model ≡ true
      → (l : Level) × (get_elem? env.hierarchy.levels (rank_of n) ≡ some l)
        × (Registry.is_root l ≡ false)
        × (Registry.model env.world l ≡ some n.model)
        × (Memᴰ n (env.all_rows n.model) → Memᴰ n (Registry.queryset env.world l))
  pub same : (n m : Obj) → n.model ≡ m.model → n.pk ≡ m.pk → rank_of n ≡ rank_of m
  pub linked :
      (n up : Obj)
      → parent_of env n ≡ some up
      → (l : Level) × (path : Accessor) × (get_elem? env.hierarchy.levels (rank_of n) ≡ some l)
        × (l.parent ≡ some path)
        × (follow_parts env n path ≡ some up)
        × (rank_of n ≡ suc (rank_of up))

-- What the code relies on of a host: the documented behaviour of its models, and that its nodes
-- stand in the levels of the hierarchy.
pub record IsHost (env : Env) : Type 0 where
  pub finite_depth : HasFiniteDepth env
  pub sound_references : HasSoundReferences env.world
  pub distinct_content_types : HasDistinctContentTypes env.world
  pub typed_rows : HasTypedRows env.world
  pub unique_keys : HasUniqueKeys env.world
  pub typed_relations : HasTypedRelations env.world
  pub chained : IsChained env
  pub layers : IsLayered env

-- Every level below one with a model has an accessor to its parent (the check E003).
abbrev pub HasParents : List Level → Type 0
HasParents levels =
    (i j : ℕ) (l k : Level)
    → get_elem? levels i ≡ some l
    → get_elem? levels j ≡ some k
    → i < j
    → Registry.is_root l ≡ false
    → k.parent ≢ none

up_path-suc :
    (levels : List Level) (from count : ℕ) (l : Level) {parts more : Accessor}
    → get_elem? levels from ≡ some l
    → l.parent ≡ some parts
    → up_path levels (from - 1) count ≡ some more
    → up_path levels from (suc count) ≡ some (parts ++ more)
unfolding up_path
up_path-suc levels from count l at accessor rest = rw (up_path, at, accessor, rest) refl

module _ (env : Env) where
  pub follow_parts_split :
      (path more : Accessor) (n top : Obj)
      → follow_parts env n (path ++ more) ≡ some top
      → (mid : Obj) × (follow_parts env n path ≡ some mid) × (follow_parts env mid more ≡ some top)
  unfolding follow_parts
  follow_parts_split [] more n top h = (n, refl, h)
  follow_parts_split (x ∷ path) more n top h = elim (Option-cases (env.getattr n x)) [
    | inl e ↦ absurd (ground arith)
    | inr (next, e) ↦
        let (mid, a, b) = follow_parts_split path more next top (rw (e, follow_parts) at h) in
        (mid, rw (e, follow_parts) a, b)
  ]

  pub follow_parts-append :
      (path more : Accessor) (n mid : Obj)
      → follow_parts env n path ≡ some mid
      → follow_parts env n (path ++ more) ≡ follow_parts env mid more
  unfolding follow_parts
  follow_parts-append [] more n mid h =
      let same : n ≡ mid = ground arith in ap (λ o. follow_parts env o more) same
  follow_parts-append (x ∷ path) more n mid h = elim (Option-cases (env.getattr n x)) [
    | inl e ↦ absurd (ground arith)
    | inr (next, e) ↦
        rw (e, follow_parts) (follow_parts-append path more next mid (rw (e, follow_parts) at h))
  ]

  -- Climbing from a row of a level by the accessors of the levels ends at an ancestor.
  pub climb :
      IsChained env
      → (count from : ℕ) (path : Accessor) (l : Level) (n top : Obj)
      → up_path env.hierarchy.levels from count ≡ some path
      → get_elem? env.hierarchy.levels from ≡ some l
      → Registry.model env.world l ≡ some n.model
      → follow_parts env n path ≡ some top
      → IsAncestor env n top
        × (k : Level) × (get_elem? env.hierarchy.levels (from - count) ≡ some k)
        × (Registry.model env.world k ≡ some top.model)
  unfolding up_path follow_parts
  climb chained zero from path l n top h at model f =
      let stay : path ≡ [] = ground arith in
      let same : n ≡ top = ground (arith, rw stay at f) in
      (
        subst (IsAncestor env n) same itself,
        l,
        ap (get_elem? env.hierarchy.levels) (omega arith) ∙ at,
        model ∙ ap (λ (o : Obj). some o.model) same,
      )
  climb chained (suc count) from path l n top h at model f = elim (Option-cases l.parent) [
    | inl e ↦ absurd (ground arith)
    | inr (parts, e) ↦ elim (Option-cases (up_path env.hierarchy.levels (from - 1) count)) [
      | inl e' ↦ absurd (ground arith)
      | inr (more, e') ↦
          let split : path ≡ parts ++ more = ground arith in
          let (mid, first, last) = follow_parts_split parts more n top (rw split at f) in
          let (parent, k, at', model') = chained.parent from l parts n mid at e model first in
          let (up, j, at'', model'') =
            climb chained count (from - 1) more k mid top e' at' model' last in
          (above parent up, j, ap (get_elem? env.hierarchy.levels) (omega arith) ∙ at'', model'')
    ]
  ]

  -- From a node an ancestor is reached by the accessors of the levels between them.
  pub ascend :
      (layers : IsLayered env) {n top : Obj}
      → IsAncestor env n top
      → (layers.rank_of top ≤ layers.rank_of n)
        × (path : Accessor) × (up_path env.hierarchy.levels
              (layers.rank_of n)
              (layers.rank_of n - layers.rank_of top)
            ≡ some path)
        × (follow_parts env n path ≡ some top)
  unfolding up_path follow_parts
  ascend layers (itself {n}) =
      let none_left : layers.rank_of n - layers.rank_of n ≡ 0 = omega arith in
      (omega arith, [], ap (up_path env.hierarchy.levels (layers.rank_of n)) none_left, refl)
  ascend layers (above {n} {up} {a} parent h) =
      let (l, path, at, accessor, follows, deeper) = layers.linked n up parent in
      let (le, more, climbs, ends) = ascend layers h in
      let count : layers.rank_of n - layers.rank_of a ≡ suc (layers.rank_of up - layers.rank_of a) =
        omega (arith, le, deeper) in
      let before : layers.rank_of n - 1 ≡ layers.rank_of up = omega (arith, deeper) in
      let climbs' : up_path env.hierarchy.levels (layers.rank_of n - 1)
            (layers.rank_of up - layers.rank_of a)
          ≡ some more =
        ap (λ r. up_path env.hierarchy.levels r (layers.rank_of up - layers.rank_of a)) before
        ∙ climbs in
      (
        omega (arith, le, deeper),
        path ++ more,
        ap (up_path env.hierarchy.levels (layers.rank_of n)) count
            ∙ up_path-suc _ (layers.rank_of n) (layers.rank_of up - layers.rank_of a) l at accessor
                climbs',
        follow_parts-append path more n up follows ∙ ends,
      )

  -- With an accessor at every level below a modelled one, every lookup up to a modelled level can
  -- be written.
  pub up_path-total :
      HasParents env.hierarchy.levels
      → (count from to : ℕ) (l k : Level) → to + count ≡ from
      → get_elem? env.hierarchy.levels to ≡ some l
      → Registry.is_root l ≡ false
      → get_elem? env.hierarchy.levels from ≡ some k
      → (path : Accessor) × (up_path env.hierarchy.levels from count ≡ some path)
  unfolding up_path
  up_path-total parents zero from to l k e at modeled at' = ([], refl)
  up_path-total parents (suc count) from to l k e at modeled at' = elim (Option-cases k.parent) [
    | inl no_parent ↦ absurd (parents to from l k at at' (omega (arith, e)) modeled no_parent)
    | inr (parts, p) ↦
        let (k', between) =
          get_elem?-below env.hierarchy.levels (from - 1) from k (omega arith) at' in
        let (more, rest) =
          up_path-total parents count (from - 1) to l k' (omega (arith, e)) at modeled between in
        (parts ++ more, up_path-suc _ from count k at' p rest)
  ]
    where
      get_elem?-below :
          (ls : List Level) (i j : ℕ) (k : Level)
          → i ≤ j
          → get_elem? ls j ≡ some k
          → (k' : Level) × (get_elem? ls i ≡ some k')
      get_elem?-below [] i j k le h = absurd (ground arith)
      get_elem?-below (x ∷ xs) zero j k le h = (x, refl)
      get_elem?-below (x ∷ xs) (suc i) zero k le h = absurd (omega arith)
      get_elem?-below (x ∷ xs) (suc i) (suc j) k le h = get_elem?-below xs i j k (omega arith) h

  -- The scope of a valid assignment, with its level.
  pub valid_scope :
      (g : Granted)
      → assignment_is_valid env g ≡ true
      → is_root_scope g.assignment ≡ false
      → (scope : Obj) × (name : ℕ) × (l : Level) × (assignment_scope_or_none env g.assignment
          ≡ some scope)
        × (g.level ≡ some name)
        × (Registry.level env.hierarchy name ≡ some l)
        × (Registry.model env.world l ≡ some scope.model)
        × (Registry.is_root l ≡ false)
        × (Registry.has_row env.world l scope.pk ≡ true)
  unfolding assignment_is_valid assignment_scope_is_valid node_shape_is_valid level_holds
  valid_scope g h other = elim (Option-cases (assignment_scope_or_none env g.assignment)) [
    | inl e ↦ absurd (ground arith)
    | inr (scope, e) ↦ elim (Option-cases g.level) [
      | inl e' ↦ absurd (ground arith)
      | inr (name, e') ↦ elim (Option-cases (Registry.level env.hierarchy name)) [
        | inl e'' ↦ absurd (ground arith)
        | inr (l, e'') ↦ (
          scope,
          name,
          l,
          e,
          e',
          e'',
          ground
              (arith, (option_eq {A = ℕ}).same_iff (Registry.model env.world l) (some scope.model)),
          ground arith,
          ground arith,
        )
      ]
    ]
  ]
