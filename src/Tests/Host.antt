-- ===== src/Tests/Host.antt =====
-- The small deployment meets what the theorems on filters ask of a host.
use django_auth_with_scoped.Base.{
  ℕ, zero, suc, ◌-◌, ◌≡◌, refl, sym, ap, ◌∙◌, subst, inl, inr, true, false, ◌⊎◌, some, List, [],
  ◌∷◌, Memᴰ, arith, if◌then◌else◌, nat_beq, nat_eq, option_eq, ◌&&◌, get_elem?, Bool-cases, filter,
  lookup,
}
use django_auth_with_scoped.World.{Obj, HasTypedRows, HasUniqueKeys, HasTypedRelations}
use django_auth_with_scoped.Registry
use django_auth_with_scoped.Registry.{Level, is_root, model}
use django_auth_with_scoped.Engine.Scope.{parent_of, follow_parts}
use django_auth_with_scoped.Engine.Filters.Paths.{IsHost, IsChained, IsLayered, HasParents}
use django_auth_with_scoped.Engine.Visibility.{related}
use django_auth_with_scoped.Engine.Visibility.Anchored.{HasValidAnchors}
use django_auth_with_scoped.Tests.{
  org, other_org, clinic, other_clinic, note, org_of, rows_of, world, root_level, org_level,
  clinic_level, hierarchy, env, parent_of_lem, org_of-model, finite_depth, sound_references,
  distinct_content_types,
}

no_rows_lem : (m : ℕ) → rows_of (suc (suc (suc m))) ≡ []
no_rows_lem m = ground (
  arith,
  nat_eq.same_iff (suc (suc (suc m))) 0,
  nat_eq.same_iff (suc (suc (suc m))) 1,
  nat_eq.same_iff (suc (suc (suc m))) 2,
)

typed_rows : HasTypedRows world
typed_rows zero row (Memᴰ.head e) = ap (λ (o : Obj). o.model) e
typed_rows zero row (Memᴰ.tail (Memᴰ.head e)) = ap (λ (o : Obj). o.model) e
typed_rows zero row (Memᴰ.tail (Memᴰ.tail k)) = elim k [ ]
typed_rows (suc zero) row (Memᴰ.head e) = ap (λ (o : Obj). o.model) e
typed_rows (suc zero) row (Memᴰ.tail (Memᴰ.head e)) = ap (λ (o : Obj). o.model) e
typed_rows (suc zero) row (Memᴰ.tail (Memᴰ.tail k)) = elim k [ ]
typed_rows (suc (suc zero)) row (Memᴰ.head e) = ap (λ (o : Obj). o.model) e
typed_rows (suc (suc zero)) row (Memᴰ.tail k) = elim k [ ]
typed_rows (suc (suc (suc m))) row k = elim (subst (λ rows. Memᴰ row rows) (no_rows_lem m) k) [ ]

clinic_parent :
    (path : List ℕ) (n up : Obj)
    → some (0 ∷ []) ≡ some path
    → some 1 ≡ some n.model
    → follow_parts env n path ≡ some up
    → (parent_of env n ≡ some up) × (some 0 ≡ some up.model)
unfolding follow_parts
clinic_parent path n up same m f =
    let path_is : path ≡ 0 ∷ [] = cc in
    let up_is : up ≡ org_of n.pk = ground (arith, rw path_is at f) in
    (
      parent_of_lem n ∙ ground (arith, nat_eq.same_iff n.model 1),
      ap some (sym (ap (λ (o : Obj). o.model) up_is ∙ org_of-model n.pk)),
    )

level_parent :
    (r : ℕ) (l : Level) (path : List ℕ) (n up : Obj)
    → get_elem? hierarchy.levels r ≡ some l
    → l.parent ≡ some path
    → model world l ≡ some n.model
    → follow_parts env n path ≡ some up
    → (parent_of env n ≡ some up)
      × (k : Level) × (get_elem? hierarchy.levels (r - 1) ≡ some k)
      × (model world k ≡ some up.model)
unfolding model
level_parent zero l path n up at p m f = absurd (ground arith)
level_parent (suc zero) l path n up at p m f = absurd (ground arith)
level_parent (suc (suc zero)) l path n up at p m f =
    let l_is : clinic_level ≡ l = ground arith in
    let (parent, top) =
      clinic_parent path n up (ap (λ (k : Level). k.parent) l_is ∙ p) (ap (model world) l_is ∙ m)
        f in
    (parent, org_level, refl, top)
level_parent (suc (suc (suc r))) l path n up at p m f = absurd (ground arith)

chained : IsChained env
chained = record { parent = level_parent }

-- the rows of the deployment: the first or the second organization or clinic, or the note
rows_cases :
    (m : ℕ) (row : Obj)
    → Memᴰ row (rows_of m)
    → ((row ≡ org) ⊎ (row ≡ other_org)) ⊎ (((row ≡ clinic) ⊎ (row ≡ other_clinic)) ⊎ (row ≡ note))
rows_cases zero row (Memᴰ.head e) = inl (inl e)
rows_cases zero row (Memᴰ.tail (Memᴰ.head e)) = inl (inr e)
rows_cases zero row (Memᴰ.tail (Memᴰ.tail k)) = elim k [ ]
rows_cases (suc zero) row (Memᴰ.head e) = inr (inl (inl e))
rows_cases (suc zero) row (Memᴰ.tail (Memᴰ.head e)) = inr (inl (inr e))
rows_cases (suc zero) row (Memᴰ.tail (Memᴰ.tail k)) = elim k [ ]
rows_cases (suc (suc zero)) row (Memᴰ.head e) = inr (inr e)
rows_cases (suc (suc zero)) row (Memᴰ.tail k) = elim k [ ]
rows_cases (suc (suc (suc m))) row k = elim (subst (λ rows. Memᴰ row rows) (no_rows_lem m) k) [ ]

unique_keys : HasUniqueKeys world
unique_keys m row other a b same =
    let model : row.model ≡ other.model = typed_rows m row a ∙ sym (typed_rows m other b) in
    ground (arith, rows_cases m row a, rows_cases m other b)

typed_relations : HasTypedRelations world
typed_relations o next part h = elim (Bool-cases (nat_beq o.model 1 && nat_beq part 0)) [
  | inl e ↦
      let up : next ≡ org_of o.pk = ground arith in
      rw e (ap (λ (n : Obj). n.model) up ∙ org_of-model o.pk)
  | inr e ↦ elim (Bool-cases (nat_beq o.model 2 && nat_beq part 1)) [
    | inl e' ↦ let up : next ≡ clinic = ground arith in rw (e, e') (ap (λ (n : Obj). n.model) up)
    | inr e' ↦ rw (e, e') tt
  ]
]

abbrev rank_of : Obj → ℕ
rank_of o = if nat_beq o.model 1 then 2 else if nat_beq o.model 0 then 1 else 0

at_rank :
    (n : Obj) {m : ℕ}
    → n.model ≡ m
    → rank_of n ≡ (if nat_beq m 1 then 2 else if nat_beq m 0 then 1 else 0)
at_rank n same = ap (λ k. if nat_beq k 1 then 2 else if nat_beq k 0 then 1 else 0) same

placed :
    (r : ℕ) (l : Level) (row : Obj)
    → get_elem? hierarchy.levels r ≡ some l
    → Memᴰ row (Registry.queryset world l)
    → rank_of row ≡ r
unfolding Registry.queryset
placed zero l row at mem =
    let l_is : l ≡ root_level = ground arith in
    elim (subst (λ k. Memᴰ row (Registry.queryset world k)) l_is mem) [ ]
placed (suc zero) l row at mem =
    let l_is : l ≡ org_level = ground arith in
    rw (typed_rows 0 row (subst (λ k. Memᴰ row (Registry.queryset world k)) l_is mem)) refl
placed (suc (suc zero)) l row at mem =
    let l_is : l ≡ clinic_level = ground arith in
    rw (typed_rows 1 row (subst (λ k. Memᴰ row (Registry.queryset world k)) l_is mem)) refl
placed (suc (suc (suc r))) l row at mem = absurd (ground arith)

leveled :
    (n : Obj)
    → Registry.is_node_model world hierarchy n.model ≡ true
    → (l : Level) × (get_elem? hierarchy.levels (rank_of n) ≡ some l)
      × (is_root l ≡ false)
      × (model world l ≡ some n.model)
      × (Memᴰ n (rows_of n.model) → Memᴰ n (Registry.queryset world l))
unfolding Registry.is_node_model Registry.levels_for_model filter is_root model Registry.queryset
leveled n h = elim (Bool-cases (nat_beq n.model 0)) [
  | inl e ↦
      let zero_is : n.model ≡ 0 = (nat_eq.same_iff n.model 0).0 e in
      (
        org_level,
        ap (get_elem? hierarchy.levels) (at_rank n zero_is),
        refl,
        ap some (sym zero_is),
        λ m. subst (λ k. Memᴰ n (rows_of k)) zero_is m,
      )
  | inr e ↦ elim (Bool-cases (nat_beq n.model 1)) [
    | inl e' ↦
        let one_is : n.model ≡ 1 = (nat_eq.same_iff n.model 1).0 e' in
        (
          clinic_level,
          ap (get_elem? hierarchy.levels) (at_rank n one_is),
          refl,
          ap some (sym one_is),
          λ m. subst (λ k. Memᴰ n (rows_of k)) one_is m,
        )
    | inr e' ↦ absurd (
        ground (
          arith,
          nat_eq.same_iff 0 n.model,
          nat_eq.same_iff 1 n.model,
          nat_eq.same_iff n.model 0,
          nat_eq.same_iff n.model 1,
        ))
  ]
]

linked :
    (n up : Obj)
    → parent_of env n ≡ some up
    → (l : Level) × (path : List ℕ) × (get_elem? hierarchy.levels (rank_of n) ≡ some l)
      × (l.parent ≡ some path)
      × (follow_parts env n path ≡ some up)
      × (rank_of n ≡ suc (rank_of up))
unfolding follow_parts
linked n up h = elim (Bool-cases (nat_beq n.model 1)) [
  | inr e ↦ absurd (ground (arith, parent_of_lem n))
  | inl e ↦
      let one_is : n.model ≡ 1 = (nat_eq.same_iff n.model 1).0 e in
      let up_is : org_of n.pk ≡ up = ground (arith, parent_of_lem n) in
      let up_model : up.model ≡ 0 = ap (λ (o : Obj). o.model) (sym up_is) ∙ org_of-model n.pk in
      (
        clinic_level,
        0 ∷ [],
        rw one_is refl,
        refl,
        ground (arith, e, up_is),
        rw (one_is, up_model) refl,
      )
]

layers : IsLayered env
layers = record {
  rank_of = rank_of;
  placed = placed;
  leveled = leveled;
  same = λ n m model_is pk_is.
      ap (λ k. if nat_beq k 1 then 2 else if nat_beq k 0 then 1 else 0) model_is;
  linked = linked;
}

pub host : IsHost env
host = record {
  finite_depth = finite_depth;
  sound_references = sound_references;
  distinct_content_types = distinct_content_types;
  typed_rows = typed_rows;
  unique_keys = unique_keys;
  typed_relations = typed_relations;
  chained = chained;
  layers = layers;
}

pub parents : HasParents hierarchy.levels
unfolding is_root
parents i zero l k at at' lt modeled = absurd (omega arith)
parents zero (suc zero) l k at at' lt modeled =
    let l_is : root_level ≡ l = ground arith in absurd (ground (arith, modeled, ap is_root l_is))
parents (suc i) (suc zero) l k at at' lt modeled = absurd (omega arith)
parents i (suc (suc zero)) l k at at' lt modeled =
    let k_is : clinic_level ≡ k = ground arith in
    λ e. absurd (ground (arith, ap (λ (x : Level). x.parent) k_is))
parents i (suc (suc (suc j))) l k at at' lt modeled = absurd (ground arith)

pub valid_anchors : HasValidAnchors env
unfolding Registry.anchor_for lookup related
valid_anchors m anchor h = elim (Bool-cases (nat_beq 2 m)) [
  | inl e ↦
      let path : anchor ≡ 1 ∷ [] = ground arith in
      let two_is : m ≡ 2 = sym ((nat_eq.same_iff 2 m).0 e) in
      (1, [], 1, path, rw (path, two_is) refl)
  | inr e ↦ absurd (ground arith)
]
