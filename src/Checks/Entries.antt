-- ===== src/Checks/Entries.antt =====
-- Entries of `HIERARCHY`, owner levels and paths (scoped_access/checks.py) against what
-- scoped_access/conf.py and the filters make of them.
use mathlib.Core.List.Memᴰ
use django_auth_with_scoped.Base.{
  ℕ, zero, suc, ◌≡◌, refl, ◌∙◌, sym, ap, inl, inr, not, some, List, [], ◌∷◌, Memᴰ, map, arith, ◌==◌,
  nat_eq, option_eq, contains, contains-mem, get_elem?, Bool-cases, Option-cases, lookup, Dict,
  subst,
}
use django_auth_with_scoped.World.{Accessor, Field-cases}
use django_auth_with_scoped.Registry.{Level}
use django_auth_with_scoped.Config.{Env}
use django_auth_with_scoped.Settings.{RawEntry, Entry, as_entry, as_level, build_levels}
use django_auth_with_scoped.Checks.{e004, when, walk_parts, lands, modeled_names, owner_errors}
use django_auth_with_scoped.Checks.Messages.{
  HasNoErrors, HasNoErrors-left, HasNoErrors-right, when_silent,
}
use django_auth_with_scoped.Engine.Visibility.{related}

-- A level is built from the entry at its index.
pub build_levels-entry :
    (es : List RawEntry) (levels : List Level) (i : ℕ) (l : Level)
    → build_levels es ≡ some levels
    → get_elem? levels i ≡ some l
    → (e : Entry) × (get_elem? (map as_entry es) i ≡ some e)
      × (e.level ≡ some l.name)
      × (e.model_label ≡ l.model_label)
      × (e.parent ≡ l.parent)
unfolding build_levels
build_levels-entry [] levels i l h at = absurd (ground (arith))
build_levels-entry (e ∷ es) levels i l h at = elim (Option-cases (as_entry e).level) [
  | inl missing ↦ absurd (ground arith)
  | inr (name, named) ↦ elim (Option-cases (build_levels es)) [
    | inl broken ↦ absurd (ground arith)
    | inr (rest, built) ↦
        let shape : as_level name (as_entry e) ∷ rest ≡ levels = ground arith in
        at_index name rest named (λ j k at_j. build_levels-entry es rest j k built at_j) i
          (ap (λ ls. get_elem? ls i) shape ∙ at)
  ]
]
  where
    at_index :
        (name : ℕ) (rest : List Level)
        → (as_entry e).level ≡ some name
        → ((j : ℕ) (k : Level)
            → get_elem? rest j ≡ some k
            → (x : Entry) × (get_elem? (map as_entry es) j ≡ some x)
              × (x.level ≡ some k.name)
              × (x.model_label ≡ k.model_label)
              × (x.parent ≡ k.parent))
        → (j : ℕ) → get_elem? (as_level name (as_entry e) ∷ rest) j ≡ some l
        → (x : Entry) × (get_elem? (map as_entry (e ∷ es)) j ≡ some x)
          × (x.level ≡ some l.name)
          × (x.model_label ≡ l.model_label)
          × (x.parent ≡ l.parent)
    at_index name rest named later zero here =
        let same : as_level name (as_entry e) ≡ l = ground arith in
        (
          as_entry e,
          refl,
          named ∙ ap (λ (k : Level). some k.name) same,
          ap (λ (k : Level). k.model_label) same,
          ap (λ (k : Level). k.parent) same,
        )
    at_index name rest named later (suc j) there = later j l there

-- The walk of the checks is the one of the filters.
pub walk-related :
    (env : Env) (model : ℕ) (path : Accessor) (last : ℕ)
    → walk_parts env.world model path ≡ lands last
    → related env model path ≡ some (some last)
unfolding walk_parts related
walk-related env model [] last h = ground arith
walk-related env model (part ∷ parts) last h = elim (Field-cases (env.get_field model part)) [
  | inl missing ↦ absurd (ground arith)
  | inr (inl plain) ↦ absurd (ground arith)
  | inr (inr (m, leads)) ↦
      rw (related, leads) (walk-related env m parts last (rw (walk_parts, leads) at h))
]

pub map-get_elem? {ℓ κ} :
    {A : Type ℓ} {B : Type κ} (f : A → B) (xs : List A) (i : ℕ) {x : A}
    → get_elem? xs i ≡ some x
    → get_elem? (map f xs) i ≡ some (f x)
map-get_elem? f [] i h = absurd (ground arith)
map-get_elem? f (y ∷ xs) zero {x} h = let same : y ≡ x = ground arith in ap (λ z. some (f z)) same
map-get_elem? f (y ∷ xs) (suc i) h = map-get_elem? f xs i h

pub lookup-mem : (m : ℕ) (d : Dict ℕ Accessor) (v : Accessor) → lookup m d ≡ some v → Memᴰ (m, v) d
unfolding lookup
lookup-mem m [] v h = absurd (ground arith)
lookup-mem m ((k, u) ∷ d) v h = elim (Bool-cases (k == m)) [
  | inl e ↦
      let key : m ≡ k = sym ((nat_eq.same_iff k m).0 e) in
      let value : v ≡ u = ground arith in Memᴰ.head (λ i. (key i, value i))
  | inr e ↦ Memᴰ.tail (lookup-mem m d v (ground arith))
]

-- the names of the entries with a model
pub modeled_names-entry :
    (es : List Entry) (names : List ℕ) (name : ℕ)
    → modeled_names es ≡ some names
    → Memᴰ name names
    → (i : ℕ) × (e : Entry) × (label : ℕ) × (get_elem? es i ≡ some e)
      × (e.level ≡ some name)
      × (e.model_label ≡ some label)
unfolding modeled_names
modeled_names-entry [] names name h m =
    let empty : names ≡ [] = ground arith in elim (subst (Memᴰ name) empty m) [ ]
modeled_names-entry (e ∷ es) names name h m = elim (Option-cases e.model_label) [
  | inl root ↦
      let (i, k, label, at, named, modeled) =
        modeled_names-entry es names name (rw (modeled_names, root) at h) m in
      (suc i, k, label, at, named, modeled)
  | inr (label, modeled) ↦ elim (Option-cases e.level) [
    | inl missing ↦ absurd (ground arith)
    | inr (level, named) ↦ elim (Option-cases (modeled_names es)) [
      | inl broken ↦ absurd (ground arith)
      | inr (rest, found) ↦
          let shape : names ≡ level ∷ rest = ground arith in
          elim (Memᴰ.cases_cons (subst (Memᴰ name) shape m)) [
            | inl here ↦ (0, e, label, refl, named ∙ ap some (sym here), modeled)
            | inr later ↦
                let (i, k, other, at, named', modeled') =
                  modeled_names-entry es rest name found later in
                (suc i, k, other, at, named', modeled')
          ]
    ]
  ]
]

-- Owner levels are names of levels with a model.
pub owner_errors_silent :
    (names levels : List ℕ) (name : ℕ)
    → HasNoErrors (owner_errors names levels)
    → Memᴰ name levels
    → Memᴰ name names
unfolding owner_errors
owner_errors_silent names [] name h m = elim m [ ]
owner_errors_silent names (level ∷ levels) name h m = elim (Memᴰ.cases_cons m) [
  | inl here ↦
      let known =
        when_silent (not (contains level names)) (e004 level)
          (HasNoErrors-left (when (not (contains level names)) (e004 level))
            (owner_errors names levels) h)
          (λ e. cc) in
      subst (λ k. Memᴰ k names) (sym here) (contains-mem level names (ground arith))
  | inr later ↦
      owner_errors_silent names levels name
        (HasNoErrors-right (when (not (contains level names)) (e004 level))
          (owner_errors names levels) h)
        later
]
