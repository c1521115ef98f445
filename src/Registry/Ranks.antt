-- ===== src/Registry/Ranks.antt =====
-- Ranks in the hierarchy (scoped_access/registry.py): `rank` is the index of the level.
use django_auth_with_scoped.Base.{
  ℕ, zero, suc, ◌≡◌, refl, ap, ◌∙◌, ◌↔◌, inl, inr, some, List, [], ◌∷◌, arith, nat_eq, get_elem?,
  Bool-cases, Option-cases,
}
use django_auth_with_scoped.Registry.{
  Level, level_beq, level_beq_iff, Hierarchy, by_name, index, level, rank,
}

-- No two levels have one name (the check E001).
abbrev pub HasDistinctNames : Hierarchy → Type 0
HasDistinctNames h =
    (i j : ℕ) (l k : Level)
    → get_elem? h.levels i ≡ some l
    → get_elem? h.levels j ≡ some k
    → l.name ≡ k.name
    → i ≡ j

by_name_sound :
    (ls : List Level) (name : ℕ) (l : Level)
    → by_name ls name ≡ some l
    → (i : ℕ) × (get_elem? ls i ≡ some l) × (l.name ≡ name)
unfolding by_name
by_name_sound [] name l h = ground arith
by_name_sound (k ∷ ks) name l h = elim (Option-cases (by_name ks name)) [
  | inl e ↦ (0, ground arith, ground arith)
  | inr (later, e) ↦ let (i, at, same) = by_name_sound ks name l (ground arith) in (suc i, at, same)
]

by_name_complete :
    (ls : List Level) (i : ℕ) (l : Level)
    → get_elem? ls i ≡ some l
    → (k : Level) × (by_name ls l.name ≡ some k)
unfolding by_name
by_name_complete [] i l h = ground arith
by_name_complete (k ∷ ks) zero l h = elim (Option-cases (by_name ks l.name)) [
  | inr (later, e) ↦ (later, ground arith)
  | inl e ↦
      let same : k ≡ l = ground arith in
      (k, rw e (rw ((nat_eq.same_iff k.name l.name).1 (ap (λ x. x.name) same)) refl))
]
by_name_complete (k ∷ ks) (suc i) l h =
    let (later, e) = by_name_complete ks i l h in (later, ground arith)

index_sound : (ls : List Level) (l : Level) (i : ℕ) → index ls l ≡ some i → get_elem? ls i ≡ some l
unfolding index
index_sound [] l i h = ground arith
index_sound (k ∷ ks) l zero h = ground (arith, level_beq_iff k l)
index_sound (k ∷ ks) l (suc i) h = ground (arith, index_sound ks l i)

index_complete :
    (ls : List Level) (l : Level) (i : ℕ)
    → get_elem? ls i ≡ some l
    → (j : ℕ) × (index ls l ≡ some j)
unfolding index
index_complete [] l i h = ground arith
index_complete (k ∷ ks) l zero h = (0, ground (arith, level_beq_iff k l))
index_complete (k ∷ ks) l (suc i) h = elim (Bool-cases (level_beq k l)) [
  | inl e ↦ (0, ground arith)
  | inr e ↦ let (j, q) = index_complete ks l i h in (suc j, ground arith)
]

-- What `rank` returns is the index in the hierarchy of the level that `level` finds, which has
-- the name asked for; so `rank` raises only `KeyError`.
pub rank_sound :
    (h : Hierarchy) (name i : ℕ)
    → rank h name ≡ some i
    → (l : Level) × (level h name ≡ some l) × (get_elem? h.levels i ≡ some l) × (l.name ≡ name)
unfolding rank level
rank_sound h name i r = elim (Option-cases (by_name h.levels name)) [
  | inl e ↦ ground arith
  | inr (l, e) ↦
      let (_, _, same) = by_name_sound h.levels name l e in
      (l, e, index_sound h.levels l i (ground arith), same)
]

-- A level that `level` finds has a rank.
pub rank-level :
    (h : Hierarchy) (name : ℕ) (l : Level)
    → level h name ≡ some l
    → (i : ℕ) × (rank h name ≡ some i) × (get_elem? h.levels i ≡ some l)
unfolding rank level
rank-level h name l found =
    let (j, at, _) = by_name_sound h.levels name l found in
    let (i, e) = index_complete h.levels l j at in
    (i, rw (rank, found) e, index_sound h.levels l i e)

-- With distinct names, the level at index `i` has the rank `i`.
pub rank_complete :
    (h : Hierarchy)
    → HasDistinctNames h
    → (i : ℕ) (l : Level) → get_elem? h.levels i ≡ some l
    → (level h l.name ≡ some l) × (rank h l.name ≡ some i)
unfolding rank level
rank_complete h distinct i l at =
    let (k, e) = by_name_complete h.levels i l at in
    let (j, at', same) = by_name_sound h.levels l.name k e in
    let (r, q) = index_complete h.levels k j at' in
    let here : r ≡ i = distinct r i k l (index_sound h.levels k r q) at same in
    let there : j ≡ i = distinct j i k l at' at same in
    let same' : k ≡ l = ground arith in (e ∙ ap some same', ground arith)

-- With distinct names, the rank of a name is the index of the one level that has it.
pub rank_iff :
    (h : Hierarchy)
    → HasDistinctNames h
    → (name i : ℕ)
    → (rank h name ≡ some i) ↔ ((l : Level) × (get_elem? h.levels i ≡ some l) × (l.name ≡ name))
rank_iff h distinct name i = (
  λ r. let (l, _, at, same) = rank_sound h name i r in (l, at, same),
  λ (l, at, same). rw same at ((rank_complete h distinct i l at).1),
)
