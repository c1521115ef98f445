-- ===== src/Checks/Messages.antt =====
-- What follows when a part of the system checks (scoped_access/checks.py) has nothing to report.
use mathlib.Core.List.Memᴰ
use django_auth_with_scoped.Base.{
  ℕ, zero, suc, ◌+◌, ◌≤◌, ◌<◌, ◌≡◌, ◌≢◌, refl, ◌∙◌, sym, ap, ◌⊎◌, inl, inr, Bool, true, false, not,
  Option, none, some, List, [], ◌∷◌, ◌++◌, Memᴰ, arith, ◌==◌, HasEq, nat_eq, list_eq, contains,
  mem-contains, get_elem?, get_elem?-mem, Bool-cases, Option-cases, subst,
}
use django_auth_with_scoped.World.{World, Accessor}
use django_auth_with_scoped.Settings.{Entry}
use django_auth_with_scoped.Checks.{
  Message, w001, e003, e006, e007, e008, Walked, bad_part, lands, Apps, distinct, root_indices,
  misplaced_root, when, walk_parts, walk_relation_path, path_errors, level_errors, hierarchy_errors,
  anchor_errors,
}

-- No message but the warning.
abbrev pub HasNoErrors : List Message → Type 0
HasNoErrors ms = (m : Message) → Memᴰ m ms → m ≡ w001

module _ {ℓ} {A : Type ℓ} where
  pub mem-left : {x : A} {xs : List A} (ys : List A) → Memᴰ x xs → Memᴰ x (xs ++ ys)
  mem-left ys (Memᴰ.head e) = Memᴰ.head e
  mem-left ys (Memᴰ.tail m) = Memᴰ.tail (mem-left ys m)

  pub mem-right : {x : A} (xs : List A) {ys : List A} → Memᴰ x ys → Memᴰ x (xs ++ ys)
  mem-right [] m = m
  mem-right (y ∷ xs) m = Memᴰ.tail (mem-right xs m)

pub HasNoErrors-left : (ms ns : List Message) → HasNoErrors (ms ++ ns) → HasNoErrors ms
HasNoErrors-left ms ns h m mem = h m (mem-left ns mem)

pub HasNoErrors-right : (ms ns : List Message) → HasNoErrors (ms ++ ns) → HasNoErrors ns
HasNoErrors-right ms ns h m mem = h m (mem-right ms mem)

pub when_silent : (b : Bool) (m : Message) → HasNoErrors (when b m) → m ≢ w001 → b ≡ false
when_silent true m h differs = absurd (differs (h m (Memᴰ.head refl)))
when_silent false m h differs = refl

Walked-cases :
    (r : Walked) → ((bad : Option ℕ) × (r ≡ bad_part bad)) ⊎ ((last : ℕ) × (r ≡ lands last))
Walked-cases (bad_part bad) = inl (bad, refl)
Walked-cases (lands last) = inr (last, refl)

nat_eq_suc : (k : ℕ) → (suc k == 0) ≡ false
nat_eq_suc k = ground arith

module _ {ℓ} {A : Type ℓ} ⦃e : HasEq A⦄ where
  -- In a list without repeats a value stands at one index.
  pub distinct_sound :
      (xs : List A) (i j : ℕ) {x : A}
      → distinct xs ≡ true
      → get_elem? xs i ≡ some x
      → get_elem? xs j ≡ some x
      → i ≡ j
  unfolding distinct
  distinct_sound [] i j h at at' = ground arith
  distinct_sound (y ∷ ys) zero zero h at at' = refl
  distinct_sound (y ∷ ys) zero (suc j) {x} h at at' =
      let here : y ≡ x = ground arith in
      let there : contains y ys ≡ true =
        ap (λ z. contains z ys) here ∙ mem-contains (get_elem?-mem ys j at') in
      absurd (ground (arith, there))
  distinct_sound (y ∷ ys) (suc i) zero {x} h at at' =
      let here : y ≡ x = ground arith in
      let there : contains y ys ≡ true =
        ap (λ z. contains z ys) here ∙ mem-contains (get_elem?-mem ys i at) in
      absurd (ground (arith, there))
  distinct_sound (y ∷ ys) (suc i) (suc j) h at at' =
      ap suc (distinct_sound ys i j (ground arith) at at')

-- An entry without a model is listed among the roots.
root_indices-mem :
    (c : ℕ) (es : List Entry) (i : ℕ) (e : Entry)
    → get_elem? es i ≡ some e
    → e.model_label ≡ none
    → Memᴰ (c + i) (root_indices c es)
unfolding root_indices
root_indices-mem c [] i e at no_model = ground arith
root_indices-mem c (x ∷ es) zero e at no_model =
    let same : x ≡ e = ground arith in
    let here : x.model_label ≡ none = ap (λ (k : Entry). k.model_label) same ∙ no_model in
    let index : c + 0 ≡ c = omega arith in rw (root_indices, here) (Memᴰ.head index)
root_indices-mem c (x ∷ es) (suc i) e at no_model =
    let rest : Memᴰ (c + suc i) (root_indices (suc c) es) =
      subst (λ k. Memᴰ k (root_indices (suc c) es)) (omega arith)
        (root_indices-mem (suc c) es i e at no_model) in
    elim (Option-cases x.model_label) [
      | inl root ↦ rw (root_indices, root) (Memᴰ.tail rest)
      | inr (label, modeled) ↦ rw (root_indices, modeled) rest
    ]

-- A root is first, where the check of roots is silent.
pub root-first :
    (es : List Entry) (i : ℕ) (e : Entry)
    → misplaced_root (root_indices 0 es) ≡ false
    → get_elem? es i ≡ some e
    → e.model_label ≡ none
    → i ≡ 0
unfolding misplaced_root
root-first es i e h at no_model =
    let mem = root_indices-mem 0 es i e at no_model in
    elim (Bool-cases (root_indices 0 es == [])) [
      | inl empty ↦
          elim (subst (Memᴰ (0 + i)) (((list_eq {A = ℕ}).same_iff (root_indices 0 es) []).0 empty)
            mem) [ ]
      | inr other ↦
          let one : root_indices 0 es ≡ 0 ∷ [] =
            ((list_eq {A = ℕ}).same_iff (root_indices 0 es) (0 ∷ [])).0 (ground arith) in
          elim (Memᴰ.cases_cons (subst (Memᴰ (0 + i)) one mem)) [
            | inl zero_is ↦ omega (arith, zero_is)
            | inr never ↦ elim never [ ]
          ]
    ]

module _ (w : World) (apps : Apps) where
  -- The messages on a level with a model are among those on the hierarchy. Its index among such
  -- levels is not the first where there is one above it.
  pub hierarchy_errors-mem :
      (c : ℕ) (es : List Entry) (j : ℕ) (e : Entry) (label : ℕ)
      → get_elem? es j ≡ some e
      → e.model_label ≡ some label
      → (n : ℕ) × (c ≤ n)
        × ((m : Message)
            → Memᴰ m (level_errors w apps n e label)
            → Memᴰ m (hierarchy_errors w apps c es))
        × ((i : ℕ) (l : Entry) (other : ℕ)
            → get_elem? es i ≡ some l
            → l.model_label ≡ some other
            → i < j
            → c < n)
  unfolding hierarchy_errors
  hierarchy_errors-mem c [] j e label at modeled = ground arith
  hierarchy_errors-mem c (x ∷ es) zero e label at modeled =
      let here : x ≡ e = ground arith in
      let modeled' : x.model_label ≡ some label =
        ap (λ (k : Entry). k.model_label) here ∙ modeled in
      (
        c,
        omega arith,
        λ m mem.
            rw (hierarchy_errors, modeled')
              (mem-left (hierarchy_errors w apps (suc c) es)
                (subst (λ k. Memᴰ m (level_errors w apps c k label)) (sym here) mem)),
        λ i l other at_i _ lt. absurd (omega arith),
      )
  hierarchy_errors-mem c (x ∷ es) (suc j) e label at modeled = elim (Option-cases x.model_label) [
    | inl root ↦
        let (n, le, found, later) = hierarchy_errors-mem c es j e label at modeled in
        (
          n,
          le,
          λ m mem. rw (hierarchy_errors, root) (found m mem),
          λ i l other at_i modeled_i lt. after_root root later i l other at_i modeled_i lt,
        )
    | inr (first, modeled_x) ↦
        let (n, le, found, later) = hierarchy_errors-mem (suc c) es j e label at modeled in
        (
          n,
          omega (arith, le),
          λ m mem.
              rw (hierarchy_errors, modeled_x)
                (mem-right (level_errors w apps c x first) (found m mem)),
          λ i l other at_i modeled_i lt. omega (arith, le),
        )
  ]
    where
      after_root :
          {n : ℕ}
          → x.model_label ≡ none
          → ((i : ℕ) (l : Entry) (other : ℕ)
              → get_elem? es i ≡ some l
              → l.model_label ≡ some other
              → i < j
              → c < n)
          → (i : ℕ) (l : Entry) (other : ℕ) → get_elem? (x ∷ es) i ≡ some l
          → l.model_label ≡ some other
          → i < suc j
          → c < n
      after_root root later zero l other at_i modeled_i lt =
          let here : x ≡ l = ground arith in
          absurd (ground (arith, root, modeled_i, ap (λ (k : Entry). k.model_label) here))
      after_root root later (suc i) l other at_i modeled_i lt =
          later i l other at_i modeled_i (omega arith)

  -- A level with a model that can be loaded and, below another, an accessor; the accessor leads
  -- along relations to a model.
  pub level_errors_silent :
      (n : ℕ) (e : Entry) (label : ℕ)
      → HasNoErrors (level_errors w apps n e label)
      → (model : ℕ) × (apps.find_model label ≡ some model)
        × (0 < n → e.parent ≢ none)
        × ((part : ℕ) (parts : Accessor)
            → e.parent ≡ some (part ∷ parts)
            → (last : ℕ) × (walk_parts w model (part ∷ parts) ≡ lands last))
  unfolding level_errors path_errors walk_relation_path
  level_errors_silent n e label h = elim (Option-cases (apps.find_model label)) [
    | inl missing ↦
        absurd (ground (arith, h (e006 e.level) (rw (level_errors, missing) (Memᴰ.head refl))))
    | inr (model, loads) ↦ (
      model,
      loads,
      λ below no_parent. absurd (
          ground
            (arith, h (e003 e.level) (rw (level_errors, loads, no_parent) (first_only n below)))),
      λ part parts parent. elim (Walked-cases (walk_parts w model (part ∷ parts))) [
        | inr lands_there ↦ lands_there
        | inl (bad, e') ↦ absurd (
            ground (
              arith,
              h (e007 bad (part ∷ parts))
                  (rw (level_errors, loads, parent) (rw (path_errors, e') (Memᴰ.head refl))),
            ))
      ],
    )
  ]
    where
      first_only : (k : ℕ) → 0 < k → Memᴰ (e003 e.level) (when (not (k == 0)) (e003 e.level))
      first_only zero lt = absurd (omega arith)
      first_only (suc k) lt = rw (nat_eq_suc k) (Memᴰ.head refl)

  -- Every anchor leads along relations to a model.
  pub anchor_errors_silent :
      (items : List (ℕ × Accessor)) (model : ℕ) (anchor : Accessor)
      → HasNoErrors (anchor_errors w apps items)
      → Memᴰ (model, anchor) items
      → (last : ℕ) × (walk_relation_path w model anchor ≡ lands last)
  unfolding anchor_errors path_errors
  anchor_errors_silent [] model anchor h m = elim m [ ]
  anchor_errors_silent ((k, path) ∷ items) model anchor h m = elim (Memᴰ.cases_cons m) [
    | inr later ↦
        anchor_errors_silent items model anchor
          (HasNoErrors-right (path_errors w apps k path (λ _. e008 k)) (anchor_errors w apps items)
            h)
          later
    | inl here ↦ elim (Walked-cases (walk_relation_path w model anchor)) [
      | inr lands_there ↦ lands_there
      | inl (bad, e) ↦ absurd (
          ground (
            arith,
            h (e008 k) (
                mem-left (anchor_errors w apps items) (
                  rw
                    (
                      path_errors,
                      ap (λ (p : ℕ × Accessor). walk_relation_path w p.0 p.1) (sym here) ∙ e,
                    )
                    (Memᴰ.head refl))),
          ))
    ]
  ]
