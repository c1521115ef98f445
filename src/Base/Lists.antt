-- ===== src/Base/Lists.antt =====
-- Python's `any`, `all`, `in`, comprehensions with `if`, and set union, over lists.
use mathlib.Core.Path.{◌≡◌, refl, sym, ap}
use mathlib.Core.Logic.{inl, inr}
use mathlib.Core.Bool.{Bool, true, false, ◌&&◌, ◌||◌}
use mathlib.Core.List.{List, [], ◌∷◌, Memᴰ}
use mathlib.Core.List.Memᴰ
use mathlib.Core.Option.{Option, none, some}
use native.Mathlib.Omega.{arith}
use Prim.Native.Nat.{ℕ, zero, suc}
use django_auth_with_scoped.Base.Tests.{if◌then◌else◌, HasEq, ◌==◌, Bool-cases}

module _ {ℓ} {A : Type ℓ} where
  abbrev pub length : List A → ℕ
  length [] = 0
  length (x ∷ xs) = suc (length xs)

  -- `next(iter(xs), None)`, `queryset.first()`
  abbrev pub first : List A → Option A
  first [] = none
  first (x ∷ xs) = some x

  -- `any(p(x) for x in xs)`
  unfoldable pub any : (A → Bool) → List A → Bool
  any p [] = false
  any p (x ∷ xs) = p x || any p xs

  -- `all(p(x) for x in xs)`
  unfoldable pub all : (A → Bool) → List A → Bool
  all p [] = true
  all p (x ∷ xs) = p x && all p xs

  -- `[x for x in xs if p(x)]`
  unfoldable pub filter : (A → Bool) → List A → List A
  filter p [] = []
  filter p (x ∷ xs) = let rest = filter p xs in if p x then x ∷ rest else rest

  pub any_sound :
      (p : A → Bool) (xs : List A) → any p xs ≡ true → (x : A) × Memᴰ x xs × (p x ≡ true)
  unfolding any
  any_sound p [] h = ground arith
  any_sound p (x ∷ xs) h = elim (Bool-cases (p x)) [
    | inl e ↦ (x, Memᴰ.head refl, e)
    | inr e ↦ let (y, m, q) = any_sound p xs (rw e at h) in (y, Memᴰ.tail m, q)
  ]

  pub any_complete : (p : A → Bool) {x : A} {xs : List A} → Memᴰ x xs → p x ≡ true → any p xs ≡ true
  unfolding any
  any_complete p (Memᴰ.head e) h = ground arith
  any_complete p (Memᴰ.tail m) h = ground (arith, any_complete p m h)

  pub all_sound : (p : A → Bool) {x : A} {xs : List A} → all p xs ≡ true → Memᴰ x xs → p x ≡ true
  unfolding all
  all_sound p {xs = []} h m = elim m [ ]
  all_sound p {xs = y ∷ xs} h (Memᴰ.head e) = ground arith
  all_sound p {xs = y ∷ xs} h (Memᴰ.tail m) = all_sound p (ground arith) m

  pub mem-filter :
      (p : A → Bool) {x : A} (xs : List A) → Memᴰ x (filter p xs) → Memᴰ x xs × (p x ≡ true)
  unfolding filter
  mem-filter p [] m = elim m [ ]
  mem-filter p (y ∷ xs) m = elim (Bool-cases (p y)) [
    | inl e ↦ elim (Memᴰ.cases_cons (rw (e, if◌then◌else◌) at m)) [
      | inl q ↦ (Memᴰ.head q, rw q e)
      | inr r ↦ let (k, q) = mem-filter p xs r in (Memᴰ.tail k, q)
    ]
    | inr e ↦ let (k, q) = mem-filter p xs (rw (e, if◌then◌else◌) at m) in (Memᴰ.tail k, q)
  ]

  pub filter-mem :
      (p : A → Bool) {x : A} {xs : List A} → Memᴰ x xs → p x ≡ true → Memᴰ x (filter p xs)
  unfolding filter
  filter-mem p {xs = []} m h = elim m [ ]
  filter-mem p {x} {xs = y ∷ xs} (Memᴰ.head e) h =
      let q : p y ≡ true = rw (← e) h in rw (q, if◌then◌else◌) (Memᴰ.head e)
  filter-mem p {xs = y ∷ xs} (Memᴰ.tail m) h = elim (Bool-cases (p y)) [
    | inl e ↦ rw (e, if◌then◌else◌) (Memᴰ.tail (filter-mem p m h))
    | inr e ↦ rw (e, if◌then◌else◌) (filter-mem p m h)
  ]

  pub filter-congr :
      (p q : A → Bool) (xs : List A) → ((x : A) → Memᴰ x xs → p x ≡ q x) → filter p xs ≡ filter q xs
  unfolding filter
  filter-congr p q [] h = refl
  filter-congr p q (x ∷ xs) h =
      ground (arith, h x (Memᴰ.head refl), filter-congr p q xs (λ y m. h y (Memᴰ.tail m)))

-- Python's sets, as lists of which only membership is read.
module _ {ℓ} {A : Type ℓ} ⦃e : HasEq A⦄ where
  -- `a in xs`
  unfoldable pub contains : A → List A → Bool
  contains a [] = false
  contains a (x ∷ xs) = x == a || contains a xs

  -- `xs | ys`, `xs |= ys`
  unfoldable pub union : List A → List A → List A
  union [] ys = ys
  union (x ∷ xs) ys = let rest = union xs ys in if contains x ys then rest else x ∷ rest

  -- `xs <= ys`
  unfoldable pub subset : List A → List A → Bool
  subset xs ys = all (λ x. contains x ys) xs

  pub contains-mem : (a : A) (xs : List A) → contains a xs ≡ true → Memᴰ a xs
  unfolding contains
  contains-mem a [] h = ground arith
  contains-mem a (x ∷ xs) h = elim (Bool-cases (x == a)) [
    | inl q ↦ Memᴰ.head (sym ((e.same_iff x a).0 q))
    | inr q ↦ Memᴰ.tail (contains-mem a xs (rw q at h))
  ]

  pub mem-contains : {a : A} {xs : List A} → Memᴰ a xs → contains a xs ≡ true
  unfolding contains
  mem-contains {a} {xs = x ∷ xs} (Memᴰ.head q) = ground (arith, e.same_iff x a)
  mem-contains (Memᴰ.tail m) = ground (arith, mem-contains m)

  pub contains-union :
      (a : A) (xs ys : List A) → contains a (union xs ys) ≡ (contains a xs || contains a ys)
  unfolding contains union
  contains-union a [] ys = refl
  contains-union a (x ∷ xs) ys = ground (arith, contains-union a xs ys, e.same_iff x a, mem_of_eq x)
    where
      mem_of_eq : (x : A) → x ≡ a → contains x ys ≡ contains a ys
      mem_of_eq x q = ap (λ z. contains z ys) q

  pub subset_sound :
      (a : A) (xs ys : List A) → subset xs ys ≡ true → contains a xs ≡ true → contains a ys ≡ true
  unfolding subset
  subset_sound a xs ys h m = all_sound (λ x. contains x ys) h (contains-mem a xs m)

module _ {ℓ} {A : Type ℓ} where
  abbrev pub get_elem? : List A → ℕ → Option A
  get_elem? [] i = none
  get_elem? (x ∷ xs) zero = some x
  get_elem? (x ∷ xs) (suc i) = get_elem? xs i

  pub get_elem?-mem : (xs : List A) (i : ℕ) {x : A} → get_elem? xs i ≡ some x → Memᴰ x xs
  get_elem?-mem [] i h = ground arith
  get_elem?-mem (y ∷ xs) zero h = Memᴰ.head (ground arith)
  get_elem?-mem (y ∷ xs) (suc i) h = Memᴰ.tail (get_elem?-mem xs i h)

  pub mem-get_elem? : {x : A} {xs : List A} → Memᴰ x xs → (i : ℕ) × (get_elem? xs i ≡ some x)
  mem-get_elem? (Memᴰ.head e) = (0, ground arith)
  mem-get_elem? (Memᴰ.tail m) = let (i, e) = mem-get_elem? m in (suc i, e)
