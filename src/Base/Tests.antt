-- ===== src/Base/Tests.antt =====
-- Boolean tests, the conditional, and equality as an instance argument.
use Prim.Native.Nat.{ℕ, ◌≤◌, ◌<◌, compare, Ordering}
use Prim.Native.String.{String}
use mathlib.Core.Path.{◌≡◌, refl, sym}
use mathlib.Core.Logic.{◌↔◌, ◌⊎◌, inl, inr}
use mathlib.Core.Bool.{Bool, true, false, not, ◌&&◌}
use mathlib.Core.List.{List, [], ◌∷◌}
use mathlib.Core.Option.{Option, none, some}
use native.Mathlib.Omega.{arith}
use text.Mathlib.Text.{◌==◌ as str_eq}
use text.Mathlib.TextEquality.{eq_iff}

abbrev pub ltb : ℕ → ℕ → Bool
ltb a b = elim (compare a b) [ Ordering.lt ↦ true | _ ↦ false ]

abbrev pub leb : ℕ → ℕ → Bool
leb a b = elim (compare a b) [ Ordering.gt ↦ false | _ ↦ true ]

abbrev pub nat_beq : ℕ → ℕ → Bool
nat_beq a b = elim (compare a b) [ Ordering.eq ↦ true | _ ↦ false ]

infix 1 if◌then◌else◌
abbrev pub if◌then◌else◌ {ℓ} : {A : Type ℓ} → Bool → A → A → A
if true then x else y = x
if false then x else y = y

pub ltb_iff : (a b : ℕ) → (ltb a b ≡ true) ↔ (a < b)
ltb_iff a b = ground arith

pub leb_iff : (a b : ℕ) → (leb a b ≡ true) ↔ (a ≤ b)
leb_iff a b = ground arith

pub nat_beq_iff : (a b : ℕ) → (nat_beq a b ≡ true) ↔ (a ≡ b)
nat_beq_iff a b = ground arith

-- types with a Boolean test of equality
pub record HasEq {ℓ} (A : Type ℓ) : Type ℓ where
  pub same : A → A → Bool
  pub same_iff : (x y : A) → (same x y ≡ true) ↔ (x ≡ y)

infix 50 ◌==◌  -- Python's `==`
abbrev pub ◌==◌ {ℓ} : {A : Type ℓ} ⦃e : HasEq A⦄ → A → A → Bool
◌==◌ ⦃e⦄ = e.same

instance abbrev pub nat_eq : HasEq ℕ
nat_eq = record { same = nat_beq; same_iff = nat_beq_iff }

module _ {ℓ} {A : Type ℓ} ⦃e : HasEq A⦄ where
  abbrev pub option_beq : Option A → Option A → Bool
  option_beq none none = true
  option_beq (some a) (some b) = a == b
  option_beq _ _ = false

  pub option_beq_iff : (a b : Option A) → (option_beq a b ≡ true) ↔ (a ≡ b)
  option_beq_iff none none = ground arith
  option_beq_iff none (some b) = ground arith
  option_beq_iff (some a) none = ground arith
  option_beq_iff (some a) (some b) = ground (arith, e.same_iff a b)

instance abbrev pub option_eq {ℓ} : {A : Type ℓ} ⦃e : HasEq A⦄ → HasEq (Option A)
option_eq = record { same = option_beq; same_iff = option_beq_iff }

module _ {ℓ} {A : Type ℓ} ⦃e : HasEq A⦄ where
  abbrev pub list_beq : List A → List A → Bool
  list_beq [] [] = true
  list_beq (a ∷ as') (b ∷ bs) = a == b && list_beq as' bs
  list_beq _ _ = false

  pub list_beq_iff : (xs ys : List A) → (list_beq xs ys ≡ true) ↔ (xs ≡ ys)
  list_beq_iff [] [] = ground arith
  list_beq_iff [] (b ∷ bs) = ground arith
  list_beq_iff (a ∷ as') [] = ground arith
  list_beq_iff (a ∷ as') (b ∷ bs) = ground (arith, e.same_iff a b, list_beq_iff as' bs)

instance abbrev pub list_eq {ℓ} : {A : Type ℓ} ⦃e : HasEq A⦄ → HasEq (List A)
list_eq = record { same = list_beq; same_iff = list_beq_iff }

module _ {ℓ κ} {A : Type ℓ} {B : Type κ} ⦃e : HasEq A⦄ ⦃f : HasEq B⦄ where
  abbrev pub pair_beq : A × B → A × B → Bool
  pair_beq (a, b) (c, d) = a == c && b == d

  pub pair_beq_iff : (p q : A × B) → (pair_beq p q ≡ true) ↔ (p ≡ q)
  pair_beq_iff (a, b) (c, d) = ground (arith, e.same_iff a c, f.same_iff b d)

instance abbrev pub pair_eq {ℓ κ} :
    {A : Type ℓ} {B : Type κ} ⦃e : HasEq A⦄ ⦃f : HasEq B⦄ → HasEq (A × B)
pair_eq = record { same = pair_beq; same_iff = pair_beq_iff }

instance abbrev pub string_eq : HasEq String
string_eq = record { same = str_eq; same_iff = eq_iff }

-- To split on a computed value and keep the equation.
pub Bool-cases : (b : Bool) → (b ≡ true) ⊎ (b ≡ false)
Bool-cases true = inl refl
Bool-cases false = inr refl

pub Option-cases {ℓ} : {A : Type ℓ} (o : Option A) → (o ≡ none) ⊎ ((a : A) × (o ≡ some a))
Option-cases none = inl refl
Option-cases (some a) = inr (a, refl)

pub &&-eq-true : (a b : Bool) → ((a && b) ≡ true) ↔ ((a ≡ true) × (b ≡ true))
&&-eq-true a b = ground arith

abbrev pub is_some {ℓ} : {A : Type ℓ} → Option A → Bool
is_some none = false
is_some (some _) = true

-- `x or default`, for values that are never falsy
abbrev pub get_or {ℓ} : {A : Type ℓ} → Option A → A → A
get_or none d = d
get_or (some a) d = a

-- The shape that the decisions share: nobody who is inactive, every superuser, else a test.
pub guarded_iff :
    (active super b : Bool) {P : Type 0}
    → (active ≡ true → super ≡ false → (b ≡ true) ↔ P)
    → ((if not active then false else if super then true else b) ≡ true)
      ↔ ((active ≡ true) × ((super ≡ true) ⊎ P))
guarded_iff false super b iff = (λ h. cc, λ (e, _). cc)
guarded_iff true true b iff = (λ _. (refl, inl refl), λ _. refl)
guarded_iff true false b iff = (
  λ h. (refl, inr ((iff refl refl).0 h)),
  λ (_, who). elim who [ inl s ↦ cc | inr p ↦ (iff refl refl).1 p ],
)

-- Two tests that hold of the same things are equal.
pub Bool-iff : (a b : Bool) {P : Type 0} → (a ≡ true) ↔ P → (b ≡ true) ↔ P → a ≡ b
Bool-iff true b f g = sym (g.1 (f.0 refl))
Bool-iff false true f g = f.1 (g.0 refl)
Bool-iff false false f g = refl
