-- ===== src/Exec.antt =====
-- Methods that change the tables and may raise: the exceptions of scoped_access/exceptions.py with
-- those of Python and Django that the code meets, and an action of state and result. What was
-- changed before a raise stays changed, but for the tables, which a transaction rolls back.
use django_auth_with_scoped.Base.{Bool, true, false}

pub data Error : Type 0 where
  invalid_transition assignment_deletion role_management role_assignment role_ownership : Error
  assignment_scope assignment_management direct_role direct_role_permission : Error
  direct_assignment type_error value_error does_not_exist integrity_error receiver_error
        protected_error :
      Error

pub data Result {ℓ} (A : Type ℓ) : Type ℓ where
  ok : A → Result A
  err : Error → Result A

abbrev pub Exec : Type 0 → Type 0 → Type 0
Exec S A = S → Result A × S

module _ {S : Type 0} where
  abbrev pub pure : {A : Type 0} → A → Exec S A
  pure a s = (ok a, s)

  abbrev pub raise : {A : Type 0} → Error → Exec S A
  raise e s = (err e, s)

  -- `if not condition: raise`
  abbrev pub ensure : Bool → Error → Exec S (Unit {0})
  ensure true e s = (ok tt, s)
  ensure false e s = (err e, s)

  -- the rest of a block, after a part that returned or raised
  abbrev pub continue : {A B : Type 0} → (A → Exec S B) → Result A → S → Result B × S
  continue f (ok a) s = f a s
  continue f (err e) s = (err e, s)

  infixl 5 ◌>>=◌ ◌>>◌
  abbrev pub ◌>>=◌ : {A B : Type 0} → Exec S A → (A → Exec S B) → Exec S B
  ◌>>=◌ m f s = continue f (m s).0 (m s).1

  abbrev pub ◌>>◌ : {A B : Type 0} → Exec S A → Exec S B → Exec S B
  m >> k = m >>= λ _. k
