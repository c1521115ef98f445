-- ===== src/Cache/Validity.antt =====
-- The memo of `_assignment_is_valid` (scoped_access/engine.py) in the store of a request.
use django_auth_with_scoped.Base.{
  ℕ, ◌≡◌, refl, ◌∙◌, sym, ap, inl, inr, Bool, true, false, Option, none, some, List, Memᴰ, arith,
  lookup, put, lookup-put, pop, subst, option_eq, nat_eq, Bool-cases, Option-cases, ◌==◌,
}
use django_auth_with_scoped.Models.{Granted}
use django_auth_with_scoped.Config.{Env}
use django_auth_with_scoped.Engine.Scope.{assignment_is_valid}
use django_auth_with_scoped.Cache.{
  Store, Cache, empty, enter_request, get_store, invalidate_user, invalidate_all, remember_validity,
  cached_assignment_is_valid, pop_user, cleared,
}

module _ (env : Env) (rows : List Granted) where
  -- what a store remembers of the rows is so
  abbrev pub IsRemembered : Store → Type 0
  IsRemembered s =
      (g : Granted) (valid : Bool)
      → Memᴰ g rows
      → lookup g.assignment.pk s.validity ≡ some valid
      → assignment_is_valid env g ≡ valid

  -- unless a transaction has shut the store off, what it remembers is so
  abbrev pub HasFreshMemo : Cache → Type 0
  HasFreshMemo c = c.dirty ≡ false → (s : Store) → c.store ≡ some s → IsRemembered s

  -- two rows with one key are one row
  abbrev pub HasDistinctRows : Type 0
  HasDistinctRows =
      (g k : Granted) → Memᴰ g rows → Memᴰ k rows → g.assignment.pk ≡ k.assignment.pk → g ≡ k

  remember-fresh :
      (g : Granted) (s : Store)
      → HasDistinctRows
      → Memᴰ g rows
      → IsRemembered s
      → IsRemembered
          (record s { validity = put g.assignment.pk (assignment_is_valid env g) s.validity })
  remember-fresh g s distinct mem fresh k valid mem_k found =
      elim (Bool-cases (g.assignment.pk == k.assignment.pk)) [
        | inl same ↦
            let is_g : g ≡ k =
              distinct g k mem mem_k
                (((option_eq {A = ℕ}).same_iff g.assignment.pk k.assignment.pk).0 same) in
            ap (assignment_is_valid env) (sym is_g)
            ∙ ground (
              arith,
              same,
              found,
              lookup-put g.assignment.pk k.assignment.pk (assignment_is_valid env g) s.validity,
            )
        | inr other ↦ fresh k valid mem_k (
            ground (
              arith,
              other,
              found,
              lookup-put g.assignment.pk k.assignment.pk (assignment_is_valid env g) s.validity,
            ))
      ]

  -- what a read of the memo answers, and what it leaves
  abbrev pub AnswersFresh : Granted → Bool × Cache → Type 0
  AnswersFresh g (valid, after) = (valid ≡ assignment_is_valid env g) × HasFreshMemo after

  -- caches with such a store, without a store, with an empty store, and shut off
  with_store :
      (s : Store) (dirty : Bool)
      → IsRemembered s
      → HasFreshMemo (record { store = some s; dirty = dirty })
  with_store s dirty fresh clean t is =
      let same : s ≡ t = ground arith in subst IsRemembered same fresh

  no_store : (dirty : Bool) → HasFreshMemo (record { store = none; dirty = dirty })
  no_store dirty clean t is = absurd (ground arith)

  shut_off : (store : Option Store) → HasFreshMemo (record { store = store; dirty = true })
  shut_off store clean t is = absurd (ground arith)

  empty-IsRemembered : IsRemembered empty
  unfolding lookup
  empty-IsRemembered g valid mem found = absurd (ground arith)

  cleared-fresh :
      (store : Option Store) → HasFreshMemo (record { store = cleared store; dirty = false })
  cleared-fresh none = no_store false
  cleared-fresh (some s) = with_store empty false empty-IsRemembered

  remember_validity-fresh :
      (g : Granted) (s : Store)
      → HasDistinctRows
      → Memᴰ g rows
      → IsRemembered s
      → AnswersFresh g (remember_validity env g (some s) (record { store = some s; dirty = false }))
  unfolding remember_validity
  remember_validity-fresh g s distinct mem fresh =
      elim (Option-cases (lookup g.assignment.pk s.validity)) [
        | inr (valid, found) ↦
            rw (remember_validity, found) (sym (fresh g valid mem found), with_store s false fresh)
        | inl missing ↦
            rw (remember_validity, missing)
              (
                refl,
                with_store
                    (record s {
                      validity = put g.assignment.pk (assignment_is_valid env g) s.validity;
                    })
                    false (remember-fresh g s distinct mem fresh),
              )
      ]

  read_parts :
      (in_atomic_block dirty : Bool) (store : Option Store) (g : Granted)
      → HasDistinctRows
      → Memᴰ g rows
      → HasFreshMemo (record { store = store; dirty = dirty })
      → AnswersFresh g (
          cached_assignment_is_valid env in_atomic_block g
            (record { store = store; dirty = dirty }))
  unfolding cached_assignment_is_valid get_store remember_validity
  read_parts true true store g distinct mem fresh = (refl, shut_off store)
  read_parts false true none g distinct mem fresh = (refl, no_store false)
  read_parts false true (some s) g distinct mem fresh =
      remember_validity-fresh g empty distinct mem empty-IsRemembered
  read_parts in_atomic_block false none g distinct mem fresh = (refl, no_store false)
  read_parts in_atomic_block false (some s) g distinct mem fresh =
      remember_validity-fresh g s distinct mem (fresh refl s refl)

  user_parts :
      (in_atomic_block dirty : Bool) (store : Option Store) (user : ℕ)
      → HasFreshMemo (record { store = store; dirty = dirty })
      → HasFreshMemo
          (invalidate_user in_atomic_block user (record { store = store; dirty = dirty }))
  unfolding invalidate_user
  user_parts true dirty store user fresh = shut_off (pop_user user store)
  user_parts false true store user fresh = shut_off (pop_user user store)
  user_parts false false none user fresh = no_store false
  user_parts false false (some s) user fresh =
      with_store (record s { loaded = pop user s.loaded }) false (fresh refl s refl)

  all_parts :
      (in_atomic_block dirty : Bool) (store : Option Store)
      → HasFreshMemo (invalidate_all in_atomic_block (record { store = store; dirty = dirty }))
  unfolding invalidate_all
  all_parts true dirty store = shut_off (cleared store)
  all_parts false true store = shut_off (cleared store)
  all_parts false false store = cleared-fresh store

-- Validity that is remembered within a request is what the tables say. A request begins with a memo
-- that is so of any rows. Where what is remembered of the rows is so, unless a transaction has shut
-- the store off, and no two rows have one key, `_assignment_is_valid` gives with its memo what it
-- gives without, and leaves such a memo; so does `invalidate_user` of any user, which keeps what is
-- remembered. After `invalidate_all` the memo is so of any other rows in any other surroundings,
-- whatever was remembered before. Each holds inside a transaction and outside.
pub cached_assignment_is_valid_lem :
    (env : Env) (rows : List Granted) (in_atomic_block : Bool) (g : Granted) (c : Cache) (user : ℕ)
    → HasDistinctRows env rows
    → Memᴰ g rows
    → HasFreshMemo env rows c
    → HasFreshMemo env rows (enter_request (record { store = none; dirty = false }))
      × AnswersFresh env rows g (cached_assignment_is_valid env in_atomic_block g c)
      × HasFreshMemo env rows (invalidate_user in_atomic_block user c)
      × ((other : Env) (changed : List Granted)
        → HasFreshMemo other changed (invalidate_all in_atomic_block c))
unfolding enter_request
cached_assignment_is_valid_lem env rows in_atomic_block g c user distinct mem fresh = (
  with_store env rows empty false (empty-IsRemembered env rows),
  read_parts env rows in_atomic_block c.dirty c.store g distinct mem fresh,
  user_parts env rows in_atomic_block c.dirty c.store user fresh,
  λ other changed. all_parts other changed in_atomic_block c.dirty c.store,
)
