-- ===== src/Cache.antt =====
-- scoped_access/cache.py: the store that lives for one request, and the flag that shuts it off
-- inside a transaction which has changed something.
pub mod Coherence
pub mod Course
pub mod Validity
use django_auth_with_scoped.Base.{
  ℕ, Bool, true, false, not, ◌&&◌, Option, none, some, List, [], ◌∷◌, if◌then◌else◌, nat_eq,
  option_eq, ◌==◌, is_some, filter, Dict, lookup, put, pop, leb, ltb,
}
use django_auth_with_scoped.Models.{
  User, Assignment, Granted, Db, active, status_eq, select_related,
}
use django_auth_with_scoped.Config.{Env}
use django_auth_with_scoped.Engine.Scope.{assignment_is_valid}
use django_auth_with_scoped.Engine.Decision.{fetch_effective}

-- The dict of one request: under `("assignments", user)` a user's loaded assignments, and under
-- `("assignment_valid", label, pk)` whether an assignment is valid.
pub record Store : Type 0 where
  pub loaded : Dict ℕ (List Granted)
  pub validity : Dict (Option ℕ) Bool

abbrev pub empty : Store
empty = record { loaded = []; validity = [] }

-- the two context variables, `_store` and `_transaction_dirty`
pub record Cache : Type 0 where
  pub store : Option Store
  pub dirty : Bool

abbrev pub cleared : Option Store → Option Store
cleared none = none
cleared (some _) = some empty

-- `get_store`; `in_atomic_block` is the connection's
unfoldable pub get_store : Bool → Cache → Option Store × Cache
get_store in_atomic_block c =
    if c.dirty
    then (if in_atomic_block
        then (none, c)
        else (cleared c.store, record { store = cleared c.store; dirty = false }))
    else (c.store, c)

-- `_mark_transaction_dirty`
unfoldable pub mark_transaction_dirty : Bool → Cache → Cache
mark_transaction_dirty in_atomic_block c = if in_atomic_block then record c { dirty = true } else c

abbrev pub pop_user : ℕ → Option Store → Option Store
pop_user user none = none
pop_user user (some s) = some (record s { loaded = pop user s.loaded })

unfoldable pub invalidate_user : Bool → ℕ → Cache → Cache
unfolding mark_transaction_dirty
invalidate_user in_atomic_block user c =
    let c' = mark_transaction_dirty in_atomic_block c in
    record c' { store = pop_user user c'.store }

unfoldable pub invalidate_all : Bool → Cache → Cache
unfolding mark_transaction_dirty
invalidate_all in_atomic_block c =
    let c' = mark_transaction_dirty in_atomic_block c in record c' { store = cleared c'.store }

-- `request_cache`: what is active inside the block, and what comes back when it ends
unfoldable pub enter_request : Cache → Cache
enter_request c = elim c.store [ some _ ↦ c | none ↦ record { store = some empty; dirty = false } ]

unfoldable pub leave_request : Cache → Cache → Cache
leave_request outer inner = elim outer.store [ some _ ↦ inner | none ↦ outer ]

-- The rows that `effective_assignments` loads into the store: the user's active ones, whatever
-- their window.
unfoldable pub load : Db → ℕ → List Granted
load db user =
    select_related db (filter (λ a. a.user_id == user && a.status == active) db.assignments)

-- the test of the window, made at every read
unfoldable pub in_window : ℕ → Granted → Bool
in_window now g =
    elim g.valid_from [ none ↦ true | some t ↦ leb t now ]
    && elim g.valid_until [ none ↦ true | some t ↦ ltb now t ]

-- the memo of `effective_assignments`, with the store that `get_store` gave
unfoldable pub read_store : Env → Db → User → Option Store → Cache → List Granted × Cache
read_store env db user none c = (fetch_effective env db user none, c)
read_store env db user (some s) c = elim (lookup user.pk s.loaded) [
  | some rows ↦ (filter (in_window env.now) rows, c)
  | none ↦
      let rows = load db user.pk in
      (
        filter (in_window env.now) rows,
        record c { store = some (record s { loaded = put user.pk rows s.loaded }) },
      )
]

-- `effective_assignments`; a call with an explicit clock goes past the store
unfoldable pub effective_assignments :
    Env → Db → Bool → User → Option ℕ → Cache → List Granted × Cache
unfolding read_store
effective_assignments env db in_atomic_block user (some at) c =
    (fetch_effective env db user (some at), c)
effective_assignments env db in_atomic_block user none c =
    let (store, c') = get_store in_atomic_block c in read_store env db user store c'

-- the memo of `_assignment_is_valid`, with the store that `get_store` gave
unfoldable pub remember_validity : Env → Granted → Option Store → Cache → Bool × Cache
unfolding lookup put
remember_validity env g none c = (assignment_is_valid env g, c)
remember_validity env g (some s) c = elim (lookup g.assignment.pk s.validity) [
  | some valid ↦ (valid, c)
  | none ↦
      let valid = assignment_is_valid env g in
      (
        valid,
        record c { store = some (record s { validity = put g.assignment.pk valid s.validity }) },
      )
]

-- `_assignment_is_valid`, with its memo
unfoldable pub cached_assignment_is_valid : Env → Bool → Granted → Cache → Bool × Cache
cached_assignment_is_valid env in_atomic_block g c =
    let (store, c') = get_store in_atomic_block c in remember_validity env g store c'
