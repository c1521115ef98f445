-- ===== src/Cache/Coherence.antt =====
-- The request cache (scoped_access/cache.py) never changes an answer: over any course of reads,
-- writes that invalidate, and transactions, what it gives is what the database gives.
use django_auth_with_scoped.Base.{
  ℕ, ◌≡◌, refl, ◌∙◌, ap, ◌≢◌, inl, inr, Bool, true, false, ◌&&◌, Option, none, some, List, [], ◌∷◌,
  arith, nat_eq, ◌==◌, filter, lookup, put, pop, lookup-put, lookup-pop, Option-cases,
}
use django_auth_with_scoped.Models.{
  User, Assignment, Granted, Db, active, status_eq, is_effective, effective, select_related,
}
use django_auth_with_scoped.Config.{Env}
use django_auth_with_scoped.Engine.Decision.{fetch_effective}
use django_auth_with_scoped.Engine.Decision
use django_auth_with_scoped.Cache.{
  Store, empty, Cache, get_store, pop_user, invalidate_user, invalidate_all, load, in_window,
  read_store, effective_assignments,
}

-- the cached rows, filtered by the window at the time of the read, are what a query gives
window_of_load :
    (db : Db) (now user : ℕ) (rows : List Assignment)
    → filter
        (in_window now)
        (select_related db (filter (λ a. a.user_id == user && a.status == active) rows))
      ≡ select_related db (filter (is_effective now) (filter (λ a. a.user_id == user) rows))
unfolding filter select_related in_window is_effective
window_of_load db now user [] = refl
window_of_load db now user (a ∷ rows) = ground (arith, window_of_load db now user rows)

-- Unless a transaction has switched the store off, every entry is what a query would load.
pub record IsCoherent (db : Db) (c : Cache) : Type 0 where
  pub fresh :
      c.dirty ≡ false
      → (s : Store) → c.store ≡ some s
      → (user : ℕ) (rows : List Granted) → lookup user s.loaded ≡ some rows
      → rows ≡ load db user

no_store-IsCoherent :
    (db : Db) (dirty : Bool) → IsCoherent db (record { store = none; dirty = dirty })
no_store-IsCoherent db dirty = record { fresh = λ d s e user rows l. absurd (ground arith) }

dirty-IsCoherent :
    (db : Db) (store : Option Store) → IsCoherent db (record { store = store; dirty = true })
dirty-IsCoherent db store = record { fresh = λ d s e user rows l. cc }

pub empty-IsCoherent :
    (db : Db) (dirty : Bool) → IsCoherent db (record { store = some empty; dirty = dirty })
unfolding lookup
empty-IsCoherent db dirty = record { fresh = λ d s e user rows l. ground arith }

module _ (env : Env) (db : Db) (user : User) where
  now_query :
      filter (in_window env.now) (load db user.pk) ≡ Decision.effective_assignments env db user none
  unfolding load Decision.effective_assignments fetch_effective effective
  now_query = window_of_load db env.now user.pk db.assignments

  put-IsCoherent :
      (s : Store)
      → IsCoherent db (record { store = some s; dirty = false })
      → IsCoherent db (record {
        store = some (record s { loaded = put user.pk (load db user.pk) s.loaded });
        dirty = false;
      })
  put-IsCoherent s h = record {
    fresh = λ d s' e other rows l. ground (
      arith,
      h.fresh refl s refl other rows,
      lookup-put user.pk other (load db user.pk) s.loaded,
      nat_eq.same_iff user.pk other,
    );
  }

  read_store-IsCoherent :
      (s : Store)
      → IsCoherent db (record { store = some s; dirty = false })
      → let (rows, c) =
          read_store env db user (some s) (record { store = some s; dirty = false }) in
        (rows ≡ Decision.effective_assignments env db user none) × IsCoherent db c
  unfolding read_store
  read_store-IsCoherent s h = elim (Option-cases (lookup user.pk s.loaded)) [
    | inr (rows, l) ↦
        rw (l, read_store)
          (ap (filter (in_window env.now)) (h.fresh refl s refl user.pk rows l) ∙ now_query, h)
    | inl l ↦ rw (l, read_store) (now_query, put-IsCoherent s h)
  ]

  read-IsCoherent :
      (in_atomic_block dirty : Bool) (store : Option Store)
      → IsCoherent db (record { store = store; dirty = dirty })
      → let (rows, c) =
          effective_assignments env db in_atomic_block user none
            (record { store = store; dirty = dirty }) in
        (rows ≡ Decision.effective_assignments env db user none) × IsCoherent db c
  unfolding effective_assignments get_store Decision.effective_assignments
  read-IsCoherent in_atomic_block false none h = (refl, h)
  read-IsCoherent in_atomic_block false (some s) h = read_store-IsCoherent s h
  read-IsCoherent true true store h = (refl, h)
  read-IsCoherent false true none h = (refl, no_store-IsCoherent db false)
  read-IsCoherent false true (some s) h = read_store-IsCoherent empty (empty-IsCoherent db false)

  -- A read gives what the database gives, and keeps the cache coherent.
  pub effective_assignments-IsCoherent :
      (in_atomic_block : Bool) (at : Option ℕ) (c : Cache)
      → IsCoherent db c
      → let (rows, c') = effective_assignments env db in_atomic_block user at c in
        (rows ≡ Decision.effective_assignments env db user at) × IsCoherent db c'
  unfolding effective_assignments Decision.effective_assignments
  effective_assignments-IsCoherent in_atomic_block (some at) c h = (refl, h)
  effective_assignments-IsCoherent in_atomic_block none c h =
      read-IsCoherent in_atomic_block c.dirty c.store h

module _ (db db' : Db) (user : ℕ)
    (same : (other : ℕ) → user ≢ other → load db other ≡ load db' other) where
  pop_fresh :
      (s : Store)
      → IsCoherent db (record { store = some s; dirty = false })
      → IsCoherent db'
          (record { store = some (record s { loaded = pop user s.loaded }); dirty = false })
  pop_fresh s h = record {
    fresh = λ d s' e other rows l. ground (
      arith,
      h.fresh refl s refl other rows,
      lookup-pop user other s.loaded,
      nat_eq.same_iff user other,
      same other,
    );
  }

  invalidate_user_parts :
      (in_atomic_block dirty : Bool) (store : Option Store)
      → IsCoherent db (record { store = store; dirty = dirty })
      → IsCoherent db'
          (invalidate_user in_atomic_block user (record { store = store; dirty = dirty }))
  unfolding invalidate_user
  invalidate_user_parts true dirty store h = dirty-IsCoherent db' (pop_user user store)
  invalidate_user_parts false true store h = dirty-IsCoherent db' (pop_user user store)
  invalidate_user_parts false false none h = no_store-IsCoherent db' false
  invalidate_user_parts false false (some s) h = pop_fresh s h

  -- A write that touches one user's rows, and invalidates that user, keeps the cache coherent with
  -- the new tables.
  pub invalidate_user-IsCoherent :
      (in_atomic_block : Bool) (c : Cache)
      → IsCoherent db c
      → IsCoherent db' (invalidate_user in_atomic_block user c)
  invalidate_user-IsCoherent in_atomic_block c h =
      invalidate_user_parts in_atomic_block c.dirty c.store h

-- After `invalidate_all` the cache is coherent with any tables.
pub invalidate_all-IsCoherent :
    (db : Db) (in_atomic_block : Bool) (c : Cache)
    → IsCoherent db (invalidate_all in_atomic_block c)
unfolding invalidate_all lookup
invalidate_all-IsCoherent db in_atomic_block c = record {
  fresh = λ d s e user rows l. ground arith;
}
