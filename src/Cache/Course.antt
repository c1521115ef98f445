-- ===== src/Cache/Course.antt =====
-- The request cache (scoped_access/cache.py) over whole courses of a request: reads, writes that
-- invalidate, transactions that commit or roll back.
use django_auth_with_scoped.Base.{ℕ, ◌≡◌, ◌≢◌, Bool, false, Option, none, some, is_some}
use django_auth_with_scoped.Models.{User, Db}
use django_auth_with_scoped.Config.{Env}
use django_auth_with_scoped.Engine.Decision
use django_auth_with_scoped.Cache.{
  Cache, invalidate_user, invalidate_all, enter_request, load, effective_assignments,
}
use django_auth_with_scoped.Cache.Coherence.{IsCoherent}

-- The tables, the tables as they were when the open transaction began, and the cache.
pub record Request : Type 0 where
  pub db : Db
  pub saved : Option Db
  pub cache : Cache

abbrev pub in_atomic_block : Request → Bool
in_atomic_block r = is_some r.saved

-- A request begins with no store active, and opens one.
abbrev pub start : Db → Request
start db = record {
  db = db;
  saved = none;
  cache = enter_request (record { store = none; dirty = false });
}

pub data Step : Request → Request → Type 0 where
  -- the clock, with all else of the surroundings, may differ from read to read
  read :
      {r : Request} (env : Env) (user : User) (at : Option ℕ)
      → Step r (record r {
        cache = (effective_assignments env r.db (in_atomic_block r) user at r.cache).1;
      })
  -- a change of one user's assignments; with no change, the callback after a commit
  write_user :
      {r : Request} (user : ℕ) (db : Db)
      → ((other : ℕ) → user ≢ other → load r.db other ≡ load db other)
      → Step r (record r { db = db; cache = invalidate_user (in_atomic_block r) user r.cache })
  -- a change of roles or their permissions
  write_roles :
      {r : Request} (db : Db)
      → Step r (record r { db = db; cache = invalidate_all (in_atomic_block r) r.cache })
  begin : {r : Request} → r.saved ≡ none → Step r (record r { saved = some r.db })
  commit : {r : Request} → Step r (record r { saved = none })
  rollback :
      {r : Request} (db : Db) → r.saved ≡ some db → Step r (record r { db = db; saved = none })

pub data Reach (r : Request) : Request → Type 0 where
  here : Reach r r
  next : {s t : Request} → Reach r s → Step s t → Reach r t

-- The cache agrees with the tables, and an open transaction that has marked nothing dirty has
-- changed nothing.
pub record IsSound (r : Request) : Type 0 where
  pub coherent : IsCoherent r.db r.cache
  pub unchanged : (db : Db) → r.saved ≡ some db → r.cache.dirty ≡ false → db ≡ r.db
