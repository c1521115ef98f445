-- ===== src/Transaction.antt =====
-- The state that the writes of scoped_access/models.py and scoped_access/services.py run in: tables,
-- request cache, open transaction, callbacks on commit, and the signals of scoped_access/signals.py.
use django_auth_with_scoped.Base.{
  ℕ, Bool, true, false, Option, List, [], ◌∷◌, String, if◌then◌else◌,
}
use django_auth_with_scoped.Models.{Role, Assignment, Db}
use django_auth_with_scoped.Cache.{Cache, invalidate_user, invalidate_all}
use django_auth_with_scoped.Exec.{Result, ok, err, Exec}

-- what `transaction.on_commit` has been given
pub data Callback : Type 0 where
  user : ℕ → Callback
  all : Callback

pub data Signal : Type 0 where
  assignment_granted assignment_suspended assignment_reactivated assignment_revoked : Signal

-- a signal sent: the assignment as it was then, the actor, the reason
pub record Event : Type 0 where
  pub signal : Signal
  pub assignment : Assignment
  pub actor : Option ℕ
  pub reason : String

-- `role_permissions_changed` sent: the role, the labels, the actor
pub record RoleEvent : Type 0 where
  pub role : Role
  pub added : List String
  pub removed : List String
  pub actor : Option ℕ

-- `self` is the instance in memory; `events` grows at its end.
pub record Session : Type 0 where
  pub db : Db
  pub cache : Cache
  pub in_atomic_block : Bool
  pub on_commit : List Callback
  pub events : List Event
  pub role_events : List RoleEvent
  pub self : Assignment

abbrev pub call : Cache → Callback → Cache
call c (user u) = invalidate_user false u c
call c all = invalidate_all false c

unfoldable pub run_callbacks : Cache → List Callback → Cache
run_callbacks c [] = c
run_callbacks c (f ∷ fs) = run_callbacks (call c f) fs

-- `transaction.atomic`: a raise puts the tables back and drops the callbacks; leaving the outermost
-- block runs them.
unfoldable pub leave_atomic : {A : Type 0} → Session → Result A → Session → Result A × Session
leave_atomic before (ok a) s = (
  ok a,
  if before.in_atomic_block then s else record s {
    cache = run_callbacks s.cache s.on_commit;
    in_atomic_block = false;
    on_commit = [];
  },
)
leave_atomic before (err e) s = (
  err e,
  record s {
    db = before.db;
    in_atomic_block = before.in_atomic_block;
    on_commit = before.on_commit;
  },
)

unfoldable pub atomic : {A : Type 0} → Exec Session A → Exec Session A
unfolding leave_atomic
atomic m s =
    let entered = record s { in_atomic_block = true } in leave_atomic s (m entered).0 (m entered).1
