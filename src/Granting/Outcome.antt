-- ===== src/Granting/Outcome.antt =====
-- What `grant` (scoped_access/models.py) has done when it returns, and when it raises.
use django_auth_with_scoped.Base.{
  ℕ, ◌≡◌, refl, ◌∙◌, sym, ap, inl, inr, Bool, true, false, Option, none, some, List, [], ◌∷◌, arith,
  any, Bool-cases, subst,
}
use django_auth_with_scoped.Models.{Role, Assignment, Db, role_with}
use django_auth_with_scoped.Config.{Env}
use django_auth_with_scoped.Engine.Scope.{role_assignable}
use django_auth_with_scoped.Engine.Roles.{can_manage_assignment, can_assign_role}
use django_auth_with_scoped.Cache.{invalidate_all}
use django_auth_with_scoped.Exec.{Error, Result, ok, err, ◌>>=◌}
use django_auth_with_scoped.Transaction.{Event, Session}
use django_auth_with_scoped.Lifecycle.Steps.{>>=-eq-ok, atomic_err, atomic_ok, entered}
use django_auth_with_scoped.Granting.{
  Request, conflicts, window_is_empty, locked, refreshed, refresh_for_mutation, level_of, new_row,
  insert, check, announce, create, checked_create, grant_at, grant_level, grant_keywords,
  grant_body, grant,
}

module _ (env : Env) where
  check_ok :
      (q : Request) (level : Option ℕ) (role : Role) (s : Session) {u : Unit {0}}
      → (check env q role level s).0 ≡ ok u
      → (role_assignable env role level q.scope ≡ true)
        × (can_manage_assignment env s.db q.by q.scope none ≡ true)
        × (can_assign_role env s.db q.by role level q.scope none ≡ true)
        × ((check env q role level s).1 ≡ s)
  unfolding check
  check_ok q level role s h = ground arith

  insert_ok :
      (b : Assignment) (s : Session) {a : Assignment}
      → (insert env b s).0 ≡ ok a
      → (a ≡ b)
        × (any (conflicts b) s.db.assignments ≡ false)
        × ((insert env b s).1.db ≡ record s.db { assignments = b ∷ s.db.assignments })
  unfolding insert
  insert_ok b s h = elim (Bool-cases (any (conflicts b) s.db.assignments)) [
    | inl e ↦ absurd (ground arith)
    | inr e ↦ (ground arith, e, rw e refl)
  ]

refreshed_ok :
    (read : Option Role) (s : Session) {row : Role}
    → (refreshed read s).0 ≡ ok row
    → (read ≡ some row)
      × ((refreshed read s).1 ≡ record s { cache = invalidate_all s.in_atomic_block s.cache })
unfolding refreshed
refreshed_ok none s h = absurd (ground arith)
refreshed_ok (some r) s h = (ground arith, refl)

locked_sound :
    (db : Db) (key : Option ℕ) (row : Role)
    → locked db key ≡ some row
    → (pk : ℕ) × (key ≡ some pk) × (role_with db pk ≡ some row)
unfolding locked
locked_sound db none row h = absurd (ground arith)
locked_sound db (some pk) row h = (pk, refl, h)

-- The refresh reads the stored row of the role, and changes the cache alone.
pub refresh_for_mutation_ok :
    (role : Role) (s : Session) {row : Role}
    → (refresh_for_mutation role s).0 ≡ ok row
    → (pk : ℕ) × (role.pk ≡ some pk)
      × (role_with s.db pk ≡ some row)
      × ((refresh_for_mutation role s).1
          ≡ record s { cache = invalidate_all s.in_atomic_block s.cache })
unfolding refresh_for_mutation
refresh_for_mutation_ok role s {row} h =
    let (read, now) = refreshed_ok (locked s.db role.pk) s h in
    let (pk, saved, stored) = locked_sound s.db role.pk row read in (pk, saved, stored, now)

module _ (env : Env) (raises : Event → Bool) (next_pk : Db → ℕ) where
  -- What a grant that returned has checked on the tables as they were, and what it has added.
  pub record Granted (q : Request) (db db' : Db) (a : Assignment) : Type 0 where
    pub level : Option ℕ
    pub role_pk : ℕ
    pub role : Role
    pub supported : q.unsupported ≡ []
    pub level_found : level_of env q.level q.scope ≡ ok level
    pub window : window_is_empty q.valid_from q.valid_until ≡ false
    pub saved : q.role.pk ≡ some role_pk
    pub stored : role_with db role_pk ≡ some role
    pub assignable : role_assignable env role level q.scope ≡ true
    pub manages : can_manage_assignment env db q.by q.scope none ≡ true
    pub delegates : can_assign_role env db q.by role level q.scope none ≡ true
    pub row : a ≡ new_row env q role level (next_pk db)
    pub unique : any (conflicts a) db.assignments ≡ false
    pub added : db' ≡ record db { assignments = a ∷ db.assignments }

  announce_ok :
      (q : Request) (b : Assignment) (s : Session) {a : Assignment}
      → (announce env raises next_pk q b s).0 ≡ ok a
      → (a ≡ b) × ((announce env raises next_pk q b s).1.db ≡ s.db)
  unfolding announce
  announce_ok q b s h = ground arith

  -- what is left to do once the checks have passed
  create_and_announce_ok :
      (q : Request) (level : Option ℕ) (role : Role) (s : Session) {a : Assignment}
      → let rest = create env raises next_pk q role level >>= announce env raises next_pk q in
        (rest s).0 ≡ ok a
        → let b = new_row env q role level (next_pk s.db) in
          (a ≡ b)
          × (any (conflicts b) s.db.assignments ≡ false)
          × ((rest s).1.db ≡ record s.db { assignments = b ∷ s.db.assignments })
  unfolding create
  create_and_announce_ok q level role s h =
      let b = new_row env q role level (next_pk s.db) in
      let (c, inserted, run) =
        >>=-eq-ok (create env raises next_pk q role level) (announce env raises next_pk q) s h in
      let (same, unique, db) = insert_ok env b s inserted in
      let sent = announce_ok q c (insert env b s).1 (sym (ap (λ r. r.0) run) ∙ h) in
      (sent.0 ∙ same, unique, ap (λ r. r.1.db) run ∙ sent.1 ∙ db)

  checked_create_ok :
      (q : Request) (level : Option ℕ) (role : Role) (s : Session) {a : Assignment}
      → (checked_create env raises next_pk q level role s).0 ≡ ok a
      → let b = new_row env q role level (next_pk s.db) in
        (role_assignable env role level q.scope ≡ true)
        × (can_manage_assignment env s.db q.by q.scope none ≡ true)
        × (can_assign_role env s.db q.by role level q.scope none ≡ true)
        × (a ≡ b)
        × (any (conflicts b) s.db.assignments ≡ false)
        × ((checked_create env raises next_pk q level role s).1.db
            ≡ record s.db { assignments = b ∷ s.db.assignments })
  unfolding checked_create
  checked_create_ok q level role s h =
      let rest = create env raises next_pk q role level >>= announce env raises next_pk q in
      let (_, checked, run) = >>=-eq-ok (check env q role level) (λ _. rest) s h in
      let (assignable, manages, delegates, now) = check_ok env q level role s checked in
      let run' = run ∙ ap rest now in
      let (row, unique, db) =
        create_and_announce_ok q level role s (sym (ap (λ r. r.0) run') ∙ h) in
      (assignable, manages, delegates, row, unique, ap (λ r. r.1.db) run' ∙ db)

  grant_at_ok :
      (q : Request) (level : Option ℕ) (s : Session) {a : Assignment}
      → q.unsupported ≡ []
      → level_of env q.level q.scope ≡ ok level
      → window_is_empty q.valid_from q.valid_until ≡ false
      → (grant_at env raises next_pk q level s).0 ≡ ok a
      → Granted q s.db (grant_at env raises next_pk q level s).1.db a
  unfolding grant_at
  grant_at_ok q level s supported level_found window h =
      let rest = checked_create env raises next_pk q level in
      let (role, refreshed, run) = >>=-eq-ok (refresh_for_mutation q.role) rest s h in
      let (role_pk, saved, stored, now) = refresh_for_mutation_ok q.role s refreshed in
      let run' = run ∙ ap (rest role) now in
      let (assignable, manages, delegates, row, unique, db) =
        checked_create_ok q level role
          (record s { cache = invalidate_all s.in_atomic_block s.cache })
          (sym (ap (λ r. r.0) run') ∙ h) in
      record {
        level = level;
        role_pk = role_pk;
        role = role;
        supported = supported;
        level_found = level_found;
        window = window;
        saved = saved;
        stored = stored;
        assignable = assignable;
        manages = manages;
        delegates = delegates;
        row = row;
        unique = ap (λ b. any (conflicts b) s.db.assignments) row ∙ unique;
        added = ap (λ r. r.1.db) run' ∙ db ∙ ap (added_to s.db) (sym row);
      }
    where
      added_to : Db → Assignment → Db
      added_to db b = record db { assignments = b ∷ db.assignments }

  grant_level_ok :
      (q : Request) (found : Result (Option ℕ)) (s : Session) {a : Assignment}
      → q.unsupported ≡ []
      → level_of env q.level q.scope ≡ found
      → (grant_level env raises next_pk q found s).0 ≡ ok a
      → Granted q s.db (grant_level env raises next_pk q found s).1.db a
  unfolding grant_level
  grant_level_ok q (err x) s e e' h = absurd (ground arith)
  grant_level_ok q (ok level) s e e' h =
      elim (Bool-cases (window_is_empty q.valid_from q.valid_until)) [
        | inl w ↦ absurd (ground arith)
        | inr w ↦ rw w (grant_at_ok q level s e e' w (rw w at h))
      ]

  grant_keywords_ok :
      (q : Request) (keywords : List ℕ) (s : Session) {a : Assignment}
      → q.unsupported ≡ keywords
      → (grant_keywords env raises next_pk q keywords s).0 ≡ ok a
      → Granted q s.db (grant_keywords env raises next_pk q keywords s).1.db a
  unfolding grant_keywords
  grant_keywords_ok q (_ ∷ _) s e h = absurd (ground arith)
  grant_keywords_ok q [] s e h = grant_level_ok q (level_of env q.level q.scope) s e refl h

  pub grant-Granted :
      (q : Request) (s : Session) {a : Assignment}
      → (grant env raises next_pk q s).0 ≡ ok a
      → Granted q s.db (grant env raises next_pk q s).1.db a
  unfolding grant grant_body
  grant-Granted q s {a} h =
      let body = grant_body env raises next_pk q in
      let (returned, db, _) = atomic_ok body s h in
      subst (λ d. Granted q s.db d a) (sym db)
        (grant_keywords_ok q q.unsupported (entered body s) refl returned)

  -- When `grant` raises, at whatever point, the tables are as before.
  pub grant_err :
      (q : Request) (s : Session) {e : Error}
      → (grant env raises next_pk q s).0 ≡ err e
      → (grant env raises next_pk q s).1.db ≡ s.db
  unfolding grant
  grant_err q s h = atomic_err (grant_body env raises next_pk q) s h
