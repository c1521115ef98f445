-- ===== src/Lifecycle/History.antt =====
-- What any course of `suspend`, `reactivate` and `revoke` (scoped_access/models.py) keeps of the rows.
use django_auth_with_scoped.Base.{
  ℕ, ◌≡◌, refl, ◌∙◌, sym, ap, inl, inr, Bool, false, Option, none, some, List, [], ◌∷◌, arith,
  String, if◌then◌else◌, ◌==◌, nat_eq, option_eq, contains, subst, Bool-cases, &&-eq-true,
}
use django_auth_with_scoped.Models.{User, Status, revoked, status_eq, Assignment}
use django_auth_with_scoped.Config.{Env}
use django_auth_with_scoped.Transaction.{Event, Session}
use django_auth_with_scoped.Lifecycle.{Changes, is_candidate, update, apply_changes}
use django_auth_with_scoped.Lifecycle.Steps.{Result-cases}
use django_auth_with_scoped.Lifecycle.Outcomes.{
  Method, suspends, reactivates, revokes, target, allowed_from, changes, perform, perform-Outcome,
  perform_err,
}

-- What a grant says for good: who, which role, where, when, from whom.
pub record HasSameGrant (old new : Assignment) : Type 0 where
  pub pk : new.pk ≡ old.pk
  pub user_id : new.user_id ≡ old.user_id
  pub role_id : new.role_id ≡ old.role_id
  pub level : new.level ≡ old.level
  pub scope_ct_id : new.scope_ct_id ≡ old.scope_ct_id
  pub scope_id : new.scope_id ≡ old.scope_id
  pub valid_from : new.valid_from ≡ old.valid_from
  pub valid_until : new.valid_until ≡ old.valid_until
  pub granted_by : new.granted_by ≡ old.granted_by
  pub granted_at : new.granted_at ≡ old.granted_at

-- A row after some operations: the same grant, and if it was revoked, the same row.
abbrev pub Follows : Assignment → Assignment → Type 0
Follows old new = HasSameGrant old new × (old.status ≡ revoked → new ≡ old)

-- The rows after some operations: none is gone and none is new.
pub data Evolves : List Assignment → List Assignment → Type 0 where
  nothing : Evolves [] []
  row :
      {a b : Assignment} {olds news : List Assignment}
      → Follows a b
      → Evolves olds news
      → Evolves (a ∷ olds) (b ∷ news)

Follows-refl : (a : Assignment) → Follows a a
Follows-refl a = (
  record {
    pk = refl;
    user_id = refl;
    role_id = refl;
    level = refl;
    scope_ct_id = refl;
    scope_id = refl;
    valid_from = refl;
    valid_until = refl;
    granted_by = refl;
    granted_at = refl;
  },
  λ _. refl,
)

Follows-trans : (a b c : Assignment) → Follows a b → Follows b c → Follows a c
Follows-trans a b c (g, f) (h, k) = (
  record {
    pk = h.pk ∙ g.pk;
    user_id = h.user_id ∙ g.user_id;
    role_id = h.role_id ∙ g.role_id;
    level = h.level ∙ g.level;
    scope_ct_id = h.scope_ct_id ∙ g.scope_ct_id;
    scope_id = h.scope_id ∙ g.scope_id;
    valid_from = h.valid_from ∙ g.valid_from;
    valid_until = h.valid_until ∙ g.valid_until;
    granted_by = h.granted_by ∙ g.granted_by;
    granted_at = h.granted_at ∙ g.granted_at;
  },
  λ r. k (ap (λ x. x.status) (f r) ∙ r) ∙ f r,
)

pub Evolves-refl : (rows : List Assignment) → Evolves rows rows
Evolves-refl [] = nothing
Evolves-refl (a ∷ rows) = row (Follows-refl a) (Evolves-refl rows)

Evolves-trans :
    {olds mids news : List Assignment} → Evolves olds mids → Evolves mids news → Evolves olds news
Evolves-trans nothing nothing = nothing
Evolves-trans (row f e) (row g h) = row (Follows-trans _ _ _ f g) (Evolves-trans e h)

-- a change of status, and what goes with it
Follows-apply_changes :
    (t : Status) (c : Option Changes) (a : Assignment)
    → (a.status ≡ revoked → apply_changes t c a ≡ a)
    → Follows a (apply_changes t c a)
Follows-apply_changes t none a h = (
  record {
    pk = refl;
    user_id = refl;
    role_id = refl;
    level = refl;
    scope_ct_id = refl;
    scope_id = refl;
    valid_from = refl;
    valid_until = refl;
    granted_by = refl;
    granted_at = refl;
  },
  h,
)
Follows-apply_changes t (some c) a h = (
  record {
    pk = refl;
    user_id = refl;
    role_id = refl;
    level = refl;
    scope_ct_id = refl;
    scope_id = refl;
    valid_from = refl;
    valid_until = refl;
    granted_by = refl;
    granted_at = refl;
  },
  h,
)

-- No method starts from a revoked row.
not_from_revoked : (m : Method) → contains revoked (allowed_from m) ≡ false
unfolding contains
not_from_revoked suspends = refl
not_from_revoked reactivates = refl
not_from_revoked revokes = refl

module _ (m : Method) (pk : Option ℕ) (c : Option Changes) where
  candidate-Follows :
      (a : Assignment)
      → Follows a (if is_candidate pk (allowed_from m) a then apply_changes (target m) c a else a)
  candidate-Follows a = elim (Bool-cases (is_candidate pk (allowed_from m) a)) [
    | inl e ↦ rw e (
        Follows-apply_changes (target m) c a (λ r.
          let (_, among) = (&&-eq-true (a.pk == pk) (contains a.status (allowed_from m))).0 e in
          absurd (ground (arith, rw r at among, not_from_revoked m))))
    | inr e ↦ rw e (Follows-refl a)
  ]

  update-Evolves :
      (rows : List Assignment)
      → Evolves rows (update (is_candidate pk (allowed_from m)) (apply_changes (target m) c) rows)
  unfolding update
  update-Evolves [] = nothing
  update-Evolves (a ∷ rows) = row (candidate-Follows a) (update-Evolves rows)

module _ (env : Env) (raises : Event → Bool) where
  -- A course of calls. Between two calls, anything but the tables may change: the instance is any
  -- object a caller holds, whatever its fields.
  pub data Course (s : Session) : Session → Type 0 where
    start : Course s s
    call :
        {t : Session} (t' : Session) (m : Method) (by : Option User) (reason : String)
        → Course s t
        → t'.db ≡ t.db
        → Course s (perform env raises m by reason t').1

  -- One call, whether it returns or raises.
  pub perform-Evolves :
      (m : Method) (by : Option User) (reason : String) (s : Session)
      → Evolves s.db.assignments (perform env raises m by reason s).1.db.assignments
  perform-Evolves m by reason s = elim (Result-cases (perform env raises m by reason s).0) [
    | inl (_, returned) ↦
        let o = perform-Outcome env raises m by reason s returned in
        subst (Evolves s.db.assignments) (sym (ap (λ d. d.assignments) o.moved))
          (update-Evolves m o.row.pk (changes env raises m by reason) s.db.assignments)
    | inr (_, raised) ↦
        subst (Evolves s.db.assignments)
          (sym (ap (λ d. d.assignments) (perform_err env raises m by reason s raised)))
          (Evolves-refl s.db.assignments)
  ]

  -- Over any course of `suspend`, `reactivate` and `revoke`, whether they return or raise and
  -- whatever instances they are called on, no row is added or removed, each keeps its key, user,
  -- role, level, scope, window and grantor, and a revoked row stays exactly as it is.
  pub course-Evolves : {s t : Session} → Course s t → Evolves s.db.assignments t.db.assignments
  course-Evolves start = Evolves-refl _
  course-Evolves (call t' m by reason c same) = Evolves-trans (course-Evolves c) (
      subst (λ d. Evolves d.assignments (perform env raises m by reason t').1.db.assignments) same
        (perform-Evolves m by reason t'))
