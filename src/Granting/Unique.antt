-- ===== src/Granting/Unique.antt =====
-- Live assignments are never duplicated (scoped_access/models.py: `grant`, the transitions, and
-- the unique constraints of the table, SPEC 8.3).
use mathlib.Core.List.Memᴰ
use django_auth_with_scoped.Base.{
  ℕ, zero, suc, ◌≡◌, refl, ◌∙◌, sym, ap, inl, inr, Bool, true, false, Option, none, some, List, [],
  ◌∷◌, Memᴰ, arith, String, nat_eq, option_eq, any, any_complete, is_some, get_elem?, get_elem?-mem,
  Bool-cases, subst,
}
use django_auth_with_scoped.World.{Obj}
use django_auth_with_scoped.Models.{User, Role, revoked, status_eq, status_beq_iff, Assignment, Db}
use django_auth_with_scoped.Config.{Env}
use django_auth_with_scoped.Exec.{ok}
use django_auth_with_scoped.Transaction.{Event, Session}
use django_auth_with_scoped.Lifecycle.Steps.{Result-cases}
use django_auth_with_scoped.Lifecycle.Outcomes.{Method, perform}
use django_auth_with_scoped.Lifecycle.History.{
  HasSameGrant, Follows, Evolves, nothing, row, perform-Evolves,
}
use django_auth_with_scoped.Granting.{
  Request, sql_eq, is_live, same_columns, same_key, conflicts, level_of, new_row, grant,
}
use django_auth_with_scoped.Granting.Outcome.{grant-Granted, grant_err}

-- Two assignments of one role to one user at one level and scope.
pub record SameTarget (a b : Assignment) : Type 0 where
  pub user_id : a.user_id ≡ b.user_id
  pub role_id : a.role_id ≡ b.role_id
  pub level : a.level ≡ b.level
  pub scope_ct_id : a.scope_ct_id ≡ b.scope_ct_id
  pub scope_id : a.scope_id ≡ b.scope_id

-- A row with a scope has a level and a content type.
abbrev pub IsShaped : Assignment → Type 0
IsShaped a = is_some a.scope_id ≡ true → (is_some a.level ≡ true) × (is_some a.scope_ct_id ≡ true)

-- A table that the constraints accept, of rows of that shape.
pub data IsUnique : List Assignment → Type 0 where
  no_rows : IsUnique []
  more :
      {a : Assignment} {rows : List Assignment}
      → IsShaped a
      → ((b : Assignment) → Memᴰ b rows → conflicts a b ≡ false)
      → IsUnique rows
      → IsUnique (a ∷ rows)

sql_eq-same : (x y : Option ℕ) → x ≡ y → sql_eq x y ≡ is_some x
sql_eq-same x y h = ground (arith, (option_eq {A = ℕ}).same_iff x y)

SameTarget-same_columns : (a b : Assignment) → IsShaped a → SameTarget a b → same_columns a b ≡ true
unfolding same_columns
SameTarget-same_columns a b shaped same = ground (
  arith,
  sql_eq-same a.level b.level same.level,
  sql_eq-same a.scope_ct_id b.scope_ct_id same.scope_ct_id,
  sql_eq-same a.scope_id b.scope_id same.scope_id,
)

-- The constraints refuse two live rows with one target.
SameTarget-conflicts :
    (a b : Assignment)
    → IsShaped a
    → is_live a ≡ true
    → is_live b ≡ true
    → SameTarget a b
    → conflicts a b ≡ true
unfolding conflicts same_key
SameTarget-conflicts a b shaped la lb same = ground (
  arith,
  nat_eq.same_iff a.user_id b.user_id,
  nat_eq.same_iff a.role_id b.role_id,
  SameTarget-same_columns a b shaped same,
)

is_live-Follows : (a b : Assignment) → Follows a b → is_live b ≡ true → is_live a ≡ true
is_live-Follows a b (g, f) h = ground (arith, status_beq_iff a.status revoked)

same_key-HasSameGrant :
    (a a' b b' : Assignment) → HasSameGrant a a' → HasSameGrant b b' → same_key a' b' ≡ same_key a b
unfolding same_key same_columns
same_key-HasSameGrant a a' b b' f g = simp (
  f.user_id, f.role_id, f.level, f.scope_ct_id, f.scope_id, g.user_id, g.role_id, g.level,
  g.scope_ct_id, g.scope_id,
)

conflicts-Follows :
    (a a' b b' : Assignment)
    → Follows a a'
    → Follows b b'
    → conflicts a b ≡ false
    → conflicts a' b' ≡ false
unfolding conflicts
conflicts-Follows a a' b b' f g h =
    ground (
      arith,
      is_live-Follows a a' f,
      is_live-Follows b b' g,
      same_key-HasSameGrant a a' b b' f.0 g.0,
    )

Evolves-mem :
    {olds news : List Assignment}
    → Evolves olds news
    → (b' : Assignment) → Memᴰ b' news
    → (b : Assignment) × Memᴰ b olds × Follows b b'
Evolves-mem nothing b' m = elim m [ ]
Evolves-mem (row {a = a} f e) b' m = elim (Memᴰ.cases_cons m) [
  | inl q ↦ (a, Memᴰ.head refl, subst (Follows a) (sym q) f)
  | inr k ↦ let (b, k', g) = Evolves-mem e b' k in (b, Memᴰ.tail k', g)
]

IsShaped-Follows : (a b : Assignment) → Follows a b → IsShaped a → IsShaped b
IsShaped-Follows a b (g, _) shaped h =
    let (level, ct) = shaped (ap is_some (sym g.scope_id) ∙ h) in
    (ap is_some g.level ∙ level, ap is_some g.scope_ct_id ∙ ct)

-- A table that evolves stays one that the constraints accept.
Evolves-IsUnique : {olds news : List Assignment} → Evolves olds news → IsUnique olds → IsUnique news
Evolves-IsUnique nothing u = no_rows
Evolves-IsUnique (row {a = a} {b = a'} f e) (more shaped apart u) =
    more (IsShaped-Follows a a' f shaped)
      (λ b' m. let (b, k, g) = Evolves-mem e b' m in conflicts-Follows a a' b b' f g (apart b k))
      (Evolves-IsUnique e u)

any-false :
    {A : Type 0} (test : A → Bool) {xs : List A}
    → any test xs ≡ false
    → (x : A) → Memᴰ x xs
    → test x ≡ false
any-false test none_holds x m = elim (Bool-cases (test x)) [
  | inr e ↦ e
  | inl e ↦ absurd (ground (arith, any_complete test m e))
]

SameTarget-sym : {a b : Assignment} → SameTarget a b → SameTarget b a
SameTarget-sym same = record {
  user_id = sym same.user_id;
  role_id = sym same.role_id;
  level = sym same.level;
  scope_ct_id = sym same.scope_ct_id;
  scope_id = sym same.scope_id;
}

-- the first row of a table and a later one
clash :
    {first a b : Assignment} {rows : List Assignment}
    → first ≡ a
    → IsShaped first
    → ((c : Assignment) → Memᴰ c rows → conflicts first c ≡ false)
    → Memᴰ b rows
    → is_live a ≡ true
    → is_live b ≡ true
    → SameTarget a b
    → ⊥
clash {a = a} {b = b} {rows = rows} e shaped apart m la lb same =
    let at_a =
      subst (λ x. IsShaped x × ((c : Assignment) → Memᴰ c rows → conflicts x c ≡ false)) e
        (shaped, apart) in
    absurd (ground (arith, SameTarget-conflicts a b at_a.0 la lb same, at_a.1 b m))

IsUnique-index :
    {rows : List Assignment}
    → IsUnique rows
    → (i j : ℕ) {a b : Assignment} → get_elem? rows i ≡ some a
    → get_elem? rows j ≡ some b
    → is_live a ≡ true
    → is_live b ≡ true
    → SameTarget a b
    → i ≡ j
IsUnique-index no_rows i j at_i at_j la lb same = absurd (ground arith)
IsUnique-index (more shaped apart u) zero zero at_i at_j la lb same = refl
IsUnique-index (more shaped apart u) zero (suc j) at_i at_j la lb same =
    absurd (clash (ground arith) shaped apart (get_elem?-mem _ j at_j) la lb same)
IsUnique-index (more shaped apart u) (suc i) zero at_i at_j la lb same =
    absurd (clash (ground arith) shaped apart (get_elem?-mem _ i at_i) lb la (SameTarget-sym same))
IsUnique-index (more shaped apart u) (suc i) (suc j) at_i at_j la lb same =
    ap suc (IsUnique-index u i j at_i at_j la lb same)

level_of-some :
    (env : Env) (given : Option ℕ) (o : Obj) {level : Option ℕ}
    → level_of env given (some o) ≡ ok level
    → is_some level ≡ true
unfolding level_of
level_of-some env none o h = ground arith
level_of-some env (some name) o h = ground arith

new_row-IsShaped :
    (env : Env) (q : Request) (role : Role) (level : Option ℕ) (pk : ℕ) (scope : Option Obj)
    → q.scope ≡ scope
    → level_of env q.level scope ≡ ok level
    → IsShaped (new_row env q role level pk)
unfolding new_row
new_row-IsShaped env q role level pk none e h = λ s. absurd (ground arith)
new_row-IsShaped env q role level pk (some o) e h =
    λ s. (level_of-some env q.level o h, ground arith)

module _ (env : Env) (raises : Event → Bool) (next_pk : Db → ℕ) where
  -- A course of grants and transitions. Between two calls anything but the tables may change.
  pub data Operations (s : Session) : Session → Type 0 where
    start : Operations s s
    transition :
        {t : Session} (t' : Session) (m : Method) (by : Option User) (reason : String)
        → Operations s t
        → t'.db ≡ t.db
        → Operations s (perform env raises m by reason t').1
    grants :
        {t : Session} (t' : Session) (q : Request)
        → Operations s t
        → t'.db ≡ t.db
        → Operations s (grant env raises next_pk q t').1

  grant-IsUnique :
      (q : Request) (s : Session)
      → IsUnique s.db.assignments
      → IsUnique (grant env raises next_pk q s).1.db.assignments
  grant-IsUnique q s u = elim (Result-cases (grant env raises next_pk q s).0) [
    | inr (_, raised) ↦
        subst IsUnique (sym (ap (λ d. d.assignments) (grant_err env raises next_pk q s raised))) u
    | inl (a, returned) ↦
        let g = grant-Granted env raises next_pk q s returned in
        subst IsUnique (sym (ap (λ d. d.assignments) g.added)) (
          more
            (subst IsShaped (sym g.row)
              (new_row-IsShaped env q g.role g.level (next_pk s.db) q.scope refl g.level_found))
            (any-false (conflicts a) g.unique) u)
  ]

  Operations-IsUnique :
      {s t : Session} → Operations s t → IsUnique s.db.assignments → IsUnique t.db.assignments
  Operations-IsUnique start u = u
  Operations-IsUnique (transition t' m by reason ops same) u =
      Evolves-IsUnique (perform-Evolves env raises m by reason t')
        (subst (λ d. IsUnique d.assignments) (sym same) (Operations-IsUnique ops u))
  Operations-IsUnique (grants t' q ops same) u =
      grant-IsUnique q t'
        (subst (λ d. IsUnique d.assignments) (sym same) (Operations-IsUnique ops u))

  -- Over any course of `grant`, `suspend`, `reactivate` and `revoke` that starts from a table
  -- without live duplicates, no two rows that are not revoked ever give one role to one user at
  -- one level and scope, root and flat scopes included.
  pub live_unique :
      {s t : Session}
      → Operations s t
      → IsUnique s.db.assignments
      → (i j : ℕ) (a b : Assignment) → get_elem? t.db.assignments i ≡ some a
      → get_elem? t.db.assignments j ≡ some b
      → is_live a ≡ true
      → is_live b ≡ true
      → SameTarget a b
      → i ≡ j
  live_unique {t = t} ops u i j a b at_i at_j la lb same =
      IsUnique-index (Operations-IsUnique ops u) i j at_i at_j la lb same
