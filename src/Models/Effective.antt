-- ===== src/Models/Effective.antt =====
-- Which rows `effective` and the role join give (scoped_access/models.py, engine.py).
use mathlib.Core.List.Memᴰ
use django_auth_with_scoped.Base.{
  ℕ, ◌<◌, ◌≤◌, ◌≡◌, ap, ◌↔◌, inl, inr, true, Option, none, some, List, [], ◌∷◌, Memᴰ, arith,
  Option-cases, subst, sym,
}
use django_auth_with_scoped.Models.{
  Assignment, Granted, Db, active, status_beq_iff, status_eq, is_effective, role_with,
  select_related,
}

-- The window of an assignment holds the time: an open end where the bound is missing.
abbrev pub Started : Option ℕ → ℕ → Type 0
Started none t = Unit {0}
Started (some from) t = from ≤ t

abbrev pub NotExpired : Option ℕ → ℕ → Type 0
NotExpired none t = Unit {0}
NotExpired (some until) t = t < until

-- Effectiveness as the specification states it (SPEC 8.2).
pub record IsEffective (t : ℕ) (a : Assignment) : Type 0 where
  pub live : a.status ≡ active
  pub started : Started a.valid_from t
  pub not_expired : NotExpired a.valid_until t

-- The row test of `effective` holds exactly for a row that is active, whose start, if any, is not
-- after the time, and whose end, if any, is after it.
pub is_effective_iff : (t : ℕ) (a : Assignment) → (is_effective t a ≡ true) ↔ IsEffective t a
unfolding is_effective
is_effective_iff t a = (
  λ h. ground (arith, status_beq_iff a.status active),
  λ h. ground (arith, status_beq_iff a.status active),
)

pub mem-select_related :
    (db : Db) (rows : List Assignment) (g : Granted)
    → Memᴰ g (select_related db rows)
    → Memᴰ g.assignment rows × (role_with db g.role_id ≡ some g.role)
unfolding select_related
mem-select_related db [] g m = elim m [ ]
mem-select_related db (a ∷ rows) g m = elim (Option-cases (role_with db a.role_id)) [
  | inl e ↦
      let (k, r) = mem-select_related db rows g (rw (e, select_related) at m) in (Memᴰ.tail k, r)
  | inr (role, e) ↦ elim (Memᴰ.cases_cons (rw (e, select_related) at m)) [
    | inl q ↦ (
      Memᴰ.head (ap (λ x. x.assignment) q),
      subst (λ x. role_with db x.role_id ≡ some x.role) (sym q) e,
    )
    | inr k ↦ let (k', r) = mem-select_related db rows g k in (Memᴰ.tail k', r)
  ]
]

pub select_related-mem :
    (db : Db) (g : Granted) {rows : List Assignment}
    → Memᴰ g.assignment rows
    → role_with db g.role_id ≡ some g.role
    → Memᴰ g (select_related db rows)
unfolding select_related
select_related-mem db g {rows = []} m r = elim m [ ]
select_related-mem db g {rows = a ∷ rows} (Memᴰ.head q) r =
    let e : role_with db a.role_id ≡ some g.role =
      subst (λ (x : Assignment). role_with db x.role_id ≡ some g.role) q r in
    rw (e, select_related)
      (Memᴰ.head (
        ap (λ (x : Assignment). let y : Granted = record { assignment = x; role = g.role } in y) q))
select_related-mem db g {rows = a ∷ rows} (Memᴰ.tail k) r =
    elim (Option-cases (role_with db a.role_id)) [
      | inl e ↦ rw (e, select_related) (select_related-mem db g k r)
      | inr (role, e) ↦ rw (e, select_related) (Memᴰ.tail (select_related-mem db g k r))
    ]
