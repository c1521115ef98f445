-- ===== src/Engine/Filters/Loop.antt =====
-- The loop over assignments in scoped_access/engine.py: which rows meet the condition it builds.
use mathlib.Core.List.Memᴰ
use django_auth_with_scoped.Base.{
  ℕ, ◌≡◌, refl, ◌↔◌, ◌⊎◌, inl, inr, true, false, Option, some, List, [], ◌∷◌, Memᴰ, String, arith,
  sym, ap, ◌∙◌, subst, Bool-cases, Option-cases,
}
use django_auth_with_scoped.World.{Obj}
use django_auth_with_scoped.Models.{Assignment, Granted, Db, is_root_scope}
use django_auth_with_scoped.Config.{Env}
use django_auth_with_scoped.Engine.Scope.{assignment_is_valid}
use django_auth_with_scoped.Engine.Filters.{
  Q, everything, either, rank_or_none, Turn, go, all_rows, failed, holds, lacks, turn,
  assignment_loop,
}

pub either_holds :
    (env : Env) (q r : Q) (n : Obj)
    → (holds env (either q r) n ≡ true) ↔ ((holds env q n ≡ true) ⊎ (holds env r n ≡ true))
unfolding holds
either_holds env q r n = (
  λ m. elim (Bool-cases (holds env q n)) [ inl e ↦ inl e | inr e ↦ inr (rw e at m) ],
  λ m. elim m [ inl e ↦ ground arith | inr e ↦ ground arith ],
)

Turn-cases : (t : Turn) → ((r : Q) × (t ≡ go r)) ⊎ ((t ≡ all_rows) ⊎ (t ≡ failed))
Turn-cases (go r) = inl (r, refl)
Turn-cases all_rows = inr (inl refl)
Turn-cases failed = inr (inr refl)

everything_holds : (env : Env) (n : Obj) → holds env everything n ≡ true
unfolding holds
everything_holds env n = refl

module _ (env : Env) (db : Db) (add : Assignment → ℕ → Q → Option Q) (permission : Option String)
    (n : Obj) (P : Assignment → ℕ → Type 0) where
  -- What an assignment has to be for the loop to take the row in: valid, with the permission, and
  -- at root, or with a scope for which the loop adds the row.
  pub record Takes (g : Granted) : Type 0 where
    pub valid : assignment_is_valid env g ≡ true
    pub permitted : lacks db permission g ≡ false
    pub reaches :
        (is_root_scope g.assignment ≡ true)
        ⊎ ((is_root_scope g.assignment ≡ false)
            × (rank : ℕ) × (rank_or_none env.hierarchy g.assignment ≡ some rank)
            × P g.assignment rank)

  module _
      (added : (a : Assignment) (rank : ℕ) (q q' : Q)
        → add a rank q ≡ some q'
        → (holds env q' n ≡ true) ↔ ((holds env q n ≡ true) ⊎ P a rank)) where
    turn_sound :
        (g : Granted) (q q' : Q)
        → turn env db add permission g q ≡ go q'
        → holds env q' n ≡ true
        → (holds env q n ≡ true) ⊎ Takes g
    unfolding turn
    turn_sound g q q' h m = elim (Bool-cases (assignment_is_valid env g)) [
      | inr e ↦ inl (ground arith)
      | inl valid ↦ elim (Bool-cases (lacks db permission g)) [
        | inl e ↦ inl (ground arith)
        | inr permitted ↦ elim (Bool-cases (is_root_scope g.assignment)) [
          | inl e ↦ absurd (ground arith)
          | inr scoped ↦ elim (Option-cases (rank_or_none env.hierarchy g.assignment)) [
            | inl e ↦ inl (ground arith)
            | inr (rank, ranked) ↦ elim (Option-cases (add g.assignment rank q)) [
              | inl e ↦ absurd (ground arith)
              | inr (r, e) ↦
                  let same : r ≡ q' = ground arith in
                  elim ((added g.assignment rank q q' (e ∙ ap some same)).0 m) [
                    | inl old ↦ inl old
                    | inr new ↦ inr (record {
                      valid = valid;
                      permitted = permitted;
                      reaches = inr (scoped, rank, ranked, new);
                    })
                  ]
            ]
          ]
        ]
      ]
    ]

    turn_keeps :
        (g : Granted) (q q' : Q)
        → turn env db add permission g q ≡ go q'
        → holds env q n ≡ true
        → holds env q' n ≡ true
    unfolding turn
    turn_keeps g q q' h m = elim (Bool-cases (assignment_is_valid env g)) [
      | inr e ↦ ground arith
      | inl valid ↦ elim (Bool-cases (lacks db permission g)) [
        | inl e ↦ ground arith
        | inr permitted ↦ elim (Bool-cases (is_root_scope g.assignment)) [
          | inl e ↦ absurd (ground arith)
          | inr scoped ↦ elim (Option-cases (rank_or_none env.hierarchy g.assignment)) [
            | inl e ↦ ground arith
            | inr (rank, ranked) ↦ elim (Option-cases (add g.assignment rank q)) [
              | inl e ↦ absurd (ground arith)
              | inr (r, e) ↦
                  let same : r ≡ q' = ground arith in
                  (added g.assignment rank q q' (e ∙ ap some same)).1 (inl m)
            ]
          ]
        ]
      ]
    ]

    turn_complete :
        (g : Granted) (q q' : Q)
        → turn env db add permission g q ≡ go q'
        → Takes g
        → holds env q' n ≡ true
    unfolding turn
    turn_complete g q q' h t = elim t.reaches [
      | inl root ↦ absurd (ground (arith, t.valid, t.permitted))
      | inr (scoped, rank, ranked, new) ↦ elim (Option-cases (add g.assignment rank q)) [
        | inl e ↦ absurd (ground (arith, t.valid, t.permitted))
        | inr (r, e) ↦
            let same : r ≡ q' = ground (arith, t.valid, t.permitted) in
            (added g.assignment rank q q' (e ∙ ap some same)).1 (inr new)
      ]
    ]

    turn-all_rows : (g : Granted) (q : Q) → turn env db add permission g q ≡ all_rows → Takes g
    unfolding turn
    turn-all_rows g q h = elim (Bool-cases (is_root_scope g.assignment)) [
      | inl root ↦ record { valid = ground arith; permitted = ground arith; reaches = inl root }
      | inr scoped ↦ elim (Option-cases (rank_or_none env.hierarchy g.assignment)) [
        | inl e ↦ absurd (ground arith)
        | inr (rank, ranked) ↦ elim (Option-cases (add g.assignment rank q)) [
          | inl e ↦ absurd (ground arith)
          | inr (r, e) ↦ absurd (ground arith)
        ]
      ]
    ]

    -- A row meets the condition that the loop returns exactly when it met the one it started
    -- from, or some assignment takes it in.
    pub assignment_loop_iff :
        (q q' : Q) (gs : List Granted)
        → assignment_loop env db add permission q gs ≡ some q'
        → (holds env q' n ≡ true) ↔ ((holds env q n ≡ true) ⊎ ((g : Granted) × Memᴰ g gs × Takes g))
    unfolding assignment_loop
    assignment_loop_iff q q' [] h =
        let same : q ≡ q' = ground arith in
        (
          λ m. inl (ap (λ r. holds env r n) same ∙ m),
          λ m. elim m [
            | inl old ↦ ap (λ r. holds env r n) (sym same) ∙ old
            | inr (g, never, t) ↦ elim never [ ]
          ],
        )
    assignment_loop_iff q q' (g ∷ gs) h = elim (Turn-cases (turn env db add permission g q)) [
      | inr (inr e) ↦ absurd (ground arith)
      | inr (inl e) ↦
          let same : everything ≡ q' = ground arith in
          let all : holds env q' n ≡ true =
            ap (λ r. holds env r n) (sym same) ∙ everything_holds env n in
          (λ _. inr (g, Memᴰ.head refl, turn-all_rows g q e), λ _. all)
      | inl (r, e) ↦
          let rest = assignment_loop_iff r q' gs (rw (e, assignment_loop) at h) in
          (
            λ m. elim (rest.0 m) [
              | inr (k, mem, t) ↦ inr (k, Memᴰ.tail mem, t)
              | inl now ↦ elim (turn_sound g q r e now) [
                | inl old ↦ inl old
                | inr t ↦ inr (g, Memᴰ.head refl, t)
              ]
            ],
            λ m. rest.1 (elim m [
              | inl old ↦ inl (turn_keeps g q r e old)
              | inr (k, mem, t) ↦ elim (Memᴰ.cases_cons mem) [
                | inl here ↦ inl (turn_complete g q r e (subst Takes here t))
                | inr later ↦ inr (k, later, t)
              ]
            ]),
          )
    ]

-- The loop returns where what it adds for a valid assignment with a scope never raises.
module _ (env : Env) (db : Db) (add : Assignment → ℕ → Q → Option Q) (permission : Option String)
    (adds : (g : Granted) (rank : ℕ) (q : Q)
      → assignment_is_valid env g ≡ true
      → is_root_scope g.assignment ≡ false
      → rank_or_none env.hierarchy g.assignment ≡ some rank
      → (q' : Q) × (add g.assignment rank q ≡ some q')) where
  turn_returns : (g : Granted) (q : Q) → turn env db add permission g q ≡ failed → ⊥
  unfolding turn
  turn_returns g q h = elim (Bool-cases (assignment_is_valid env g)) [
    | inr e ↦ ground arith
    | inl valid ↦ elim (Bool-cases (is_root_scope g.assignment)) [
      | inl e ↦ ground arith
      | inr scoped ↦ elim (Option-cases (rank_or_none env.hierarchy g.assignment)) [
        | inl e ↦ ground arith
        | inr (rank, ranked) ↦ let (q', e) = adds g rank q valid scoped ranked in ground arith
      ]
    ]
  ]

  pub assignment_loop-total :
      (q : Q) (gs : List Granted)
      → (q' : Q) × (assignment_loop env db add permission q gs ≡ some q')
  unfolding assignment_loop
  assignment_loop-total q [] = (q, refl)
  assignment_loop-total q (g ∷ gs) = elim (Turn-cases (turn env db add permission g q)) [
    | inl (r, e) ↦ let (q', rest) = assignment_loop-total r gs in (q', rw (assignment_loop, e) rest)
    | inr (inl e) ↦ (everything, rw (assignment_loop, e) refl)
    | inr (inr e) ↦ absurd (turn_returns g q e)
  ]
