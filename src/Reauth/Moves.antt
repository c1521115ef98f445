-- ===== src/Reauth/Moves.antt =====
-- What each operation of `ReAuthService` (scoped_access/reauth/service.py) may do to one token and to
-- one user's generation.
use django_auth_with_scoped.Base.{
  ℕ, suc, ◌≤◌, ◌≡◌, refl, ◌∙◌, ◌≢◌, ◌⊎◌, inl, inr, Bool, true, false, Option, none, some, List, [],
  ◌∷◌, arith, ◌==◌, nat_eq, nat_beq, leb, is_some, get_or, Bool-cases, Option-cases,
}
use django_auth_with_scoped.Models.{User}
use django_auth_with_scoped.Reauth.{
  Key, token, generation, legacy_index, used, consumed, key_beq, Payload, secret, flag, Store,
  cache_set, cache_delete, cache_add, State, Settings, secret_at, payload_at, atomic_pop,
  delete_tokens, tokens_at, generation_from, generation_of, verified, mint, issue, still_valid,
  conclude, consume_popped, consume_once, consume_in_window, consume_payload, consume,
  invalidate_all_for_user,
}
use django_auth_with_scoped.Reauth.Acceptance.{atomic_pop-generation}

-- One token is kept or gone; one generation is kept, gone, or set to a secret drawn just now.
pub record Moves (secrets : ℕ → ℕ) (user t : ℕ) (s s' : State) : Type 0 where
  pub kept : (s'.store (token t) ≡ s.store (token t)) ⊎ (s'.store (token t) ≡ none)
  pub set :
      (s'.store (generation user) ≡ s.store (generation user))
      ⊎ ((s'.store (generation user) ≡ none)
          ⊎ ((j : ℕ) × (s.drawn ≤ j) × (s'.store (generation user) ≡ some (secret (secrets j)))))
  pub drawn : s.drawn ≤ s'.drawn

-- Deleting tokens touches no generation.
pub delete_tokens-generation :
    (user : ℕ) (ts : List ℕ) (s : Store)
    → (delete_tokens ts s) (generation user) ≡ s (generation user)
unfolding delete_tokens cache_delete
delete_tokens-generation user [] s = refl
delete_tokens-generation user (x ∷ ts) s =
    delete_tokens-generation user ts (cache_delete (token x) s).1

module _ (secrets : ℕ → ℕ) (user t : ℕ) where
  Moves-refl : (s : State) → Moves secrets user t s s
  Moves-refl s = record { kept = inl refl; set = inl refl; drawn = omega arith }

  pub Moves-trans :
      {r s u : State}
      → Moves secrets user t r s
      → Moves secrets user t s u
      → Moves secrets user t r u
  Moves-trans f g = record {
    kept = elim g.kept [
      | inr e ↦ inr e
      | inl e ↦ elim f.kept [ inl d ↦ inl (e ∙ d) | inr d ↦ inr (e ∙ d) ]
    ];
    set = elim g.set [
      | inr (inl e) ↦ inr (inl e)
      | inr (inr (j, le, e)) ↦ inr (inr (j, omega (arith, le, f.drawn), e))
      | inl e ↦ elim f.set [
        | inl d ↦ inl (e ∙ d)
        | inr (inl d) ↦ inr (inl (e ∙ d))
        | inr (inr (j, le, d)) ↦ inr (inr (j, le, e ∙ d))
      ]
    ];
    drawn = omega (arith, f.drawn, g.drawn);
  }

  generation_from-Moves :
      (u : ℕ) (found : Option ℕ) (s : State)
      → Moves secrets user t s (generation_from secrets u found s).1
  unfolding generation_from cache_add cache_set
  generation_from-Moves u (some g) s = Moves-refl s
  generation_from-Moves u none s = record {
    kept = inl (ground arith);
    set = elim (Bool-cases (nat_beq u user)) [
      | inr e ↦ inl (ground arith)
      | inl e ↦ elim (Bool-cases (is_some (s.store (generation u)))) [
        | inl there ↦ inl (ground arith)
        | inr missing ↦ inr (inr (s.drawn, omega arith, rw (missing, e) refl))
      ]
    ];
    drawn = omega arith;
  }

  generation_of-Moves : (u : ℕ) (s : State) → Moves secrets user t s (generation_of secrets u s).1
  unfolding generation_of
  generation_of-Moves u s = generation_from-Moves u (secret_at (s.store (generation u))) s

  atomic_pop-Moves :
      (redis : Bool) (t' : ℕ) (p : Payload) (s : State)
      → Moves secrets user t s (record s { store = (atomic_pop redis t' p s.store).1 })
  unfolding atomic_pop cache_delete cache_add cache_set
  atomic_pop-Moves true t' p s = record {
    kept = elim (Bool-cases (nat_beq t' t)) [ inl e ↦ inr (rw e refl) | inr e ↦ inl (rw e refl) ];
    set = inl refl;
    drawn = omega arith;
  }
  atomic_pop-Moves false t' p s = record {
    kept = elim (Bool-cases (nat_beq t' t)) [
      | inr e ↦ inl (ground arith)
      | inl e ↦ elim (Bool-cases (is_some (s.store (consumed t')))) [
        | inl claimed ↦ inl (ground arith)
        | inr free ↦ inr (ground arith)
      ]
    ];
    set = inl (atomic_pop-generation false t' user p s.store);
    drawn = omega arith;
  }

  pub delete_tokens-Moves :
      (ts : List ℕ) (s : State)
      → Moves secrets user t s (record s { store = delete_tokens ts s.store })
  unfolding delete_tokens cache_delete
  delete_tokens-Moves [] s = Moves-refl s
  delete_tokens-Moves (x ∷ ts) s =
      let s₁ = record s { store = (cache_delete (token x) s.store).1 } in
      let first : Moves secrets user t s s₁ = record {
        kept = elim (Bool-cases (nat_beq x t)) [
          | inl e ↦ inr (rw e refl)
          | inr e ↦ inl (rw e refl)
        ];
        set = inl refl;
        drawn = omega arith;
      } in
      Moves-trans first (delete_tokens-Moves ts s₁)

  module _ (settings : Settings) where
    still_valid-Moves :
        (p : Payload) (u : User) (at : Option ℕ) (s : State)
        → Moves secrets user t s (still_valid secrets settings p u at s).1
    unfolding still_valid
    still_valid-Moves p u at s = elim (Bool-cases (p.user_id == u.pk)) [
      | inr o ↦ rw o (Moves-refl s)
      | inl o ↦ elim (Bool-cases (leb p.expires (get_or at settings.now))) [
        | inl l ↦ rw (o, l) (Moves-refl s)
        | inr l ↦ rw (o, l) (generation_of-Moves u.pk s)
      ]
    ]

    conclude-Moves :
        (u : User) (b : Bool) (s s' : State)
        → Moves secrets user t s s'
        → Moves secrets user t s (conclude secrets settings u b s').1
    conclude-Moves u true s s' f = record { kept = f.kept; set = f.set; drawn = f.drawn }
    conclude-Moves u false s s' f = record { kept = f.kept; set = f.set; drawn = f.drawn }

    pub consume_popped-Moves :
        (u : User) (at : Option ℕ) (popped : Option Payload) (s : State)
        → Moves secrets user t s (consume_popped secrets settings u at popped s).1
    unfolding consume_popped
    consume_popped-Moves u at none s = conclude-Moves u false s s (Moves-refl s)
    consume_popped-Moves u at (some q) s =
        conclude-Moves u (still_valid secrets settings q u at s).0 s
          (still_valid secrets settings q u at s).1 (still_valid-Moves q u at s)

    consume_once-Moves :
        (t' : ℕ) (p : Payload) (u : User) (at : Option ℕ) (s : State)
        → Moves secrets user t s (consume_once secrets settings t' p u at s).1
    unfolding consume_once
    consume_once-Moves t' p u at s =
        let popped = atomic_pop settings.redis t' p s.store in
        Moves-trans (atomic_pop-Moves settings.redis t' p s)
          (consume_popped-Moves u at popped.0 (record s { store = popped.1 }))

    consume_in_window-Moves :
        (t' : ℕ) (p : Payload) (u : User) (at : Option ℕ) (fresh : Bool) (s : State)
        → Moves secrets user t s (consume_in_window secrets settings t' p u at fresh s).1
    unfolding consume_in_window cache_add cache_set
    consume_in_window-Moves t' p u at fresh s =
        let s' = (still_valid secrets settings p u at s).1 in
        let f = still_valid-Moves p u at s in
        let g : Moves secrets user t s'
            (record s' { store = (cache_add (used t') flag s'.store).1 }) =
          record { kept = inl (ground arith); set = inl (ground arith); drawn = omega arith } in
        elim (Bool-cases (still_valid secrets settings p u at s).0) [
          | inr e ↦ rw e (conclude-Moves u false s s' f)
          | inl e ↦ rw e (
              conclude-Moves u _ s (record s' { store = (cache_add (used t') flag s'.store).1 })
                (Moves-trans f g))
        ]

    pub consume-Moves :
        (given : Option ℕ) (u : User) (at : Option ℕ) (fresh : Bool) (s : State)
        → Moves secrets user t s (consume secrets settings given u at fresh s).1
    unfolding consume consume_payload
    consume-Moves none u at fresh s = Moves-refl s
    consume-Moves (some t') u at fresh s = elim (Bool-cases u.is_active) [
      | inr a ↦ simp a (conclude-Moves u false s s (Moves-refl s))
      | inl a ↦ elim (Option-cases (payload_at (s.store (token t')))) [
        | inl e ↦ simp (a, e) (conclude-Moves u false s s (Moves-refl s))
        | inr (p, e) ↦ elim (Bool-cases (p.user_id == u.pk)) [
          | inr o ↦ simp (a, e, o) (conclude-Moves u false s s (Moves-refl s))
          | inl o ↦ elim (Bool-cases settings.window) [
            | inl w ↦ simp (a, e, o, w) (consume_in_window-Moves t' p u at fresh s)
            | inr w ↦ simp (a, e, o, w) (consume_once-Moves t' p u at s)
          ]
        ]
      ]
    ]

    mint-Moves :
        (u : User) (issued_at : ℕ) (s : State)
        → secrets s.drawn ≢ t
        → Moves secrets user t s (mint secrets settings u issued_at s).1
    unfolding mint cache_set
    mint-Moves u issued_at s other =
        let s₁ = record s { drawn = suc s.drawn } in
        let first : Moves secrets user t s s₁ = record {
          kept = inl refl;
          set = inl refl;
          drawn = omega arith;
        } in
        let f = Moves-trans first (generation_of-Moves u.pk s₁) in
        let o : nat_beq (secrets s.drawn) t ≡ false =
          ground (arith, nat_eq.same_iff (secrets s.drawn) t) in
        record { kept = rw o f.kept; set = f.set; drawn = f.drawn }

    pub issue-Moves :
        (u : User) (name : ℕ) (at : Option ℕ) (s : State)
        → secrets s.drawn ≢ t
        → Moves secrets user t s (issue secrets settings u name at s).1
    unfolding issue
    issue-Moves u name at s other = elim (Bool-cases u.is_active) [
      | inr e ↦ simp e (record { kept = inl refl; set = inl refl; drawn = omega arith })
      | inl e ↦ elim (Bool-cases (verified secrets settings u name)) [
        | inr v ↦ simp (e, v) (record { kept = inl refl; set = inl refl; drawn = omega arith })
        | inl v ↦ simp (e, v) (mint-Moves u (get_or at settings.now) s other)
      ]
    ]

  pub invalidate-Moves :
      (v : ℕ) (s : State) → Moves secrets user t s (invalidate_all_for_user secrets v s)
  unfolding invalidate_all_for_user cache_delete cache_set
  invalidate-Moves v s =
      let store₁ = cache_set (generation v) (secret (secrets s.drawn)) s.store in
      let s₁ = record s { store = store₁; drawn = suc s.drawn } in
      let first : Moves secrets user t s s₁ = record {
        kept = inl refl;
        set = elim (Bool-cases (nat_beq v user)) [
          | inl e ↦ inr (inr (s.drawn, omega arith, rw e refl))
          | inr e ↦ inl (rw e refl)
        ];
        drawn = omega arith;
      } in
      let f = Moves-trans first (delete_tokens-Moves (tokens_at (store₁ (legacy_index v))) s₁) in
      record { kept = f.kept; set = f.set; drawn = f.drawn }

  pub evict-Moves :
      (k : Key) (s : State)
      → Moves secrets user t s (record s { store = (cache_delete k s.store).1 })
  unfolding cache_delete
  evict-Moves k s = record {
    kept = elim (Bool-cases (key_beq k (token t))) [
      | inl e ↦ inr (rw e refl)
      | inr e ↦ inl (rw e refl)
    ];
    set = elim (Bool-cases (key_beq k (generation user))) [
      | inl e ↦ inr (inl (rw e refl))
      | inr e ↦ inl (rw e refl)
    ];
    drawn = omega arith;
  }
