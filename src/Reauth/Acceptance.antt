-- ===== src/Reauth/Acceptance.antt =====
-- What an accepted token shows (scoped_access/reauth/service.py), and what a refusal leaves.
use django_auth_with_scoped.Base.{
  ℕ, ◌<◌, ◌≡◌, refl, ◌∙◌, sym, ap, ◌≢◌, inl, inr, Bool, true, false, Option, none, some, arith,
  ◌==◌, nat_eq, nat_beq, leb_iff, get_or, Bool-cases, Option-cases, subst,
}
use django_auth_with_scoped.Models.{User}
use django_auth_with_scoped.Reauth.{
  token, generation, Payload, Store, cache_set, cache_delete, cache_add, failed, State, send,
  Settings, secret_at, payload_at, atomic_pop, generation_from, generation_of, still_valid,
  conclude, consume_popped, consume_once, consume_in_window, consume_payload, consume,
}

atomic_pop-value :
    (redis : Bool) (t : ℕ) (p q : Payload) (s : Store)
    → payload_at (s (token t)) ≡ some p
    → (atomic_pop redis t p s).0 ≡ some q
    → q ≡ p
unfolding atomic_pop cache_delete cache_add cache_set
atomic_pop-value true t p q s e h = ground arith
atomic_pop-value false t p q s e h = ground arith

-- Taking a token touches no generation.
pub atomic_pop-generation :
    (redis : Bool) (t user : ℕ) (p : Payload) (s : Store)
    → (atomic_pop redis t p s).1 (generation user) ≡ s (generation user)
unfolding atomic_pop cache_delete cache_add cache_set
atomic_pop-generation true t user p s = refl
atomic_pop-generation false t user p s = ground arith

module _ (secrets : ℕ → ℕ) (settings : Settings) where
  -- What is true of the payload when it is accepted.
  pub record IsAccepted (user : User) (at : Option ℕ) (s : State) (p : Payload) : Type 0 where
    pub own : p.user_id ≡ user.pk
    pub in_time : get_or at settings.now < p.expires
    pub current : (generation_of secrets user.pk s).0 ≡ p.generation

  still_valid-IsAccepted :
      (p : Payload) (user : User) (at : Option ℕ) (s : State)
      → (still_valid secrets settings p user at s).0 ≡ true
      → IsAccepted user at s p
  unfolding still_valid
  still_valid-IsAccepted p user at s h = record {
    own = ground (arith, nat_eq.same_iff p.user_id user.pk);
    in_time = ground (arith, leb_iff p.expires (get_or at settings.now));
    current = ground (arith, nat_eq.same_iff p.generation (generation_of secrets user.pk s).0);
  }

  generation_from-same :
      (user : ℕ) (found : Option ℕ) (s s' : State)
      → s.drawn ≡ s'.drawn
      → (generation_from secrets user found s).0 ≡ (generation_from secrets user found s').0
  unfolding generation_from
  generation_from-same user none s s' e = ap secrets e
  generation_from-same user (some g) s s' e = refl

  -- the generation is what it is, whatever happens to other keys
  generation_of-same :
      (user : ℕ) (s s' : State)
      → s.store (generation user) ≡ s'.store (generation user)
      → s.drawn ≡ s'.drawn
      → (generation_of secrets user s).0 ≡ (generation_of secrets user s').0
  unfolding generation_of
  generation_of-same user s s' e d =
      ap (λ v. (generation_from secrets user (secret_at v) s).0) e
      ∙ generation_from-same user (secret_at (s'.store (generation user))) s s' d

  conclude-value : (user : User) (b : Bool) (s : State) → (conclude secrets settings user b s).0 ≡ b
  conclude-value user true s = refl
  conclude-value user false s = refl

  consume_once-IsAccepted :
      (t : ℕ) (p : Payload) (user : User) (at : Option ℕ) (s : State)
      → payload_at (s.store (token t)) ≡ some p
      → (consume_once secrets settings t p user at s).0 ≡ true
      → IsAccepted user at s p
  unfolding consume_once consume_popped
  consume_once-IsAccepted t p user at s e h =
      let (popped, store) = atomic_pop settings.redis t p s.store in
      let s' = record s { store = store } in
      elim (Option-cases popped) [
        | inl none_popped ↦ absurd (ground arith)
        | inr (q, some_popped) ↦
            let same : q ≡ p = atomic_pop-value settings.redis t p q s.store e some_popped in
            let valid : (still_valid secrets settings q user at s').0 ≡ true = ground (
              arith,
              conclude-value user (still_valid secrets settings q user at s').0
                  (still_valid secrets settings q user at s').1,
            ) in
            let a = still_valid-IsAccepted q user at s' valid in
            subst (IsAccepted user at s) same (record {
              own = a.own;
              in_time = a.in_time;
              current =
                  generation_of-same user.pk s s'
                    (sym (atomic_pop-generation settings.redis t user.pk p s.store)) refl
                  ∙ a.current;
            })
      ]

  consume_in_window-IsAccepted :
      (t : ℕ) (p : Payload) (user : User) (at : Option ℕ) (fresh : Bool) (s : State)
      → (consume_in_window secrets settings t p user at fresh s).0 ≡ true
      → IsAccepted user at s p
  unfolding consume_in_window
  consume_in_window-IsAccepted t p user at fresh s h =
      elim (Bool-cases (still_valid secrets settings p user at s).0) [
        | inl e ↦ still_valid-IsAccepted p user at s e
        | inr e ↦ absurd (ground arith)
      ]

  -- A token is accepted, in either mode, only if the account is active, the token's payload is
  -- stored, it was issued to that user, it has not expired at the time of the call, and it carries
  -- the user's current generation.
  pub consume-IsAccepted :
      (t : ℕ) (user : User) (at : Option ℕ) (fresh : Bool) (s : State)
      → (consume secrets settings (some t) user at fresh s).0 ≡ true
      → (user.is_active ≡ true)
        × (p : Payload) × (payload_at (s.store (token t)) ≡ some p)
        × IsAccepted user at s p
  unfolding consume consume_payload
  consume-IsAccepted t user at fresh s h = elim (Bool-cases user.is_active) [
    | inr a ↦ absurd (ground arith)
    | inl a ↦ elim (Option-cases (payload_at (s.store (token t)))) [
      | inl e ↦ absurd (ground arith)
      | inr (p, e) ↦ elim (Bool-cases (p.user_id == user.pk)) [
        | inr o ↦ absurd (ground arith)
        | inl o ↦ elim (Bool-cases settings.window) [
          | inl w ↦
              (a, p, e, consume_in_window-IsAccepted t p user at fresh s (simp (a, e, o, w) at h))
          | inr w ↦ (a, p, e, consume_once-IsAccepted t p user at s e (simp (a, e, o, w) at h))
        ]
      ]
    ]
  ]

  -- A token that was issued to another user is refused, and the cache is as before: the attempt
  -- neither uses the token up nor draws a secret.
  pub foreign_keeps :
      (t : ℕ) (user : User) (at : Option ℕ) (fresh : Bool) (s : State) (p : Payload)
      → payload_at (s.store (token t)) ≡ some p
      → p.user_id ≢ user.pk
      → ((consume secrets settings (some t) user at fresh s).0 ≡ false)
        × ((consume secrets settings (some t) user at fresh s).1 ≡ send (failed user.pk) s)
  unfolding consume consume_payload
  foreign_keeps t user at fresh s p e other =
      let o : nat_beq p.user_id user.pk ≡ false =
        ground (arith, nat_eq.same_iff p.user_id user.pk) in
      elim (Bool-cases user.is_active) [
        | inr a ↦ simp a (refl, refl)
        | inl a ↦ simp (a, e, o) (refl, refl)
      ]
