-- ===== src/Reauth/Use.antt =====
-- A token is used once (scoped_access/reauth/service.py, scoped_access/reauth/atomic.py), and only
-- by the user it was issued to, in time.
use django_auth_with_scoped.Base.{
  ℕ, ◌<◌, ◌≡◌, refl, ◌∙◌, sym, ap, inl, inr, Bool, true, false, Option, none, some, arith, ◌==◌,
  nat_eq, Bool-cases, Option-cases,
}
use django_auth_with_scoped.Models.{User}
use django_auth_with_scoped.Reauth.Moves.{
  Moves, consume_popped-Moves, consume-Moves, issue-Moves, invalidate-Moves, evict-Moves,
}
use django_auth_with_scoped.Reauth.{
  Key, token, Payload, Store, cache_set, cache_delete, cache_add, State, Settings, payload_at,
  atomic_pop, issue, consume_popped, consume_once, consume_payload, consume,
  invalidate_all_for_user,
}

module _ (t : ℕ) where
  atomic_pop-pops :
      (redis : Bool) (p q : Payload) (s : Store)
      → (atomic_pop redis t p s).0 ≡ some q
      → (atomic_pop redis t p s).1 (token t) ≡ none
  unfolding atomic_pop cache_delete cache_add cache_set
  atomic_pop-pops true p q s h = ground (arith, nat_eq.same_iff t t)
  atomic_pop-pops false p q s h = ground (arith, nat_eq.same_iff t t)

-- the token's key is empty, and its secret has been drawn
record IsSpent (secrets : ℕ → ℕ) (t : ℕ) (s : State) : Type 0 where
  pub gone : s.store (token t) ≡ none
  pub index : ℕ
  pub before : index < s.drawn
  pub is : secrets index ≡ t

module _ (secrets : ℕ → ℕ) where
  -- Anything that the service or the cache does.
  pub data Step (s : State) : State → Type 0 where
    issue_step :
        (settings : Settings) (user : User) (name : ℕ) (at : Option ℕ)
        → Step s (issue secrets settings user name at s).1
    consume_step :
        (settings : Settings) (given : Option ℕ) (user : User) (at : Option ℕ) (fresh : Bool)
        → Step s (consume secrets settings given user at fresh s).1
    invalidate_step : (user : ℕ) → Step s (invalidate_all_for_user secrets user s)
    evict : (k : Key) → Step s (record s { store = (cache_delete k s.store).1 })

  pub data Reach (s : State) : State → Type 0 where
    here : Reach s s
    next : {t u : State} → Reach s t → Step t u → Reach s u

  IsSpent-Moves :
      {t : ℕ} {s s' : State} → Moves secrets 0 t s s' → IsSpent secrets t s → IsSpent secrets t s'
  IsSpent-Moves f h = record {
    gone = elim f.kept [ inl e ↦ e ∙ h.gone | inr e ↦ e ];
    index = h.index;
    before = omega (arith, h.before, f.drawn);
    is = h.is;
  }

  module _ (settings : Settings) (t : ℕ) where
    popped_some :
        (user : User) (at : Option ℕ) (popped : Option Payload) (s : State)
        → (consume_popped secrets settings user at popped s).0 ≡ true
        → (q : Payload) × (popped ≡ some q)
    unfolding consume_popped
    popped_some user at none s h = absurd (ground arith)
    popped_some user at (some q) s h = (q, refl)

    consume_once-gone :
        (p : Payload) (user : User) (at : Option ℕ) (s : State)
        → (consume_once secrets settings t p user at s).0 ≡ true
        → (consume_once secrets settings t p user at s).1.store (token t) ≡ none
    unfolding consume_once
    consume_once-gone p user at s h =
        let (popped, store) = atomic_pop settings.redis t p s.store in
        let s' = record s { store = store } in
        let (q, e) = popped_some user at popped s' h in
        let gone = atomic_pop-pops t settings.redis p q s.store e in
        elim (consume_popped-Moves secrets 0 t settings user at popped s').kept [
          | inl same ↦ same ∙ gone
          | inr gone' ↦ gone'
        ]

    consume-gone :
        (user : User) (at : Option ℕ) (fresh : Bool) (s : State)
        → settings.window ≡ false
        → (consume secrets settings (some t) user at fresh s).0 ≡ true
        → (consume secrets settings (some t) user at fresh s).1.store (token t) ≡ none
    unfolding consume consume_payload
    consume-gone user at fresh s single h = elim (Bool-cases user.is_active) [
      | inr a ↦ absurd (ground arith)
      | inl a ↦ elim (Option-cases (payload_at (s.store (token t)))) [
        | inl e ↦ absurd (ground arith)
        | inr (p, e) ↦ elim (Bool-cases (p.user_id == user.pk)) [
          | inr o ↦ absurd (ground arith)
          | inl o ↦
              simp (a, e, o, single) (consume_once-gone p user at s (simp (a, e, o, single) at h))
        ]
      ]
    ]

    IsSpent-refused :
        (user : User) (at : Option ℕ) (fresh : Bool) (s : State)
        → IsSpent secrets t s
        → (consume secrets settings (some t) user at fresh s).0 ≡ false
    unfolding consume consume_payload payload_at
    IsSpent-refused user at fresh s h =
        let e : payload_at (s.store (token t)) ≡ none = ap payload_at h.gone in
        elim (Bool-cases user.is_active) [ inr a ↦ simp a | inl a ↦ simp (a, e) ]

  module _ (distinct : (i j : ℕ) → secrets i ≡ secrets j → i ≡ j) where
    Step-IsSpent : {t : ℕ} {s s' : State} → Step s s' → IsSpent secrets t s → IsSpent secrets t s'
    Step-IsSpent {t} {s} (issue_step settings user name at) h =
        IsSpent-Moves
          (issue-Moves secrets 0 t settings user name at s
            (λ e. absurd (omega (arith, h.before, distinct s.drawn h.index (e ∙ sym h.is)))))
          h
    Step-IsSpent {t} {s} (consume_step settings given user at fresh) h =
        IsSpent-Moves (consume-Moves secrets 0 t settings given user at fresh s) h
    Step-IsSpent {t} {s} (invalidate_step user) h =
        IsSpent-Moves (invalidate-Moves secrets 0 t user s) h
    Step-IsSpent {t} {s} (evict k) h = IsSpent-Moves (evict-Moves secrets 0 t k s) h

    Reach-IsSpent : {t : ℕ} {s s' : State} → Reach s s' → IsSpent secrets t s → IsSpent secrets t s'
    Reach-IsSpent here h = h
    Reach-IsSpent (next reach step) h = Step-IsSpent step (Reach-IsSpent reach h)

    -- A token is used once: in the mode "single_use", where a token that the service has given out
    -- is accepted, no later call with it is accepted, by whichever user, at whatever time, in either
    -- mode, after any course of issuing, consuming, invalidating and losing cache entries, if no
    -- secret is ever drawn twice.
    pub single_use :
        (settings : Settings) (i : ℕ) (user : User) (at : Option ℕ) (fresh : Bool) (s : State)
        {s' : State}
        → i < s.drawn
        → settings.window ≡ false
        → (consume secrets settings (some (secrets i)) user at fresh s).0 ≡ true
        → Reach (consume secrets settings (some (secrets i)) user at fresh s).1 s'
        → (later : Settings) (other : User) (at' : Option ℕ) (fresh' : Bool)
        → (consume secrets later (some (secrets i)) other at' fresh' s').0 ≡ false
    single_use settings i user at fresh s {s'} old single h reach later other at' fresh' =
        let f = consume-Moves secrets 0 (secrets i) settings (some (secrets i)) user at fresh s in
        IsSpent-refused later (secrets i) other at' fresh' s' (
          Reach-IsSpent reach (record {
            gone = consume-gone settings (secrets i) user at fresh s single h;
            index = i;
            before = omega (arith, old, f.drawn);
            is = refl;
          }))
