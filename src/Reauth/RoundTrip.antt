-- ===== src/Reauth/RoundTrip.antt =====
-- A token that the service issues is accepted (scoped_access/reauth/service.py: `issue`, then
-- `consume`).
use django_auth_with_scoped.Base.{
  ℕ, suc, ◌+◌, ◌<◌, ◌≡◌, ◌⊎◌, refl, ◌∙◌, sym, ap, inl, inr, Bool, true, false, Option, none, some,
  arith, nat_eq, leb_iff, get_or, subst, Bool-cases,
}
use django_auth_with_scoped.Models.{User}
use django_auth_with_scoped.Reauth.{
  token, generation, used, consumed, Payload, payload, secret, State, Settings, cache_set,
  cache_add, cache_delete, secret_at, payload_at, atomic_pop, generation_from, generation_of, mint,
  issue, verified, still_valid, consume_popped, consume_once, consume_in_window, consume_payload,
  consume,
}

-- a state in which a token can be used: it holds the payload, the user's generation is the one of
-- the payload, and it bears no mark of use
record IsUsable (s : State) (t : ℕ) (p : Payload) : Type 0 where
  held : s.store (token t) ≡ some (payload p)
  current : s.store (generation p.user_id) ≡ some (secret p.generation)
  unclaimed : s.store (consumed t) ≡ none
  unused : s.store (used t) ≡ none

module _ (secrets : ℕ → ℕ) where
  module _ (settings : Settings) (user : User) (at : Option ℕ) (p : Payload)
      (owned : p.user_id ≡ user.pk) (early : get_or at settings.now < p.expires) where
    still_valid_current :
        (s : State)
        → s.store (generation p.user_id) ≡ some (secret p.generation)
        → still_valid secrets settings p user at s ≡ (true, s)
    unfolding still_valid generation_of generation_from secret_at
    still_valid_current s current =
        let here : s.store (generation user.pk) ≡ some (secret p.generation) =
          ap (λ k. s.store (generation k)) (sym owned) ∙ current in
        ground (
          arith,
          here,
          (nat_eq.same_iff p.user_id user.pk).1 owned,
          early,
          (nat_eq.same_iff p.generation p.generation).1 refl,
          leb_iff p.expires (get_or at settings.now),
        )

    in_window_accepted :
        (s : State) (t : ℕ) (fresh : Bool)
        → IsUsable s t p
        → (consume_in_window secrets settings t p user at fresh s).0 ≡ true
    unfolding consume_in_window cache_add
    in_window_accepted s t true usable =
        ground (arith, still_valid_current s usable.current, usable.unused)
    in_window_accepted s t false usable =
        ground (arith, still_valid_current s usable.current, usable.unused)

    -- a token that can be used is popped, and the generation stays
    popped :
        (s : State) (t : ℕ)
        → IsUsable s t p
        → ((atomic_pop settings.redis t p s.store).0 ≡ some p)
          × ((atomic_pop settings.redis t p s.store).1 (generation p.user_id)
              ≡ some (secret p.generation))
    unfolding atomic_pop cache_add cache_delete cache_set payload_at
    popped s t usable = elim (Bool-cases settings.redis) [
      | inl redis ↦ ground (arith, redis, usable.held, usable.current)
      | inr portable ↦ ground (arith, portable, usable.held, usable.current, usable.unclaimed)
    ]

    once_accepted :
        (s : State) (t : ℕ)
        → IsUsable s t p
        → (consume_once secrets settings t p user at s).0 ≡ true
    unfolding consume_once consume_popped
    once_accepted s t usable =
        let (value, current) = popped s t usable in
        let valid =
          still_valid_current (record s { store = (atomic_pop settings.redis t p s.store).1 })
            current in
        ground (arith, value, valid)

    usable_accepted :
        (s : State) (t : ℕ) (fresh : Bool)
        → user.is_active ≡ true
        → IsUsable s t p
        → (consume secrets settings (some t) user at fresh s).0 ≡ true
    unfolding consume consume_payload payload_at
    usable_accepted s t fresh active usable =
        let mine = (nat_eq.same_iff p.user_id user.pk).1 owned in
        elim (Bool-cases settings.window) [
          | inl window ↦
              ground (arith, active, usable.held, mine, window, in_window_accepted s t fresh usable)
          | inr single ↦ ground (arith, active, usable.held, mine, single, once_accepted s t usable)
        ]

  -- the generation that a new token is given, and the cache with it
  generation_known :
      (user : ℕ) (s : State)
      → (s.store (generation user) ≡ none)
        ⊎ ((g : ℕ) × (s.store (generation user) ≡ some (secret g)))
      → ((generation_of secrets user s).1.store (generation user)
          ≡ some (secret (generation_of secrets user s).0))
        × ((t : ℕ)
            → ((generation_of secrets user s).1.store (consumed t) ≡ s.store (consumed t))
              × ((generation_of secrets user s).1.store (used t) ≡ s.store (used t)))
  unfolding generation_of generation_from secret_at cache_add cache_set
  generation_known user s (inr (g, known)) =
      (ground (arith, known), λ t. (ground (arith, known), ground (arith, known)))
  generation_known user s (inl missing) = (
    ground (arith, missing, (nat_eq.same_iff user user).1 refl),
    λ t. (ground (arith, missing), ground (arith, missing)),
  )

  -- the payload of the token that is minted next
  abbrev payload_of : Settings → User → ℕ → State → Payload
  payload_of settings user issued_at s = record {
    user_id = user.pk;
    generation = (generation_of secrets user.pk (record s { drawn = suc s.drawn })).0;
    expires = issued_at + settings.ttl;
  }

  minted :
      (settings : Settings) (user : User) (issued_at : ℕ) (s : State)
      → s.store (consumed (secrets s.drawn)) ≡ none
      → s.store (used (secrets s.drawn)) ≡ none
      → (s.store (generation user.pk) ≡ none)
        ⊎ ((g : ℕ) × (s.store (generation user.pk) ≡ some (secret g)))
      → IsUsable
          (mint secrets settings user issued_at s).1
          (secrets s.drawn)
          (payload_of settings user issued_at s)
  unfolding mint cache_set
  minted settings user issued_at s unclaimed unused known =
      let (current, marks) = generation_known user.pk (record s { drawn = suc s.drawn }) known in
      record {
        held = ground (arith, (nat_eq.same_iff (secrets s.drawn) (secrets s.drawn)).1 refl);
        current = current;
        unclaimed = (marks (secrets s.drawn)).0 ∙ unclaimed;
        unused = (marks (secrets s.drawn)).1 ∙ unused;
      }

  issue-shape :
      (settings : Settings) (user : User) (name : ℕ) (at : Option ℕ) (s : State) {t : ℕ}
      {s' : State}
      → issue secrets settings user name at s ≡ (some t, s')
      → (user.is_active ≡ true)
        × (secrets s.drawn ≡ t)
        × ((mint secrets settings user (get_or at settings.now) s).1 ≡ s')
  unfolding issue mint
  issue-shape settings user name at s {t} {s'} given = elim (Bool-cases user.is_active) [
    | inr inactive ↦ absurd (ground (arith, inactive, ap (λ (r : Option ℕ × State). r.0) given))
    | inl active ↦ elim (Bool-cases (verified secrets settings user name)) [
      | inr refused ↦
          absurd (ground (arith, active, refused, ap (λ (r : Option ℕ × State). r.0) given))
      | inl accepted ↦ (
        active,
        ground (arith, active, accepted, ap (λ (r : Option ℕ × State). r.0) given),
        ground (arith, active, accepted, ap (λ (r : Option ℕ × State). r.1) given),
      )
    ]
  ]

  -- A token goes round: a token that `issue` returns is accepted from its owner, in either mode and
  -- be the gate fresh or not, at any time before it expires, by whichever cache backend, where
  -- nothing happens in between. The cache holds no mark of use of the new token, and no value but a
  -- secret as the user's generation.
  pub issue-consume :
      (settings later : Settings) (user : User) (name : ℕ) (at at' : Option ℕ) (fresh : Bool)
      (s : State) {t : ℕ} {s' : State}
      → issue secrets settings user name at s ≡ (some t, s')
      → s.store (consumed t) ≡ none
      → s.store (used t) ≡ none
      → (s.store (generation user.pk) ≡ none)
        ⊎ ((g : ℕ) × (s.store (generation user.pk) ≡ some (secret g)))
      → get_or at' later.now < get_or at settings.now + settings.ttl
      → (consume secrets later (some t) user at' fresh s').0 ≡ true
  issue-consume settings later user name at at' fresh s {t} {s'} given unclaimed unused known
        early =
      let (active, t_is, s_is) = issue-shape settings user name at s given in
      let usable =
        minted settings user (get_or at settings.now) s
          (ap (λ k. s.store (consumed k)) t_is ∙ unclaimed)
          (ap (λ k. s.store (used k)) t_is ∙ unused) known in
      subst (λ k. (consume secrets later (some k) user at' fresh s').0 ≡ true) t_is
        (subst
          (λ after. (consume secrets later (some (secrets s.drawn)) user at' fresh after).0 ≡ true)
          s_is
          (usable_accepted later user at' (payload_of settings user (get_or at settings.now) s) refl
            early (mint secrets settings user (get_or at settings.now) s).1 (secrets s.drawn) fresh
            active usable))
