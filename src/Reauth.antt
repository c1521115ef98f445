-- ===== src/Reauth.antt =====
-- Step-up tokens (scoped_access/reauth/service.py: `ReAuthService`; scoped_access/reauth/atomic.py:
-- `atomic_pop`; scoped_access/reauth/verifiers.py), over the cache backend.
pub mod Use
pub mod Acceptance
pub mod Moves
pub mod Invalidation
pub mod Receivers
pub mod RoundTrip
use django_auth_with_scoped.Base.{
  ℕ, suc, ◌+◌, ◌≡◌, ◌↔◌, Bool, true, false, not, ◌&&◌, ◌||◌, Option, none, some, List, [], ◌∷◌,
  ◌++◌, arith, if◌then◌else◌, HasEq, ◌==◌, nat_eq, leb, is_some, get_or, Dict, lookup, put,
}
use django_auth_with_scoped.Models.{User}

-- the keys that the service uses, by their prefix
pub data Key : Type 0 where
  token generation legacy_index used consumed : ℕ → Key

abbrev pub key_beq : Key → Key → Bool
key_beq (token m) (token n) = m == n
key_beq (generation m) (generation n) = m == n
key_beq (legacy_index m) (legacy_index n) = m == n
key_beq (used m) (used n) = m == n
key_beq (consumed m) (consumed n) = m == n
key_beq _ _ = false

-- the payload of a token
pub record Payload : Type 0 where
  pub user_id : ℕ
  pub generation : ℕ
  pub expires : ℕ

pub data Value : Type 0 where
  payload : Payload → Value
  secret : ℕ → Value
  flag : Value
  tokens : List ℕ → Value

-- The cache maps a key to a value. An entry may go at any time, which is a step of its own.
abbrev pub Store : Type 0
Store = Key → Option Value

unfoldable pub cache_set : Key → Value → Store → Store
cache_set k v s = λ j. if key_beq k j then some v else s j

unfoldable pub cache_delete : Key → Store → Bool × Store
cache_delete k s = (is_some (s k), λ j. if key_beq k j then none else s j)

-- `cache.add`: sets the key only if it is missing
unfoldable pub cache_add : Key → Value → Store → Bool × Store
cache_add k v s = if is_some (s k) then (false, s) else (true, cache_set k v s)

pub data Event : Type 0 where
  issued consumed_event failed : ℕ → Event

-- The cache, how many secrets have been drawn, and the signals sent.
pub record State : Type 0 where
  pub store : Store
  pub drawn : ℕ
  pub events : List Event

abbrev pub send : Event → State → State
send e s = record s { events = s.events ++ e ∷ [] }

-- `get_config().reauth`, the registered verifiers with the proof they are given, the clock, and
-- whether the backend has an atomic read-and-delete.
pub record Settings : Type 0 where
  pub ttl : ℕ
  pub window : Bool
  pub verifiers : Dict ℕ (User → Bool)
  pub now : ℕ
  pub redis : Bool

-- the secret under a key that holds one, and the payload under a token's key
unfoldable pub secret_at : Option Value → Option ℕ
secret_at (some (secret g)) = some g
secret_at _ = none

unfoldable pub payload_at : Option Value → Option Payload
payload_at (some (payload p)) = some p
payload_at _ = none

-- `verifiers.register`
unfoldable pub register_verifier : ℕ → (User → Bool) → Dict ℕ (User → Bool) → Dict ℕ (User → Bool)
unfolding put
register_verifier name verify registered = put name verify registered

-- `atomic_pop`: what it returns, and the cache after it
unfoldable pub atomic_pop : Bool → ℕ → Payload → Store → Option Payload × Store
atomic_pop true t observed s = (payload_at (s (token t)), (cache_delete (token t) s).1)
atomic_pop false t observed s =
    let (claimed, s₁) = cache_add (consumed t) flag s in
    let (deleted, s₂) = cache_delete (token t) s₁ in
    if not claimed then (none, s₁) else if not deleted then (none, s₂) else (some observed, s₂)

-- the tokens of an index of earlier versions
unfoldable pub delete_tokens : List ℕ → Store → Store
delete_tokens [] s = s
delete_tokens (t ∷ ts) s = delete_tokens ts (cache_delete (token t) s).1

unfoldable pub tokens_at : Option Value → List ℕ
tokens_at (some (tokens ts)) = ts
tokens_at _ = []

-- `secrets`, which gives its values one after the other
module _ (secrets : ℕ → ℕ) where
  -- `_generation`, once the cache is read; no other worker comes between the read and `add`
  unfoldable pub generation_from : ℕ → Option ℕ → State → ℕ × State
  generation_from user (some g) s = (g, s)
  generation_from user none s = (
    secrets s.drawn,
    record s {
      store = (cache_add (generation user) (secret (secrets s.drawn)) s.store).1;
      drawn = suc s.drawn;
    },
  )

  -- `_generation`
  unfoldable pub generation_of : ℕ → State → ℕ × State
  generation_of user s = generation_from user (secret_at (s.store (generation user))) s

  module _ (settings : Settings) where
    unfoldable pub verified : User → ℕ → Bool
    verified user name = elim (lookup name settings.verifiers) [
      | none ↦ false
      | some verify ↦ verify user
    ]

    -- the minting of a token, which is drawn before the generation
    unfoldable pub mint : User → ℕ → State → ℕ × State
    mint user issued_at s =
        let t = secrets s.drawn in
        let (g, s') = generation_of user.pk (record s { drawn = suc s.drawn }) in
        let p : Payload = record {
          user_id = user.pk;
          generation = g;
          expires = issued_at + settings.ttl;
        } in
        (t, send (issued user.pk) (record s' { store = cache_set (token t) (payload p) s'.store }))

    -- `issue`
    unfoldable pub issue : User → ℕ → Option ℕ → State → Option ℕ × State
    issue user name at s =
        let (t, minted) = mint user (get_or at settings.now) s in
        if not user.is_active
        then (none, send (failed user.pk) s)
        else if not (verified user name)
        then (none, send (failed user.pk) s)
        else (some t, minted)

    -- `_still_valid`; the generation is read only if the rest holds
    unfoldable pub still_valid : Payload → User → Option ℕ → State → Bool × State
    still_valid p user at s =
        let (g, s') = generation_of user.pk s in
        if not (p.user_id == user.pk)
        then (false, s)
        else if leb p.expires (get_or at settings.now)
        then (false, s)
        else (p.generation == g, s')

    -- the end of `consume`, with what it sends
    abbrev pub conclude : User → Bool → State → Bool × State
    conclude user true s = (true, send (consumed_event user.pk) s)
    conclude user false s = (false, send (failed user.pk) s)

    -- the single-use branch of `consume`, once the token is popped
    unfoldable pub consume_popped : User → Option ℕ → Option Payload → State → Bool × State
    consume_popped user at none s = conclude user false s
    consume_popped user at (some q) s =
        conclude user (still_valid q user at s).0 (still_valid q user at s).1

    unfoldable pub consume_once : ℕ → Payload → User → Option ℕ → State → Bool × State
    consume_once t p user at s =
        let (popped, store) = atomic_pop settings.redis t p s.store in
        consume_popped user at popped (record s { store = store })

    -- `_consume_in_window`
    unfoldable pub consume_in_window : ℕ → Payload → User → Option ℕ → Bool → State → Bool × State
    consume_in_window t p user at fresh s =
        let (valid, s') = still_valid p user at s in
        let (first_use, store) = cache_add (used t) flag s'.store in
        if not valid
        then conclude user false s'
        else conclude user (not (fresh && not first_use)) (record s' { store = store })

    unfoldable pub consume_payload :
        ℕ → Option Payload → User → Option ℕ → Bool → State → Bool × State
    consume_payload t none user at fresh s = conclude user false s
    consume_payload t (some p) user at fresh s =
        if not (p.user_id == user.pk)
        then conclude user false s
        else if settings.window
        then consume_in_window t p user at fresh s
        else consume_once t p user at s

    -- `consume`; a missing token is not a failure that is signalled
    unfoldable pub consume : Option ℕ → User → Option ℕ → Bool → State → Bool × State
    consume none user at fresh s = (false, s)
    consume (some t) user at fresh s =
        if not user.is_active
        then conclude user false s
        else consume_payload t (payload_at (s.store (token t))) user at fresh s

  -- `invalidate_all_for_user`
  unfoldable pub invalidate_all_for_user : ℕ → State → State
  invalidate_all_for_user user s =
      let store₁ = cache_set (generation user) (secret (secrets s.drawn)) s.store in
      let store₂ = delete_tokens (tokens_at (store₁ (legacy_index user))) store₁ in
      record s { store = (cache_delete (legacy_index user) store₂).1; drawn = suc s.drawn }
