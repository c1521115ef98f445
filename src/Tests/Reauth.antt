-- ===== src/Tests/Reauth.antt =====
-- The step-up tokens (scoped_access/reauth) in a run: user 1 is given a token, user 2 tries it, user
-- 1 uses it, and tries it again.
use django_auth_with_scoped.Base.{
  ℕ, inl, ◌<◌, ◌≡◌, refl, true, false, none, some, [], ◌∷◌, arith, lookup,
}
use django_auth_with_scoped.Reauth
use django_auth_with_scoped.Reauth.{Settings, State, Payload, issue, consume, send}
use django_auth_with_scoped.Reauth.RoundTrip.{issue-consume}
use django_auth_with_scoped.Reauth.Use.{Reach, Step, single_use}
use django_auth_with_scoped.Reauth.Invalidation.{invalidated_refused}
use django_auth_with_scoped.Reauth.Acceptance.{IsAccepted, consume-IsAccepted}
use django_auth_with_scoped.Reauth.Receivers.{
  Instance, Save, writes_password, save_user, password_change_refused,
}
use django_auth_with_scoped.Tests.{person}

abbrev draw : ℕ → ℕ
draw i = i

abbrev settings : Settings
settings = record {
  ttl = 300;
  window = false;
  verifiers = (0, λ u. true) ∷ [];
  now = 100;
  redis = false;
}

abbrev at_start : State
at_start = record { store = λ k. none; drawn = 0; events = [] }

abbrev given : State
given = (issue draw settings (person 1) 0 none at_start).1

abbrev spent : State
spent = (consume draw settings (some 0) (person 1) none false given).1

abbrev in_store : Payload
in_store = record { user_id = 1; generation = 1; expires = 400 }

runs :
    ((consume draw settings (some 0) (person 1) none false given).0 ≡ true)
    × ((consume draw settings (some 0) (person 2) none false given).0 ≡ false)
    × ((consume draw settings (some 0) (person 1) none false spent).0 ≡ false)
    × ((consume draw settings (some 0) (person 1) (some 400) false given).0 ≡ false)
    × ((consume draw settings
          (some 0)
          (person 1)
          none
          false
          (Reauth.invalidate_all_for_user draw 1 given)).0
        ≡ false)
    × (Reauth.payload_at (given.store (Reauth.token 0)) ≡ some in_store)
    × (given.drawn ≡ 2)
unfolding issue consume Reauth.consume_payload Reauth.consume_once Reauth.consume_popped
    Reauth.still_valid Reauth.generation_of Reauth.generation_from Reauth.secret_at
    Reauth.payload_at Reauth.atomic_pop Reauth.cache_add Reauth.cache_set Reauth.cache_delete
    Reauth.mint Reauth.verified Reauth.invalidate_all_for_user Reauth.delete_tokens Reauth.tokens_at
    lookup
runs = (refl, refl, refl, refl, refl, refl, refl)

drawn_before : 0 < given.drawn
drawn_before = rw (runs.6) (omega arith)

unmarked :
    (at_start.store (Reauth.consumed 0) ≡ none)
    × (at_start.store (Reauth.used 0) ≡ none)
    × (at_start.store (Reauth.generation 1) ≡ none)
    × (issue draw settings (person 1) 0 none at_start ≡ (some 0, given))
unfolding issue lookup Reauth.verified Reauth.mint Reauth.generation_of Reauth.generation_from
    Reauth.secret_at Reauth.cache_add Reauth.cache_set
unmarked = (refl, refl, refl, refl)

issue-consume_example : (consume draw settings (some 0) (person 1) (some 150) true given).0 ≡ true
issue-consume_example =
    issue-consume draw settings settings (person 1) 0 none (some 150) true at_start (unmarked.3)
      unmarked.0 unmarked.1 (inl unmarked.2) (omega arith)

single_use_example :
    (consume draw settings
      (some 0)
      (person 1)
      (some 150)
      true
      (consume draw settings (some 0) (person 2) none false spent).1).0
    ≡ false
single_use_example =
    single_use draw (λ i j e. e) settings 0 (person 1) none false given drawn_before refl runs.0
      (Reach.next Reach.here (Step.consume_step settings (some 0) (person 2) none false)) settings
      (person 1) (some 150) true

generation_before : 1 < given.drawn
generation_before = rw (runs.6) (omega arith)

invalidated_refused_example :
    (consume draw settings
      (some 0)
      (person 1)
      none
      false
      (record (Reauth.invalidate_all_for_user draw 1 given) {
        store =
            (Reauth.cache_delete
              (Reauth.generation 1)
              (Reauth.invalidate_all_for_user draw 1 given).store).1;
      })).0
    ≡ false
invalidated_refused_example =
    invalidated_refused draw (λ i j e. e) (person 1) 0 1 given in_store drawn_before runs.5
      generation_before refl (Reach.next Reach.here (Step.evict (Reauth.generation 1))) settings
      none false

abbrev saved : Instance
saved = record { pk = some 1; password = 8; password_changed = none }

abbrev in_full : Save
in_full = record { raw = false; update_fields = none }

writes_all : writes_password none ≡ true
unfolding writes_password
writes_all = refl

password_change_refused_example :
    (consume draw settings
      (some 0)
      (person 1)
      none
      false
      (save_user draw in_full 1 saved (λ k. some 7) given).1.1).0
    ≡ false
password_change_refused_example =
    password_change_refused draw (λ i j e. e) in_full (person 1) saved (λ k. some 7) 7 0 1 given
      in_store refl writes_all refl (λ e. absurd (ground (arith, e))) drawn_before runs.5
      generation_before refl Reach.here settings none false

consume-IsAccepted_example :
    (true ≡ true)
    × (p : Payload) × (Reauth.payload_at (given.store (Reauth.token 0)) ≡ some p)
    × IsAccepted draw settings (person 1) none given p
consume-IsAccepted_example = consume-IsAccepted draw settings 0 (person 1) none false given runs.0
