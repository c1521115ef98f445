-- ===== src/Rest/StepUp.antt =====
-- The step-up gate of views (scoped_access/drf/permissions.py: `RequireReAuth`) over the tokens.
use django_auth_with_scoped.Base.{
  ℕ, ◌+◌, ◌≡◌, ◌<◌, ◌⊎◌, ◌∙◌, sym, ap, inl, inr, Bool, true, false, Option, some, none, arith,
  subst, get_or, Option-cases, Bool-cases,
}
use django_auth_with_scoped.Models.{User}
use django_auth_with_scoped.Reauth.{
  Settings, State, consume, issue, consumed, used, generation, secret,
}
use django_auth_with_scoped.Reauth.Use.{single_use, Reach}
use django_auth_with_scoped.Reauth.RoundTrip.{issue-consume}
use django_auth_with_scoped.Rest.{ok, raised, reauth_required}
use django_auth_with_scoped.Rest.Permissions.{reauth_has_permission}
use django_auth_with_scoped.Rest.Views.{ProofBody, ProofResponse, reauth_token, reauth_post}

module _ (secrets : ℕ → ℕ) where
  reauth_has_permission-accepts :
      (settings : Settings) (fresh : Bool) (token : Option ℕ) (user : User) (s : State)
      → (reauth_has_permission secrets settings true fresh token user s).0 ≡ ok true
      → (consume secrets settings token user none fresh s).0 ≡ true
  unfolding reauth_has_permission
  reauth_has_permission-accepts settings fresh token user s h = ground (arith, h)

  reauth_has_permission-after :
      (settings : Settings) (fresh : Bool) (token : Option ℕ) (user : User) (s : State)
      → (reauth_has_permission secrets settings true fresh token user s).1
        ≡ (consume secrets settings token user none fresh s).1
  unfolding reauth_has_permission
  reauth_has_permission-after settings fresh token user s = ground arith

  -- A token opens the gate of one request: in the mode "single_use", with step-up enabled, once a
  -- token that the service has given out has let a request through, every later request with it is
  -- answered by 403 with `reauth_required`, whichever user sends it, be the gate fresh or not, after
  -- any course of issuing, consuming, invalidating and losing cache entries, if no secret is ever
  -- drawn twice.
  pub reauth_once :
      ((i j : ℕ) → secrets i ≡ secrets j → i ≡ j)
      → (settings : Settings) (i : ℕ) (user : User) (fresh : Bool) (s : State) {s' : State}
      → i < s.drawn
      → settings.window ≡ false
      → (reauth_has_permission secrets settings true fresh (some (secrets i)) user s).0 ≡ ok true
      → Reach secrets
          (reauth_has_permission secrets settings true fresh (some (secrets i)) user s).1
          s'
      → (later : Settings) (other : User) (fresh' : Bool)
      → (reauth_has_permission secrets later true fresh' (some (secrets i)) other s').0
        ≡ raised reauth_required
  unfolding reauth_has_permission
  reauth_once distinct settings i user fresh s {s'} old single opened reach later other fresh' =
      let refused =
        single_use secrets distinct settings i user none fresh s old single
          (reauth_has_permission-accepts settings fresh (some (secrets i)) user s opened)
          (subst (λ t. Reach secrets t s')
            (reauth_has_permission-after settings fresh (some (secrets i)) user s) reach)
          later other none fresh' in
      ground (arith, refused)

  -- What the endpoint gives opens the gate: a token that `POST reauth` answers with lets its owner
  -- through `RequireReAuth` and `RequireFreshReAuth`, in either mode, until its time to live is over,
  -- where nothing happens in between. The cache holds no mark of use of the new token, and no value
  -- but a secret as the user's generation.
  pub reauth_post-opens :
      (settings later : Settings) (password : ℕ) (user : User) (body : ProofBody)
      (fresh enabled : Bool) (s : State) {t ttl : ℕ} {s' : State}
      → reauth_post secrets settings password user body s ≡ (reauth_token t ttl, s')
      → s.store (consumed t) ≡ none
      → s.store (used t) ≡ none
      → (s.store (generation user.pk) ≡ none)
        ⊎ ((g : ℕ) × (s.store (generation user.pk) ≡ some (secret g)))
      → later.now < settings.now + ttl
      → (reauth_has_permission secrets later enabled fresh (some t) user s').0 ≡ ok true
  unfolding reauth_post reauth_has_permission
  reauth_post-opens settings later password user body fresh enabled s {t} {ttl} {s'} given unclaimed
        unused known early =
      elim (Bool-cases body.has_user) [
        | inl named ↦ absurd (ground (arith, named, ap (λ (r : ProofResponse × State). r.0) given))
        | inr plain ↦
            elim (Option-cases
              (issue secrets settings user (get_or body.verifier password) none s).0) [
                | inl refused ↦
                    absurd (
                      ground (arith, plain, refused, ap (λ (r : ProofResponse × State). r.0) given))
                | inr (t', issued) ↦ elim (Bool-cases body.has_at) [
                  | inl timed ↦ absurd (
                      ground (
                        arith,
                        plain,
                        issued,
                        timed,
                        ap (λ (r : ProofResponse × State). r.0) given,
                      ))
                  | inr untimed ↦
                      let token_is = ap (λ (r : ProofResponse × State). r.0) given in
                      let after_is = ap (λ (r : ProofResponse × State). r.1) given in
                      let t_is : t' ≡ t = ground (arith, plain, issued, untimed, token_is) in
                      let ttl_is : settings.ttl ≡ ttl =
                        ground (arith, plain, issued, untimed, token_is) in
                      let after : (issue secrets settings user (get_or body.verifier password) none
                            s).1
                          ≡ s' =
                        ground (arith, plain, issued, untimed, after_is) in
                      let accepted =
                        issue-consume secrets settings later user (get_or body.verifier password)
                          none none fresh s (λ i. ((issued ∙ ap some t_is) i, after i)) unclaimed
                          unused known
                          (subst (λ k. later.now < settings.now + k) (sym ttl_is) early) in
                      elim (Bool-cases enabled) [
                        | inr off ↦ ground (arith, off)
                        | inl on ↦ ground (arith, on, accepted)
                      ]
                ]
              ]
      ]
