-- ===== src/Reauth/Invalidation.antt =====
-- `invalidate_all_for_user` ends every token of the user (scoped_access/reauth/service.py).
use django_auth_with_scoped.Base.{
  ℕ, ◌<◌, ◌≤◌, ◌≡◌, refl, ◌∙◌, sym, ap, inl, inr, Bool, false, Option, none, some, arith, nat_eq,
  Bool-cases,
}
use django_auth_with_scoped.Models.{User}
use django_auth_with_scoped.Reauth.{
  token, generation, Payload, secret, State, Settings, secret_at, payload_at, generation_from,
  generation_of, consume, invalidate_all_for_user, cache_set, cache_delete, legacy_index, tokens_at,
}
use django_auth_with_scoped.Reauth.Use.{
  Step, issue_step, consume_step, invalidate_step, evict, Reach, here, next,
}
use django_auth_with_scoped.Reauth.Acceptance.{consume-IsAccepted}
use django_auth_with_scoped.Reauth.Moves.{
  Moves, delete_tokens-generation, consume-Moves, issue-Moves, invalidate-Moves, evict-Moves,
}

-- A token whose generation was drawn before the time `k`, while the user's is drawn later.
record IsOutdated (secrets : ℕ → ℕ) (user k t : ℕ) (s : State) : Type 0 where
  pub old :
      (p : Payload)
      → payload_at (s.store (token t)) ≡ some p
      → (i : ℕ) × (i < k) × (secrets i ≡ p.generation)
  pub current :
      (g : ℕ) → secret_at (s.store (generation user)) ≡ some g → (j : ℕ) × (k ≤ j) × (secrets j ≡ g)
  pub counted : k ≤ s.drawn
  pub index : ℕ
  pub before : index < k
  pub is : secrets index ≡ t

module _ (secrets : ℕ → ℕ) (user t : ℕ) where
  IsOutdated-Moves :
      {k : ℕ} {s s' : State}
      → Moves secrets user t s s'
      → IsOutdated secrets user k t s
      → IsOutdated secrets user k t s'
  unfolding payload_at secret_at
  IsOutdated-Moves {k} {s} {s'} f h = record {
    old = λ p e. elim f.kept [
      | inl d ↦ h.old p (ap payload_at (sym d) ∙ e)
      | inr d ↦ absurd (ground arith)
    ];
    current = λ g e. elim f.set [
      | inl d ↦ h.current g (ap secret_at (sym d) ∙ e)
      | inr (inl d) ↦ absurd (ground arith)
      | inr (inr (j, le, d)) ↦ (j, omega (arith, le, h.counted), ground arith)
    ];
    counted = omega (arith, h.counted, f.drawn);
    index = h.index;
    before = h.before;
    is = h.is;
  }

  generation_from-current :
      (found : Option ℕ) (k : ℕ) (s : State)
      → k ≤ s.drawn
      → ((g : ℕ) → found ≡ some g → (j : ℕ) × (k ≤ j) × (secrets j ≡ g))
      → (j : ℕ) × (k ≤ j) × (secrets j ≡ (generation_from secrets user found s).0)
  unfolding generation_from
  generation_from-current none k s le h = (s.drawn, le, refl)
  generation_from-current (some g) k s le h = h g refl

module _ (secrets : ℕ → ℕ) (distinct : (i j : ℕ) → secrets i ≡ secrets j → i ≡ j) where
  module _ {user k t : ℕ} where
    Step-IsOutdated :
        {s s' : State}
        → Step secrets s s'
        → IsOutdated secrets user k t s
        → IsOutdated secrets user k t s'
    Step-IsOutdated {s} (issue_step settings u name at) h =
        IsOutdated-Moves secrets user t
          (issue-Moves secrets user t settings u name at s (λ e.
            absurd (omega (arith, h.before, h.counted, distinct s.drawn h.index (e ∙ sym h.is)))))
          h
    Step-IsOutdated {s} (consume_step settings given u at fresh) h =
        IsOutdated-Moves secrets user t (consume-Moves secrets user t settings given u at fresh s) h
    Step-IsOutdated {s} (invalidate_step v) h =
        IsOutdated-Moves secrets user t (invalidate-Moves secrets user t v s) h
    Step-IsOutdated {s} (evict key) h =
        IsOutdated-Moves secrets user t (evict-Moves secrets user t key s) h

    Reach-IsOutdated :
        {s s' : State}
        → Reach secrets s s'
        → IsOutdated secrets user k t s
        → IsOutdated secrets user k t s'
    Reach-IsOutdated here h = h
    Reach-IsOutdated (next reach step) h = Step-IsOutdated step (Reach-IsOutdated reach h)

  IsOutdated-refused :
      (settings : Settings) (user : User) (k t : ℕ) (at : Option ℕ) (fresh : Bool) (s : State)
      → IsOutdated secrets user.pk k t s
      → (consume secrets settings (some t) user at fresh s).0 ≡ false
  unfolding generation_of
  IsOutdated-refused settings user k t at fresh s h =
      elim (Bool-cases (consume secrets settings (some t) user at fresh s).0) [
        | inr e ↦ e
        | inl e ↦
            let (_, p, stored, accepted) =
              consume-IsAccepted secrets settings t user at fresh s e in
            let (i, early, is_i) = h.old p stored in
            let (j, late, is_j) =
              generation_from-current secrets user.pk t (secret_at (s.store (generation user.pk))) k
                s h.counted h.current in
            absurd
              (omega (arith, early, late, distinct i j (is_i ∙ sym accepted.current ∙ sym is_j)))
      ]

  invalidated_generation :
      (user : ℕ) (s : State)
      → (invalidate_all_for_user secrets user s).store (generation user)
        ≡ some (secret (secrets s.drawn))
  unfolding invalidate_all_for_user cache_delete cache_set
  invalidated_generation user s =
      let store₁ = cache_set (generation user) (secret (secrets s.drawn)) s.store in
      delete_tokens-generation user (tokens_at (store₁ (legacy_index user))) store₁
      ∙ ground (arith, nat_eq.same_iff user user)

  invalidated-IsOutdated :
      (user i j : ℕ) (s : State) (p : Payload)
      → i < s.drawn
      → payload_at (s.store (token (secrets i))) ≡ some p
      → j < s.drawn
      → secrets j ≡ p.generation
      → IsOutdated secrets user s.drawn (secrets i) (invalidate_all_for_user secrets user s)
  unfolding payload_at secret_at
  invalidated-IsOutdated user i j s p early stored drawn_before is_j =
      let f = invalidate-Moves secrets user (secrets i) user s in
      record {
        old = λ q e. elim f.kept [
          | inl d ↦
              let both : some q ≡ some p = sym e ∙ ap payload_at d ∙ stored in
              let same : p ≡ q = cc in
              (j, drawn_before, is_j ∙ ap (λ (x : Payload). x.generation) same)
          | inr d ↦ absurd (ground arith)
        ];
        current = λ g e.
            (s.drawn, omega arith, ground (arith, ap secret_at (invalidated_generation user s)));
        counted = f.drawn;
        index = i;
        before = early;
        is = refl;
      }

  -- After `invalidate_all_for_user` no token that was in the cache for the user is accepted any more,
  -- after any course of issuing, consuming, invalidating and losing cache entries, the generation
  -- included, if no secret is ever drawn twice and the token's generation had been drawn.
  pub invalidated_refused :
      (user : User) (i j : ℕ) (s : State) (p : Payload) {s' : State}
      → i < s.drawn
      → payload_at (s.store (token (secrets i))) ≡ some p
      → j < s.drawn
      → secrets j ≡ p.generation
      → Reach secrets (invalidate_all_for_user secrets user.pk s) s'
      → (settings : Settings) (at : Option ℕ) (fresh : Bool)
      → (consume secrets settings (some (secrets i)) user at fresh s').0 ≡ false
  invalidated_refused user i j s p {s'} early stored drawn_before is_j reach settings at fresh =
      IsOutdated-refused settings user s.drawn (secrets i) at fresh s' (
        Reach-IsOutdated reach
          (invalidated-IsOutdated user.pk i j s p early stored drawn_before is_j))
