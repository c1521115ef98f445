-- ===== src/Reauth/Receivers.antt =====
-- The receivers that invalidate the tokens of a user whose password changes
-- (scoped_access/reauth/receivers.py), around one save of a user.
use django_auth_with_scoped.Base.{
  ℕ, ◌≡◌, ◌≢◌, ◌<◌, refl, inl, inr, ◌⊎◌, Bool, true, false, not, ◌&&◌, ◌||◌, Option, none, some,
  List, String, arith, if◌then◌else◌, ◌==◌, nat_eq, string_eq, option_eq, contains, is_some, get_or,
  subst, Bool-cases,
}
use django_auth_with_scoped.Models.{User}
use django_auth_with_scoped.Reauth.{
  Settings, State, Payload, payload_at, token, consume, invalidate_all_for_user,
}
use django_auth_with_scoped.Reauth.Use.{Reach}
use django_auth_with_scoped.Reauth.Invalidation.{invalidated_refused}

-- a user in memory: its key, its password as it is stored, and the attribute that the receivers set
pub record Instance : Type 0 where
  pub pk : Option ℕ
  pub password : ℕ
  pub password_changed : Option Bool

-- the arguments of `save` that the signals pass on
pub record Save : Type 0 where
  pub raw : Bool
  pub update_fields : Option (List String)

-- whether a save writes the password
unfoldable pub writes_password : Option (List String) → Bool
unfolding contains
writes_password none = true
writes_password (some fields) = contains "password" fields

-- the passwords of the table of users, by key
abbrev pub Table : Type 0
Table = ℕ → Option ℕ

-- `_remember_password_change`
unfoldable pub remember_password_change : Save → Table → Instance → Instance
remember_password_change save table user =
    if save.raw || not (is_some user.pk) || not (writes_password save.update_fields)
    then user
    else record user {
      password_changed = elim user.pk [
        | none ↦ none
        | some pk ↦ some (is_some (table pk) && not (table pk == some user.password))
      ];
    }

module _ (secrets : ℕ → ℕ) where
  -- `_invalidate_after_password_change`, of a user that has a key by now
  unfoldable pub invalidate_after_password_change : Save → ℕ → Instance → State → Instance × State
  invalidate_after_password_change save pk user s =
      if save.raw
      then (user, s)
      else if get_or user.password_changed false
      then (record user { password_changed = none }, invalidate_all_for_user secrets pk s)
      else (record user { password_changed = none }, s)

  -- a save of a user that has a key, with both receivers: what is left of the user, of the table
  -- and of the tokens
  unfoldable pub save_user : Save → ℕ → Instance → Table → State → Instance × (Table × State)
  save_user save pk user table s =
      let remembered = remember_password_change save table (record user { pk = some pk }) in
      let written : Table = λ k.
        if k == pk && writes_password save.update_fields then some user.password else table k in
      let (saved, after) = invalidate_after_password_change save pk remembered s in
      (saved, (written, after))

  save_user-changed :
      (save : Save) (pk : ℕ) (user : Instance) (table : Table) (s : State) (old : ℕ)
      → save.raw ≡ false
      → writes_password save.update_fields ≡ true
      → table pk ≡ some old
      → old ≢ user.password
      → (save_user save pk user table s).1.1 ≡ invalidate_all_for_user secrets pk s
  unfolding save_user remember_password_change invalidate_after_password_change
  save_user-changed save pk user table s old live writes stored differs =
      ground (arith, live, writes, stored, differs, nat_eq.same_iff old user.password)

  save_user-unchanged :
      (save : Save) (pk : ℕ) (user : Instance) (table : Table) (s : State)
      → user.password_changed ≡ none
      → (save.raw ≡ true)
        ⊎ ((writes_password save.update_fields ≡ false) ⊎ (table pk ≡ some user.password))
      → (save_user save pk user table s).1.1 ≡ s
  unfolding save_user remember_password_change invalidate_after_password_change
  save_user-unchanged save pk user table s unmarked (inl raw) = ground (arith, raw)
  save_user-unchanged save pk user table s unmarked (inr (inl other)) = elim (Bool-cases save.raw) [
    | inl raw ↦ ground (arith, raw)
    | inr live ↦ ground (arith, live, other, unmarked)
  ]
  save_user-unchanged save pk user table s unmarked (inr (inr same)) = elim (Bool-cases save.raw) [
    | inl raw ↦ ground (arith, raw)
    | inr live ↦ elim (Bool-cases (writes_password save.update_fields)) [
      | inr other ↦ ground (arith, live, other, unmarked)
      | inl writes ↦
          ground (arith, live, writes, same, (nat_eq.same_iff user.password user.password).1 refl)
    ]
  ]

  -- A save that changes a password takes the user's tokens with it: when a user that has a key is
  -- saved, not raw, with the password among what is written, and the table held another password, no
  -- token that was in the cache for the user is accepted any more, after any course of issuing,
  -- consuming, invalidating and losing cache entries, if no secret is ever drawn twice and the
  -- token's generation had been drawn.
  pub password_change_refused :
      ((i j : ℕ) → secrets i ≡ secrets j → i ≡ j)
      → (save : Save) (owner : User) (user : Instance) (table : Table) (old i j : ℕ) (s : State)
        (p : Payload) {s' : State}
      → save.raw ≡ false
      → writes_password save.update_fields ≡ true
      → table owner.pk ≡ some old
      → old ≢ user.password
      → i < s.drawn
      → payload_at (s.store (token (secrets i))) ≡ some p
      → j < s.drawn
      → secrets j ≡ p.generation
      → Reach secrets (save_user save owner.pk user table s).1.1 s'
      → (settings : Settings) (at : Option ℕ) (fresh : Bool)
      → (consume secrets settings (some (secrets i)) owner at fresh s').0 ≡ false
  password_change_refused distinct save owner user table old i j s p {s'} live writes stored differs
        early held drawn_before is_j reach settings at fresh =
      invalidated_refused secrets distinct owner i j s p early held drawn_before is_j
        (subst (λ t. Reach secrets t s')
          (save_user-changed save owner.pk user table s old live writes stored differs) reach)
        settings at fresh
