-- ===== src/Rest/Guard.antt =====
-- What the write guard of views (scoped_access/drf/mixins.py: `ScopeWriteGuardMixin`) lets through.
use mathlib.Core.List.Memᴰ
use django_auth_with_scoped.Base.{
  ℕ, ◌≡◌, ◌≢◌, refl, ◌∙◌, sym, ap, inl, inr, ◌⊎◌, Bool, true, false, List, [], ◌∷◌, Memᴰ, arith,
  String, Dict, if◌then◌else◌, ◌==◌, nat_eq, Bool-cases,
}
use django_auth_with_scoped.World.{World, Obj}
use django_auth_with_scoped.Models.{User, Db}
use django_auth_with_scoped.Config.{Env}
use django_auth_with_scoped.Rest.{Answer, raised, target_outside_scope}
use django_auth_with_scoped.Rest.Permissions.{Required}
use django_auth_with_scoped.Rest.Discovery.{Gate, View, State, without_repeats}
use django_auth_with_scoped.Rest.Writes.{
  Value, read, Serializer, Host, is_applied, setattr, set_fields, is_target_allowed,
}

module _ (host : Host) (model : ℕ) (object : Obj) where
  -- one turn of the loop over the payload
  abbrev turn : World → ℕ → Value → World
  turn w name value = if is_applied host w model name then setattr host w object name value else w

  turn-other :
      (w : World) (name : ℕ) (value : Value) (o : Obj) (part : ℕ)
      → (o.handle ≢ object.handle) ⊎ (name ≢ part)
      → (turn w name value).getattr o part ≡ w.getattr o part
  unfolding setattr
  turn-other w name value o part differs = elim (Bool-cases (is_applied host w model name)) [
    | inr skipped ↦ rw skipped refl
    | inl applied ↦ rw applied (elim differs [
      | inl other_object ↦ ground (arith, other_object, nat_eq.same_iff o.handle object.handle)
      | inr other_name ↦ ground (arith, other_name, nat_eq.same_iff part name)
    ])
  ]

  turn-same :
      (w : World) (name : ℕ) (value : Value)
      → is_applied host w model name ≡ true
      → (turn w name value).getattr object name ≡ read value
  unfolding setattr
  turn-same w name value applied = rw applied (
      ground (
        arith,
        (nat_eq.same_iff name name).1 refl,
        (nat_eq.same_iff object.handle object.handle).1 refl,
      ))

  turn-applied :
      (w : World) (name part : ℕ) (value : Value)
      → is_applied host (turn w name value) model part ≡ is_applied host w model part
  unfolding setattr is_applied
  turn-applied w name part value = either_way (is_applied host w model name)
    where
      either_way :
          (b : Bool)
          → is_applied host (if b then setattr host w object name value else w) model part
            ≡ is_applied host w model part
      either_way true = refl
      either_way false = refl

  -- Every attribute of another object, and every attribute that the payload does not name, is read
  -- as before.
  pub set_fields-others :
      (items : Dict ℕ Value) (w : World) (o : Obj) (part : ℕ)
      → (o.handle ≢ object.handle) ⊎ ((value : Value) → Memᴰ (part, value) items → ⊥)
      → (set_fields host model object items w).getattr o part ≡ w.getattr o part
  unfolding set_fields
  set_fields-others [] w o part other = refl
  set_fields-others ((name, value) ∷ items) w o part other =
      set_fields-others items (turn w name value) o part
        (elim other [ inl k ↦ inl k | inr unnamed ↦ inr (λ v m. unnamed v (Memᴰ.tail m)) ])
      ∙ turn-other w name value o part (elim other [
        | inl k ↦ inl k
        | inr unnamed ↦ inr (λ same. unnamed value (Memᴰ.head (λ i. (sym same i, value))))
      ])

  -- An attribute that the payload names is read from the payload.
  pub set_fields-set :
      (items : Dict ℕ Value) (w : World) (part : ℕ) (value : Value)
      → is_applied host w model part ≡ true
      → ((other : Value) → Memᴰ (part, other) items → other ≡ value)
      → (w.getattr object part ≡ read value) ⊎ Memᴰ (part, value) items
      → (set_fields host model object items w).getattr object part ≡ read value
  unfolding set_fields
  set_fields-set [] w part value applied distinct already = elim already [
    | inl e ↦ e
    | inr m ↦ elim m [ ]
  ]
  set_fields-set ((name, other) ∷ items) w part value applied distinct already =
      set_fields-set items (turn w name other) part value (turn-applied w name part other ∙ applied)
        (λ v m. distinct v (Memᴰ.tail m)) (after (Bool-cases (name == part)) already)
    where
      after :
          ((name == part) ≡ true) ⊎ ((name == part) ≡ false)
          → (w.getattr object part ≡ read value) ⊎ Memᴰ (part, value) ((name, other) ∷ items)
          → ((turn w name other).getattr object part ≡ read value) ⊎ Memᴰ (part, value) items
      after (inl same) any =
          let part_is : name ≡ part = (nat_eq.same_iff name part).0 same in
          let value_is : other ≡ value = distinct other (Memᴰ.head (λ i. (sym part_is i, other))) in
          let applied' : is_applied host w model name ≡ true =
            ap (is_applied host w model) part_is ∙ applied in
          inl (
            ap ((turn w name other).getattr object) (sym part_is)
            ∙ turn-same w name other applied'
            ∙ ap read value_is)
      after (inr differs) (inl e) = inl (
          turn-other w name other object part
            (inr (λ same. ground (arith, differs, same, nat_eq.same_iff name part)))
          ∙ e)
      after (inr differs) (inr m) = elim (Memᴰ.cases_cons m) [
        | inl here ↦
            absurd
              (ground (arith, differs, ap (λ (x : ℕ × Value). x.0) here, nat_eq.same_iff name part))
        | inr later ↦ inr later
      ]

module _ (host : Host) (env : Env) (db : Db) (user : User) (required : Required) {T : Type 0}
    (save : Serializer → T → Answer (Unit {0}) × T) (view : View) (method : String)
    (serializer : Serializer) (s : State) (tables : T) (gates : List Gate)
    (found : List String) where
  -- what either write does, once the permissions are known
  abbrev guarded : Answer (Unit {0}) × T
  guarded =
      if is_target_allowed host env db user required serializer (without_repeats [] found)
      then save serializer tables
      else (raised target_outside_scope, tables)
