-- ===== src/Rest/Writes.antt =====
-- The write guard of views (scoped_access/drf/mixins.py: `_apply_payload` and
-- `ScopeWriteGuardMixin`).
use django_auth_with_scoped.Base.{
  ℕ, Bool, false, not, ◌&&◌, Option, none, some, List, [], ◌∷◌, String, Dict, if◌then◌else◌, ◌==◌,
  nat_eq,
}
use django_auth_with_scoped.World.{World, Obj, Field}
use django_auth_with_scoped.Models.{User, Db}
use django_auth_with_scoped.Config.{Env}
use django_auth_with_scoped.Rest.{Answer, ok, raised, no_request, target_outside_scope}
use django_auth_with_scoped.Rest.Permissions.{Required, target_allowed}
use django_auth_with_scoped.Rest.Discovery.{View, State, required_permissions}

-- a validated value: an instance of a model, `None`, or a value of a field that is no relation. A
-- relation given as a nested payload, which Django refuses to set, is left out.
pub data Value : Type 0 where
  instance_of : Obj → Value
  empty plain_value : Value

abbrev pub read : Value → Option Obj
read (instance_of o) = some o
read empty = none
read plain_value = none

-- a serializer with `Meta.model`, what it was given, and what it has validated; the names of a
-- payload are distinct, and none of them is the primary key
pub record Serializer : Type 0 where
  pub model : ℕ
  pub instance : Option Obj
  pub validated_data : Dict ℕ Value

-- What the guard asks of Python and Django: a copy of an instance, a new instance, both as objects
-- of their own, and whether a field is many-to-many or one-to-many.
pub record Host : Type 0 where
  pub copy : Obj → Obj
  pub blank : ℕ → Obj
  pub is_many : ℕ → ℕ → Bool

module _ (host : Host) where
  -- `copy.copy(serializer.instance) if serializer.instance is not None else model()`
  unfoldable pub candidate : Serializer → Obj
  candidate serializer = elim serializer.instance [
    | some o ↦ host.copy o
    | none ↦ host.blank serializer.model
  ]

  -- whether `_apply_payload` sets a name: a field of the model, of one value
  unfoldable pub is_applied : World → ℕ → ℕ → Bool
  is_applied w model name = elim (w.get_field model name) [
    | Field.missing ↦ false
    | Field.plain ↦ not (host.is_many model name)
    | Field.leads_to _ ↦ not (host.is_many model name)
  ]

  -- `setattr(candidate, name, value)`
  unfoldable pub setattr : World → Obj → ℕ → Value → World
  setattr w object name value = record w {
    getattr = λ o part.
        if o.handle == object.handle && part == name then read value else w.getattr o part;
  }

  -- the loop of `_apply_payload`
  unfoldable pub set_fields : ℕ → Obj → Dict ℕ Value → World → World
  set_fields model object [] w = w
  set_fields model object ((name, value) ∷ items) w =
      set_fields model object items
        (if is_applied w model name then setattr w object name value else w)

  -- `_apply_payload`: the world as the candidate reads in it
  unfoldable pub apply_payload : World → Serializer → World
  apply_payload w serializer =
      set_fields serializer.model (candidate serializer) serializer.validated_data w

  module _ (env : Env) (db : Db) (user : User) (required : Required) where
    -- `allowed` in `_assert_target_scope`
    unfoldable pub is_target_allowed : Serializer → List String → Bool
    is_target_allowed serializer permissions =
        target_allowed (record env { world = apply_payload env.world serializer }) db user
          permissions (candidate serializer)

    -- `_assert_target_scope`, for the method of a request, or without a request
    unfoldable pub assert_target_scope :
        View → Option String → Serializer → State → Answer (Unit {0}) × State
    assert_target_scope view method serializer s =
        let (permissions, after) = required_permissions required view method serializer.model s in
        elim permissions [
          | raised e ↦ (raised e, after)
          | ok ps ↦ elim method [
            | none ↦ (raised no_request, after)
            | some _ ↦
                if not (is_target_allowed serializer ps)
                then (raised target_outside_scope, after)
                else (ok tt, after)
          ]
        ]

    -- `perform_create` and `perform_update`, over what the view's class does itself to save, on
    -- tables of any kind
    module _ {T : Type 0} (save : Serializer → T → Answer (Unit {0}) × T) where
      unfoldable pub perform_create :
          View → Option String → Serializer → State → T → Answer (Unit {0}) × T
      perform_create view method serializer s tables =
          elim (assert_target_scope view method serializer s).0 [
            | raised e ↦ (raised e, tables)
            | ok _ ↦ save serializer tables
          ]

      unfoldable pub perform_update :
          View → Option String → Serializer → State → T → Answer (Unit {0}) × T
      perform_update view method serializer s tables =
          elim (assert_target_scope view method serializer s).0 [
            | raised e ↦ (raised e, tables)
            | ok _ ↦ save serializer tables
          ]
