-- ===== src/Tests/Rest.antt =====
-- The REST integration (scoped_access/drf) on the small deployment: a view of notes that asks for
-- the permission of the method and for the scope of the object.
use django_auth_with_scoped.Base.{
  ℕ, suc, ◌≡◌, refl, false, some, none, List, [], ◌∷◌, Memᴰ, filter, contains, lookup, arith,
  if◌then◌else◌, ◌==◌, string_eq, nat_eq, pair_eq, option_eq,
}
use django_auth_with_scoped.World.{Obj}
use django_auth_with_scoped.Registry
use django_auth_with_scoped.Models
use django_auth_with_scoped.Engine.Scope
use django_auth_with_scoped.Engine.Decision
use django_auth_with_scoped.Engine.Filters
use django_auth_with_scoped.Engine.Visibility
use django_auth_with_scoped.Rest.{Answer, ok}
use django_auth_with_scoped.Rest.Permissions
use django_auth_with_scoped.Rest.Permissions.{Required, perms_map}
use django_auth_with_scoped.Rest.Discovery
use django_auth_with_scoped.Rest.Discovery.{Gate, View, State}
use django_auth_with_scoped.Rest.Writes
use django_auth_with_scoped.Rest.Views.{scoped_permission_classes}
use django_auth_with_scoped.Rest.Writes.{Serializer, Host, Value}
use django_auth_with_scoped.Rest.Requirements.{IsCoherent, IsFresh, required_permissions-IsFresh}
use django_auth_with_scoped.Rest.Listing.{get_queryset_lem}
use django_auth_with_scoped.Tests.{note, env, db, person, object, distinct_names}
use django_auth_with_scoped.Tests.Host.{host, parents, valid_anchors}

-- the templates of notes, filled in
abbrev required : Required
required perms method model = if method == "OPTIONS" then ok [] else ok ("clinical.view_note" ∷ [])

abbrev view : List Gate → View
view gates = record {
  scope_filter_all_actions = false;
  action = some "list";
  permission_classes = gates;
  get_permissions = none;
}

abbrev scoped : List Gate
scoped = scoped_permission_classes

abbrev alternative : List Gate
alternative =
    Gate.uncalled (Gate.any_of (Gate.model_permission perms_map) Gate.other_permission) ∷ []

abbrev new_view : State
new_view = record { discovering = false; cache = []; warnings = 0 }

abbrev host_objects : Host
host_objects = record {
  copy = λ o. record o { handle = 900 };
  blank = λ m. object m 901;
  is_many = λ m part. false;
}

-- a note that is moved to another clinic, and one that stays
abbrev moved : Obj → Serializer
moved to = record {
  model = 2;
  instance = some note;
  validated_data = (1, Value.instance_of to) ∷ [];
}

abbrev listed : List Gate → Answer (List Obj)
listed gates =
    (Discovery.get_queryset env db (person 1) required (view gates) (some "GET") 2 (note ∷ [])
      new_view).0

abbrev write : Obj → Answer (Unit {0}) × ℕ
write to =
    Writes.perform_update host_objects env db (person 1) required (λ _ t. (ok tt, suc t))
      (view scoped) (some "PATCH") (moved to) new_view 0

no_answers : IsCoherent required (view scoped) new_view
unfolding lookup
no_answers method model ps cached = absurd (ground arith)

only_note : (row : Obj) → Memᴰ row (note ∷ []) → Memᴰ row (env.all_rows 2)
only_note row m = m

required_permissions-IsFresh_example :
    IsFresh required
      (view scoped)
      new_view
      "GET"
      2
      (Discovery.required_permissions required (view scoped) (some "GET") 2 new_view)
required_permissions-IsFresh_example =
    required_permissions-IsFresh required (view scoped) "GET" 2 new_view refl no_answers

abbrev warned : State
warned = (Discovery.warn_if_unprotected (view scoped) new_view).1

discovered :
    ((Discovery.warn_if_unprotected (view scoped) new_view).0 ≡ ok tt)
    × ((Discovery.required_permissions required (view scoped) (some "GET") 2 warned).0
        ≡ ok ("clinical.view_note" ∷ []))
    × (Discovery.view_permissions (view scoped) new_view ≡ ok scoped)
    × (Discovery.required_by_gates required "PATCH" 2 scoped ≡ ok ("clinical.view_note" ∷ []))
unfolding Discovery.warn_if_unprotected Discovery.checks_objects Discovery.is_object_check
    Discovery.required_permissions Discovery.required_by_gates Discovery.required_by_leaves
    Discovery.without_repeats Discovery.leaves Discovery.view_permissions contains lookup
discovered = (refl, refl, refl, refl)

get_queryset_lem_example :
    Discovery.get_queryset env db
      (person 1)
      required
      (view scoped)
      (some "GET")
      2
      (note ∷ [])
      new_view
    ≡ (
      ok (
          filter
            (Permissions.target_allowed env db (person 1) ("clinical.view_note" ∷ []))
            (note ∷ [])),
      (Discovery.required_permissions required (view scoped) (some "GET") 2 warned).1,
    )
get_queryset_lem_example =
    get_queryset_lem env db host distinct_names parents valid_anchors (person 1) required
      (view scoped) "GET" 2 (note ∷ []) new_view ("clinical.view_note" ∷ []) refl discovered.0 refl
      discovered.1 only_note
