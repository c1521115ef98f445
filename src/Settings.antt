-- ===== src/Settings.antt =====
-- scoped_access/conf.py: the settings as the host writes them, and how they are parsed.
use django_auth_with_scoped.Base.{
  ℕ, Bool, true, false, not, Option, none, some, List, [], ◌∷◌, ◌++◌, String, if◌then◌else◌, ◌==◌,
  nat_eq, string_eq, ltb, is_some, get_or, Dict, lookup, put,
}
use django_auth_with_scoped.World.{Accessor}
use django_auth_with_scoped.Registry.{Level}
use django_auth_with_scoped.Models.{User, Role}
use django_auth_with_scoped.Config.{Policy, Config}

-- a value of a setting: a `bool`, an `int` that is negative or not, a `str`, or any other value,
-- of which the code asks only whether it is true
pub data Setting : Type 0 where
  boolean : Bool → Setting
  integer negative : ℕ → Setting
  text : String → Setting
  other : Bool → Setting

-- `bool(value)`
abbrev pub is_true : Setting → Bool
is_true (boolean b) = b
is_true (integer n) = not (n == 0)
is_true (negative n) = true
is_true (text s) = not (s == "")
is_true (other b) = b

-- an entry of `HIERARCHY`: a name, or a dict with some of its keys
pub record Entry : Type 0 where
  pub level : Option ℕ
  pub model_label : Option ℕ
  pub parent : Option Accessor
  pub discriminator : List (ℕ × ℕ)

pub data RawEntry : Type 0 where
  name : ℕ → RawEntry
  entry : Entry → RawEntry

-- a value of `GRANTABLE_PERMISSIONS`
pub data Grantable : Type 0 where
  word : String → Grantable
  listed : List String → Grantable
  callable : (User → Role → String → Option ℕ → Bool) → Grantable
  unknown : Grantable

-- a value of `REAUTH`: a dict, or anything else
pub data Reauth : Type 0 where
  mapping : Dict String Setting → Reauth
  no_mapping : Reauth

-- the dict `SCOPED_ACCESS`; a key that is not there is `none`
pub record Raw : Type 0 where
  pub hierarchy : Option (List RawEntry)
  pub role_owner_levels : Option (List ℕ)
  pub grantable_permissions : Option Grantable
  pub strict_registration : Option Setting
  pub reauth : Option Reauth

-- `{"level": entry} if isinstance(entry, str) else entry`
unfoldable pub as_entry : RawEntry → Entry
as_entry (name n) = record { level = some n; model_label = none; parent = none; discriminator = [] }
as_entry (entry e) = e

-- `sorted(d.items())`, by the keys, which are distinct
unfoldable pub insert_item : ℕ × ℕ → List (ℕ × ℕ) → List (ℕ × ℕ)
insert_item item [] = item ∷ []
insert_item item (other_item ∷ items) = elim (ltb other_item.0 item.0) [
  | true ↦ other_item ∷ insert_item item items
  | false ↦ item ∷ other_item ∷ items
]

unfoldable pub sorted_items : List (ℕ × ℕ) → List (ℕ × ℕ)
sorted_items [] = []
sorted_items (item ∷ items) = insert_item item (sorted_items items)

-- the `Level` of an entry
abbrev pub as_level : ℕ → Entry → Level
as_level level_name e = record {
  name = level_name;
  model_label = e.model_label;
  parent = e.parent;
  discriminator = sorted_items e.discriminator;
}

-- the loop of `_build_hierarchy`; an entry without a level is a `ScopedAccessConfigError`, which
-- is `none`
unfoldable pub build_levels : List RawEntry → Option (List Level)
build_levels [] = some []
build_levels (e ∷ es) = elim (as_entry e).level [
  | none ↦ none
  | some level_name ↦ elim (build_levels es) [
    | none ↦ none
    | some levels ↦ some (as_level level_name (as_entry e) ∷ levels)
  ]
]

-- what the decisions read in `grantable_permissions`
unfoldable pub policy : Grantable → Policy
policy (word s) = if s == "any" then Policy.any else Policy.self
policy (listed perms) = Policy.listed perms
policy (callable f) = Policy.callable f
policy unknown = Policy.self

-- `DEFAULTS["REAUTH"]`
abbrev pub default_reauth : Dict String Setting
default_reauth =
    ("ENABLED", boolean false)
    ∷ ("TTL", integer 300)
    ∷ ("RATE", text "5/minute")
    ∷ ("MODE", text "single_use")
    ∷ []

-- `{**DEFAULTS["REAUTH"], **given}`
unfoldable pub merged : Dict String Setting → Dict String Setting
merged given = given ++ default_reauth

-- `ScopedAccessConfig`; the decisions ask only whether `strict_registration` is true
pub record Parsed : Type 0 where
  pub config : Config
  pub reauth : Dict String Setting

unfoldable pub parsed : Raw → List Level → Dict String Setting → Parsed
parsed raw levels given = record {
  config = record {
    hierarchy = record { levels = levels };
    role_owner_levels = get_or raw.role_owner_levels [];
    grantable_permissions = policy (get_or raw.grantable_permissions (word "self"));
    strict_registration = is_true (get_or raw.strict_registration (boolean false));
  };
  reauth = merged given;
}

-- `get_config`; a `REAUTH` that is no dict is a `TypeError`
unfoldable pub get_config : Raw → Option Parsed
get_config raw = elim (build_levels (get_or raw.hierarchy [])) [
  | none ↦ none
  | some levels ↦ elim (get_or raw.reauth (mapping [])) [
    | mapping given ↦ some (parsed raw levels given)
    | no_mapping ↦ none
  ]
]

-- The names of the swappable models, in Django's settings.
module _ (settings : Dict String String) where
  unfoldable pub default_unless_set : String → String → Dict String String
  default_unless_set setting default =
      if is_some (lookup setting settings) then settings else put setting default settings

  unfoldable pub role_model_label : String
  role_model_label = get_or (lookup "SCOPED_ACCESS_ROLE_MODEL" settings) "scoped_access.Role"

  unfoldable pub assignment_model_label : String
  assignment_model_label =
      get_or (lookup "SCOPED_ACCESS_ASSIGNMENT_MODEL" settings) "scoped_access.ScopeAssignment"

  -- `get_role_model` and `get_assignment_model`, over `apps.get_model`
  module _ {M : Type 0} (find_model : String → Option M) where
    unfoldable pub get_role_model : Option M
    get_role_model = find_model role_model_label

    unfoldable pub get_assignment_model : Option M
    get_assignment_model = find_model assignment_model_label

-- `ensure_swappable_defaults`
unfoldable pub ensure_swappable_defaults : Dict String String → Dict String String
ensure_swappable_defaults settings =
    default_unless_set (default_unless_set settings "SCOPED_ACCESS_ROLE_MODEL" "scoped_access.Role")
      "SCOPED_ACCESS_ASSIGNMENT_MODEL" "scoped_access.ScopeAssignment"
