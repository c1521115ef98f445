-- ===== src/Tests/Settings.antt =====
-- The settings of the small deployment: what they parse to, and what the system checks say of them
-- (scoped_access/conf.py, scoped_access/checks.py).
use django_auth_with_scoped.Base.{ℕ, Bool, false, true, Option, some, none, List, [], ◌∷◌}
use django_auth_with_scoped.Registry
use django_auth_with_scoped.Settings
use django_auth_with_scoped.Settings.{
  RawEntry, Raw, Parsed, Reauth, boolean, integer, no_mapping, word,
}
use django_auth_with_scoped.Checks
use django_auth_with_scoped.Checks.{Message, Apps, e009_dictionary, w001}
use django_auth_with_scoped.Engine.Visibility
use django_auth_with_scoped.Tests.{world, env}

abbrev root_entry : RawEntry
root_entry = Settings.name 0

abbrev level_entry : ℕ → Option ℕ → Option (List ℕ) → RawEntry
level_entry name model parent =
    Settings.entry
      (record { level = some name; model_label = model; parent = parent; discriminator = [] })

abbrev settings_with : List RawEntry → Option Reauth → Raw
settings_with entries reauth = record {
  hierarchy = some entries;
  role_owner_levels = some (1 ∷ []);
  grantable_permissions = none;
  strict_registration = some (boolean true);
  reauth = reauth;
}

abbrev raw : Raw
raw =
    settings_with
      (root_entry ∷ level_entry 1 (some 0) none ∷ level_entry 2 (some 1) (some (0 ∷ [])) ∷ []) none

abbrev in_use : Parsed
in_use = record { config = env.config; reauth = Settings.default_reauth }

abbrev apps : Apps
apps = record {
  find_model = λ label. some label;
  app_label = λ m. 0;
  models_of = λ app. 0 ∷ 1 ∷ 2 ∷ 3 ∷ [];
  auto_created = λ m. false;
}

abbrev is_digit : ℕ → Bool
is_digit c = Checks.within b'0' b'9' c

abbrev check : Raw → Option (List Message)
check r = Checks.check_scoped_access_config world apps is_digit "redis" env.resources r
