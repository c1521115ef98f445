-- ===== src/Config.antt =====
-- scoped_access/conf.py: the parsed configuration, and what else a decision reads.
use django_auth_with_scoped.Base.{ℕ, Bool, List, Option, String}
use django_auth_with_scoped.World.{World}
use django_auth_with_scoped.Registry.{Hierarchy, Resources}
use django_auth_with_scoped.Models.{User, Role}

-- `grantable_permissions`: "self", "any", an explicit list, or a callable of the actor, the role,
-- the permission and `at`. Any other value is read as "self", as the code does.
pub data Policy : Type 0 where
  self any : Policy
  listed : List String → Policy
  callable : (User → Role → String → Option ℕ → Bool) → Policy

-- `ScopedAccessConfig`
pub record Config : Type 0 where
  pub hierarchy : Hierarchy
  pub role_owner_levels : List ℕ
  pub grantable_permissions : Policy
  pub strict_registration : Bool

-- One call's surroundings: the host, the configuration, the registry, the clock, and the app
-- labels of the two swappable models.
pub record Env : Type 0 where
  pub world : World
  pub open world use *
  pub config : Config
  pub open config use *
  pub resources : Resources
  pub now : ℕ
  pub role_app : String
  pub assignment_app : String
