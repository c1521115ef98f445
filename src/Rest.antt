-- ===== src/Rest.antt =====
-- The integration with Django REST framework (scoped_access/drf): what the permission classes and
-- the view mixins decide, and how they report it.
pub mod Permissions
pub mod Discovery
pub mod Requirements
pub mod Filters
pub mod Listing
pub mod Writes
pub mod Guard
pub mod Views
pub mod StepUp
use django_auth_with_scoped.Base.{Option, none, some}

-- the exceptions that leave a view, a permission or an admin page: those of `PermissionDenied`, by
-- their messages, `ReAuthRequired`, `ImproperlyConfigured`, `AttributeError` where a view has no
-- request, and what the code called raises
pub data Failure : Type 0 where
  permission_denied outside_scope target_outside_scope selection_outside_scope : Failure
  reauth_required improperly_configured no_request method_not_allowed : Failure
  engine_error host_error : Failure

pub data Answer {ℓ} (A : Type ℓ) : Type ℓ where
  ok : A → Answer A
  raised : Failure → Answer A

-- the rest of a block, after a part that returned or raised
abbrev pub then_do {ℓ κ} : {A : Type ℓ} {B : Type κ} → Answer A → (A → Answer B) → Answer B
then_do (ok a) f = f a
then_do (raised e) f = raised e

-- what the engine returns, or an exception of it
abbrev pub from_engine {ℓ} : {A : Type ℓ} → Option A → Answer A
from_engine none = raised engine_error
from_engine (some a) = ok a
