-- ===== src/Rest/Views.antt =====
-- The two endpoints (scoped_access/drf/views.py), over their responses as data, with the rate of the
-- throttle (scoped_access/drf/throttling.py), and the permissions of the two viewsets
-- (scoped_access/drf/viewsets.py).
use django_auth_with_scoped.Base.{
  ℕ, suc, if◌then◌else◌, Bool, Option, none, some, List, [], ◌∷◌, map, String, get_or, lookup,
  string_eq,
}
use django_auth_with_scoped.World.{Obj, Fetched}
use django_auth_with_scoped.Models.{User, Status, Db, is_system}
use django_auth_with_scoped.Config.{Env}
use django_auth_with_scoped.Engine.Decision.{Entry, access_summary}
use django_auth_with_scoped.Reauth
use django_auth_with_scoped.Settings.{Setting, Parsed}
use django_auth_with_scoped.Rest.Permissions.{perms_map}
use django_auth_with_scoped.Rest.Discovery.{Gate, model_permission, object_permission, uncalled}

-- the body of `GET /me/access/`
pub record AssignmentBody : Type 0 where
  pub role_id : Option ℕ
  pub role_name : ℕ
  pub role_system : Bool
  pub level : Option ℕ
  pub scope : Option (Option ℕ × String)
  pub status : Status
  pub valid_until : Option ℕ
  pub permissions : List String

pub record AccessBody : Type 0 where
  pub principal : User
  pub permissions : List String
  pub assignments : List AssignmentBody

-- the body of `POST reauth`: the verifier that it names, and whether it has the keys `user` and, with
-- a value that is true, `at`, which are parameters of `issue` too; the other keys go to the verifier
pub record ProofBody : Type 0 where
  pub verifier : Option ℕ
  pub has_user : Bool
  pub has_at : Bool

-- the response to a proof: 400, a token with its time to live, or a `TypeError`
pub data ProofResponse : Type 0 where
  invalid_credentials type_error : ProofResponse
  reauth_token : ℕ → ℕ → ProofResponse

module _ (show : Obj → String) where
  -- `{"id": ..., "label": ...} if a["scope"] else None`
  unfoldable pub scope_body : Fetched → Option (Option ℕ × String)
  scope_body (Fetched.found o) = some (o.pk, show o)
  scope_body _ = none

  unfoldable pub assignment_body : Entry → AssignmentBody
  assignment_body a = record {
    role_id = a.role.pk;
    role_name = a.role.name;
    role_system = is_system a.role;
    level = a.level;
    scope = scope_body a.scope;
    status = a.status;
    valid_until = a.valid_until;
    permissions = a.permissions;
  }

  -- `MeAccessView.get`
  unfoldable pub me_access : Env → Db → User → AccessBody
  me_access env db user =
      let summary = access_summary env db user none in
      record {
        principal = user;
        permissions = summary.permissions;
        assignments = map assignment_body summary.assignments;
      }

-- `ReAuthView.post`, with the name of the verifier of passwords. A body that names `user` gives that
-- parameter twice; one that names `at` gives a time that is no time, which is found out once the
-- proof is accepted and the generation is read.
unfoldable pub reauth_post :
    (ℕ → ℕ) → Reauth.Settings → ℕ → User → ProofBody → Reauth.State → ProofResponse × Reauth.State
reauth_post secrets settings password user body s =
    let (token, after) =
      Reauth.issue secrets settings user (get_or body.verifier password) none s in
    if body.has_user then (type_error, s) else elim token [
      | none ↦ (invalid_credentials, after)
      | some t ↦
          if body.has_at
          then (
            type_error,
            (Reauth.generation_of secrets user.pk (record s { drawn = suc s.drawn })).1,
          )
          else (reauth_token t settings.ttl, after)
    ]

-- `ReAuthRateThrottle.get_rate`; `none` is a `KeyError`
unfoldable pub get_rate : Parsed → Option Setting
unfolding lookup
get_rate parsed = lookup "RATE" parsed.reauth

-- `permission_classes` of `ScopedModelViewSet` and `ScopedReadOnlyModelViewSet`
abbrev pub scoped_permission_classes : List Gate
scoped_permission_classes = uncalled (model_permission perms_map) ∷ uncalled object_permission ∷ []
