-- ===== src/Engine/Decision.antt =====
-- The permission decision (scoped_access/engine.py): `effective_assignments`,
-- `user_permissions`, `has_perm`, `user_covers` and `access_summary`.
pub mod Access
pub mod Admission
pub mod Listing
use Prim.Native.String.{compare}
use Prim.Native.Nat.{Ordering}
use mathlib.Core.List.{◌++◌}
use django_auth_with_scoped.Base.{
  ℕ, Bool, true, false, not, ◌&&◌, Option, none, some, List, [], ◌∷◌, String, if◌then◌else◌, ◌==◌,
  nat_eq, string_eq, filter, contains, union, is_some,
}
use django_auth_with_scoped.World.{Obj, Fetched}
use django_auth_with_scoped.Models.{
  User, Role, Status, Assignment, Granted, Db, is_root_scope, role_perms, effective, select_related,
}
use django_auth_with_scoped.Config.{Env}
use django_auth_with_scoped.Engine.Scope.{
  Anchor, global, unregistered, node, denied, resolve_anchor, assignment_is_valid, any_same_node,
  covers_anchor,
}

-- `_fetch_effective`
unfoldable pub fetch_effective : Env → Db → User → Option ℕ → List Granted
fetch_effective env db user at =
    select_related db (effective env.now at (filter (λ a. a.user_id == user.pk) db.assignments))

-- `effective_assignments` with no request cache active
unfoldable pub effective_assignments : Env → Db → User → Option ℕ → List Granted
effective_assignments env db user at = fetch_effective env db user at

-- `sorted`, on texts
unfoldable pub insert_sorted : String → List String → List String
insert_sorted s [] = s ∷ []
insert_sorted s (t ∷ ts) = elim (compare t s) [
  | Ordering.gt ↦ s ∷ t ∷ ts
  | _ ↦ t ∷ insert_sorted s ts
]

unfoldable pub sorted : List String → List String
sorted [] = []
sorted (s ∷ ss) = insert_sorted s (sorted ss)

-- an entry of `access_summary`
pub record Entry : Type 0 where
  pub role : Role
  pub level : Option ℕ
  pub scope : Fetched
  pub status : Status
  pub valid_until : Option ℕ
  pub permissions : List String

pub record Summary : Type 0 where
  pub permissions : List String
  pub assignments : List Entry

module _ (env : Env) (db : Db) where
  -- the loop of `user_permissions`; `perms` grows by `|=`
  unfoldable pub collect : Anchor → List String → List Granted → List String
  collect anchor perms [] = perms
  collect anchor perms (g ∷ gs) =
      collect anchor
        (if not (assignment_is_valid env g)
          then perms
          else if covers_anchor env g.assignment anchor
          then union perms (role_perms db g.role)
          else perms)
        gs

  -- the anchor of the optional object
  unfoldable pub anchor_of : Option Obj → Anchor
  anchor_of none = global
  anchor_of (some obj) = resolve_anchor env obj

  unfoldable pub is_unregistered : Anchor → Bool
  is_unregistered unregistered = true
  is_unregistered _ = false

  unfoldable pub user_permissions : User → Option Obj → Option ℕ → List String
  user_permissions user obj at =
      if not user.is_active
      then []
      else if is_unregistered (anchor_of obj)
      then []
      else collect (anchor_of obj) [] (effective_assignments env db user at)

  unfoldable pub has_perm : User → String → Option Obj → Option ℕ → Bool
  has_perm user perm obj at =
      if not user.is_active
      then false
      else if user.is_superuser
      then true
      else contains perm (user_permissions user obj at)

  -- the loop of `user_covers`, for an anchor that is a node or denied
  unfoldable pub any_covers : Anchor → List Granted → Bool
  any_covers anchor [] = false
  any_covers anchor (g ∷ gs) =
      let rest = any_covers anchor gs in
      if not (assignment_is_valid env g)
      then rest
      else if is_root_scope g.assignment
      then true
      else if elim anchor [ node n ↦ any_same_node env g.assignment n | _ ↦ false ]
      then true
      else rest

  unfoldable pub user_covers : User → Obj → Option ℕ → Bool
  user_covers user obj at =
      if not user.is_active
      then false
      else if user.is_superuser
      then true
      else elim (resolve_anchor env obj) [
        | global ↦ true
        | unregistered ↦ false
        | node n ↦ any_covers (node n) (effective_assignments env db user at)
        | denied ↦ any_covers denied (effective_assignments env db user at)
      ]

  unfoldable pub entry : Granted → Entry
  entry g = record {
    role = g.role;
    level = g.level;
    scope = if is_some g.scope_id then env.generic_get g.scope_ct_id g.scope_id else Fetched.absent;
    status = g.status;
    valid_until = g.valid_until;
    permissions = sorted (role_perms db g.role);
  }

  -- the loop of `access_summary`
  unfoldable pub summarise : List String → List Entry → List Granted → List String × List Entry
  summarise perms entries [] = (perms, entries)
  summarise perms entries (g ∷ gs) =
      summarise
        (if not (assignment_is_valid env g)
          then perms
          else union perms (sorted (role_perms db g.role)))
        (if not (assignment_is_valid env g) then entries else entries ++ entry g ∷ []) gs

  unfoldable pub access_summary : User → Option ℕ → Summary
  access_summary user at =
      let (perms, entries) =
        summarise [] [] (if user.is_active then effective_assignments env db user at else []) in
      record { permissions = sorted perms; assignments = entries }
