-- ===== src/Guards.antt =====
-- The guards on direct writes (scoped_access/models.py), with the contexts that let a managed write
-- through (scoped_access/mutations.py, scoped_access/role_permissions.py). What a write does once
-- it is let through is the work of Django, or of the modules on assignments and roles.
pub mod Nesting
use mathlib.Core.List.{◌++◌}
use django_auth_with_scoped.Base.{
  Bool, true, false, not, ◌&&◌, Option, none, some, List, [], ◌∷◌, String, if◌then◌else◌, any,
  contains, string_eq,
}
use django_auth_with_scoped.Exec.{
  Error, invalid_transition, assignment_deletion, direct_role, direct_role_permission,
  direct_assignment, Result, ok, err,
}

-- the three context variables
pub data Context : Type 0 where
  role_mutation assignment_mutation role_permission_mutation : Context

pub record Flags : Type 0 where
  pub role : Bool
  pub assignment : Bool
  pub role_permission : Bool

-- `role_mutation_is_managed`, `assignment_mutation_is_managed`, `role_permission_mutation_is_managed`
unfoldable pub is_managed : Context → Flags → Bool
is_managed role_mutation s = s.role
is_managed assignment_mutation s = s.assignment
is_managed role_permission_mutation s = s.role_permission

-- `ContextVar.set`, and `ContextVar.reset` to the value that was read before
unfoldable pub set_flag : Context → Bool → Flags → Flags
set_flag role_mutation b s = record s { role = b }
set_flag assignment_mutation b s = record s { assignment = b }
set_flag role_permission_mutation b s = record s { role_permission = b }

-- `_IMMUTABLE_ASSIGNMENT_FIELDS`
abbrev pub immutable_assignment_fields : List String
immutable_assignment_fields =
    "user" ∷ "user_id" ∷ "role" ∷ "role_id" ∷ "level" ∷ "scope_ct" ∷ "scope_ct_id" ∷ "scope_id"
    ∷ "valid_from" ∷ "valid_until" ∷ "granted_by" ∷ "granted_by_id" ∷ "granted_at" ∷ "revoked_by"
    ∷ "revoked_by_id" ∷ "revoked_at" ∷ "reason" ∷ []

-- the methods of `RoleQuerySet`, and `save` and `delete` of a role
pub data RoleWrite : Type 0 where
  create bulk_create update bulk_update delete row_save row_delete : RoleWrite

-- the methods of `RolePermissionQuerySet` and `RolePermission`, and the signal that the add, remove,
-- set and clear of `role.permissions` send, with whether its action starts with `pre_`
pub data PermissionWrite : Type 0 where
  create bulk_create update bulk_update delete row_save row_delete : PermissionWrite
  m2m_changed : Bool → PermissionWrite

-- the methods of `ScopeAssignmentQuerySet` and of an assignment; `update` with the fields that it
-- names, `save` with `_state.adding`, whether the row has a key, and `update_fields`
pub data AssignmentWrite : Type 0 where
  create bulk_create delete row_delete : AssignmentWrite
  update bulk_update : List String → AssignmentWrite
  row_save : Bool → Bool → Option (List String) → AssignmentWrite

pub data Write : Type 0 where
  on_role : RoleWrite → Write
  on_permission : PermissionWrite → Write
  on_assignment : AssignmentWrite → Write

-- the checks on the fields of an assignment
unfoldable pub reject_fields : List String → Option Error
reject_fields fields =
    if contains "status" fields
    then some invalid_transition
    else if any (λ field. contains field fields) immutable_assignment_fields
    then some direct_assignment
    else none

unfoldable pub reject_row_save : Bool → Bool → Option (List String) → Flags → Option Error
reject_row_save adding has_pk update_fields s =
    if adding && not s.assignment
    then some direct_assignment
    else if has_pk
    then elim update_fields [ none ↦ some direct_assignment | some fields ↦ reject_fields fields ]
    else none

unfoldable pub unless : Bool → Error → Option Error
unless managed e = if managed then none else some e

-- what a write raises before it reaches `super()`
unfoldable pub reject_role : RoleWrite → Flags → Option Error
reject_role RoleWrite.create s = unless (is_managed role_mutation s) direct_role
reject_role RoleWrite.bulk_create s = unless (is_managed role_mutation s) direct_role
reject_role RoleWrite.update s = unless (is_managed role_mutation s) direct_role
reject_role RoleWrite.bulk_update s = unless (is_managed role_mutation s) direct_role
reject_role RoleWrite.delete s = unless (is_managed role_mutation s) direct_role
reject_role RoleWrite.row_save s = unless (is_managed role_mutation s) direct_role
reject_role RoleWrite.row_delete s = unless (is_managed role_mutation s) direct_role

-- `reject_direct_role_permission_mutation`
unfoldable pub reject_m2m_changed : Bool → Flags → Option Error
reject_m2m_changed is_pre s =
    if is_pre && not (is_managed role_permission_mutation s)
    then some direct_role_permission
    else none

unfoldable pub reject_permission : PermissionWrite → Flags → Option Error
reject_permission PermissionWrite.create s =
    unless (is_managed role_permission_mutation s) direct_role_permission
reject_permission PermissionWrite.bulk_create s =
    unless (is_managed role_permission_mutation s) direct_role_permission
reject_permission PermissionWrite.update s =
    unless (is_managed role_permission_mutation s) direct_role_permission
reject_permission PermissionWrite.bulk_update s =
    unless (is_managed role_permission_mutation s) direct_role_permission
reject_permission PermissionWrite.delete s =
    unless (is_managed role_permission_mutation s) direct_role_permission
reject_permission PermissionWrite.row_save s =
    unless (is_managed role_permission_mutation s) direct_role_permission
reject_permission PermissionWrite.row_delete s =
    unless (is_managed role_permission_mutation s) direct_role_permission
reject_permission (PermissionWrite.m2m_changed is_pre) s = reject_m2m_changed is_pre s

unfoldable pub reject_assignment : AssignmentWrite → Flags → Option Error
reject_assignment AssignmentWrite.create s =
    unless (is_managed assignment_mutation s) direct_assignment
reject_assignment AssignmentWrite.bulk_create s =
    unless (is_managed assignment_mutation s) direct_assignment
reject_assignment (AssignmentWrite.update fields) s = reject_fields fields
reject_assignment (AssignmentWrite.bulk_update fields) s = reject_fields fields
reject_assignment AssignmentWrite.delete s = some assignment_deletion
reject_assignment AssignmentWrite.row_delete s = some assignment_deletion
reject_assignment (AssignmentWrite.row_save adding has_pk update_fields) s =
    reject_row_save adding has_pk update_fields s

unfoldable pub reject : Write → Flags → Option Error
reject (on_role w) s = reject_role w s
reject (on_permission w) s = reject_permission w s
reject (on_assignment w) s = reject_assignment w s

-- client code: writes, `with managed_...():` blocks, blocks whose exceptions are caught, raises
pub data Code : Type 0 where
  finish : Code
  write : Write → Code → Code
  within : Context → Code → Code → Code
  attempt : Code → Code → Code
  fail : Error → Code

-- the result, the context variables after, and the writes that were let through
pub record Ran : Type 0 where
  pub result : Result (Unit {0})
  pub flags : Flags
  pub written : List Write

-- the code after a `with` block, which a raise in the block skips
unfoldable pub go_on : Ran → Ran → Ran
go_on inside after = elim inside.result [
  | err e ↦ inside
  | ok _ ↦ record after { written = inside.written ++ after.written }
]

-- leaving a `with` block, whose `finally` resets the variable
unfoldable pub leave : Context → Flags → Ran → Ran
leave c before inside = record inside { flags = set_flag c (is_managed c before) inside.flags }

unfoldable pub execute : Code → Flags → Ran
execute finish s = record { result = ok tt; flags = s; written = [] }
execute (fail e) s = record { result = err e; flags = s; written = [] }
execute (write w rest) s =
    let after = execute rest s in
    elim (reject w s) [
      | some e ↦ record { result = err e; flags = s; written = [] }
      | none ↦ record after { written = w ∷ after.written }
    ]
execute (within c body rest) s =
    let inside = leave c s (execute body (set_flag c true s)) in
    go_on inside (execute rest inside.flags)
execute (attempt body rest) s =
    let inside = execute body s in
    let after = execute rest inside.flags in
    record after { written = inside.written ++ after.written }
