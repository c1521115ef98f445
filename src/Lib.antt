-- ===== src/Lib.antt =====
-- django-scoped-access: hierarchical, scoped authorization for Django. A role is a bundle of
-- permissions; an assignment gives one role to one user at one node of a hierarchy of levels, or at
-- the root; a permission on an object is held by an assignment in force at the object's anchor node
-- or above it. The development models the decision engine, the tables and the writes to
-- assignments, the filters of collections, the request cache, the settings and their system checks,
-- the registries, the operations on roles, the step-up tokens, and the integrations with Django REST
-- framework, Django's authentication and its admin pages, of the package scoped_access.
--
-- Files and the code they are about:
--   Base (Base/Tests, Base/Lists, Base/Dicts): Boolean tests, equality as an instance, Python's
--   `any`, `all`, `in`, set union, and dicts as association lists.
--   World: what the code uses of the host project and of Django. Python objects, attribute access,
--   content types, querysets of rows and generic foreign keys are the fields of a record that every
--   definition takes, and the documented behaviour that the theorems rely on stands beside it as
--   named predicates (HasDistinctContentTypes, HasSoundReferences, HasTypedRows; HasFiniteDepth and
--   HasStableParents where the engine's walk is). Nothing is assumed that a theorem does not name.
--   Registry: scoped_access/registry.py; Level and Hierarchy with rank, level and
--   parent_accessor_for_model, ResourceRegistry with register, register_global, unregister, clear.
--   Registry/Ranks and Registry/Anchors hold the proofs.
--   Config: scoped_access/conf.py, the record ScopedAccessConfig and the policy grantable_permissions.
--   Settings: scoped_access/conf.py, the settings as the host writes them, get_config, and the names
--   of the swappable models. A value is a Boolean, a number, a text or anything else, of which only
--   the truth is read; a missing key is none; an entry is a name or a dict.
--   Checks: scoped_access/checks.py, _walk_relation_path and check_scoped_access_config, which
--   returns messages by their ids, or none for a KeyError. `\d` of the rate is a parameter.
--   Checks/Messages, Checks/Entries and Checks/Sound have what follows when a part of it is silent,
--   Checks/Checked what follows of the parsed configuration.
--   Models: scoped_access/models.py, the fields of roles and assignments, the tables of one database
--   as lists of rows, and ScopeAssignmentQuerySet.effective (Models/Effective).
--   Engine/Scope, Engine/Decision, Engine/Roles: scoped_access/engine.py. Scope has resolve_anchor,
--   iter_ancestors, _assignment_is_valid, role_assignable and covers; Decision has
--   effective_assignments, user_permissions, has_perm, user_covers and access_summary; Roles has
--   role_visible, can_grant_permission, can_manage_role, can_manage_assignment and can_assign_role.
--   Engine/Visibility: scope_filter_q and visible_resources of scoped_access/engine.py.
--   Engine/Filters: accessible_nodes of scoped_access/engine.py, with Q objects as a data type that
--   is evaluated on a row. A queryset is a list of rows; a lookup along accessors reads the same
--   attributes as the walk of the engine, one level at a time (IsChained, in Engine/Filters/Paths).
--   IsHost there gathers what the theorems on filters ask of a host.
--   Cache: scoped_access/cache.py with the memos of effective_assignments and _assignment_is_valid in
--   engine.py; Cache/Course runs the first through requests, writes and transactions, Cache/Validity
--   is about the second.
--   Exec: scoped_access/exceptions.py, and an action of state and result for code that raises.
--   Transaction: what the writes run in: tables, cache, open transaction, callbacks on commit, the
--   signals of scoped_access/signals.py, and the instance in memory.
--   Lifecycle: suspend, reactivate and revoke of scoped_access/models.py.
--   Granting: ScopeAssignmentQuerySet.grant of scoped_access/models.py, and the unique constraints.
--   RoleService: RoleService of scoped_access/services.py, and in scoped_access/models.py
--   _validate_owner, the save and delete of roles, grant_permissions and revoke_permissions.
--   Guards: scoped_access/mutations.py and scoped_access/role_permissions.py, with the checks of the
--   querysets, save and delete of scoped_access/models.py, run on client code as a data type.
--   Reauth: scoped_access/reauth/service.py (ReAuthService), scoped_access/reauth/atomic.py
--   (atomic_pop) and scoped_access/reauth/verifiers.py, over a cache of keys and values in which an
--   entry may go at any time.
--   Reauth/Receivers: scoped_access/reauth/receivers.py around one save of a user.
--   Rest: scoped_access/drf. Rest/Permissions has the permission classes of permissions.py;
--   Rest/Discovery has, of mixins.py, the search for the permissions of a view and
--   ScopeQuerySetMixin, Rest/Writes _apply_payload and ScopeWriteGuardMixin, and Rest/Views the
--   endpoints of views.py with the throttle and the viewsets. A permission of a view is a tree
--   (Gate); get_permissions of Django REST framework and get_required_permissions are parameters,
--   and so is what saves a serializer. A candidate is an object in a world whose attributes the
--   payload has set. Rest/Requirements, Rest/Filters, Rest/Listing, Rest/Guard and Rest/StepUp hold
--   the proofs.
--   Backend: scoped_access/backends.py.
--   Admin: scoped_access/admin.py; Django's own page class, `user.has_perm` and the names of
--   permissions are parameters (Site). Admin/Rows and Admin/Choices hold the proofs.
--   Tests: a small deployment, and runs of the code on it.
--
-- How they interact: Granting, Lifecycle and RoleService call Engine/Roles for authority,
-- Engine/Scope for assignability and Cache for invalidation; Engine/Decision reads Models and
-- Engine/Scope; Engine/Scope reads Registry, Config and World; Engine/Filters reads both. The engine
-- is written over the uncached effective_assignments; Cache gives the cached one, and Cache/Course
-- relates the two. Rest, Backend and Admin call Engine/Decision and Engine/Visibility, and Rest calls
-- Reauth; Checks judges what Settings parses, and Checks/Checked hands the result to Engine/Visibility.
--
-- Conventions. Identifiers of models, levels, attributes and rows are natural numbers, since the
-- code only compares them; permissions are texts, as the code builds and sorts them. `None` is the
-- constructor none. A read of a missing key, an exception inside a decision, is written out where the
-- code catches it; in the writes an exception is a value, and a transaction that raises restores the
-- tables. Times are natural numbers. The only loop that is not over a list is the walk up the
-- hierarchy, which has the fuel `suc (depth n)`: the depth of a node is a bound on its parent links,
-- and with HasFiniteDepth that much fuel gives what any larger amount gives. The key of a new row is
-- a parameter, next_pk or next_role_pk; whether a receiver of a signal raises is a parameter, raises.
-- The values of `secrets` are a parameter, a sequence in which the theorems on tokens forbid repeats.
--
-- Not modelled: what a raise leaves of a role instance, and a payload that sets a primary key or
-- nests an object in place of a relation. Calls of `ReAuthService` do not interleave. The migrations
-- are generated, and the example project is a demonstration.
pub mod Base
pub mod World
pub mod Registry
pub mod Models
pub mod Config
pub mod Settings
pub mod Checks
pub mod Engine
pub mod Cache
pub mod Exec
pub mod Transaction
pub mod Lifecycle
pub mod Granting
pub mod RoleService
pub mod Guards
pub mod Reauth
pub mod Rest
pub mod Backend
pub mod Admin
mod Tests
