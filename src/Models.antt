-- ===== src/Models.antt =====
-- scoped_access/models.py: users, permissions, roles, assignments, and the tables that hold them.
pub mod Effective
use Prim.Native.String.{◌++◌}
use django_auth_with_scoped.Base.{
  ℕ, ◌≡◌, ◌↔◌, Bool, true, false, not, ◌&&◌, ◌||◌, Option, none, some, List, [], ◌∷◌, map, String,
  arith, if◌then◌else◌, HasEq, ◌==◌, nat_eq, option_eq, leb, ltb, is_some, filter, first, get_or,
}

-- What the package reads of the host's user model.
pub record User : Type 0 where
  pub pk : ℕ
  pub is_active : Bool
  pub is_superuser : Bool

-- `auth.Permission`, with the app label of its content type
pub record Permission : Type 0 where
  pub pk : ℕ
  pub app_label : String
  pub codename : String

-- `f"{p.content_type.app_label}.{p.codename}"`
unfoldable pub label : Permission → String
label p = p.app_label ++ ("." ++ p.codename)

-- `AbstractRole`; the permissions are in the table of `Db`.
pub record Role : Type 0 where
  pub pk : Option ℕ
  pub name : ℕ
  pub description : String
  pub owner_level : Option ℕ
  pub owner_ct_id : Option ℕ
  pub owner_id : Option ℕ

-- `AbstractRole.is_system`
abbrev pub is_system : Role → Bool
is_system role = not (is_some role.owner_id)

-- `AssignmentStatus`
pub data Status : Type 0 where
  active suspended revoked : Status

abbrev pub status_beq : Status → Status → Bool
status_beq active active = true
status_beq suspended suspended = true
status_beq revoked revoked = true
status_beq _ _ = false

pub status_beq_iff : (s t : Status) → (status_beq s t ≡ true) ↔ (s ≡ t)
status_beq_iff active t = ground arith
status_beq_iff suspended t = ground arith
status_beq_iff revoked t = ground arith

instance abbrev pub status_eq : HasEq Status
status_eq = record { same = status_beq; same_iff = status_beq_iff }

-- `AbstractScopeAssignment`; times are whole numbers of any unit.
pub record Assignment : Type 0 where
  pub pk : Option ℕ
  pub user_id : ℕ
  pub role_id : ℕ
  pub level : Option ℕ
  pub scope_ct_id : Option ℕ
  pub scope_id : Option ℕ
  pub status : Status
  pub valid_from : Option ℕ
  pub valid_until : Option ℕ
  pub granted_by : Option ℕ
  pub granted_at : ℕ
  pub revoked_by : Option ℕ
  pub revoked_at : Option ℕ
  pub reason : String

-- `AbstractScopeAssignment.is_root_scope`
abbrev pub is_root_scope : Assignment → Bool
is_root_scope a = not (is_some a.scope_id)

-- The package's tables. A row of `role_permissions` is a role's key and a permission.
pub record Db : Type 0 where
  pub roles : List Role
  pub role_permissions : List (ℕ × Permission)
  pub assignments : List Assignment

-- An assignment with the role that `select_related("role")` joins to it.
pub record Granted : Type 0 where
  pub assignment : Assignment
  pub open assignment use *
  pub role : Role

-- `role.permissions.all()`
unfoldable pub permissions_of : Db → Role → List Permission
unfolding filter
permissions_of db role = map (λ e. e.1) (filter (λ (r, _). some r == role.pk) db.role_permissions)

-- `_role_perms` of engine.py
unfoldable pub role_perms : Db → Role → List String
role_perms db role = map label (permissions_of db role)

-- the row test of `ScopeAssignmentQuerySet.effective`
unfoldable pub is_effective : ℕ → Assignment → Bool
is_effective at a =
    a.status == active
    && elim a.valid_from [ none ↦ true | some t ↦ leb t at ]
    && elim a.valid_until [ none ↦ true | some t ↦ ltb at t ]

-- `ScopeAssignmentQuerySet.effective`, at the time `now` of the clock
unfoldable pub effective : ℕ → Option ℕ → List Assignment → List Assignment
effective now at rows = filter (is_effective (get_or at now)) rows

-- the role with the given key
unfoldable pub role_with : Db → ℕ → Option Role
unfolding filter
role_with db pk = first (filter (λ r. r.pk == some pk) db.roles)

-- the join: `role` is a foreign key that is never null
unfoldable pub select_related : Db → List Assignment → List Granted
select_related db [] = []
select_related db (a ∷ rows) = elim (role_with db a.role_id) [
  | none ↦ select_related db rows
  | some role ↦ (record { assignment = a; role = role }) ∷ select_related db rows
]
