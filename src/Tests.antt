-- ===== src/Tests.antt =====
-- A small deployment to run the code on: a root, two organizations, their clinics, and notes that
-- belong to a clinic; and a program of small runs.
mod Decisions
mod Writes
mod Guards
mod Roles
mod Reauth
mod Host
mod Visibility
mod Settings
mod Rest
mod Admin
mod Memo
use mathlib.Core.Path.{fun_ext}
use django_auth_with_scoped.Base.{
  ℕ, ◌-◌, ◌<◌, ◌≡◌, refl, sym, ap, subst, ◌∙◌, inl, inr, Bool, true, false, ◌&&◌, ◌||◌, Option,
  none, some, List, [], ◌∷◌, Memᴰ, arith, if◌then◌else◌, nat_eq, nat_beq, Bool-cases, get_elem?,
  zero, suc,
}
use django_auth_with_scoped.World.{
  Obj, Fetched, Field, World, HasDistinctContentTypes, HasSoundReferences, HasTypedRows,
}
use django_auth_with_scoped.Registry.{
  Level, Hierarchy, levels_for_model, parent_accessor_for_model, first_parent, is_root, model,
}
use django_auth_with_scoped.Registry.Ranks.{HasDistinctNames}
use django_auth_with_scoped.Models.{
  User, Permission, Role, active, suspended, Assignment, Granted, Db,
}
use django_auth_with_scoped.Config.{Policy, Env}
use django_auth_with_scoped.Cache.{Cache}
use django_auth_with_scoped.Engine.Scope.{parent_of, follow, follow_parts}
use django_auth_with_scoped.Engine.Scope.Ancestors.{HasFiniteDepth}
use django_auth_with_scoped.Engine.Scope.Tenancy.{HasStableParents}
use django_auth_with_scoped.Transaction.{Session, Event}

-- models: 0 organization, 1 clinic, 2 note, 3 vocabulary; attributes: 0 organization, 1 clinic
abbrev pub object : ℕ → ℕ → Obj
object m pk = record { model = m; pk = some pk; handle = pk }

abbrev pub org : Obj
org = object 0 1

abbrev pub other_org : Obj
other_org = object 0 2

abbrev pub clinic : Obj
clinic = object 1 5

abbrev pub other_clinic : Obj
other_clinic = object 1 6

abbrev pub note : Obj
note = object 2 7

abbrev pub org_of : Option ℕ → Obj
org_of none = other_org
org_of (some pk) = if nat_beq pk 5 then org else other_org

abbrev pub attribute : ℕ → Option ℕ → ℕ → Option Obj
attribute m pk part =
    if nat_beq m 1 && nat_beq part 0
    then some (org_of pk)
    else if nat_beq m 2 && nat_beq part 1
    then some clinic
    else none

abbrev pub reference : Option ℕ → Option ℕ → Fetched
reference none id = Fetched.absent
reference (some m) none = Fetched.absent
reference (some m) (some pk) =
    if nat_beq m 0 || nat_beq m 1 then Fetched.found (object m pk) else Fetched.raised

abbrev pub rows_of : ℕ → List Obj
rows_of m =
    if nat_beq m 0
    then org ∷ other_org ∷ []
    else if nat_beq m 1
    then clinic ∷ other_clinic ∷ []
    else if nat_beq m 2
    then note ∷ []
    else []

abbrev pub field : ℕ → ℕ → Field
field m part =
    if nat_beq m 1 && nat_beq part 0
    then Field.leads_to 0
    else if nat_beq m 2 && nat_beq part 1
    then Field.leads_to 1
    else Field.missing

abbrev pub world : World
world = record {
  get_field = field;
  getattr = λ o part. attribute o.model o.pk part;
  get_model = λ l. l;
  content_type = λ m. m;
  all_rows = rows_of;
  satisfies = λ filters o. true;
  generic_get = reference;
  depth = λ o. if nat_beq o.model 1 then 1 else 0;
}

-- levels: 0 ROOT, 1 ORGANIZATION, 2 CLINIC
abbrev pub root_level : Level
root_level = record { name = 0; model_label = none; parent = none; discriminator = [] }

abbrev pub org_level : Level
org_level = record { name = 1; model_label = some 0; parent = none; discriminator = [] }

abbrev pub clinic_level : Level
clinic_level = record { name = 2; model_label = some 1; parent = some (0 ∷ []); discriminator = [] }

abbrev pub hierarchy : Hierarchy
hierarchy = record { levels = root_level ∷ org_level ∷ clinic_level ∷ [] }

abbrev pub env : Env
env = record {
  world = world;
  config = record {
    hierarchy = hierarchy;
    role_owner_levels = 1 ∷ [];
    grantable_permissions = Policy.self;
    strict_registration = true;
  };
  resources = record { anchors = (2, 1 ∷ []) ∷ []; globals = 3 ∷ [] };
  now = 100;
  role_app = "scoped_access";
  assignment_app = "scoped_access";
}

abbrev pub person : ℕ → User
person pk = record { pk = pk; is_active = true; is_superuser = false }

abbrev pub view_note : Permission
view_note = record { pk = 1; app_label = "clinical"; codename = "view_note" }

abbrev pub manage_assignments : Permission
manage_assignments = record { pk = 2; app_label = "scoped_access"; codename = "manage_assignments" }

abbrev pub manage_roles : Permission
manage_roles = record { pk = 3; app_label = "scoped_access"; codename = "manage_roles" }

-- a custom role of the first organization, and a system role
abbrev pub manager : Role
manager = record {
  pk = some 1;
  name = 10;
  description = "";
  owner_level = some 1;
  owner_ct_id = some 0;
  owner_id = some 1;
}

abbrev pub auditor : Role
auditor = record {
  pk = some 2;
  name = 11;
  description = "";
  owner_level = none;
  owner_ct_id = none;
  owner_id = none;
}

-- a custom role of the first organization that has no permissions yet
abbrev pub assistant : Role
assistant = record manager { pk = some 3; name = 12 }

abbrev pub assignment_at : ℕ → ℕ → ℕ → Option ℕ → Option ℕ → Option ℕ → Assignment
assignment_at pk u role level ct id = record {
  pk = some pk;
  user_id = u;
  role_id = role;
  level = level;
  scope_ct_id = ct;
  scope_id = id;
  status = active;
  valid_from = none;
  valid_until = some 200;
  granted_by = none;
  granted_at = 0;
  revoked_by = none;
  revoked_at = none;
  reason = "";
}

-- user 1 manages the first organization; user 2 audits everywhere; user 3 has been suspended
abbrev pub at_org : Assignment
at_org = assignment_at 1 1 1 (some 1) (some 0) (some 1)

abbrev pub at_root : Assignment
at_root = assignment_at 2 2 2 (some 0) none none

abbrev pub at_clinic : Assignment
at_clinic = record (assignment_at 3 3 2 (some 2) (some 1) (some 5)) { status = suspended }

abbrev pub db : Db
db = record {
  roles = manager ∷ auditor ∷ assistant ∷ [];
  role_permissions =
      (1, view_note)
      ∷ (1, manage_assignments)
      ∷ (1, manage_roles)
      ∷ (2, view_note)
      ∷ (2, manage_assignments)
      ∷ [];
  assignments = at_org ∷ at_root ∷ at_clinic ∷ [];
}

abbrev pub managed : Granted
managed = record { assignment = at_org; role = manager }

abbrev pub session : Assignment → Session
session a = record {
  db = db;
  cache = record { store = none; dirty = false };
  in_atomic_block = false;
  on_commit = [];
  events = [];
  role_events = [];
  self = a;
}

abbrev pub quiet : Event → Bool
quiet e = false

abbrev pub next_pk : Db → ℕ
next_pk d = 50

pub distinct_content_types : HasDistinctContentTypes world
distinct_content_types m n e = e

pub sound_references : HasSoundReferences world
sound_references none id o h = absurd (ground arith)
sound_references (some m) none o h = absurd (ground arith)
sound_references (some m) (some pk) o h = ground arith

parent_of_model : (m : ℕ) → Option (List ℕ)
parent_of_model m = if nat_beq m 1 then some (0 ∷ []) else none

parent_accessor_lem : (m : ℕ) → parent_accessor_for_model world hierarchy m ≡ parent_of_model m
unfolding parent_accessor_for_model levels_for_model first_parent is_root model parent_of_model
parent_accessor_lem m =
    ground (arith, nat_eq.same_iff 0 m, nat_eq.same_iff 1 m, nat_eq.same_iff m 1)

-- the parent links of this deployment
pub parent_of_lem :
    (n : Obj) → parent_of env n ≡ (if nat_beq n.model 1 then some (org_of n.pk) else none)
unfolding parent_of follow follow_parts parent_of_model
parent_of_lem n =
    ap {A = Option (List ℕ)} {B = Option Obj}
      (λ found. elim found [ none ↦ none | some accessor ↦ follow env n accessor ])
      (parent_accessor_lem n.model)
    ∙ ground arith

pub org_of-model : (pk : Option ℕ) → (org_of pk).model ≡ 0
org_of-model none = refl
org_of-model (some pk) = ground arith

pub finite_depth : HasFiniteDepth env
finite_depth n up h =
    let up_model : up.model ≡ 0 = ground (arith, parent_of_lem n, org_of-model n.pk) in
    elim (Bool-cases (nat_beq n.model 1)) [
      | inl e ↦ rw (up_model, e) (omega arith)
      | inr e ↦ absurd (ground (arith, parent_of_lem n))
    ]

pub stable_parents : HasStableParents env
stable_parents n m up pk model h =
    (up, parent_of_lem m ∙ ground (arith, parent_of_lem n), refl, refl)

pub same_depth : (n m : Obj) → n.pk ≡ m.pk → n.model ≡ m.model → env.depth n ≡ env.depth m
same_depth n m pk same = ap (λ k. if nat_beq k 1 then 1 else 0) same

pub name_is_index : (i : ℕ) (l : Level) → get_elem? hierarchy.levels i ≡ some l → l.name ≡ i
name_is_index zero l h = ground arith
name_is_index (suc zero) l h = ground arith
name_is_index (suc (suc zero)) l h = ground arith
name_is_index (suc (suc (suc i))) l h = absurd (ground arith)

pub distinct_names : HasDistinctNames hierarchy
distinct_names i j l k at_i at_j same = sym (name_is_index i l at_i) ∙ same ∙ name_is_index j k at_j
