-- ===== src/Tests/Admin.antt =====
-- The admin pages (scoped_access/admin.py) on the small deployment: the page of notes.
use django_auth_with_scoped.Base.{
  ℕ, suc, ◌≡◌, true, ◌||◌, some, none, List, [], ◌∷◌, Memᴰ, filter, all, Bool, String,
  if◌then◌else◌, ◌==◌, string_eq,
}
use django_auth_with_scoped.World.{Obj, Accessor}
use django_auth_with_scoped.Registry
use django_auth_with_scoped.Registry.{Level}
use django_auth_with_scoped.Engine.Decision.{has_perm}
use django_auth_with_scoped.Backend.{backend_has_perm}
use django_auth_with_scoped.Rest.{Answer, ok, raised, selection_outside_scope}
use django_auth_with_scoped.Admin
use django_auth_with_scoped.Admin.{Site}
use django_auth_with_scoped.Admin.Rows.{admin_rows_lem}
use django_auth_with_scoped.Admin.Choices.{scoped_choices_lem}
use django_auth_with_scoped.Tests.{note, env, db, person, distinct_names}
use django_auth_with_scoped.Tests.Host.{host, parents, valid_anchors}

abbrev perm_of : ℕ → String → String
perm_of m action = if action == "view" then "clinical.view_note" else "clinical.change_note"

abbrev site : Site
site = record {
  perm = perm_of;
  user_has_perm = λ perm o. backend_has_perm env db (person 1) perm (some o);
  without_object = λ action. true;
}

abbrev may : String → Obj → Bool
may action row = has_perm env db (person 1) (perm_of 2 action) (some row) none

abbrev counted : {A : Type 0} → A → ℕ → Answer (Unit {0}) × ℕ
counted _ n = (ok tt, suc n)

all_stored : (row : Obj) → Memᴰ row (note ∷ []) → Memᴰ row (env.all_rows 2)
all_stored row m = m

admin_rows_lem_example :
    (Admin.admin_queryset env db (person 1) site 2 (note ∷ [])
      ≡ ok (filter (may "view") (note ∷ [])))
    × (Admin.delete_queryset env db (person 1) site counted 2 (note ∷ []) 0 ≡ (
        if all (may "delete") (note ∷ []) then (ok tt, 1) else (raised selection_outside_scope, 0)))
admin_rows_lem_example =
    admin_rows_lem env db host distinct_names parents valid_anchors (person 1) site 2 counted
      (note ∷ []) 0 all_stored

-- a new note, which has no key yet
abbrev fresh_note : Obj
fresh_note = record note { pk = none; handle = 90 }

scoped_choices_lem_example :
    ((l : Level) (ls : List Level)
      → Registry.levels_for_model env.world env.hierarchy 1 ≡ l ∷ ls
      → Admin.scoped_choices env db (person 1) site 2 1
        ≡ ok (some (filter (λ row. may "add" row || may "change" row) (env.all_rows 1))))
    × ((anchor : Accessor)
        → Registry.levels_for_model env.world env.hierarchy 1 ≡ []
        → Registry.anchor_for env.resources 1 ≡ some anchor
        → Admin.scoped_choices env db (person 1) site 2 1
          ≡ ok (some (filter (may "view") (env.all_rows 1))))
    × (Registry.levels_for_model env.world env.hierarchy 1 ≡ []
        → Registry.anchor_for env.resources 1 ≡ none
        → Admin.scoped_choices env db (person 1) site 2 1 ≡ ok none)
scoped_choices_lem_example =
    scoped_choices_lem env db host distinct_names parents valid_anchors (person 1) site 2 1
