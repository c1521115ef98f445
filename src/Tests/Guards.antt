-- ===== src/Tests/Guards.antt =====
-- The guards on direct writes, run on small pieces of client code.
use django_auth_with_scoped.Base.{
  ◌≡◌, refl, true, false, none, some, [], ◌∷◌, any, contains, string_eq,
}
use django_auth_with_scoped.Exec.{
  direct_role, direct_assignment, invalid_transition, integrity_error, err,
}
use django_auth_with_scoped.Guards
use django_auth_with_scoped.Guards.{
  Code, RoleWrite, AssignmentWrite, Context, on_role, on_assignment, finish, write, within, attempt,
  fail, role_mutation, assignment_mutation, unless, go_on, leave,
}
use django_auth_with_scoped.Guards.Nesting.{enclosed}

-- a managed block that raises and is caught, and then a direct write
abbrev program : Code
program =
    attempt (within role_mutation (write (on_role RoleWrite.create) (fail integrity_error)) finish)
      (within assignment_mutation (write (on_assignment AssignmentWrite.create) finish)
        (write (on_role RoleWrite.update) finish))

runs :
    (Guards.execute program (enclosed []) ≡ record {
      result = err direct_role;
      flags = enclosed [];
      written = on_role RoleWrite.create ∷ on_assignment AssignmentWrite.create ∷ [];
    })
    × (Guards.reject_assignment (AssignmentWrite.update ("status" ∷ [])) (enclosed [])
        ≡ some invalid_transition)
    × (Guards.reject_assignment (AssignmentWrite.bulk_update ("reason" ∷ [])) (enclosed [])
        ≡ some direct_assignment)
    × (Guards.reject_assignment
          (AssignmentWrite.row_save false true (some ("extra" ∷ [])))
          (enclosed [])
        ≡ none)
    × (Guards.reject_assignment (AssignmentWrite.row_save false true none) (enclosed [])
        ≡ some direct_assignment)
unfolding Guards.execute Guards.reject Guards.reject_role Guards.reject_assignment
    Guards.reject_fields Guards.reject_row_save Guards.set_flag Guards.is_managed unless go_on leave
    any contains
runs = (refl, refl, refl, refl, refl)
