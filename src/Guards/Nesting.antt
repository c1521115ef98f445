-- ===== src/Guards/Nesting.antt =====
-- The managed contexts (scoped_access/mutations.py, scoped_access/role_permissions.py) against the
-- nesting of blocks in the client's code.
use mathlib.Core.List.{◌++◌}
use django_auth_with_scoped.Base.{Bool, true, false, none, some, List, [], ◌∷◌, any}
use django_auth_with_scoped.Exec.{Result, ok, err}
use django_auth_with_scoped.Guards.{
  Context, role_mutation, assignment_mutation, role_permission_mutation, Flags, Write, reject, Code,
  finish, write, within, attempt, fail, Ran,
}

-- whether two blocks are of the same kind
unfoldable pub same_context : Context → Context → Bool
same_context role_mutation role_mutation = true
same_context role_mutation assignment_mutation = false
same_context role_mutation role_permission_mutation = false
same_context assignment_mutation role_mutation = false
same_context assignment_mutation assignment_mutation = true
same_context assignment_mutation role_permission_mutation = false
same_context role_permission_mutation role_mutation = false
same_context role_permission_mutation assignment_mutation = false
same_context role_permission_mutation role_permission_mutation = true

-- the contexts that the blocks around a piece of code manage
abbrev pub enclosed : List Context → Flags
enclosed blocks = record {
  role = any (same_context role_mutation) blocks;
  assignment = any (same_context assignment_mutation) blocks;
  role_permission = any (same_context role_permission_mutation) blocks;
}

unfoldable pub go_on_lexically :
    Result (Unit {0}) → List Write → Result (Unit {0}) × List Write → Result (Unit {0}) × List Write
go_on_lexically (err e) inside after = (err e, inside)
go_on_lexically (ok _) inside after = (after.0, inside ++ after.1)

-- The code by the blocks written around it: no state is passed on.
unfoldable pub lexical : List Context → Code → Result (Unit {0}) × List Write
lexical blocks finish = (ok tt, [])
lexical blocks (fail e) = (err e, [])
lexical blocks (write w rest) =
    let after = lexical blocks rest in
    elim (reject w (enclosed blocks)) [ some e ↦ (err e, []) | none ↦ (after.0, w ∷ after.1) ]
lexical blocks (within c body rest) =
    let inside = lexical (c ∷ blocks) body in
    let after = lexical blocks rest in go_on_lexically inside.0 inside.1 after
lexical blocks (attempt body rest) =
    let inside = lexical blocks body in
    let after = lexical blocks rest in (after.0, inside.1 ++ after.1)

abbrev pub ran : List Context → Code → Ran
ran blocks c = record {
  result = (lexical blocks c).0;
  flags = enclosed blocks;
  written = (lexical blocks c).1;
}

-- what a `with` block leaves
abbrev left : Context → List Context → Code → Ran
left c blocks body = record (ran (c ∷ blocks) body) { flags = enclosed blocks }
