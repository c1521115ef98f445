-- ===== src/Engine/Filters.antt =====
-- Filters of collections (scoped_access/engine.py: `accessible_nodes`), as queries over rows.
-- A lookup `a__b__pk` of the ORM joins what the attributes `a` and `b` of the row read.
pub mod Loop
pub mod Paths
pub mod Reach
pub mod Agreement
pub mod Sound
use mathlib.Core.List.{◌++◌}
use django_auth_with_scoped.Base.{
  ℕ, zero, suc, ◌-◌, Bool, true, false, not, ◌&&◌, ◌||◌, Option, none, some, List, [], ◌∷◌, String,
  if◌then◌else◌, ◌==◌, nat_eq, string_eq, option_eq, ltb, is_some, any, filter, contains, get_elem?,
}
use django_auth_with_scoped.World.{Obj, Accessor}
use django_auth_with_scoped.Registry
use django_auth_with_scoped.Registry.{Level, Hierarchy}
use django_auth_with_scoped.Models.{User, Assignment, Granted, Db, is_root_scope, role_perms}
use django_auth_with_scoped.Config.{Env}
use django_auth_with_scoped.Engine.Scope.{follow_parts, assignment_is_valid}
use django_auth_with_scoped.Engine.Decision.{effective_assignments}

-- the conditions that the code builds: `Q(pk__in=[])`, `Q()`, `Q(pk=...)`, `Q(path__pk=...)`,
-- `Q(pk__in=rows.values("pk"))`, `|` and `&`
pub data Q : Type 0 where
  nothing everything : Q
  pk_is : Option ℕ → Q
  at_path : Accessor → Option ℕ → Q
  pk_in : List Obj → Q
  either both : Q → Q → Q

-- `_up_path`: the accessors of the levels from one rank up to another; a level without one is a
-- `TypeError`, which is `none`
unfoldable pub up_path : List Level → ℕ → ℕ → Option Accessor
up_path levels from zero = some []
up_path levels from (suc count) = elim (get_elem? levels from) [
  | none ↦ none
  | some l ↦ elim l.parent [
    | none ↦ none
    | some parts ↦ elim (up_path levels (from - 1) count) [
      | none ↦ none
      | some more ↦ some (parts ++ more)
    ]
  ]
]

-- `_rank_or_none`
unfoldable pub rank_or_none : Hierarchy → Assignment → Option ℕ
rank_or_none h a = elim a.level [ none ↦ none | some name ↦ Registry.rank h name ]

-- one turn of a loop over assignments: go on with a condition, return all rows, or raise
pub data Turn : Type 0 where
  go : Q → Turn
  all_rows failed : Turn

-- whether a row meets a condition
unfoldable pub holds : Env → Q → Obj → Bool
holds env nothing row = false
holds env everything row = true
holds env (pk_is id) row = row.pk == id
holds env (at_path path id) row = elim (follow_parts env row path) [
  | none ↦ false
  | some n ↦ n.pk == id
]
holds env (pk_in rows) row = any (λ n. n.pk == row.pk) rows
holds env (either q r) row = holds env q row || holds env r row
holds env (both q r) row = holds env q row && holds env r row

-- the test on the optional permission
unfoldable pub lacks : Db → Option String → Granted → Bool
lacks db none g = false
lacks db (some perm) g = not (contains perm (role_perms db g.role))

-- The loop that `accessible_nodes` and `scope_filter_q` share. They differ in what they add for an
-- assignment with a scope at a known rank; `none` is an exception.
module _ (env : Env) (db : Db) (add : Assignment → ℕ → Q → Option Q)
    (permission : Option String) where
  unfoldable pub turn : Granted → Q → Turn
  turn g q =
      if not (assignment_is_valid env g)
      then go q
      else if lacks db permission g
      then go q
      else if is_root_scope g.assignment
      then all_rows
      else elim (rank_or_none env.hierarchy g.assignment) [
        | none ↦ go q
        | some rank ↦ elim (add g.assignment rank q) [ none ↦ failed | some q' ↦ go q' ]
      ]

  unfoldable pub assignment_loop : Q → List Granted → Option Q
  assignment_loop q [] = some q
  assignment_loop q (g ∷ gs) = elim (turn g q) [
    | go q' ↦ assignment_loop q' gs
    | all_rows ↦ some everything
    | failed ↦ none
  ]

module _ (env : Env) where
  -- the end of the loop's body in `accessible_nodes`
  unfoldable pub add_scope : ℕ → Assignment → ℕ → Q → Option Q
  add_scope target a rank q =
      if ltb target rank
      then some q
      else if rank == target
      then some (either q (pk_is a.scope_id))
      else elim (up_path env.hierarchy.levels target (target - rank)) [
        | none ↦ none
        | some path ↦ some (either q (at_path path a.scope_id))
      ]

  module _ (db : Db) where
    -- the condition of `accessible_nodes` on the rows of a level of this rank
    unfoldable pub node_condition : User → ℕ → Option ℕ → Option String → Option Q
    node_condition user target at permission =
        if not user.is_active
        then some nothing
        else if user.is_superuser
        then some everything
        else assignment_loop env db (add_scope target) permission nothing
            (effective_assignments env db user at)

    -- `accessible_nodes`; an unknown level, or one without a model, is an exception
    unfoldable pub accessible_nodes : User → ℕ → Option ℕ → Option String → Option (List Obj)
    accessible_nodes user level_name at permission =
        elim (Registry.level env.hierarchy level_name) [
          | none ↦ none
          | some l ↦
              if Registry.is_root l then none else elim (Registry.rank env.hierarchy level_name) [
                | none ↦ none
                | some target ↦ elim (node_condition user target at permission) [
                  | none ↦ none
                  | some q ↦ some (filter (holds env q) (Registry.queryset env.world l))
                ]
              ]
        ]
