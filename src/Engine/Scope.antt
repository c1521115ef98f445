-- ===== src/Engine/Scope.antt =====
-- Scope resolution (scoped_access/engine.py): from an object to its anchor node, up the
-- hierarchy, and which assignments are valid and cover it.
pub mod Ancestors
pub mod Coverage
pub mod Tenancy
use django_auth_with_scoped.Base.{
  ℕ, zero, suc, Bool, true, false, not, ◌&&◌, ◌||◌, Option, none, some, List, [], ◌∷◌,
  if◌then◌else◌, ◌==◌, nat_eq, option_eq, is_some, any,
}
use django_auth_with_scoped.World.{Obj, Accessor, Fetched}
use django_auth_with_scoped.Registry
use django_auth_with_scoped.Registry.{Level}
use django_auth_with_scoped.Models.{Role, Assignment, Granted, is_root_scope}
use django_auth_with_scoped.Config.{Env}

-- the pair that `resolve_anchor` returns; only `NODE` comes with an object
pub data Anchor : Type 0 where
  node : Obj → Anchor
  global denied unregistered : Anchor

-- the `try` round a generic reference: what it raises reads as `None`
unfoldable pub found_or_none : Fetched → Option Obj
found_or_none (Fetched.found o) = some o
found_or_none Fetched.absent = none
found_or_none Fetched.raised = none

module _ (env : Env) where
  -- the loop of `_follow`
  unfoldable pub follow_parts : Obj → Accessor → Option Obj
  follow_parts obj [] = some obj
  follow_parts obj (part ∷ parts) = elim (env.getattr obj part) [
    | none ↦ none
    | some next ↦ follow_parts next parts
  ]

  -- `_follow`; no object has an attribute of the empty name
  unfoldable pub follow : Obj → Accessor → Option Obj
  unfolding follow_parts
  follow obj [] = none
  follow obj (part ∷ parts) = follow_parts obj (part ∷ parts)

  unfoldable pub resolve_anchor : Obj → Anchor
  resolve_anchor obj =
      if Registry.is_node_model env.world env.hierarchy obj.model
      then node obj
      else if Registry.is_global env.resources obj.model
      then global
      else elim (Registry.anchor_for env.resources obj.model) [
        | none ↦ if env.strict_registration then unregistered else global
        | some path ↦ elim (follow obj path) [ none ↦ denied | some n ↦ node n ]
      ]

  -- the body of the loop in `iter_ancestors`: the next node, or the end
  unfoldable pub parent_of : Obj → Option Obj
  parent_of n = elim (Registry.parent_accessor_for_model env.world env.hierarchy n.model) [
    | none ↦ none
    | some accessor ↦ follow n accessor
  ]

  unfoldable pub walk : ℕ → Obj → List Obj
  walk zero n = []
  walk (suc fuel) n = n ∷ elim (parent_of n) [ none ↦ [] | some up ↦ walk fuel up ]

  -- `iter_ancestors`; a node of depth d has at most d ancestors
  unfoldable pub iter_ancestors : Obj → List Obj
  iter_ancestors n = walk (suc (env.depth n)) n

  -- `_same_node`; `str` keeps keys apart, and no key reads "None"
  unfoldable pub same_node : Assignment → Obj → Bool
  same_node a n = n.pk == a.scope_id && some (env.content_type n.model) == a.scope_ct_id

  -- `_assignment_scope_or_none`
  unfoldable pub assignment_scope_or_none : Assignment → Option Obj
  assignment_scope_or_none a = found_or_none (env.generic_get a.scope_ct_id a.scope_id)

  -- `_role_owner_or_none`
  unfoldable pub role_owner_or_none : Role → Option Obj
  role_owner_or_none role = found_or_none (env.generic_get role.owner_ct_id role.owner_id)

  -- the test on the level in `_assignment_scope_is_valid` and in `role_assignable`
  unfoldable pub level_holds : Obj → Level → Bool
  level_holds n l =
      not (Registry.is_root l)
      && Registry.model env.world l == some n.model
      && Registry.has_row env.world l n.pk

  -- `_assignment_scope_is_valid`, for a root assignment and for a scoped one
  unfoldable pub root_shape_is_valid : Assignment → Bool
  root_shape_is_valid a =
      if is_some a.scope_ct_id then false else elim (Registry.is_root_name env.hierarchy a.level) [
        | none ↦ false
        | some root ↦ if is_some a.level then root else true
      ]

  unfoldable pub node_shape_is_valid : Assignment → Bool
  node_shape_is_valid a =
      elim (if is_some a.scope_ct_id then assignment_scope_or_none a else none) [
        | none ↦ false
        | some scope ↦ elim a.level [
          | none ↦ false
          | some name ↦ elim (Registry.level env.hierarchy name) [
            | none ↦ false
            | some l ↦ level_holds scope l
          ]
        ]
      ]

  unfoldable pub assignment_scope_is_valid : Assignment → Bool
  assignment_scope_is_valid a =
      if is_root_scope a then root_shape_is_valid a else node_shape_is_valid a

  -- the generator in `role_assignable`
  unfoldable pub is_owner : Role → Obj → Bool
  is_owner role n = n.pk == role.owner_id && some (env.content_type n.model) == role.owner_ct_id

  -- `role_assignable` (R2), after its checks on the owner
  unfoldable pub owner_above : Role → ℕ → Obj → Bool
  owner_above role level_name n = elim (Registry.level env.hierarchy level_name) [
    | none ↦ false
    | some l ↦ level_holds n l && any (is_owner role) (iter_ancestors n)
  ]

  unfoldable pub role_assignable : Role → Option ℕ → Option Obj → Bool
  role_assignable role level_name n =
      if not (is_some role.owner_id)
      then true
      else if not (is_some (role_owner_or_none role))
      then false
      else elim n [
        | none ↦ false
        | some scope ↦ elim level_name [ none ↦ false | some name ↦ owner_above role name scope ]
      ]

  -- `_assignment_is_valid`, as it computes its answer
  unfoldable pub assignment_is_valid : Granted → Bool
  assignment_is_valid g =
      let valid = assignment_scope_is_valid g.assignment in
      if valid && is_some g.role.owner_id
      then (if not (is_some (role_owner_or_none g.role))
          then false
          else role_assignable g.role g.level (assignment_scope_or_none g.assignment))
      else valid

  -- the scope test of `covers`, `user_permissions` and `user_covers`
  unfoldable pub any_same_node : Assignment → Obj → Bool
  any_same_node a n = any (same_node a) (iter_ancestors n)

  unfoldable pub covers_anchor : Assignment → Anchor → Bool
  covers_anchor a unregistered = false
  covers_anchor a global = true
  covers_anchor a denied = is_root_scope a
  covers_anchor a (node n) = is_root_scope a || any_same_node a n

  -- `covers`
  unfoldable pub covers : Granted → Obj → Bool
  covers g obj =
      if not (assignment_is_valid g) then false else covers_anchor g.assignment (resolve_anchor obj)
