-- ===== src/Registry.antt =====
-- scoped_access/registry.py: the hierarchy of levels, and the registry of resource anchors.
pub mod Ranks
pub mod Anchors
use django_auth_with_scoped.Base.{
  ℕ, zero, suc, ◌≡◌, ◌↔◌, Bool, true, false, not, ◌&&◌, ◌||◌, Option, none, some, List, [], ◌∷◌,
  ◌++◌, map, arith, if◌then◌else◌, HasEq, ◌==◌, nat_eq, option_eq, list_eq, pair_eq, is_some, any,
  filter, contains, union, Dict, lookup, put, pop,
}
use django_auth_with_scoped.World.{Accessor, Obj, World}

pub record Level : Type 0 where
  pub name : ℕ
  pub model_label : Option ℕ
  pub parent : Option Accessor
  pub discriminator : List (ℕ × ℕ)

-- the equality of the frozen dataclass, field by field
abbrev pub level_beq : Level → Level → Bool
level_beq l k =
    l.name == k.name
    && l.model_label == k.model_label
    && l.parent == k.parent
    && l.discriminator == k.discriminator

pub level_beq_iff : (l k : Level) → (level_beq l k ≡ true) ↔ (l ≡ k)
level_beq_iff l k = ground (
  arith,
  nat_eq.same_iff l.name k.name,
  (option_eq {A = ℕ}).same_iff l.model_label k.model_label,
  (option_eq {A = Accessor}).same_iff l.parent k.parent,
  (list_eq {A = ℕ × ℕ}).same_iff l.discriminator k.discriminator,
)

instance abbrev pub level_eq : HasEq Level
level_eq = record { same = level_beq; same_iff = level_beq_iff }

-- `Level.is_root`
unfoldable pub is_root : Level → Bool
is_root l = not (is_some l.model_label)

pub record Hierarchy : Type 0 where
  pub levels : List Level

-- `Hierarchy._by_name`: of two levels with one name the dict keeps the later. `none` is `KeyError`.
unfoldable pub by_name : List Level → ℕ → Option Level
by_name [] name = none
by_name (l ∷ ls) name = elim (by_name ls name) [
  | some later ↦ some later
  | none ↦ if l.name == name then some l else none
]

-- `tuple.index`; `none` is `ValueError`
unfoldable pub index : List Level → Level → Option ℕ
index [] l = none
index (k ∷ ks) l =
    let rest = index ks l in
    if k == l then some 0 else elim rest [ none ↦ none | some i ↦ some (suc i) ]

-- `Hierarchy.level`
unfoldable pub level : Hierarchy → ℕ → Option Level
unfolding by_name
level h name = by_name h.levels name

-- `Hierarchy.rank`
unfoldable pub rank : Hierarchy → ℕ → Option ℕ
unfolding level index
rank h name = elim (level h name) [ none ↦ none | some l ↦ index h.levels l ]

-- `Hierarchy.is_root`
unfoldable pub is_root_name : Hierarchy → Option ℕ → Option Bool
unfolding level is_root
is_root_name h none = some false
is_root_name h (some name) = elim (level h name) [ none ↦ none | some l ↦ some (is_root l) ]

module _ (w : World) where
  -- `Level.model`
  unfoldable pub model : Level → Option ℕ
  model l = elim l.model_label [ none ↦ none | some label ↦ some (w.get_model label) ]

  -- `Level.queryset`: the default manager's rows, filtered if there is a discriminator
  unfoldable pub queryset : Level → List Obj
  unfolding model filter
  queryset l = elim (model l) [
    | none ↦ []
    | some m ↦
        let rows = w.all_rows m in
        elim l.discriminator [ [] ↦ rows | _ ∷ _ ↦ filter (w.satisfies l.discriminator) rows ]
  ]

  -- `level.queryset().filter(pk=pk).exists()`
  unfoldable pub has_row : Level → Option ℕ → Bool
  unfolding queryset any
  has_row l pk = any (λ row. row.pk == pk) (queryset l)

  -- `Hierarchy.levels_for_model`
  unfoldable pub levels_for_model : Hierarchy → ℕ → List Level
  unfolding filter is_root model
  levels_for_model h m = filter (λ l. not (is_root l) && (model l == some m)) h.levels

  -- `Hierarchy.is_node_model`
  unfoldable pub is_node_model : Hierarchy → ℕ → Bool
  unfolding levels_for_model
  is_node_model h m = elim (levels_for_model h m) [ [] ↦ false | _ ∷ _ ↦ true ]

  -- the loop of `parent_accessor_for_model`; an empty accessor is falsy
  unfoldable pub first_parent : List Level → Option Accessor
  first_parent [] = none
  first_parent (l ∷ ls) = elim l.parent [
    | none ↦ first_parent ls
    | some [] ↦ first_parent ls
    | some (part ∷ parts) ↦ some (part ∷ parts)
  ]

  -- `Hierarchy.parent_accessor_for_model`
  unfoldable pub parent_accessor_for_model : Hierarchy → ℕ → Option Accessor
  unfolding levels_for_model first_parent
  parent_accessor_for_model h m = first_parent (levels_for_model h m)

-- `ResourceRegistry`
pub record Resources : Type 0 where
  pub anchors : Dict ℕ Accessor
  pub globals : List ℕ

-- `set.discard`
unfoldable pub discard : ℕ → List ℕ → List ℕ
unfolding filter
discard m ms = filter (λ k. not (k == m)) ms

module _ (r : Resources) (m : ℕ) where
  unfoldable pub register : Accessor → Resources
  unfolding put discard
  register anchor = record { anchors = put m anchor r.anchors; globals = discard m r.globals }

  unfoldable pub register_global : Resources
  unfolding pop union
  register_global = record { anchors = pop m r.anchors; globals = union (m ∷ []) r.globals }

  unfoldable pub unregister : Resources
  unfolding pop discard
  unregister = record { anchors = pop m r.anchors; globals = discard m r.globals }

  unfoldable pub anchor_for : Option Accessor
  unfolding lookup
  anchor_for = lookup m r.anchors

  unfoldable pub is_global : Bool
  unfolding contains
  is_global = contains m r.globals

  unfoldable pub is_registered : Bool
  unfolding lookup contains
  is_registered = is_some (lookup m r.anchors) || contains m r.globals

-- `ResourceRegistry.clear`, and the registry at start
unfoldable pub cleared : Resources
cleared = record { anchors = []; globals = [] }

-- `ResourceRegistry.models`
unfoldable pub models : Resources → List ℕ
unfolding union
models r = union (map (λ e. e.0) r.anchors) r.globals
