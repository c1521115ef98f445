-- ===== src/Registry/Anchors.antt =====
-- The registry of anchors (scoped_access/registry.py) against its abstract view: each model is
-- anchored, global, or not registered.
use mathlib.Core.Path.{fun_ext}
use django_auth_with_scoped.Base.{
  ℕ, ◌≡◌, refl, ◌∙◌, ap, true, not, ◌&&◌, none, some, List, [], ◌∷◌, arith, ◌==◌, nat_eq, contains,
  contains-union, lookup, lookup-pop, lookup-put, if◌then◌else◌,
}
use django_auth_with_scoped.World.{Accessor}
use django_auth_with_scoped.Registry
use django_auth_with_scoped.Registry.{Resources, discard, anchor_for, is_global}

-- a call of the registry's mutators
pub data Call : Type 0 where
  register : ℕ → Accessor → Call
  register_global : ℕ → Call
  unregister : ℕ → Call
  clear : Call

pub apply : Resources → Call → Resources
apply r (register m anchor) = Registry.register r m anchor
apply r (register_global m) = Registry.register_global r m
apply r (unregister m) = Registry.unregister r m
apply r clear = Registry.cleared

-- what the calls since the start of the process have made of the registry
pub run_from : Resources → List Call → Resources
run_from r [] = r
run_from r (c ∷ cs) = run_from (apply r c) cs

pub run : List Call → Resources
unfolding run_from
run cs = run_from Registry.cleared cs

pub data Status : Type 0 where
  anchored : Accessor → Status
  global unknown : Status

-- the registry as `resolve_anchor` reads it
pub status : Resources → ℕ → Status
status r m =
    if is_global r m
    then global
    else elim (anchor_for r m) [ none ↦ unknown | some anchor ↦ anchored anchor ]

-- the contract: the last call that names a model decides
pub status_after : Call → (ℕ → Status) → ℕ → Status
status_after (register m anchor) before k = if m == k then anchored anchor else before k
status_after (register_global m) before k = if m == k then global else before k
status_after (unregister m) before k = if m == k then unknown else before k
status_after clear before k = unknown

pub status_from : (ℕ → Status) → List Call → ℕ → Status
status_from before [] = before
status_from before (c ∷ cs) = status_from (status_after c before) cs

-- no model is both anchored and global
pub record IsDisjoint (r : Resources) : Type 0 where
  pub apart : (m : ℕ) → is_global r m ≡ true → anchor_for r m ≡ none

contains-discard :
    (m k : ℕ) (ms : List ℕ) → contains k (discard m ms) ≡ (not (m == k) && contains k ms)
unfolding contains discard
contains-discard m k [] = ground arith
contains-discard m k (x ∷ ms) = ground (arith, contains-discard m k ms)

-- Each call keeps anchored and global models apart.
pub apply-IsDisjoint : (r : Resources) (c : Call) → IsDisjoint r → IsDisjoint (apply r c)
unfolding apply is_global anchor_for Registry.register Registry.register_global Registry.unregister
    Registry.cleared contains lookup
apply-IsDisjoint r (register m anchor) h = record {
  apart = λ k g.
      ground (arith, contains-discard m k r.globals, lookup-put m k anchor r.anchors, h.apart k);
}
apply-IsDisjoint r (register_global m) h = record {
  apart = λ k g.
      ground (arith, contains-union k (m ∷ []) r.globals, lookup-pop m k r.anchors, h.apart k);
}
apply-IsDisjoint r (unregister m) h = record {
  apart =
      λ k g. ground (arith, contains-discard m k r.globals, lookup-pop m k r.anchors, h.apart k);
}
apply-IsDisjoint r clear h = record { apart = λ k g. refl }

status-apply :
    (r : Resources) (c : Call) (k : ℕ) → status (apply r c) k ≡ status_after c (status r) k
unfolding apply status status_after is_global anchor_for Registry.register Registry.register_global
    Registry.unregister Registry.cleared contains lookup
status-apply r (register m anchor) k =
    ground (arith, contains-discard m k r.globals, lookup-put m k anchor r.anchors)
status-apply r (register_global m) k =
    ground (arith, contains-union k (m ∷ []) r.globals, lookup-pop m k r.anchors)
status-apply r (unregister m) k =
    ground (arith, contains-discard m k r.globals, lookup-pop m k r.anchors)
status-apply r clear k = refl

cleared_lem : (m : ℕ) → anchor_for Registry.cleared m ≡ none
unfolding Registry.cleared anchor_for lookup
cleared_lem m = refl

cleared_status : (m : ℕ) → status Registry.cleared m ≡ unknown
unfolding Registry.cleared status is_global anchor_for lookup contains
cleared_status m = refl

run_from-IsDisjoint : (r : Resources) (cs : List Call) → IsDisjoint r → IsDisjoint (run_from r cs)
unfolding run_from
run_from-IsDisjoint r [] h = h
run_from-IsDisjoint r (c ∷ cs) h = run_from-IsDisjoint (apply r c) cs (apply-IsDisjoint r c h)

status-run_from :
    (r : Resources) (cs : List Call) → status (run_from r cs) ≡ status_from (status r) cs
unfolding run_from status_from
status-run_from r [] = refl
status-run_from r (c ∷ cs) =
    status-run_from (apply r c) cs ∙ ap (λ f. status_from f cs) (fun_ext (status-apply r c))

-- After any sequence of calls of the registry, no model is both anchored and global, and each
-- model's status is the one given by the last call that concerns it; before any call it is unknown.
pub status-run :
    (cs : List Call) → IsDisjoint (run cs) × (status (run cs) ≡ status_from (λ _. unknown) cs)
unfolding run
status-run cs = (
  run_from-IsDisjoint Registry.cleared cs start,
  status-run_from Registry.cleared cs ∙ ap (λ f. status_from f cs) nothing,
)
  where
    start : IsDisjoint Registry.cleared
    start = record { apart = λ m g. cleared_lem m }

    nothing : status Registry.cleared ≡ (λ _. unknown)
    nothing = fun_ext cleared_status
