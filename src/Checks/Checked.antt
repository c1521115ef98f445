-- ===== src/Checks/Checked.antt =====
-- Settings that pass the system checks (scoped_access/checks.py, conf.py) are the ones that the
-- theorems on filters ask for.
use django_auth_with_scoped.Base.{
  ℕ, ◌≡◌, refl, ◌∙◌, sym, ap, inl, inr, some, List, [], arith, option_eq, nat_eq, String, Bool,
  get_or, Option-cases,
}
use django_auth_with_scoped.Registry
use django_auth_with_scoped.Registry.{Level}
use django_auth_with_scoped.Config.{Env, Config}
use django_auth_with_scoped.Settings.{
  Raw, build_levels, Parsed, parsed, get_config, mapping, no_mapping, Reauth,
}
use django_auth_with_scoped.Checks.{Message, Apps, check_scoped_access_config}
use django_auth_with_scoped.Checks.Messages.{HasNoErrors}

-- A parsed configuration has the levels that the entries build.
get_config-levels :
    (raw : Raw) (p : Parsed)
    → get_config raw ≡ some p
    → (build_levels (get_or raw.hierarchy []) ≡ some p.config.hierarchy.levels)
      × (p.config.role_owner_levels ≡ get_or raw.role_owner_levels [])
unfolding get_config parsed
get_config-levels raw p h = elim (Option-cases (build_levels (get_or raw.hierarchy []))) [
  | inl broken ↦ absurd (ground arith)
  | inr (levels, built) ↦ with_reauth levels (get_or raw.reauth (mapping [])) built refl
]
  where
    with_reauth :
        (levels : List Level) (r : Reauth)
        → build_levels (get_or raw.hierarchy []) ≡ some levels
        → get_or raw.reauth (mapping []) ≡ r
        → (build_levels (get_or raw.hierarchy []) ≡ some p.config.hierarchy.levels)
          × (p.config.role_owner_levels ≡ get_or raw.role_owner_levels [])
    with_reauth levels no_mapping built e = absurd (ground arith)
    with_reauth levels (mapping given) built e =
        let shape : parsed raw levels given ≡ p = ground arith in
        (
          built ∙ ap some (ap (λ (x : Parsed). x.config.hierarchy.levels) shape),
          sym (ap (λ (x : Parsed). x.config.role_owner_levels) shape),
        )

module _ (env : Env) (apps : Apps) (is_digit : ℕ → Bool) (backend : String) (raw : Raw) (p : Parsed)
    (ms : List Message)
    (reported : check_scoped_access_config env.world apps is_digit backend env.resources raw
      ≡ some ms)
    (silent : HasNoErrors ms) (parses : get_config raw ≡ some p)
    (in_use : env.config ≡ p.config) where
  built : build_levels (get_or raw.hierarchy []) ≡ some env.hierarchy.levels
  built =
      (get_config-levels raw p parses).0
      ∙ ap some (ap (λ (c : Config). c.hierarchy.levels) (sym in_use))
