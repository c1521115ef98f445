-- ===== src/Checks/Sound.antt =====
-- The parts of the system checks (scoped_access/checks.py) that are silent when the whole is.
use django_auth_with_scoped.Base.{
  ℕ, ◌≡◌, sym, inl, inr, Bool, true, false, not, some, List, [], map, arith, nat_eq, option_eq,
  String, get_or, Option-cases, subst,
}
use django_auth_with_scoped.World.{World}
use django_auth_with_scoped.Registry.{Resources}
use django_auth_with_scoped.Settings.{
  Raw, Entry, as_entry, Parsed, get_config, mapping, boolean, word,
}
use django_auth_with_scoped.Checks.{
  Message, e001, e002, e005, e011, Apps, distinct, root_indices, misplaced_root, when,
  hierarchy_errors, modeled_names, owner_errors, anchor_errors, reauth_setting_errors, is_boolean,
  is_grantable, messages, check_scoped_access_config,
}
use django_auth_with_scoped.Checks.Messages.{HasNoErrors, mem-left, mem-right, when_silent}

module _ (w : World) (apps : Apps) (is_digit : ℕ → Bool) (backend : String) (resources : Resources)
    (raw : Raw) (p : Parsed) (ms : List Message)
    (reported : check_scoped_access_config w apps is_digit backend resources raw ≡ some ms)
    (silent : HasNoErrors ms) (parses : get_config raw ≡ some p) where
  abbrev pub entries : List Entry
  entries = map as_entry (get_or raw.hierarchy [])

  -- the parts of the check that these theorems use, each of them silent
  pub record IsSilent : Type 0 where
    pub names : List ℕ
    pub named : modeled_names entries ≡ some names
    pub no_e001 : distinct (map (λ (e : Entry). e.level) entries) ≡ true
    pub no_e002 : misplaced_root (root_indices 0 entries) ≡ false
    pub no_level : HasNoErrors (hierarchy_errors w apps 0 entries)
    pub no_owner : HasNoErrors (owner_errors names (get_or raw.role_owner_levels []))
    pub no_anchor : HasNoErrors (anchor_errors w apps resources.anchors)

  first_part :
      (names : List ℕ)
      → HasNoErrors (messages w apps is_digit backend resources raw entries names)
      → distinct (map (λ (e : Entry). e.level) entries) ≡ true
  unfolding messages
  first_part names all =
      let silent_when =
        when_silent (not (distinct (map (λ (e : Entry). e.level) entries))) e001
          (λ m mem. all m (mem-left _ mem)) (λ e. cc) in
      ground arith

  second_part :
      (names : List ℕ)
      → HasNoErrors (messages w apps is_digit backend resources raw entries names)
      → misplaced_root (root_indices 0 entries) ≡ false
  unfolding messages
  second_part names all =
      when_silent (misplaced_root (root_indices 0 entries)) e002
        (λ m mem. all m (mem-right _ (mem-left _ mem))) (λ e. cc)

  third_part :
      (names : List ℕ)
      → HasNoErrors (messages w apps is_digit backend resources raw entries names)
      → HasNoErrors (hierarchy_errors w apps 0 entries)
  unfolding messages
  third_part names all = λ m mem. all m (mem-right _ (mem-right _ (mem-left _ mem)))

  -- the messages before those on anchors
  abbrev on_names : List Message
  on_names = when (not (distinct (map (λ (e : Entry). e.level) entries))) e001

  abbrev on_root : List Message
  on_root = when (misplaced_root (root_indices 0 entries)) e002

  abbrev on_grants : List Message
  on_grants = when (not (is_grantable (get_or raw.grantable_permissions (word "self")))) e005

  abbrev on_strict : List Message
  on_strict = when (not (is_boolean (get_or raw.strict_registration (boolean false)))) e011

  abbrev on_reauth : List Message
  on_reauth = reauth_setting_errors is_digit backend (get_or raw.reauth (mapping []))

  fourth_part :
      (names : List ℕ)
      → HasNoErrors (messages w apps is_digit backend resources raw entries names)
      → HasNoErrors (owner_errors names (get_or raw.role_owner_levels []))
  unfolding messages
  fourth_part names all = λ m mem. all m (
      mem-right on_names
        (mem-right on_root (mem-right (hierarchy_errors w apps 0 entries) (mem-left _ mem))))

  last_part :
      (names : List ℕ)
      → HasNoErrors (messages w apps is_digit backend resources raw entries names)
      → HasNoErrors (anchor_errors w apps resources.anchors)
  unfolding messages
  last_part names all = λ m mem. all m (
      mem-right on_names (
        mem-right on_root (
          mem-right (hierarchy_errors w apps 0 entries) (
            mem-right (owner_errors names (get_or raw.role_owner_levels []))
              (mem-right on_grants (mem-right on_strict (mem-right on_reauth (mem-left _ mem))))))))

  pub silent_parts : IsSilent
  unfolding check_scoped_access_config
  silent_parts = elim (Option-cases (modeled_names entries)) [
    | inl broken ↦ absurd (ground arith)
    | inr (names, named) ↦
        let shape : messages w apps is_digit backend resources raw entries names ≡ ms =
          ground arith in
        let all : HasNoErrors (messages w apps is_digit backend resources raw entries names) =
          subst HasNoErrors (sym shape) silent in
        record {
          names = names;
          named = named;
          no_e001 = first_part names all;
          no_e002 = second_part names all;
          no_level = third_part names all;
          no_owner = fourth_part names all;
          no_anchor = last_part names all;
        }
  ]
