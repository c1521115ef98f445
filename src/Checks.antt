-- ===== src/Checks.antt =====
-- The system checks of the settings (scoped_access/checks.py).
pub mod Messages
pub mod Entries
pub mod Sound
pub mod Checked
use Prim.Native.Char.{code}
use Prim.Native.String
use django_auth_with_scoped.Base.{
  ℕ, zero, suc, ◌≡◌, Bool, true, false, not, ◌&&◌, ◌||◌, Option, none, some, List, [], ◌∷◌, ◌++◌,
  map, String, if◌then◌else◌, HasEq, ◌==◌, nat_eq, string_eq, option_eq, list_eq, leb, ltb, is_some,
  get_or, Dict, lookup, any, filter, contains, union,
}
use django_auth_with_scoped.World.{World, Accessor, Field}
use django_auth_with_scoped.Registry
use django_auth_with_scoped.Registry.{Resources}
use django_auth_with_scoped.Settings.{
  Setting, boolean, integer, negative, text, other, is_true, Entry, RawEntry, Grantable, word,
  listed, callable, unknown, Reauth, mapping, no_mapping, Raw, as_entry,
}

-- the messages, by their ids, with what they name
pub data Message : Type 0 where
  e001 e002 e005 e009_dictionary e009_enabled e010 e011 e013 e014 w001 : Message
  e003 e006 : Option ℕ → Message
  e004 e008 e012 : ℕ → Message
  e007 : Option ℕ → Accessor → Message

-- `_walk_relation_path`: the segment that is wrong, or the model that the path lands on; the one
-- segment of the empty path is the empty name, which is `none`
pub data Walked : Type 0 where
  bad_part : Option ℕ → Walked
  lands : ℕ → Walked

-- What the checks ask of Django: the models that can be loaded, their app labels, the models of
-- an app, and whether a model was made by Django for a many-to-many field.
pub record Apps : Type 0 where
  pub find_model : ℕ → Option ℕ
  pub app_label : ℕ → ℕ
  pub models_of : ℕ → List ℕ
  pub auto_created : ℕ → Bool

-- the parts of a list that a set keeps, one of each
unfoldable pub distinct {ℓ} : {A : Type ℓ} ⦃e : HasEq A⦄ → List A → Bool
distinct [] = true
distinct (x ∷ xs) = not (contains x xs) && distinct xs

-- the indices of the entries that have no model
unfoldable pub root_indices : ℕ → List Entry → List ℕ
root_indices i [] = []
root_indices i (e ∷ es) =
    let rest = root_indices (suc i) es in if is_some e.model_label then rest else i ∷ rest

-- `re.fullmatch(r"[1-9]\d*/[smhd][A-Za-z]*", rate)`, over code points; `\d` is a parameter, since
-- Python means every decimal digit of Unicode by it
abbrev pub codes : String → List ℕ
codes String.[] = []
codes (String.◌∷◌ c s) = code c ∷ codes s

abbrev pub within : ℕ → ℕ → ℕ → Bool
within low high c = leb low c && leb c high

unfoldable pub is_word : List ℕ → Bool
is_word [] = true
is_word (c ∷ cs) = (within b'A' b'Z' c || within b'a' b'z' c) && is_word cs

unfoldable pub is_period : List ℕ → Bool
is_period [] = false
is_period (c ∷ cs) = contains c (b's' ∷ b'm' ∷ b'h' ∷ b'd' ∷ []) && is_word cs

module _ (is_digit : ℕ → Bool) where
  unfoldable pub is_rate_after : List ℕ → Bool
  is_rate_after [] = false
  is_rate_after (c ∷ cs) =
      let digits = is_rate_after cs in
      if is_digit c then digits else if c == b'/' then is_period cs else false

  unfoldable pub is_rate : String → Bool
  is_rate s = elim (codes s) [ [] ↦ false | c ∷ cs ↦ within b'1' b'9' c && is_rate_after cs ]

unfoldable pub is_rate_setting : (ℕ → Bool) → Setting → Bool
is_rate_setting is_digit (text s) = is_rate is_digit s
is_rate_setting is_digit _ = false

-- a set, as a list of one of each
unfoldable pub as_set : List ℕ → List ℕ
unfolding union
as_set [] = []
as_set (l ∷ ls) = union (l ∷ []) (as_set ls)

-- `sorted(labels)`; the numbers that stand for labels are in their order
unfoldable pub insert_label : ℕ → List ℕ → List ℕ
insert_label label [] = label ∷ []
insert_label label (l ∷ ls) = elim (ltb l label) [
  | true ↦ l ∷ insert_label label ls
  | false ↦ label ∷ l ∷ ls
]

unfoldable pub sorted_labels : List ℕ → List ℕ
sorted_labels [] = []
sorted_labels (l ∷ ls) = insert_label l (sorted_labels ls)

-- the values that the settings of the step-up may have
unfoldable pub is_boolean : Setting → Bool
is_boolean (boolean b) = true
is_boolean _ = false

unfoldable pub is_positive : Setting → Bool
is_positive (integer n) = not (n == 0)
is_positive _ = false

unfoldable pub is_mode : Setting → Bool
is_mode (text s) = s == "single_use" || s == "window"
is_mode _ = false

unfoldable pub is_grantable : Grantable → Bool
is_grantable (word s) = s == "self" || s == "any"
is_grantable unknown = false
is_grantable _ = true

-- `errors.append(...)` under an `if`
abbrev pub when : Bool → Message → List Message
when true m = m ∷ []
when false m = []

module _ (w : World) where
  unfoldable pub walk_parts : ℕ → Accessor → Walked
  walk_parts current [] = lands current
  walk_parts current (part ∷ parts) = elim (w.get_field current part) [
    | Field.missing ↦ bad_part (some part)
    | Field.plain ↦ bad_part (some part)
    | Field.leads_to next ↦ walk_parts next parts
  ]

  unfoldable pub walk_relation_path : ℕ → Accessor → Walked
  walk_relation_path model [] = bad_part none
  walk_relation_path model (part ∷ parts) = walk_parts model (part ∷ parts)

  module _ (apps : Apps) where
    -- the check of a path that a level or a resource names
    unfoldable pub path_errors : ℕ → Accessor → (Option ℕ → Message) → List Message
    path_errors model path message = elim (walk_relation_path model path) [
      | bad_part part ↦ message part ∷ []
      | lands _ ↦ []
    ]

    -- the body of the loop over the levels with a model; an empty parent is falsy
    unfoldable pub level_errors : ℕ → Entry → ℕ → List Message
    level_errors i e label = elim (apps.find_model label) [
      | none ↦ e006 e.level ∷ []
      | some model ↦ elim e.parent [
        | none ↦ when (not (i == 0)) (e003 e.level)
        | some [] ↦ when (not (i == 0)) (e003 e.level)
        | some (part ∷ parts) ↦ path_errors model (part ∷ parts) (λ bad. e007 bad (part ∷ parts))
      ]
    ]

    -- the loop over the levels with a model, from the index `i`
    unfoldable pub hierarchy_errors : ℕ → List Entry → List Message
    hierarchy_errors i [] = []
    hierarchy_errors i (e ∷ es) = elim e.model_label [
      | none ↦ hierarchy_errors i es
      | some label ↦ level_errors i e label ++ hierarchy_errors (suc i) es
    ]

    -- `set | {x}` for each of the items, over lists of which only membership is read
    unfoldable pub with_models : List ℕ → List Entry → List ℕ
    with_models found [] = found
    with_models found (e ∷ es) = elim e.model_label [
      | none ↦ with_models found es
      | some label ↦ elim (apps.find_model label) [
        | none ↦ with_models found es
        | some model ↦ with_models (union found (model ∷ [])) es
      ]
    ]

    -- the inner loop of the check that every model is registered
    unfoldable pub registration_errors : Resources → List ℕ → List ℕ → List Message
    registration_errors resources hierarchy_models [] = []
    registration_errors resources hierarchy_models (model ∷ models) =
        when
          (not (
            apps.auto_created model
            || contains model hierarchy_models
            || Registry.is_registered resources model))
          (e012 model)
        ++ registration_errors resources hierarchy_models models

    unfoldable pub app_errors : Resources → List ℕ → List ℕ → List Message
    app_errors resources hierarchy_models [] = []
    app_errors resources hierarchy_models (app ∷ labels) =
        registration_errors resources hierarchy_models (apps.models_of app)
        ++ app_errors resources hierarchy_models labels

    -- the loop over the anchors
    unfoldable pub anchor_errors : List (ℕ × Accessor) → List Message
    anchor_errors [] = []
    anchor_errors ((model, anchor) ∷ items) =
        path_errors model anchor (λ _. e008 model) ++ anchor_errors items

    -- the check of `STRICT_REGISTRATION`, over the apps of the host, sorted by their labels
    unfoldable pub strict_errors : Resources → List Entry → List Message
    strict_errors resources modeled =
        let hierarchy_models = with_models [] modeled in
        let registered = map apps.app_label (Registry.models resources) in
        let labels = as_set (registered ++ map apps.app_label hierarchy_models) in
        app_errors resources hierarchy_models (sorted_labels labels)

-- `{e["level"] for e in modeled}`; a level without a name is a `KeyError`
unfoldable pub modeled_names : List Entry → Option (List ℕ)
modeled_names [] = some []
modeled_names (e ∷ es) = elim e.model_label [
  | none ↦ modeled_names es
  | some label ↦ elim e.level [
    | none ↦ none
    | some level ↦ elim (modeled_names es) [ none ↦ none | some names ↦ some (level ∷ names) ]
  ]
]

-- the loop over `ROLE_OWNER_LEVELS`
unfoldable pub owner_errors : List ℕ → List ℕ → List Message
owner_errors names [] = []
owner_errors names (level ∷ levels) =
    when (not (contains level names)) (e004 level) ++ owner_errors names levels

-- the checks of the dict `REAUTH`, with the backend of the default cache
unfoldable pub reauth_errors : (ℕ → Bool) → String → Dict String Setting → List Message
reauth_errors is_digit backend reauth =
    let enabled = get_or (lookup "ENABLED" reauth) (boolean false) in
    when (not (is_boolean enabled)) e009_enabled
    ++ (when (not (is_positive (get_or (lookup "TTL" reauth) (integer 300)))) e010
        ++ (when (not (is_rate_setting is_digit (get_or (lookup "RATE" reauth) (text "5/minute"))))
              e013
            ++ (when (not (is_mode (get_or (lookup "MODE" reauth) (text "single_use")))) e014
                ++ when
                    (is_true enabled
                      && (backend == "django.core.cache.backends.locmem.LocMemCache"
                          || backend == "django.core.cache.backends.dummy.DummyCache"))
                    w001)))

unfoldable pub reauth_setting_errors : (ℕ → Bool) → String → Reauth → List Message
reauth_setting_errors is_digit backend no_mapping = e009_dictionary ∷ []
reauth_setting_errors is_digit backend (mapping reauth) = reauth_errors is_digit backend reauth

-- `strict_registration is True`
unfoldable pub is_strict : Setting → Bool
is_strict (boolean b) = b
is_strict _ = false

-- `roots and roots != [0]`
unfoldable pub misplaced_root : List ℕ → Bool
misplaced_root roots = not (roots == [] || roots == 0 ∷ [])

-- `check_scoped_access_config`, with the backend of the default cache; `none` is a `KeyError`
module _ (w : World) (apps : Apps) (is_digit : ℕ → Bool) (backend : String)
    (resources : Resources) where
  unfoldable pub messages : Raw → List Entry → List ℕ → List Message
  messages raw entries names =
      let strict = get_or raw.strict_registration (boolean false) in
      when (not (distinct (map (λ (e : Entry). e.level) entries))) e001
      ++ (when (misplaced_root (root_indices 0 entries)) e002
          ++ (hierarchy_errors w apps 0 entries
              ++ (owner_errors names (get_or raw.role_owner_levels [])
                  ++ (when (not (is_grantable (get_or raw.grantable_permissions (word "self"))))
                        e005
                      ++ (when (not (is_boolean strict)) e011
                          ++ (reauth_setting_errors is_digit backend
                                (get_or raw.reauth (mapping []))
                              ++ (anchor_errors w apps resources.anchors
                                  ++ (if is_strict strict
                                      then strict_errors w apps resources entries
                                      else []))))))))

  unfoldable pub check_scoped_access_config : Raw → Option (List Message)
  check_scoped_access_config raw =
      let entries = map as_entry (get_or raw.hierarchy []) in
      elim (modeled_names entries) [ none ↦ none | some names ↦ some (messages raw entries names) ]
