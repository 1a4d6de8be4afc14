-- ===== src/Setup/Lifecycle/Hook.antt =====
-- The hook of internal/infra/elasticsearch/index/lifecycle_management.go on the template of the archive.
use tasques.Prelude.{
  String, true, false, Option, none, some, [], ◌∷◌, ◌≡◌, refl, sym, ap, ◌∙◌, str_eq, str_eq_iff,
  str_eq_refl, Bool-cases, inl, inr, if◌then◌else◌, arith,
}
use tasques.Domain.Json.{Json, JsonObj, empty, field, text}
use tasques.Es.Tasks.Settings.{tasques_archive_index}
use tasques.Setup.Templates.{Template, set_entry, or_empty}
use tasques.Setup.Lifecycle.{
  LifecycleSettings, policy_name, archive_pattern, archived_template_hook,
}

-- What an object holds under a key.
unfoldable pub entry : String → JsonObj → Option Json
entry key empty = none
entry key (field k v rest) = let later = entry key rest in if str_eq k key then some v else later

entry-set_entry :
    (key : String) (value : Json) (o : JsonObj) → entry key (set_entry key value o) ≡ some value
unfolding entry set_entry
entry-set_entry key value empty = rw (str_eq_refl key) refl
entry-set_entry key value (field k v rest) = elim (Bool-cases (str_eq k key)) [
  | inl e ↦ rw (e, e) refl
  | inr e ↦ rw (e, e) (entry-set_entry key value rest)
]

entry-set_entry_other :
    (other key : String) (value : Json) (o : JsonObj)
    → str_eq key other ≡ false
    → entry other (set_entry key value o) ≡ entry other o
unfolding entry set_entry
entry-set_entry_other other key value empty h = rw h refl
entry-set_entry_other other key value (field k v rest) h = elim (Bool-cases (str_eq k key)) [
  | inl e ↦ let apart = ap (λ x. str_eq x other) ((str_eq_iff k key).0 e) ∙ h in rw (e, apart) refl
  | inr e ↦ rw e (
      ap (λ o. if str_eq k other then some v else o) (entry-set_entry_other other key value rest h))
]

-- Setting what is there already changes nothing.
set_entry_same :
    (key : String) (value : Json) (o : JsonObj)
    → entry key o ≡ some value
    → set_entry key value o ≡ o
unfolding entry set_entry
set_entry_same key value empty h = absurd (ground arith)
set_entry_same key value (field k v rest) h = elim (Bool-cases (str_eq k key)) [
  | inl e ↦
      let value_eq : v ≡ value = ground (arith, rw e at h) in
      rw e (ap (λ x. field k x rest) (sym value_eq))
  | inr e ↦ rw e (ap (λ o. field k v o) (set_entry_same key value rest (rw e at h)))
]

abbrev policy_key : String
policy_key = "index.lifecycle.name"

abbrev alias_key : String
alias_key = "index.lifecycle.rollover_alias"

abbrev settings_of : LifecycleSettings → JsonObj → JsonObj
settings_of config o =
    set_entry alias_key (text tasques_archive_index)
      (set_entry policy_key (text (policy_name config)) o)

settings_of-policy :
    (config : LifecycleSettings) (o : JsonObj)
    → entry policy_key (settings_of config o) ≡ some (text (policy_name config))
settings_of-policy config o =
    let policy = text (policy_name config) in
    entry-set_entry_other policy_key alias_key (text tasques_archive_index)
      (set_entry policy_key policy o) refl
    ∙ entry-set_entry policy_key policy o

-- A template as the lifecycle wants it, next to what it was.
pub record IsHooked (config : LifecycleSettings) (before after : Template) : Type 0 where
  pub name : after.name ≡ before.name
  pub mappings : after.mappings ≡ before.mappings
  pub patterns : after.patterns ≡ archive_pattern ∷ []
  pub policy : entry policy_key (or_empty after.settings) ≡ some (text (policy_name config))
  pub alias : entry alias_key (or_empty after.settings) ≡ some (text tasques_archive_index)
  pub kept :
      (key : String)
      → str_eq policy_key key ≡ false
      → str_eq alias_key key ≡ false
      → entry key (or_empty after.settings) ≡ entry key (or_empty before.settings)

-- With the lifecycle enabled, the hook names the policy and the alias in the settings and keeps the
-- other settings; the pattern is replaced.
pub archived_template_hook-IsHooked :
    (config : LifecycleSettings) (t : Template)
    → config.enabled ≡ true
    → IsHooked config t (archived_template_hook config t)
unfolding archived_template_hook policy_name
archived_template_hook-IsHooked config t on =
    let o = or_empty t.settings in
    let policy = text (policy_name config) in
    let alias = text tasques_archive_index in
    rw on (record {
      name = refl;
      mappings = refl;
      patterns = refl;
      policy = settings_of-policy config o;
      alias = entry-set_entry alias_key alias (set_entry policy_key policy o);
      kept = λ key a b.
          entry-set_entry_other key alias_key alias (set_entry policy_key policy o) b
          ∙ entry-set_entry_other key policy_key policy o a;
    })

settings_of_twice :
    (config : LifecycleSettings) (o : JsonObj)
    → settings_of config (settings_of config o) ≡ settings_of config o
settings_of_twice config o =
    let policy = text (policy_name config) in
    let alias = text tasques_archive_index in
    let once = settings_of config o in
    ap (λ x. set_entry alias_key alias x)
      (set_entry_same policy_key policy once (settings_of-policy config o))
    ∙ set_entry_same alias_key alias once
        (entry-set_entry alias_key alias (set_entry policy_key policy o))

abbrev hooked : LifecycleSettings → Template → Template
hooked config t = record t {
  patterns = archive_pattern ∷ [];
  settings = some (settings_of config (or_empty t.settings));
}

archived_template_hook-on :
    (config : LifecycleSettings) (t : Template)
    → config.enabled ≡ true
    → archived_template_hook config t ≡ hooked config t
unfolding archived_template_hook policy_name
archived_template_hook-on config t on = rw on refl

-- The hook may meet a template that it has changed already: the second time changes nothing.
pub archived_template_hook_twice :
    (config : LifecycleSettings) (t : Template)
    → archived_template_hook config (archived_template_hook config t)
      ≡ archived_template_hook config t
unfolding archived_template_hook
archived_template_hook_twice config t = elim (Bool-cases config.enabled) [
  | inl on ↦
      let once = archived_template_hook-on config t on in
      ap (archived_template_hook config) once
      ∙ archived_template_hook-on config (hooked config t) on
      ∙ ap (λ o. record t { patterns = archive_pattern ∷ []; settings = some o })
          (settings_of_twice config (or_empty t.settings))
      ∙ sym once
  | inr off ↦ rw off refl
]
