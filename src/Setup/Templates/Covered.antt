-- ===== src/Setup/Templates/Covered.antt =====
-- Which indices the templates of internal/infra/elasticsearch/index/template.go are for.
use Prim.Native.String.{◌++◌ as append}
use tasques.Prelude.{String, Bool, true, false, ◌||◌, List, [], ◌∷◌, ◌≡◌, refl, arith}
use tasques.Es.Leader.{index_name}
use tasques.Es.Tasks.Settings.{tasques_archive_index, build_index_name, tasques_queue_prefix}
use tasques.Es.Recurring.Service.{tasques_recurring_tasks_index}
use tasques.Setup.Lifecycle.{LifecycleSettings, archived_template_hook}
use tasques.Setup.Templates.{Template, new_template}
use tasques.Setup.Templates.Default.{default_template_setup, tasques_archive_template}

-- Whether an index has a pattern: `*` at the end of a pattern stands for any text.
pub record Glob (matches : String → String → Bool) : Type 0 where
  pub itself : (name : String) → matches name name ≡ true
  pub star : (prefix rest : String) → matches (append prefix "*") (append prefix rest) ≡ true

-- The indices that the services read and write. With a lifecycle the archive is an alias, and its
-- indices have a date and a number after its name.
pub data IsIndex (config : LifecycleSettings) : String → Type 0 where
  of_queue : (queue : String) → IsIndex config (build_index_name queue)
  archive : config.enabled ≡ false → IsIndex config tasques_archive_index
  rolled_over :
      (suffix : String)
      → config.enabled ≡ true
      → IsIndex config (append (append tasques_archive_index "-") suffix)
  locks : IsIndex config index_name
  recurring : IsIndex config tasques_recurring_tasks_index

module _ (matches : String → String → Bool) where
  abbrev any_pattern : List String → String → Bool
  any_pattern [] index = false
  any_pattern (p ∷ ps) index = matches p index || any_pattern ps index

  unfoldable pub covers : List Template → String → Bool
  covers [] index = false
  covers (t ∷ ts) index = any_pattern t.patterns index || covers ts index

  -- Every index of the services gets the mappings of one of the templates, with the lifecycle enabled
  -- and without.
  pub default_template_setup-covers :
      (config : LifecycleSettings) (index : String)
      → Glob matches
      → IsIndex config index
      → covers
          (default_template_setup (archived_template_hook config) tasques_archive_template).0
          index
        ≡ true
  unfolding covers default_template_setup archived_template_hook new_template build_index_name
  default_template_setup-covers config _ glob (of_queue queue) =
      rw (glob.star tasques_queue_prefix queue) refl
  default_template_setup-covers config _ glob (archive off) =
      ground (arith, off, glob.itself tasques_archive_index)
  default_template_setup-covers config _ glob (rolled_over suffix on) =
      ground (arith, on, glob.star (append tasques_archive_index "-") suffix)
  default_template_setup-covers config _ glob locks = ground (arith, glob.itself index_name)
  default_template_setup-covers config _ glob recurring =
      ground (arith, glob.itself tasques_recurring_tasks_index)
