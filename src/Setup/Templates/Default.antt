-- ===== src/Setup/Templates/Default.antt =====
-- The four templates of the app in internal/infra/elasticsearch/index/template.go, with the hook by which
-- the lifecycle changes that of the archive.
use tasques.Prelude.{List, [], ◌∷◌}
use tasques.Es.Leader.{index_name}
use tasques.Es.Tasks.Settings.{tasques_archive_index, build_index_name}
use tasques.Es.Recurring.Service.{tasques_recurring_tasks_index}
use tasques.Setup.Templates.{Template, new_template}
use tasques.Setup.Templates.Mappings.{
  base_task_mappings, archived_task_mappings, locks_mappings, recurring_tasks_mappings,
}

abbrev pub tasques_queues_template : Template
tasques_queues_template =
    new_template ".tasques_queues_index_template" (build_index_name "*" ∷ []) base_task_mappings

abbrev pub tasques_archive_template : Template
tasques_archive_template =
    new_template ".tasques_archive_index_template" (tasques_archive_index ∷ [])
      archived_task_mappings

abbrev pub tasques_locks_template : Template
tasques_locks_template =
    new_template ".tasques_leader_locks_index_template" (index_name ∷ []) locks_mappings

abbrev pub tasques_recurring_tasks_template : Template
tasques_recurring_tasks_template =
    new_template ".tasques_recurring_tasks_index_template" (tasques_recurring_tasks_index ∷ [])
      recurring_tasks_mappings

-- The template of the archive is a variable of the package, which the hook changes: it is taken, and
-- given back as it is afterwards.
unfoldable pub default_template_setup : (Template → Template) → Template → List Template × Template
default_template_setup modifier archive =
    let changed = modifier archive in
    (
      tasques_queues_template ∷ changed ∷ tasques_locks_template ∷ tasques_recurring_tasks_template
          ∷ [],
      changed,
    )
