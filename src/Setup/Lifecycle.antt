-- ===== src/Setup/Lifecycle.antt =====
-- The lifecycle of the index of archived tasks, in
-- internal/infra/elasticsearch/index/lifecycle_management.go.
pub mod Hook
use Prim.Native.String.{◌++◌ as append}
use tasques.Prelude.{
  ℕ, String, Bool, true, ◌||◌, leb, ◌==◌, Option, none, some, List, [], ◌∷◌, Outcome, ok, err,
  if◌then◌else◌,
}
use tasques.Domain.Json.{JsonObj, empty, field, boolean, text, object}
use tasques.Es.Common.{ServiceError, refused, elasticsearch_err, request_failed, unexpected_status}
use tasques.Es.Client.{Io, Reply, no_response, response, ◌>>=◌, lift, pure, run}
use tasques.Es.Tasks.Settings.{tasques_archive_index}
use tasques.Setup.Requests.{
  Cluster, SetupError, SetupStep, policy_not_installed, marshal_body, put_answer,
}
use tasques.Setup.Templates.{Template, set_entry, or_empty}

-- internal/config/models.go
pub record CustomLifecyclePolicy : Type 0 where
  pub name : String
  pub policy : JsonObj

pub record LifecycleSettings : Type 0 where
  pub enabled : Bool
  pub custom_policy : Option CustomLifecyclePolicy

abbrev pub default_archived_tasques_policy_name : String
default_archived_tasques_policy_name = "tasques_archived_tasks_policy"

abbrev pub default_archived_tasques_policy : JsonObj
default_archived_tasques_policy =
    field "phases"
      (object (
        field "hot"
          (object (
            field "actions"
              (object (
                field "rollover"
                  (object (field "max_size" (text "50GB") (field "max_age" (text "1d") empty)))
                  empty))
              empty))
          (field "warm"
            (object (
              field "min_age" (text "7d")
                (field "actions" (object (field "readonly" (object empty) empty)) empty)))
            (field "cold"
              (object (
                field "min_age" (text "30d")
                  (field "actions" (object (field "freeze" (object empty) empty)) empty)))
              empty))))
      empty

unfoldable pub policy_name : LifecycleSettings → String
policy_name config = elim config.custom_policy [
  | some custom ↦ custom.name
  | none ↦ default_archived_tasques_policy_name
]

unfoldable pub archived_tasks_policy : LifecycleSettings → JsonObj
archived_tasks_policy config = elim config.custom_policy [
  | some custom ↦ field "policy" (object custom.policy) empty
  | none ↦ field "policy" (object default_archived_tasques_policy) empty
]

abbrev pub archive_pattern : String
archive_pattern = append tasques_archive_index "-*"

-- `ArchivedTemplateHook`; the function that it returns changes the template in place.
unfoldable pub archived_template_hook : LifecycleSettings → Template → Template
archived_template_hook config t =
    if config.enabled
    then record t {
      patterns = archive_pattern ∷ [];
      settings = some (
          set_entry "index.lifecycle.rollover_alias" (text tasques_archive_index)
            (set_entry "index.lifecycle.name" (text (policy_name config)) (or_empty t.settings)));
    }
    else t

unfoldable pub build_write_alias : String → JsonObj
build_write_alias alias =
    field "aliases"
      (object (field alias (object (field "is_write_index" (boolean true) empty)) empty)) empty

-- `<.tasques_archive-{now/d}-000001>`, escaped for a path.
abbrev pub bootstrap_index : String
bootstrap_index = append (append "%3C" tasques_archive_index) "-%7Bnow%2Fd%7D-000001%3E"

unfoldable pub policy_answer :
    String → Reply (Unit {0}) → Outcome (ServiceError SetupError) (Unit {0})
policy_answer name no_response = err (elasticsearch_err request_failed)
policy_answer name (response status body) =
    if status == 200
    then ok tt
    else if status == 404
    then err (refused (policy_not_installed (name ∷ [])))
    else err (elasticsearch_err (unexpected_status status))

-- `200 <= respStatus || respStatus <= 299`
unfoldable pub bootstrap_answer : Reply (Unit {0}) → Outcome (ServiceError SetupError) (Unit {0})
bootstrap_answer no_response = err (elasticsearch_err request_failed)
bootstrap_answer (response status body) =
    if leb 200 status || leb status 299
    then ok tt
    else err (elasticsearch_err (unexpected_status status))

module _ {W : Type 0} (c : Cluster W) (config : LifecycleSettings) where
  abbrev pub when_enabled : SetupStep W SetupError → SetupStep W SetupError
  when_enabled m w = if config.enabled then m w else (ok tt, w)

  unfoldable pub install_policies : SetupStep W SetupError
  install_policies = when_enabled (do
    _ ← marshal_body c (archived_tasks_policy config)
    reply ← run (c.put_lifecycle (policy_name config) (archived_tasks_policy config))
    lift (put_answer reply))

  unfoldable pub check_policies : SetupStep W SetupError
  check_policies = when_enabled (do
    reply ← run (c.get_lifecycle (policy_name config))
    lift (policy_answer (policy_name config) reply))

  unfoldable pub bootstrap_indices : SetupStep W SetupError
  bootstrap_indices = when_enabled (do
    _ ← marshal_body c (build_write_alias tasques_archive_index)
    reply ← run (c.create_index bootstrap_index (build_write_alias tasques_archive_index))
    lift (bootstrap_answer reply))
