-- ===== src/Examples/Setups.antt =====
-- Setups of the cluster of Examples.Cluster.
use Prim.Native.String.{◌++◌ as append, len, slice}
use package.text.Mathlib.TextPositions.{starts_with-append, slice-append_left, len-append}
use tasques.Prelude.{
  ◌∙◌, ap, String, Bool, true, ◌||◌, none, List, [], ok, err, ◌-◌, ◌≡◌, ◌≢◌, refl, str_eq,
  str_eq_refl, arith,
}
use tasques.Setup.Requests.{
  SetupError, SetupStep, templates_not_installed, marshal_body, put_answer,
}
use tasques.Setup.Lifecycle.{
  LifecycleSettings, policy_name, archived_tasks_policy, archived_template_hook, build_write_alias,
  policy_answer, bootstrap_answer, install_policies, check_policies, bootstrap_indices,
}
use tasques.Setup.Templates.{
  Template, new_template, set_entry, body_of, not_present, check_answer, put_template, put_each,
  run_setup, check_setup,
}
use tasques.Setup.Templates.Mappings.{
  base_task_mappings, archived_task_mappings, locks_mappings, recurring_tasks_mappings,
}
use tasques.Setup.Templates.Default.{default_template_setup, tasques_archive_template}
use tasques.Es.Tasks.Settings.{build_index_name}
use tasques.Setup.{check, missing_policy, missing_templates, install_templates, run_if_needed}
use tasques.Setup.Skipped.{run_if_needed-Installed-check}
use tasques.Setup.Templates.Covered.{Glob, covers, of_queue, default_template_setup-covers}
use tasques.Es.Common.{refused}
use package.text.Mathlib.Text.{starts_with}
use tasques.Setup.Installed.{Installed}
use tasques.Examples.Cluster.{World, cluster, registry, cluster-ClusterLaws}

abbrev config : LifecycleSettings
config = record { enabled = true; custom_policy = none }

abbrev templates : List Template
unfolding default_template_setup archived_template_hook new_template build_index_name policy_name
    set_entry base_task_mappings archived_task_mappings locks_mappings recurring_tasks_mappings
templates = (default_template_setup (archived_template_hook config) tasques_archive_template).0

abbrev kibana : SetupStep World SetupError
kibana w = (ok tt, w)

abbrev nothing : World
nothing = record { templates = []; policies = [] }

abbrev set_up : World
unfolding run_if_needed check_policies check_setup install_policies install_templates run_setup
    put_each put_template bootstrap_indices bootstrap_answer put_answer policy_answer check_answer
    marshal_body missing_policy missing_templates not_present policy_name archived_tasks_policy
    body_of build_write_alias
set_up = (run_if_needed cluster config templates kibana nothing).1

run_if_needed-Installed-check_example :
    Installed cluster registry cluster-ClusterLaws config templates set_up
    × ((check cluster config templates set_up).0 ≢ err (refused (templates_not_installed [])))
unfolding templates set_up run_if_needed check_policies check_setup install_policies
    install_templates run_setup put_each put_template bootstrap_indices bootstrap_answer put_answer
    policy_answer check_answer marshal_body missing_policy missing_templates not_present policy_name
    archived_tasks_policy body_of build_write_alias
run_if_needed-Installed-check_example =
    run_if_needed-Installed-check cluster config templates registry cluster-ClusterLaws kibana
      nothing set_up set_up (templates_not_installed [])
      (record { at = λ w. cluster-ClusterLaws.later_refl w }) refl
      (cluster-ClusterLaws.later_refl set_up)

-- A pattern, which ends in `*` or is a name.
abbrev matches : String → String → Bool
matches p index = str_eq p index || starts_with index (slice p 0 (len p - 1))

stem : (prefix : String) → slice (append prefix "*") 0 (len (append prefix "*") - 1) ≡ prefix
stem prefix =
    let size : len (append prefix "*") - 1 ≡ len prefix = omega (arith, len-append prefix "*") in
    ap (λ n. slice (append prefix "*") 0 n) size ∙ slice-append_left prefix "*"

or_true : (a : Bool) {b : Bool} → b ≡ true → (a || b) ≡ true
or_true a h = ground arith

matches-Glob : Glob matches
matches-Glob = record {
  itself = λ name. rw (str_eq_refl name) refl;
  star = λ prefix rest.
      or_true (str_eq (append prefix "*") (append prefix rest)) (
        ap (λ p. starts_with (append prefix rest) p) (stem prefix)
        ∙ starts_with-append prefix rest);
}

default_template_setup-covers_example : covers matches templates (build_index_name "mail") ≡ true
unfolding templates
default_template_setup-covers_example =
    default_template_setup-covers matches config (build_index_name "mail") matches-Glob
      (of_queue "mail")
