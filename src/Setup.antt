-- ===== src/Setup.antt =====
-- internal/infra/server/setup.go: what the server needs in Elasticsearch and in Kibana before it serves,
-- and the command that sets it up.
pub mod Requests
pub mod Installed
pub mod Kibana
pub mod Lifecycle
pub mod Skipped
pub mod Steps
pub mod Templates
use tasques.Prelude.{String, Bool, true, false, List, Outcome, ok, err, if◌then◌else◌}
use tasques.Es.Common.{ServiceError, refused, elasticsearch_err, json_serdes_err}
use tasques.Es.Client.{Io, ◌>>=◌, lift}
use tasques.Setup.Requests.{
  Cluster, SetupError, SetupStep, policy_not_installed, templates_not_installed,
}
use tasques.Setup.Templates.{Template, run_setup, check_setup}
use tasques.Setup.Lifecycle.{LifecycleSettings, install_policies, check_policies, bootstrap_indices}

-- Whether a check failed since something is not installed; its other errors are handed on.
unfoldable pub missing_policy :
    Outcome (ServiceError SetupError) (Unit {0}) → Outcome (ServiceError SetupError) Bool
missing_policy (ok u) = ok false
missing_policy (err (refused (policy_not_installed names))) = ok true
missing_policy (err e) = err e

unfoldable pub missing_templates :
    Outcome (ServiceError SetupError) (Unit {0}) → Outcome (ServiceError SetupError) Bool
missing_templates (ok u) = ok false
missing_templates (err (refused (templates_not_installed names))) = ok true
missing_templates (err e) = err e

module _ {W : Type 0} where
  -- A check, and what is made of how it ended.
  abbrev pub asking :
      SetupStep W SetupError
      → (Outcome (ServiceError SetupError) (Unit {0}) → Outcome (ServiceError SetupError) Bool)
      → Io W SetupError Bool
  asking check missing w = let (r, w') = check w in (missing r, w')

  abbrev pub if_needed : Bool → SetupStep W SetupError → SetupStep W SetupError
  if_needed b m w = if b then m w else (ok tt, w)

-- `impl`: its three parts, with the import of the saved objects as a step.
module _ {W : Type 0} (c : Cluster W) (config : LifecycleSettings) (templates : List Template) where
  unfoldable pub check : SetupStep W SetupError
  check = do _ ← check_policies c config; check_setup c templates

  module _ (kibana : SetupStep W SetupError) where
    unfoldable pub install_templates : SetupStep W SetupError
    install_templates = do _ ← run_setup c templates; kibana

    unfoldable pub run_if_needed : SetupStep W SetupError
    run_if_needed = do
      needs_ilm ← asking (check_policies c config) missing_policy
      _ ← if_needed needs_ilm (install_policies c config)
      needs_templates ← asking (check_setup c templates) missing_templates
      _ ← if_needed needs_templates install_templates
      if_needed needs_ilm (bootstrap_indices c config)
