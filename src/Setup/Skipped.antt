-- ===== src/Setup/Skipped.antt =====
-- internal/infra/server/setup.go: what the setup and its check do where something is installed already.
use tasques.Prelude.{
  ℕ, String, true, ◌||◌, leb, Option, none, some, List, [], ◌∷◌, ok, err, ◌≡◌, ◌≢◌, refl, ◌∙◌, inl,
  inr, All, Bool-cases, Outcome-cases, arith,
}
use tasques.Es.Common.{refused}
use tasques.Es.Client.{Reply, no_response, response, >>=-ok}
use tasques.Es.Tasks.Settings.{tasques_archive_index}
use tasques.Setup.Requests.{
  Cluster, SetupError, SetupStep, Registry, ClusterLaws, is_key, marshal_body,
}
use tasques.Setup.Templates.{Template, names_of, not_present, check_answer, check_setup}
use tasques.Setup.Lifecycle.{
  LifecycleSettings, policy_name, policy_answer, check_policies, build_write_alias, bootstrap_index,
  bootstrap_answer, bootstrap_indices,
}
use tasques.Setup.Steps.{order, check_policies-Forward}
use tasques.Es.Client.Forward.{Forward}
use tasques.Setup.Installed.{Installed, Installed-later, run_if_needed-Installed}
use tasques.Setup.{missing_policy, missing_templates, check, run_if_needed}

not_present-none :
    (keys names : List String)
    → All (λ name. is_key keys name ≡ true) names
    → not_present keys names ≡ []
unfolding not_present
not_present-none keys [] h = refl
not_present-none keys (name ∷ names) (e, h) = rw e (not_present-none keys names h)

-- An answer that finds each name is not a refusal.
check_answer-quiet :
    (names : List String) (reply : Reply (List String)) (e : SetupError)
    → ((status : ℕ) (found : Option (List String))
        → reply ≡ response status found
        → (status ≢ 404)
          × ((keys : List String)
              → found ≡ some keys
              → All (λ name. is_key keys name ≡ true) names))
    → check_answer names reply ≢ err (refused e)
unfolding check_answer
check_answer-quiet names no_response e h refusal = ground arith
check_answer-quiet names (response status none) e h refusal =
    let (known, _) = h status none refl in ground (arith, known)
check_answer-quiet names (response status (some keys)) e h refusal =
    let (known, found) = h status (some keys) refl in
    ground (arith, not_present-none keys names (found keys refl))

policy_answer-quiet :
    (name : String) (reply : Reply (Unit {0})) (e : SetupError)
    → ((status : ℕ) (answer : Option (Unit {0})) → reply ≡ response status answer → status ≢ 404)
    → policy_answer name reply ≢ err (refused e)
unfolding policy_answer
policy_answer-quiet name no_response e h refusal = ground arith
policy_answer-quiet name (response status body) e h refusal =
    let known = h status body refl in ground (arith, known)

either_bound : (status : ℕ) → (leb 200 status || leb status 299) ≡ true
either_bound status = ground arith

module _ {W : Type 0} (c : Cluster W) (config : LifecycleSettings) where
  -- Whatever its status, an answer to the request that creates the index makes the bootstrap succeed.
  pub bootstrap_indices-any_status :
      (w w' : W) (status : ℕ) (body : Option (Unit {0}))
      → c.marshals (build_write_alias tasques_archive_index) ≡ true
      → c.create_index bootstrap_index (build_write_alias tasques_archive_index) w
        ≡ (response status body, w')
      → config.enabled ≡ true
      → bootstrap_indices c config w ≡ (ok tt, w')
  unfolding bootstrap_indices bootstrap_answer marshal_body
  bootstrap_indices-any_status w w' status body written answer on =
      let cases = either_bound status in rw (on, written, answer, cases) refl

module _ {W : Type 0} (c : Cluster W) (config : LifecycleSettings) (ts : List Template) where
  -- Where the check succeeds, the setup succeeds, and makes no request but those of the check.
  run_if_needed-check :
      (kibana : SetupStep W SetupError) (w w' : W)
      → check c config ts w ≡ (ok tt, w')
      → run_if_needed c config ts kibana w ≡ (ok tt, w')
  unfolding check run_if_needed missing_policy missing_templates
  run_if_needed-check kibana w w' h =
      let (u, v, policies, templates) =
        >>=-ok (check_policies c config) (λ _. check_setup c ts) w w' h in
      rw (policies, templates) refl

  module _ (r : Registry W) (laws : ClusterLaws c r) where
    check_policies-quiet :
        (w : W) (e : SetupError)
        → Installed c r laws config ts w
        → (check_policies c config w).0 ≢ err (refused e)
    unfolding check_policies policy_name
    check_policies-quiet w e i refusal = elim (Bool-cases config.enabled) [
      | inl on ↦
          policy_answer-quiet (policy_name config) _ e
            (λ status answer. laws.get_lifecycle_present (policy_name config) w (i.policy on))
            (rw on at refusal)
      | inr off ↦ ground (arith, off)
    ]

    check_setup-quiet :
        (w : W) (e : SetupError)
        → Installed c r laws config ts w
        → (check_setup c ts w).0 ≢ err (refused e)
    unfolding check_setup
    check_setup-quiet w e i refusal =
        check_answer-quiet (names_of ts) _ e
          (λ status found. laws.get_template_present (names_of ts) w i.templates) refusal

    -- Once all is installed, the check never says that something is not.
    check-quiet :
        (w : W) (e : SetupError)
        → Installed c r laws config ts w
        → (check c config ts w).0 ≢ err (refused e)
    unfolding check
    check-quiet w e i refusal = elim (Outcome-cases (check_policies c config w).0) [
      | inl (u, passed) ↦
          check_setup-quiet (check_policies c config w).1 e
            (Installed-later c r laws config ts ((check_policies-Forward c r laws config).at w) i)
            (rw passed at refusal)
      | inr (x, failed) ↦ check_policies-quiet w e i (failed ∙ (rw failed at refusal))
    ]

    -- Once the setup has returned without an error, and at any later time as long as nobody takes a
    -- template or a policy away: every template, and the policy where the lifecycle is enabled, are in the
    -- server, and the check does not say that something is not installed.
    pub run_if_needed-Installed-check :
        (kibana : SetupStep W SetupError) (w w' v : W) (e : SetupError)
        → Forward (order c r laws) kibana
        → run_if_needed c config ts kibana w ≡ (ok tt, w')
        → r.Later w' v
        → Installed c r laws config ts v × ((check c config ts v).0 ≢ err (refused e))
    run_if_needed-Installed-check kibana w w' v e kind h later =
        let installed =
          Installed-later c r laws config ts later
            (run_if_needed-Installed c r laws config ts kibana kind w w' h) in
        (installed, check-quiet v e installed)
