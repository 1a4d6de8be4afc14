-- ===== src/Setup/Installed.antt =====
-- internal/infra/server/setup.go: what is installed once the setup has returned, and what its check says
-- afterwards.
use tasques.Prelude.{
  Bool, true, false, Option, List, [], ◌∷◌, Outcome, ok, err, ◌≡◌, refl, ap, ◌∙◌, subst, All,
  All-map, arith,
}
use tasques.Domain.Json.{JsonObj}
use tasques.Es.Common.{ServiceError}
use tasques.Es.Client.{>>=-ok}
use tasques.Setup.Requests.{Cluster, SetupError, SetupStep, Registry, ClusterLaws, Present, Stood}
use tasques.Setup.Templates.{
  Template, body_of, names_of, add_error, none_failed, put_template, put_each, run_setup,
  check_setup,
}
use tasques.Setup.Lifecycle.{LifecycleSettings, policy_name, install_policies, check_policies}
use tasques.Es.Client.Forward.{Forward, Forward-bind}
use tasques.Setup.Steps.{
  order, put_template-Forward, check_setup-Forward, bootstrap_indices-Forward, put_template-Stood,
  check_setup-Present, check_policies-Present, install_policies-Stood,
}
use tasques.Setup.{
  missing_policy, missing_templates, asking, if_needed, install_templates, run_if_needed,
}

missing_policy-no :
    (o : Outcome (ServiceError SetupError) (Unit {0})) → missing_policy o ≡ ok false → o ≡ ok tt
unfolding missing_policy
missing_policy-no o h = ground arith

missing_templates-no :
    (o : Outcome (ServiceError SetupError) (Unit {0})) → missing_templates o ≡ ok false → o ≡ ok tt
unfolding missing_templates
missing_templates-no o h = ground arith

Present-some : (o : Option JsonObj) {body : JsonObj} → o ≡ Option.some body → Present o
Present-some o h = ground arith

add_error-nil :
    (o : Outcome (ServiceError ⊥) (Unit {0})) (es : List (ServiceError ⊥))
    → add_error o es ≡ []
    → (o ≡ ok tt) × (es ≡ [])
add_error-nil (ok u) es h = (refl, h)
add_error-nil (err e) es h = absurd (ground arith)

none_failed-ok : (es : List (ServiceError ⊥)) → none_failed es ≡ ok tt → es ≡ []
none_failed-ok [] h = refl
none_failed-ok (e ∷ es) h = absurd (ground arith)

module _ {W : Type 0} (c : Cluster W) (r : Registry W) (laws : ClusterLaws c r) where
  -- Each template was stored as it is, at some moment.
  abbrev pub AllStood : List Template → W → W → Type 0
  AllStood ts w w' = All (λ t. Stood r (λ v. r.template v t.name) (body_of t) w w') ts

  Stood-before :
      {read : W → Option JsonObj} {body : JsonObj} {u v w : W}
      → r.Later u v
      → Stood r read body v w
      → Stood r read body u w
  Stood-before h s = record {
    moment = s.moment;
    begun = laws.later_trans h s.begun;
    stands = s.stands;
    ended = s.ended;
  }

  Stood-after :
      {read : W → Option JsonObj} {body : JsonObj} {u v w : W}
      → r.Later v w
      → Stood r read body u v
      → Stood r read body u w
  Stood-after h s = record {
    moment = s.moment;
    begun = s.begun;
    stands = s.stands;
    ended = laws.later_trans s.ended h;
  }

  put_each-Later : (ts : List Template) (w : W) → r.Later w (put_each c ts w).1
  unfolding put_each
  put_each-Later [] w = laws.later_refl w
  put_each-Later (t ∷ ts) w =
      laws.later_trans ((put_template-Forward c r laws t).at w)
        (put_each-Later ts (put_template c t w).1)

  put_each-AllStood :
      (ts : List Template) (w : W) → (put_each c ts w).0 ≡ [] → AllStood ts w (put_each c ts w).1
  unfolding put_each
  put_each-AllStood [] w h = tt
  put_each-AllStood (t ∷ ts) w h =
      let v = (put_template c t w).1 in
      let (taken, rest) = add_error-nil (put_template c t w).0 (put_each c ts v).0 h in
      (
        Stood-after (put_each-Later ts v)
            (put_template-Stood c r laws t w v (ap (λ o. (o, v)) taken)),
        All-map _ _ ts (λ x. Stood-before ((put_template-Forward c r laws t).at w))
            (put_each-AllStood ts v rest),
      )

  -- `Run` that returns no error has had every template stored, with the body that the code gives it.
  pub run_setup-AllStood :
      (ts : List Template) (w w' : W) → run_setup c ts w ≡ (ok tt, w') → AllStood ts w w'
  unfolding run_setup
  run_setup-AllStood ts w w' h =
      let none = none_failed-ok (put_each c ts w).0 (ap (λ x. x.0) h) in
      subst (λ v. AllStood ts w v) (ap (λ x. x.1) h) (put_each-AllStood ts w none)

  AllStood-Present :
      (ts : List Template) (u w : W)
      → AllStood ts u w
      → All (λ name. Present (r.template w name)) (names_of ts)
  AllStood-Present [] u w h = tt
  AllStood-Present (t ∷ ts) u w (s, h) =
      (laws.template_stays t.name s.ended (Present-some _ s.stands), AllStood-Present ts u w h)

  -- Everything that the server needs in Elasticsearch is there.
  pub record Installed (config : LifecycleSettings) (ts : List Template) (w : W) : Type 0 where
    pub policy : config.enabled ≡ true → Present (r.policy w (policy_name config))
    pub templates : All (λ name. Present (r.template w name)) (names_of ts)

  pub Installed-later :
      (config : LifecycleSettings) (ts : List Template) {w w' : W}
      → r.Later w w'
      → Installed config ts w
      → Installed config ts w'
  Installed-later config ts h i = record {
    policy = λ on. laws.policy_stays (policy_name config) h (i.policy on);
    templates = All-map _ _ (names_of ts) (λ name. laws.template_stays name h) i.templates;
  }

  module _ (config : LifecycleSettings) (ts : List Template) (kibana : SetupStep W SetupError)
      (kind : Forward (order c r laws) kibana) where
    policy_set :
        (needs : Bool) (w v v' : W)
        → asking (check_policies c config) missing_policy w ≡ (ok needs, v)
        → if_needed needs (install_policies c config) v ≡ (ok tt, v')
        → config.enabled ≡ true
        → Present (r.policy v' (policy_name config))
    policy_set true w v v' asked done on =
        let s = install_policies-Stood c r laws config v v' on done in
        laws.policy_stays (policy_name config) s.ended (Present-some _ s.stands)
    policy_set false w v v' asked done on =
        let none = missing_policy-no (check_policies c config w).0 (ap (λ x. x.0) asked) in
        let same = ap (λ x. x.1) asked ∙ ap (λ x. x.1) done in
        check_policies-Present c r laws config w v' on
          (ap (λ o. (o, (check_policies c config w).1)) none ∙ ap (λ u. (ok tt, u)) same)

    templates_set :
        (needs : Bool) (w v v' : W)
        → asking (check_setup c ts) missing_templates w ≡ (ok needs, v)
        → if_needed needs (install_templates c config ts kibana) v ≡ (ok tt, v')
        → All (λ name. Present (r.template v' name)) (names_of ts)
    unfolding install_templates
    templates_set true w v v' asked done =
        let (u, v1, run_eq, kibana_eq) = >>=-ok (run_setup c ts) _ v v' done in
        All-map _ _ (names_of ts)
          (λ name. laws.template_stays name (subst (λ x. r.Later v1 x.1) kibana_eq (kind.at v1)))
          (AllStood-Present ts v v1 (run_setup-AllStood ts v v1 run_eq))
    templates_set false w v v' asked done =
        let none = missing_templates-no (check_setup c ts w).0 (ap (λ x. x.0) asked) in
        let same = ap (λ x. x.1) asked ∙ ap (λ x. x.1) done in
        check_setup-Present c r laws ts w v'
          (ap (λ o. (o, (check_setup c ts w).1)) none ∙ ap (λ u. (ok tt, u)) same)

    if_needed-Forward :
        (b : Bool) (m : SetupStep W SetupError)
        → Forward (order c r laws) m
        → Forward (order c r laws) (if_needed b m)
    if_needed-Forward true m h = h
    if_needed-Forward false m h = record { at = λ w. laws.later_refl w }

    install_templates-Forward : Forward (order c r laws) (install_templates c config ts kibana)
    unfolding install_templates run_setup
    install_templates-Forward =
        Forward-bind (order c r laws) (run_setup c ts) _ (record { at = put_each-Later ts })
          (λ u. kind)

    -- Once the setup has returned without an error, the policy, where it is enabled, and every template
    -- are in the server.
    pub run_if_needed-Installed :
        (w w' : W) → run_if_needed c config ts kibana w ≡ (ok tt, w') → Installed config ts w'
    unfolding run_if_needed
    run_if_needed-Installed w w' h =
        let (needs, w1, asked, h1) =
          >>=-ok (asking (check_policies c config) missing_policy) _ w w' h in
        let (u, w2, installed, h2) =
          >>=-ok (if_needed needs (install_policies c config)) _ w1 w' h1 in
        let (missing, w3, listed, h3) =
          >>=-ok (asking (check_setup c ts) missing_templates) _ w2 w' h2 in
        let (u', w4, sent, h4) =
          >>=-ok (if_needed missing (install_templates c config ts kibana)) _ w3 w' h3 in
        let to_3 = subst (λ x. r.Later w2 x.1) listed ((check_setup-Forward c r laws ts).at w2) in
        let to_4 =
          subst (λ x. r.Later w3 x.1) sent
            ((if_needed-Forward missing _ install_templates-Forward).at w3) in
        let to_end =
          subst (λ x. r.Later w4 x.1) h4
            ((if_needed-Forward needs _ (bootstrap_indices-Forward c r laws config)).at w4) in
        Installed-later config ts to_end (record {
          policy = λ on.
              laws.policy_stays (policy_name config) (laws.later_trans to_3 to_4)
                (policy_set needs w w1 w2 asked installed on);
          templates = templates_set missing w2 w3 w4 listed sent;
        })
