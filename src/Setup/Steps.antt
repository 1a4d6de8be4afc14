-- ===== src/Setup/Steps.antt =====
-- What one request of internal/infra/elasticsearch/index leaves in the server, by how it ended.
use tasques.Prelude.{
  String, Bool, true, Option, none, some, List, [], ◌∷◌, Outcome, ok, ◌≡◌, sym, ap, ◌∙◌, subst, inl,
  inr, All, All-map, Bool-cases, str_eq, str_eq_iff, if◌then◌else◌, arith,
}
use tasques.Domain.Json.{JsonObj}
use tasques.Es.Common.{ServiceError}
use tasques.Es.Client.{Reply, no_response, response, ◌>>=◌, lift, run}
use tasques.Es.Client.Forward.{Preorder, Forward, Forward-lift, Forward-bind}
use tasques.Es.Tasks.Settings.{tasques_archive_index}
use tasques.Setup.Requests.{
  Cluster, SetupError, SetupStep, Registry, ClusterLaws, Present, Stood, marshal_body, put_answer,
  is_key,
}
use tasques.Setup.Templates.{
  Template, body_of, names_of, not_present, none_missing, check_answer, put_template, check_setup,
}
use tasques.Setup.Lifecycle.{
  LifecycleSettings, policy_name, archived_tasks_policy, build_write_alias, bootstrap_index,
  policy_answer, bootstrap_answer, when_enabled, install_policies, check_policies,
  bootstrap_indices,
}

put_answer-ok :
    {E : Type 0} (reply : Reply (Unit {0}))
    → put_answer {E = E} reply ≡ ok tt
    → (answer : Option (Unit {0})) × (reply ≡ response 200 answer)
unfolding put_answer
put_answer-ok no_response h = absurd (ground arith)
put_answer-ok (response status body) h = (body, ground arith)

policy_answer-ok :
    (name : String) (reply : Reply (Unit {0}))
    → policy_answer name reply ≡ ok tt
    → (answer : Option (Unit {0})) × (reply ≡ response 200 answer)
unfolding policy_answer
policy_answer-ok name no_response h = absurd (ground arith)
policy_answer-ok name (response status body) h = (body, ground arith)

marshal_body-world :
    {W : Type 0} (E : Type 0) (c : Cluster W) (body : JsonObj) (w : W)
    → (marshal_body {E = E} c body w).1 ≡ w
unfolding marshal_body
marshal_body-world E c body w = ground arith

-- The names that are not missing are keys.
none_missing-keys :
    (keys names : List String)
    → none_missing (not_present keys names) ≡ ok tt
    → All (λ name. is_key keys name ≡ true) names
unfolding not_present
none_missing-keys keys [] h = tt
none_missing-keys keys (name ∷ names) h = elim (Bool-cases (is_key keys name)) [
  | inl e ↦ (e, none_missing-keys keys names (ground (arith, e)))
  | inr e ↦ absurd (ground (arith, e))
]

check_answer-ok :
    (names : List String) (reply : Reply (List String))
    → check_answer names reply ≡ ok tt
    → (keys : List String) × (reply ≡ response 200 (some keys))
      × All (λ name. is_key keys name ≡ true) names
unfolding check_answer
check_answer-ok names no_response h = absurd (ground arith)
check_answer-ok names (response status none) h = absurd (ground arith)
check_answer-ok names (response status (some keys)) h =
    (keys, ground arith, none_missing-keys keys names (ground arith))

-- What holds of each key holds of a name that is one of them.
is_key-All :
    (P : String → Type 0) (keys : List String) (name : String)
    → All P keys
    → is_key keys name ≡ true
    → P name
is_key-All P [] name h e = absurd (ground arith)
is_key-All P (k ∷ ks) name (p, h) e = elim (Bool-cases (str_eq k name)) [
  | inl same ↦ subst P ((str_eq_iff k name).0 same) p
  | inr other ↦ is_key-All P ks name h (ground (arith, other))
]

-- A request whose answer was taken: what it was, and the world after it.
send-ok :
    {W E A B : Type 0} (m : W → A × W) (f : A → Outcome (ServiceError E) B) (w w' : W) {b : B}
    → (run m >>= (λ a. lift (f a))) w ≡ (ok b, w')
    → (f (m w).0 ≡ ok b) × ((m w).1 ≡ w')
send-ok m f w w' h = (ap (λ x. x.0) h, ap (λ x. x.1) h)

request-ok :
    {W E A B : Type 0} (c : Cluster W) (body : JsonObj) (m : W → A × W)
    (f : A → Outcome (ServiceError E) B) (w w' : W) {b : B}
    → (marshal_body c body >>= (λ u. run m >>= (λ a. lift (f a)))) w ≡ (ok b, w')
    → (f (m w).0 ≡ ok b) × ((m w).1 ≡ w')
unfolding marshal_body
request-ok c body m f w w' h = elim (Bool-cases (c.marshals body)) [
  | inl e ↦ send-ok m f w w' (rw (e, marshal_body) at h)
  | inr e ↦ absurd (ground (arith, e))
]

if-on : {A : Type 0} {b : Bool} {x z : A} (y : A) → b ≡ true → (if b then x else y) ≡ z → x ≡ z
if-on {x} y on h = sym (ap (λ b. if b then x else y) on) ∙ h

module _ {W : Type 0} (c : Cluster W) (r : Registry W) (laws : ClusterLaws c r) where
  abbrev pub order : Preorder W
  order = record { Later = r.Later; stays = laws.later_refl; chain = λ h k. laws.later_trans h k }

  Forward-send :
      {E A B : Type 0} (m : W → A × W) (f : A → Outcome (ServiceError E) B)
      → ((w : W) → r.Later w (m w).1)
      → Forward order (run {E = E} m >>= (λ a. lift (f a)))
  Forward-send {E} m f h =
      Forward-bind order (run {E = E} m) _ (record { at = h }) (λ a. Forward-lift order (f a))

  -- A request that is sent once its body is written.
  Forward-request :
      {E A B : Type 0} (body : JsonObj) (m : W → A × W) (f : A → Outcome (ServiceError E) B)
      → ((w : W) → r.Later w (m w).1)
      → Forward order (marshal_body {E = E} c body >>= (λ u. run m >>= (λ a. lift (f a))))
  Forward-request {E} body m f h =
      Forward-bind order (marshal_body {E = E} c body) _
        (record {
          at = λ w.
              subst (λ v. r.Later w v) (sym (marshal_body-world E c body w)) (laws.later_refl w);
        })
        (λ u. Forward-send m f h)

  Forward-when_enabled :
      (config : LifecycleSettings) (m : SetupStep W SetupError)
      → Forward order m
      → Forward order (when_enabled c config m)
  Forward-when_enabled config m h = record {
    at = λ w. elim (Bool-cases config.enabled) [
      | inl e ↦ rw e (h.at w)
      | inr e ↦ rw e (laws.later_refl w)
    ];
  }

  pub put_template-Forward : (t : Template) → Forward order (put_template c t)
  unfolding put_template
  put_template-Forward t =
      Forward-request (body_of t) (c.put_template t.name (body_of t)) put_answer
        (laws.put_template_later t.name (body_of t))

  pub check_setup-Forward : (ts : List Template) → Forward order (check_setup c ts)
  unfolding check_setup
  check_setup-Forward ts =
      Forward-send (c.get_template (names_of ts)) (check_answer (names_of ts))
        (laws.get_template_later (names_of ts))

  pub install_policies-Forward :
      (config : LifecycleSettings) → Forward order (install_policies c config)
  unfolding install_policies
  install_policies-Forward config =
      let name = policy_name config in
      let body = archived_tasks_policy config in
      Forward-when_enabled config _ (
        Forward-request body (c.put_lifecycle name body) put_answer
          (laws.put_lifecycle_later name body))

  pub check_policies-Forward :
      (config : LifecycleSettings) → Forward order (check_policies c config)
  unfolding check_policies
  check_policies-Forward config =
      let name = policy_name config in
      Forward-when_enabled config _
        (Forward-send (c.get_lifecycle name) (policy_answer name) (laws.get_lifecycle_later name))

  pub bootstrap_indices-Forward :
      (config : LifecycleSettings) → Forward order (bootstrap_indices c config)
  unfolding bootstrap_indices
  bootstrap_indices-Forward config =
      let body = build_write_alias tasques_archive_index in
      Forward-when_enabled config _ (
        Forward-request body (c.create_index bootstrap_index body) bootstrap_answer
          (laws.create_index_later bootstrap_index body))

  -- A template that was sent without an error was stored as it is.
  pub put_template-Stood :
      (t : Template) (w w' : W)
      → put_template c t w ≡ (ok tt, w')
      → Stood r (λ v. r.template v t.name) (body_of t) w w'
  unfolding put_template
  put_template-Stood t w w' h =
      let put = c.put_template t.name (body_of t) in
      let (taken, e) = request-ok c (body_of t) put put_answer w w' h in
      let (answer, e200) = put_answer-ok (put w).0 taken in
      subst (λ v. Stood r (λ u. r.template u t.name) (body_of t) w v) e
        (laws.put_template_stored t.name (body_of t) w e200)

  -- A check of the templates that says nothing is missing.
  pub check_setup-Present :
      (ts : List Template) (w w' : W)
      → check_setup c ts w ≡ (ok tt, w')
      → All (λ name. Present (r.template w' name)) (names_of ts)
  unfolding check_setup
  check_setup-Present ts w w' h =
      let get = c.get_template (names_of ts) in
      let (taken, e) = send-ok get (check_answer (names_of ts)) w w' h in
      let (keys, answer, found) = check_answer-ok (names_of ts) (get w).0 taken in
      subst (λ v. All (λ name. Present (r.template v name)) (names_of ts)) e
        (All-map _ _ (names_of ts)
          (λ name.
            is_key-All (λ n. Present (r.template (get w).1 n)) keys name
              (laws.get_template_found (names_of ts) w keys answer))
          found)

  pub check_policies-Present :
      (config : LifecycleSettings) (w w' : W)
      → config.enabled ≡ true
      → check_policies c config w ≡ (ok tt, w')
      → Present (r.policy w' (policy_name config))
  unfolding check_policies
  check_policies-Present config w w' on h =
      let name = policy_name config in
      let (taken, e) =
        send-ok (c.get_lifecycle name) (policy_answer name) w w' (if-on (ok tt, w) on h) in
      let (answer, e200) = policy_answer-ok name (c.get_lifecycle name w).0 taken in
      subst (λ v. Present (r.policy v name)) e (laws.get_lifecycle_found name w e200)

  pub install_policies-Stood :
      (config : LifecycleSettings) (w w' : W)
      → config.enabled ≡ true
      → install_policies c config w ≡ (ok tt, w')
      → Stood r (λ v. r.policy v (policy_name config)) (archived_tasks_policy config) w w'
  unfolding install_policies
  install_policies-Stood config w w' on h =
      let name = policy_name config in
      let body = archived_tasks_policy config in
      let put = c.put_lifecycle name body in
      let (taken, e) = request-ok c body put put_answer w w' (if-on (ok tt, w) on h) in
      let (answer, e200) = put_answer-ok (put w).0 taken in
      subst (λ v. Stood r (λ u. r.policy u name) body w v) e
        (laws.put_lifecycle_stored name body w e200)
