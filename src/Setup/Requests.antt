-- ===== src/Setup/Requests.antt =====
-- What the setup uses of Elasticsearch: the requests that read and write index templates and lifecycle
-- policies, and what their documentation says of the answers. The bodies are JSON.
use tasques.Prelude.{
  ℕ, String, Bool, true, false, ◌||◌, str_eq, Option, none, some, List, [], ◌∷◌, Outcome, ok, err,
  ◌≡◌, ◌≢◌, ◌==◌, if◌then◌else◌, All,
}
use tasques.Domain.Json.{JsonObj}
use tasques.Es.Common.{
  ServiceError, elasticsearch_err, json_serdes_err, request_failed, unexpected_status,
}
use tasques.Es.Client.{Io, Reply, no_response, response}

-- `get_template` reads the keys of the object that the server answers with.
pub record Cluster (W : Type 0) : Type 0 where
  pub put_template : (name : String) → (body : JsonObj) → W → Reply (Unit {0}) × W
  pub get_template : (names : List String) → W → Reply (List String) × W
  pub put_lifecycle : (policy : String) → (body : JsonObj) → W → Reply (Unit {0}) × W
  pub get_lifecycle : (policy : String) → W → Reply (Unit {0}) × W
  pub create_index : (index : String) → (body : JsonObj) → W → Reply (Unit {0}) × W
  -- Whether encoding/json writes the object: a policy of the configuration holds what its reader left.
  pub marshals : JsonObj → Bool

-- The errors of internal/infra/elasticsearch/index and internal/infra/kibana. The error of a template
-- is one of the client or of encoding/json.
pub data SetupError : Type 0 where
  policy_not_installed : (not_installed : List String) → SetupError
  templates_not_installed : (not_installed : List String) → SetupError
  put_template_errors : List (ServiceError ⊥) → SetupError
  request_prep_err : SetupError
  request_err : SetupError
  kibana_response_err : (status : ℕ) → SetupError

abbrev pub SetupStep : Type 0 → Type 0 → Type 0
SetupStep W E = Io W E (Unit {0})

-- `json.Marshal(body)`
unfoldable pub marshal_body : {W E : Type 0} → Cluster W → JsonObj → SetupStep W E
marshal_body c body w = if c.marshals body then (ok tt, w) else (err json_serdes_err, w)

-- `case 200: return nil; default: return common.UnexpectedEsStatusError(rawResp)`
unfoldable pub put_answer : {E : Type 0} → Reply (Unit {0}) → Outcome (ServiceError E) (Unit {0})
put_answer no_response = err (elasticsearch_err request_failed)
put_answer (response status body) =
    if status == 200 then ok tt else err (elasticsearch_err (unexpected_status status))

-- `_, ok := mappings[name]`
abbrev pub is_key : List String → String → Bool
is_key [] name = false
is_key (k ∷ ks) name = str_eq k name || is_key ks name

-- What stands in the server under the name of a template or of a policy, and how it moves on while
-- others write too. Nobody takes a template or a policy away.
pub record Registry (W : Type 0) : Type 1 where
  pub template : W → String → Option JsonObj
  pub policy : W → String → Option JsonObj
  pub Later : W → W → Type 0

abbrev pub Present : Option JsonObj → Type 0
Present (some body) = Unit
Present none = ⊥

-- A body stood under a name at a moment of a call.
pub record Stood {W : Type 0} (r : Registry W) (read : W → Option JsonObj) (body : JsonObj)
    (before after : W) : Type 0 where
  pub moment : W
  pub begun : r.Later before moment
  pub stands : read moment ≡ some body
  pub ended : r.Later moment after

pub record ClusterLaws {W : Type 0} (c : Cluster W) (r : Registry W) : Type 0 where
  pub later_refl : (w : W) → r.Later w w
  pub later_trans : {u v w : W} → r.Later u v → r.Later v w → r.Later u w
  pub template_stays :
      (name : String) {u w : W}
      → r.Later u w
      → Present (r.template u name)
      → Present (r.template w name)
  pub policy_stays :
      (name : String) {u w : W}
      → r.Later u w
      → Present (r.policy u name)
      → Present (r.policy w name)
  pub put_template_later :
      (name : String) (body : JsonObj) (w : W) → r.Later w (c.put_template name body w).1
  pub get_template_later : (names : List String) (w : W) → r.Later w (c.get_template names w).1
  pub put_lifecycle_later :
      (name : String) (body : JsonObj) (w : W) → r.Later w (c.put_lifecycle name body w).1
  pub get_lifecycle_later : (name : String) (w : W) → r.Later w (c.get_lifecycle name w).1
  pub create_index_later :
      (index : String) (body : JsonObj) (w : W) → r.Later w (c.create_index index body w).1
  -- Status 200: the body was stored.
  pub put_template_stored :
      (name : String) (body : JsonObj) (w : W) {answer : Option (Unit {0})}
      → (c.put_template name body w).0 ≡ response 200 answer
      → Stood r (λ v. r.template v name) body w (c.put_template name body w).1
  pub put_lifecycle_stored :
      (name : String) (body : JsonObj) (w : W) {answer : Option (Unit {0})}
      → (c.put_lifecycle name body w).0 ≡ response 200 answer
      → Stood r (λ v. r.policy v name) body w (c.put_lifecycle name body w).1
  -- Status 200 to a read: what is named stands.
  pub get_lifecycle_found :
      (name : String) (w : W) {answer : Option (Unit {0})}
      → (c.get_lifecycle name w).0 ≡ response 200 answer
      → Present (r.policy (c.get_lifecycle name w).1 name)
  pub get_template_found :
      (names : List String) (w : W) (found : List String)
      → (c.get_template names w).0 ≡ response 200 (some found)
      → All (λ name. Present (r.template (c.get_template names w).1 name)) found
  -- What stands is not said to be missing.
  pub get_lifecycle_present :
      (name : String) (w : W) {status : ℕ} {answer : Option (Unit {0})}
      → Present (r.policy w name)
      → (c.get_lifecycle name w).0 ≡ response status answer
      → status ≢ 404
  pub get_template_present :
      (names : List String) (w : W) {status : ℕ} {found : Option (List String)}
      → All (λ name. Present (r.template w name)) names
      → (c.get_template names w).0 ≡ response status found
      → (status ≢ 404)
        × ((keys : List String) → found ≡ some keys → All (λ name. is_key keys name ≡ true) names)
