-- ===== src/Setup/Kibana.antt =====
-- internal/infra/kibana/saved_objects/importer.go: sending the saved objects of the app to Kibana. The
-- objects are a constant text of that file, which is only passed on; mime/multipart and net/http are
-- parameters.
use Prim.Native.String.{◌++◌ as append}
use tasques.Prelude.{
  String, Bool, Option, none, some, List, [], ◌∷◌, Outcome, ok, err, ◌==◌, if◌then◌else◌,
}
use tasques.Es.Common.{ServiceError, refused, json_serdes_err}
use tasques.Es.Client.{Reply, no_response, response, ◌>>=◌, lift, run}
use tasques.Setup.Requests.{
  SetupError, SetupStep, request_prep_err, request_err, kibana_response_err,
}

-- internal/config/models.go
pub record BasicAuthUser : Type 0 where
  pub name : String
  pub password : String

pub record KibanaClient : Type 0 where
  pub address : String
  pub user : Option BasicAuthUser

-- A POST request, as it is handed to the client of net/http; `F` is a multipart body.
pub record ImportRequest (F : Type 0) : Type 0 where
  pub url : String
  pub headers : List (String × String)
  pub basic_auth : Option BasicAuthUser
  pub body : F

-- Every step of the preparation may fail. `send` answers with the `success` of the body.
pub record Http (W F : Type 0) : Type 0 where
  pub create_form_file : (field_name file_name : String) → Option F
  pub copy : F → String → Option F
  pub close : F → Option F
  pub content_type : F → String
  pub is_url : String → Bool
  pub send : ImportRequest F → W → Reply Bool × W

module _ {W F : Type 0} (http : Http W F) (conf : KibanaClient) where
  unfoldable pub new_request : F → Option (ImportRequest F)
  new_request body =
      let url = append conf.address "/api/saved_objects/_import?overwrite=true" in
      if http.is_url url
      then some (record {
        url = url;
        headers = ("Content-Type", http.content_type body) ∷ ("kbn-xsrf", "true") ∷ [];
        basic_auth = conf.user;
        body = body;
      })
      else none

  abbrev pub prepared : {A : Type 0} → Option A → Outcome (ServiceError SetupError) A
  prepared (some a) = ok a
  prepared none = err (refused request_prep_err)

  unfoldable pub import_answer : Reply Bool → Outcome (ServiceError SetupError) (Unit {0})
  import_answer no_response = err (refused request_err)
  import_answer (response status body) =
      if status == 200
      then elim body [
        | none ↦ err json_serdes_err
        | some success ↦ if success then ok tt else err (refused (kibana_response_err status))
      ]
      else err (refused (kibana_response_err status))

  unfoldable pub import_objects : String → SetupStep W SetupError
  import_objects ndjson = do
    part ← lift (prepared (http.create_form_file "file" "tasques_saved_objects.ndjson"))
    filled ← lift (prepared (http.copy part ndjson))
    body ← lift (prepared (http.close filled))
    request ← lift (prepared (new_request body))
    reply ← run (http.send request)
    lift (import_answer reply)
