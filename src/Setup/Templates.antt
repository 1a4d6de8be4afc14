-- ===== src/Setup/Templates.antt =====
-- The index templates of internal/infra/elasticsearch/index/template.go: sending them to the server, and
-- checking that they are there.
pub mod Covered
pub mod Default
pub mod Mappings
use tasques.Prelude.{
  ℕ, String, Bool, true, false, Option, none, some, List, [], ◌∷◌, map, Outcome, ok, err, ◌==◌,
  str_eq, if◌then◌else◌,
}
use tasques.Domain.Json.{Json, Items, JsonObj, empty, field, text, array, object, nil, cons}
use tasques.Es.Common.{
  ServiceError, refused, elasticsearch_err, json_serdes_err, request_failed, unexpected_status,
}
use tasques.Es.Client.{Io, Reply, no_response, response, ◌>>=◌, lift, run}
use tasques.Setup.Requests.{
  Cluster, SetupError, SetupStep, templates_not_installed, put_template_errors, marshal_body,
  put_answer, is_key,
}

-- The settings are a map, and `none` the nil map.
pub record Template : Type 0 where
  pub name : String
  pub patterns : List String
  pub settings : Option JsonObj
  pub mappings : JsonObj

unfoldable pub new_template : String → List String → JsonObj → Template
new_template name patterns mappings = record {
  name = name;
  patterns = patterns;
  settings = none;
  mappings = mappings;
}

-- `m[key] = value` on a map of Go, whose entries stand in some order.
unfoldable pub set_entry : String → Json → JsonObj → JsonObj
set_entry key value empty = field key value empty
set_entry key value (field k v rest) =
    let after = set_entry key value rest in
    if str_eq k key then field k value rest else field k v after

abbrev pub texts : List String → Items
texts [] = nil
texts (s ∷ ss) = cons (text s) (texts ss)

-- `omitempty` on a map.
abbrev pub omit_empty : String → JsonObj → JsonObj → JsonObj
omit_empty key empty rest = rest
omit_empty key (field k v o) rest = field key (object (field k v o)) rest

abbrev pub or_empty : Option JsonObj → JsonObj
or_empty none = empty
or_empty (some o) = o

-- What encoding/json writes of a template, by the tags of its fields; the name is left out.
unfoldable pub body_of : Template → JsonObj
body_of t =
    field "index_patterns" (array (texts t.patterns))
      (omit_empty "settings" (or_empty t.settings) (omit_empty "mappings" t.mappings empty))

abbrev pub names_of : List Template → List String
names_of [] = []
names_of (t ∷ ts) = t.name ∷ names_of ts

-- The names that are no key of the answer.
unfoldable pub not_present : List String → List String → List String
not_present keys [] = []
not_present keys (name ∷ names) =
    let rest = not_present keys names in if is_key keys name then rest else name ∷ rest

abbrev pub none_missing : List String → Outcome (ServiceError SetupError) (Unit {0})
none_missing [] = ok tt
none_missing (name ∷ names) = err (refused (templates_not_installed (name ∷ names)))

unfoldable pub check_answer :
    List String → Reply (List String) → Outcome (ServiceError SetupError) (Unit {0})
unfolding not_present
check_answer names no_response = err (elasticsearch_err request_failed)
check_answer names (response status body) =
    if status == 200
    then elim body [
      | none ↦ err json_serdes_err
      | some keys ↦ none_missing (not_present keys names)
    ]
    else if status == 404
    then err (refused (templates_not_installed names))
    else err (elasticsearch_err (unexpected_status status))

abbrev pub add_error :
    Outcome (ServiceError ⊥) (Unit {0}) → List (ServiceError ⊥) → List (ServiceError ⊥)
add_error (ok u) errors = errors
add_error (err e) errors = e ∷ errors

abbrev pub none_failed : List (ServiceError ⊥) → Outcome (ServiceError SetupError) (Unit {0})
none_failed [] = ok tt
none_failed (e ∷ es) = err (refused (put_template_errors (e ∷ es)))

module _ {W : Type 0} (c : Cluster W) where
  unfoldable pub put_template : Template → SetupStep W ⊥
  put_template t = do
    _ ← marshal_body c (body_of t)
    reply ← run (c.put_template t.name (body_of t))
    lift (put_answer reply)

  -- The loop of `Run`: a template that fails does not keep the next ones from being sent.
  unfoldable pub put_each : List Template → W → List (ServiceError ⊥) × W
  put_each [] w = ([], w)
  put_each (t ∷ ts) w =
      let (r, w') = put_template t w in
      let (errors, w'') = put_each ts w' in (add_error r errors, w'')

  unfoldable pub run_setup : List Template → SetupStep W SetupError
  run_setup ts w = let (errors, w') = put_each ts w in (none_failed errors, w')

  unfoldable pub check_setup : List Template → SetupStep W SetupError
  check_setup ts = do
    reply ← run (c.get_template (names_of ts))
    lift (check_answer (names_of ts) reply)
