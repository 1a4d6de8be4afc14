-- ===== src/Setup/Templates/Mappings.antt =====
-- The mappings of the index templates in internal/infra/elasticsearch/index/template.go, as objects of
-- JSON.
use tasques.Prelude.{ℕ, String, true, false}
use tasques.Domain.Json.{Json, JsonObj, empty, field, boolean, number, text, object}

-- 512 as a float64.
abbrev float_512 : ℕ
float_512 = 0x4080000000000000

-- `Json{"type": name}`
abbrev typed : String → Json
typed name = object (field "type" (text name) empty)

-- A text with a sub-field for its exact value.
abbrev text_with_keyword : Json
text_with_keyword = object (
    field "type" (text "text") (
      field "fields"
        (object (
          field "keyword"
            (object (field "type" (text "keyword") (field "ignore_above" (number float_512) empty)))
            empty))
        empty))

-- An object that users fill in freely.
abbrev not_indexed : Json
not_indexed = object (field "type" (text "object") (field "enabled" (boolean false) empty))

-- `Json{"properties": fields}`
abbrev properties : JsonObj → Json
properties fields = object (field "properties" (object fields) empty)

unfoldable pub base_task_mappings : JsonObj
base_task_mappings = field "_source" (object (field "enabled" (boolean true) empty)) (
    field "dynamic" (boolean true) (
      field "properties"
        (object (
          field "id" text_with_keyword (
            field "queue" text_with_keyword (
              field "retry_times" (typed "long") (
                field "remaining_attempts" (typed "long") (
                  field "kind" text_with_keyword (
                    field "state" (typed "keyword") (
                      field "run_at" (typed "date") (
                        field "processing_timeout" (typed "long") (
                          field "priority" (typed "long") (
                            field "args" not_indexed (
                              field "context" not_indexed (
                                field "last_enqueued_at" (typed "date") (
                                  field "last_claimed"
                                    (properties (
                                      field "worker_id" text_with_keyword (
                                        field "claimed_at" (typed "date") (
                                          field "times_out_at" (typed "date") (
                                            field "last_report"
                                              (properties (
                                                field "at" (typed "date")
                                                  (field "data" not_indexed empty)))
                                              (field "result"
                                                (properties (
                                                  field "at" (typed "date") (
                                                    field "failure" not_indexed
                                                      (field "success" not_indexed empty))))
                                                empty))))))
                                    (field "recurring_task_id" text_with_keyword (
                                      field "metadata"
                                        (properties (
                                          field "created_at" (typed "date")
                                            (field "modified_at" (typed "date") empty)))
                                        empty))))))))))))))))
        empty))

unfoldable pub archived_task_mappings : JsonObj
unfolding base_task_mappings
archived_task_mappings = base_task_mappings

unfoldable pub locks_mappings : JsonObj
locks_mappings =
    field "_source" (object (field "enabled" (boolean true) empty))
      (field "dynamic" (boolean true) empty)

unfoldable pub recurring_tasks_mappings : JsonObj
recurring_tasks_mappings = field "_source" (object (field "enabled" (boolean true) empty)) (
    field "dynamic" (boolean true) (
      field "properties"
        (object (
          field "is_deleted" (typed "boolean") (
            field "loaded_at" (typed "date") (
              field "metadata"
                (properties
                  (field "created_at" (typed "date") (field "modified_at" (typed "date") empty)))
                (field "schedule_expression" text_with_keyword (
                  field "skip_if_outstanding_tasks_exist" (typed "boolean") (
                    field "task_definition"
                      (properties (
                        field "kind" text_with_keyword (
                          field "priority" (typed "long") (
                            field "args" not_indexed (
                              field "context" not_indexed (
                                field "processing_timeout" (typed "long") (
                                  field "queue" text_with_keyword
                                    (field "retry_times" (typed "long") empty))))))))
                      empty)))))))
        empty))
