-- ===== src/Es/Tasks/Settings.antt =====
-- The settings that internal/infra/elasticsearch/task/service.go reads (internal/config/models.go), and
-- the names of indices.
use Prim.Native.String.{◌++◌ as append, len, slice}
use text.Mathlib.Text.{starts_with}
use text.Mathlib.TextPositions.{starts_with-append, slice-append_right, len-append}
use tasques.Prelude.{ℕ, ℤ, String, ◌≡◌, if◌then◌else◌}

pub record TasksDefaults : Type 0 where
  pub block_for_retry_min_wait : ℤ
  pub block_for_retry_max_retries : ℕ
  pub claim_amount_search_multiplier : ℕ
  pub version_conflict_retry_times : ℕ

pub record Queues : Type 0 where
  pub refresh_if_last_touched_over : ℤ
  pub refresh_if_last_touched_under : ℤ

pub record Tasks : Type 0 where
  pub defaults : TasksDefaults
  pub queues : Queues

abbrev pub tasques_queue_prefix : String
tasques_queue_prefix = ".tasques_queue-"

abbrev pub tasques_archive_index : String
tasques_archive_index = ".tasques_archive"

unfoldable pub build_index_name : String → String
build_index_name queue = append tasques_queue_prefix queue

abbrev pub all_taskqueue_queues_pattern : String
all_taskqueue_queues_pattern = append tasques_queue_prefix "*"

-- strings.TrimPrefix
unfoldable pub trim_prefix : String → String → String
trim_prefix s prefix = if starts_with s prefix then slice s (len prefix) (len s) else s

unfoldable pub queue_name_from_index_name : String → String
unfolding trim_prefix
queue_name_from_index_name index_name = trim_prefix index_name tasques_queue_prefix

-- The name of a queue is read back from the name of its index.
pub queue_name_from_index_name-build_index_name :
    (queue : String) → queue_name_from_index_name (build_index_name queue) ≡ queue
unfolding queue_name_from_index_name build_index_name
queue_name_from_index_name-build_index_name queue =
    rw (starts_with-append tasques_queue_prefix queue)
      (rw (len-append tasques_queue_prefix queue) (slice-append_right tasques_queue_prefix queue))
