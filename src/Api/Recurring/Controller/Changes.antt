-- ===== src/Api/Recurring/Controller/Changes.antt =====
-- What `Update` of internal/api/controllers/task/recurring/controller.go does to the stored documents, over
-- internal/infra/elasticsearch/task/recurring/service.go.
use tasques.Prelude.{ℕ, ℤ, String, ◌≡◌, refl, some, ok}
use tasques.Domain.Recurring.{RecurringTask}
use tasques.Es.Client.{Runtime, Hit}
use tasques.Es.Client.Laws.{Store, ClientLaws}
use tasques.Es.Recurring.Persisted.{PersistedRecurringTaskData}
use tasques.Es.Recurring.Service.{RecurringClient}
use tasques.Es.Recurring.Service.Updates.{IsReplaced, get_then_update-IsReplaced}
use tasques.Api.Tasks.{ApiDefaults}
use tasques.Api.Recurring.{TaskUpdate}
use tasques.Api.Recurring.Controller.{es_recurring_tasks_service, apply_update, change}

-- Over a client that keeps its laws, and whose hits have the ids that were asked for: a change of a recurring
-- task that is accepted was made of a task that was not deleted, and replaced the very document of that task,
-- whatever other clients wrote between the read and the write, by that of the task with just the fields
-- changed that the request has, and as to be loaded; it changed no other document.
pub change-IsReplaced :
    {W : Type 0} (c : RecurringClient W) (rt : Runtime W) (scroll_page_size : ℕ) (scroll_ttl : ℤ)
    (fuel : ℕ) (defaults : ApiDefaults) (s : Store W PersistedRecurringTaskData)
    (laws : ClientLaws c s)
    → ((w : W) → s.Later w (rt.get_utc w).1)
    → ((w : W) (index id : String) (hit : Hit PersistedRecurringTaskData)
        → s.stored w index id ≡ some hit
        → hit.id ≡ id)
    → (id : String) (u : TaskUpdate) (w w' : W) {t' : RecurringTask}
    → change (es_recurring_tasks_service c rt scroll_page_size scroll_ttl fuel) defaults id u w
      ≡ (ok t', w')
    → IsReplaced c rt s laws (apply_update u defaults) id w t' w'
unfolding change apply_update
change-IsReplaced c rt scroll_page_size scroll_ttl fuel defaults s laws clock ids id u w w' h =
    get_then_update-IsReplaced c rt s laws (apply_update u defaults) (λ t. refl) (λ t. refl) clock
      ids id w w' h
