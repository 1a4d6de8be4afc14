-- ===== src/Es/Tasks/Claim/Ends.antt =====
-- `Claim` of internal/infra/elasticsearch/task/service.go comes to an end.
use tasques.Domain.Task.{Task}
use tasques.Es.Tasks.Settings.{Tasks}
use tasques.Es.Tasks.Claim.Clock.{Clock}
