-- ===== src/Lib.antt =====
-- Models of tasques, a queue of tasks kept in Elasticsearch that workers claim over HTTP, and what is
-- proved of them.
--
-- The parts, and the files that model them:
--
--   - internal/domain/task/models.go: Domain/Task (one function per method of `Task`), Domain/Task/Calls
--     (the methods as one type, for histories), StateText (the states as JSON). The theorems are in
--     Invariant, Lifecycle, Attempts, Ownership and Backoff.
--   - internal/domain/queue/models.go: Domain/Queue; Valid says what a name is without the code.
--   - internal/domain/metadata/models.go: Domain/Metadata.
--   - internal/infra/elasticsearch/task/service.go, `EsService`: Es/Tasks. Persisted has the documents,
--     Queries the searches, Settings what is configured, Service the operations on one task
--     (`Create`, `Get`, `ReportIn`, `MarkDone`, `MarkFailed`, `UnClaim`), Bulk the bulk requests, Claim
--     the claiming, Scan the reaper and the archiver page by page, Refresh the cache of refreshes. A service works on
--     tasks of Domain/Task and keeps them as documents, under the version that Elasticsearch gives.
--   - internal/infra/elasticsearch/common/models.go: Es/Common.
--   - internal/infra/elasticsearch/task/recurring/service.go, also an `EsService`: Es/Recurring. Persisted
--     has the documents, Queries the searches, Service the operations on one task and the marking of many,
--     Scan the lists, which are fetched page by page, and the service as the manager is given it. Updates,
--     Marks, Placed and Pages have the theorems.
--   - internal/infra/elasticsearch/leader/lock.go, `EsLock`: Es/Leader, one round of `loop` as a function.
--     Stash has the state diagram and what a lock keeps, Writes what a round writes.
--   - internal/domain/task/recurring: Domain/Recurring (models) and Domain/Recurring/Manager (the manager,
--     which asks a lock whether it leads, and then schedules what the data store has). Manager/Laws has what
--     the manager relies on, InSync what holds of its memory under these laws.
--   - internal/infra/cron/task/recurring/scheduler.go: Cron. Table has its map, Valid the invariant of the map
--     and the entries of the cron and, in Implements, the scheduler as the manager is given it; Enqueue has
--     what an entry runs, over the tasks service.
--   - internal/api and internal/infra/server/routing/tasks: Api. Models has what requests and answers hold,
--     Tasks the controller over a service of tasks, with `EsService` as one, and Tasks/Routes the routes.
--     Refusals has what is checked before the controller is called, Finishes what an answer of 200 promises.
--     Recurring has the same for recurring tasks, with Changes on what `Update` does.
--   - worker/work_loop.go: Worker, with Verdicts on one answer; Shutdown has the loop and the call of `Run` as
--     two threads that take turns in any order, Kept what is said of handlers that give no task back, Graceful
--     what the end of `Run` says.
--   - internal/infra/server/setup.go: Setup, over three parts: Setup/Templates is
--     internal/infra/elasticsearch/index/template.go (Mappings and Default have the templates),
--     Setup/Lifecycle is lifecycle_management.go beside it, and Setup/Kibana is
--     internal/infra/kibana/saved_objects/importer.go. Requests has what is asked of Elasticsearch, with the
--     laws that the theorems take; Steps says what one request leaves, Installed and Skipped what a setup
--     does, Covered and Hook what the templates are for.
--   - internal/domain/leader: Domain/Leader, the loops of the recurring functions, with Interval on how often
--     they run.
--   - internal/infra/server/components.go: Server, which puts the lock, the manager and the loops together as
--     one process. What runs at the same time in the source is a list of events, each one call of one part, in
--     any order. Sound has what holds throughout.
--   - Examples: runs on concrete values, over a server that Examples/Server defines.
--
-- What is not under these paths is a parameter: the client of Elasticsearch with the server behind it, the
-- clock, the random numbers and the cache (Es/Client), the cron library (Cron), the binding of bodies by the
-- web framework (Api/Tasks/Routes), the client and the handlers of a worker (Worker). The manager takes
-- its scheduler and its service as parameters too (Domain/Recurring), since the source gives them as
-- interfaces. Es/Client/Laws says what is relied on: a document's version is not given out twice, and a write that names a version is taken only
-- over it. `Later` relates two states of the world between which other clients may have written too.
-- Es/Client/Forward has the rules for steps that move a world only forward, by any order: Es/Tasks/Claim/Clock
-- uses it for the time, Setup/Steps for what is installed.
--
-- Times and durations are integers of nanoseconds without bound; `uint` and `int` have 64 bits, and their
-- wrap is written out. The texts of errors, logs, traces and mutexes are left out; whether encoding/json
-- writes a document is a question to the client. `rand.Intn` of `IntoFailed` is drawn also where its number
-- is not used. The loops of claiming and scanning run on fuel and end as `starved` without it; the window
-- of a claim gets one more than it has tasks to look at, which is enough for a `uint` of desired tasks, since
-- each turn that does not panic moves its start.
-- The loops of `Claim` sleep in each turn but the first, so that fuel for three turns more than there are least
-- waits in the time to block is enough, where the clock goes on and a sleep takes its time (Es/Tasks/Claim/Ends).
-- The reaper and the archiver of Server take their fuel as an argument.
-- A panic on an answer that is too short is an ending of its own. A scan of the recurring tasks needs more
-- fuel than there are pages after the first.
--
-- The matching of searches by Elasticsearch is a parameter: Es/Tasks/Queries has the bodies only. A count of tasks
-- sees what was written before the last refresh (Cron/Enqueue/Outstanding).
--
-- Not modelled: `Run` of internal/infra/server/components.go, which does not wait for functions that are under
-- way; durations as JSON, which are read by a parser of the standard library; the reading of the
-- configuration, the HTTP server and its signals, and the texts of the saved objects of Kibana, which are only
-- passed on; tracing; the generated client and documents; and the example application.
pub mod Api
pub mod Cron
pub mod Prelude
pub mod Domain
pub mod Es
pub mod Examples
pub mod Server
pub mod Setup
pub mod Worker
