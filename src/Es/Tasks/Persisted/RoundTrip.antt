-- ===== src/Es/Tasks/Persisted/RoundTrip.antt =====
-- Writing a task of internal/infra/elasticsearch/task/service.go and reading it back, both ways round.
use tasques.Prelude.{ℕ, ◌+◌, ◌-◌, ◌^◌, ◌<◌, ◌≡◌, refl, Option, none, some, arith}
use tasques.Domain.Metadata.{Version}
use tasques.Domain.Task.{Task, LastClaimed, Report, Result, u64, remaining_attempts}
use tasques.Domain.Task.Invariant.{Inv, remaining_attempts-eq, attempted-le}
use tasques.Es.Tasks.Persisted.{
  PersistedTaskData, PersistedLastClaimed, PersistedReport, PersistedResult, to_domain_report,
  to_domain_result, to_domain_claim, to_domain_task, to_persisted_report, to_persisted_result,
  to_persisted_claim, to_persisted_task,
}

-- Taking from the total twice, in 64 bits.
take_twice :
    (total a : ℕ) → a < 2 ^ 64 → u64 (u64 total + 2 ^ 64 - u64 (u64 total + 2 ^ 64 - a)) ≡ a
take_twice total a h = omega arith

report_back : (r : Option Report) → to_domain_report (to_persisted_report r) ≡ r
report_back none = refl
report_back (some r) = refl

result_back : (r : Option Result) → to_domain_result (to_persisted_result r) ≡ r
result_back none = refl
result_back (some r) = refl

claim_back : (c : Option LastClaimed) → to_domain_claim (to_persisted_claim c) ≡ c
claim_back none = refl
claim_back (some c) = λ i.
    some (record c { last_report = report_back c.last_report i; result = result_back c.result i })

persisted_report_back : (r : Option PersistedReport) → to_persisted_report (to_domain_report r) ≡ r
persisted_report_back none = refl
persisted_report_back (some r) = refl

persisted_result_back : (r : Option PersistedResult) → to_persisted_result (to_domain_result r) ≡ r
persisted_result_back none = refl
persisted_result_back (some r) = refl

persisted_claim_back :
    (c : Option PersistedLastClaimed) → to_persisted_claim (to_domain_claim c) ≡ c
persisted_claim_back none = refl
persisted_claim_back (some c) = λ i. some (record c {
  last_report = persisted_report_back c.last_report i;
  result = persisted_result_back c.result i;
})

to_domain_task-to_persisted_task :
    (t : Task) → t.attempted < 2 ^ 64 → to_domain_task (to_persisted_task t) t.metadata.version ≡ t
unfolding to_domain_task to_persisted_task
to_domain_task-to_persisted_task t h = λ i. record t {
  attempted = take_twice (t.retry_times + 1) t.attempted h i;
  last_claimed = claim_back t.last_claimed i;
}

to_persisted_task-to_domain_task :
    (p : PersistedTaskData) (v : Version)
    → p.remaining_attempts < 2 ^ 64
    → to_persisted_task (to_domain_task p v) ≡ p
unfolding to_domain_task to_persisted_task
to_persisted_task-to_domain_task p v h = λ i. record p {
  remaining_attempts = take_twice (p.retry_times + 1) p.remaining_attempts h i;
  last_claimed = persisted_claim_back p.last_claimed i;
}

-- A task whose count of attempts fits 64 bits is read back as it was written, under the version that
-- the read came with; and a document whose count of remaining attempts fits is written back as it was
-- read, whatever its version.
pub persisted_round_trip :
    (t : Task) (p : PersistedTaskData) (v : Version)
    → t.attempted < 2 ^ 64
    → p.remaining_attempts < 2 ^ 64
    → (to_domain_task (to_persisted_task t) t.metadata.version ≡ t)
      × (to_persisted_task (to_domain_task p v) ≡ p)
      × ((to_domain_task p v).metadata.version ≡ v)
unfolding to_domain_task
persisted_round_trip t p v h k =
    (to_domain_task-to_persisted_task t h, to_persisted_task-to_domain_task p v k, refl)

-- Of a task that satisfies the invariant the document holds the attempts that `RemainingAttempts`
-- counts.
pub remaining_attempts-to_persisted_task :
    (t : Task) → Inv t → (to_persisted_task t).remaining_attempts ≡ remaining_attempts t
unfolding to_persisted_task
remaining_attempts-to_persisted_task t v =
    omega (arith, remaining_attempts-eq t v.fits (attempted-le t v), attempted-le t v, v.fits)
