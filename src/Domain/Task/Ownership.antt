-- ===== src/Domain/Task/Ownership.antt =====
-- Who may report on, complete, fail or unclaim a task, and which reports are filed.
use tasques.Prelude.{
  ℤ, String, ◌≡◌, refl, ◌⊎◌, some, Outcome, ok, err, str_eq_iff, inl, inr, Option-cases, Bool-cases,
  ltb_ℤ, ◌<ℤ◌, ◌≤ℤ◌, ◌+ℤ◌, arith,
}
use tasques.Domain.Task.{
  Task, claimed, LastClaimed, Report, with_claim, Error, report_from_the_past, report_in, into_done,
  into_failed, into_unclaimed, NewReport,
}
use tasques.Domain.Task.Calls.{Call, claims, reports, completes, fails, unclaims, call}

-- The worker that makes a call.
abbrev pub caller : Call → String
caller (claims worker at) = worker
caller (reports worker news at) = worker
caller (completes worker at success) = worker
caller (fails worker at failure jitter) = worker
caller (unclaims worker at) = worker

-- A call other than a claim.
abbrev pub NeedsClaim : Call → Type 0
NeedsClaim (claims worker at) = ⊥
NeedsClaim c = Unit

-- `worker` holds the claim `c` on the task.
abbrev pub Holds : Task → String → LastClaimed → Type 0
Holds t worker c = (t.state ≡ claimed) × (t.last_claimed ≡ some c) × (c.worker_id ≡ worker)

-- The inversion of an accepted call of a method that wants the claim.
pub with_claim-ok :
    (t : Task) (worker : String) (act : LastClaimed → Outcome Error Task) {t' : Task}
    → with_claim t worker act ≡ ok t'
    → (l : LastClaimed) × (t.state ≡ claimed)
      × (t.last_claimed ≡ some l)
      × (l.worker_id ≡ worker)
      × (act l ≡ ok t')
unfolding with_claim
with_claim-ok t worker act h = elim (Option-cases t.last_claimed) [
  | inl e ↦ absurd (ground arith)
  | inr (l, e) ↦ (
    l,
    ground arith,
    e,
    ground (arith, str_eq_iff l.worker_id worker),
    ground (arith, str_eq_iff l.worker_id worker),
  )
]

-- A report, a completion, a failure or an unclaim that is accepted came from the worker that holds
-- the claim on the task.
pub call-ok_Holds :
    (c : Call) (t : Task) {t' : Task}
    → NeedsClaim c
    → call c t ≡ ok t'
    → (l : LastClaimed) × Holds t (caller c) l
unfolding call report_in into_done into_failed into_unclaimed
call-ok_Holds (claims worker at) t n h = elim n [ ]
call-ok_Holds (reports worker news at) t n h =
    let (l, s, e, w, _) = with_claim-ok t worker _ h in (l, (s, e, w))
call-ok_Holds (completes worker at success) t n h =
    let (l, s, e, w, _) = with_claim-ok t worker _ h in (l, (s, e, w))
call-ok_Holds (fails worker at failure jitter) t n h =
    let (l, s, e, w, _) = with_claim-ok t worker _ h in (l, (s, e, w))
call-ok_Holds (unclaims worker at) t n h =
    let (l, s, e, w, _) = with_claim-ok t worker _ h in (l, (s, e, w))

abbrev filed : Task → LastClaimed → NewReport → ℤ → LastClaimed
filed t l news at = record l {
  last_report = some (record { at = at; payload = news.payload });
  times_out_at = at +ℤ t.processing_timeout;
}

-- Of a task that the worker holds: a report is refused, with the time of the filed one, when a
-- later one is filed; otherwise none that is filed is later, the report is filed at its time, and
-- the time-out moves to that time plus the processing timeout.
pub report_in_order :
    (t : Task) (worker : String) (news : NewReport) (at : ℤ) (l : LastClaimed)
    → Holds t worker l
    → ((r : Report) × (l.last_report ≡ some r)
        × (at <ℤ r.at)
        × (report_in t worker news at ≡ err (report_from_the_past t.id at r.at)))
      ⊎ (((r : Report) → l.last_report ≡ some r → r.at ≤ℤ at)
          × ((l' : LastClaimed) × (report_in t worker news at
                ≡ ok (record t { last_claimed = some l' }))
              × (l'.last_report ≡ some (record { at = at; payload = news.payload }))
              × (l'.times_out_at ≡ at +ℤ t.processing_timeout)
              × (l'.worker_id ≡ worker)))
unfolding report_in
report_in_order t worker news at l (s, e, w) = elim (Option-cases l.last_report) [
  | inl n ↦ inr (
    λ r f. absurd (ground arith),
    (filed t l news at, ground (arith, str_eq_iff l.worker_id worker), refl, refl, w),
  )
  | inr (r, f) ↦ elim (Bool-cases (ltb_ℤ at r.at)) [
    | inl b ↦ inl (r, f, ground arith, ground (arith, str_eq_iff l.worker_id worker))
    | inr b ↦ inr (
      λ r' f'. ground arith,
      (filed t l news at, ground (arith, str_eq_iff l.worker_id worker), refl, refl, w),
    )
  ]
]
