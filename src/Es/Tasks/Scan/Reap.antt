-- ===== src/Es/Tasks/Scan/Reap.antt =====
-- What the reaper of internal/infra/elasticsearch/task/service.go makes of the tasks that it finds.
use tasques.Prelude.{
  ℕ, ℤ, ◌≡◌, ◌⊎◌, refl, Outcome-cases, str_eq_refl, inl, inr, Option, some, List, [], ◌∷◌, ok,
  length, All, arith,
}
use tasques.Domain.Json.{JsonObj}
use tasques.Domain.Task.{
  Task, claimed, failed, dead, LastClaimed, with_claim, not_owned, into_failed,
}
use tasques.Es.Client.{Runtime}
use tasques.Es.Tasks.Service.{TaskClient, stamped}
use tasques.Es.Tasks.Scan.{time_out_each}

-- The task is claimed, whoever holds the claim.
abbrev pub IsHeld : Task → Type 0
IsHeld t = (t.state ≡ claimed) × ((l : LastClaimed) × (t.last_claimed ≡ some l))

-- The task has failed, or is dead, at the time of the reaper.
abbrev pub IsReaped : ℤ → Task → Type 0
IsReaped now t = ((t.state ≡ failed) ⊎ (t.state ≡ dead)) × (t.metadata.modified_at ≡ now)

into_failed-by_owner :
    (t : Task) (l : LastClaimed) (now : ℤ) (failure : Option JsonObj) (jitter : ℕ)
    → t.state ≡ claimed
    → t.last_claimed ≡ some l
    → (t' : Task) × (into_failed t l.worker_id now failure jitter ≡ ok t')
      × ((t'.state ≡ failed) ⊎ (t'.state ≡ dead))
unfolding into_failed with_claim not_owned
into_failed-by_owner t l now failure jitter s e =
    elim (Outcome-cases (into_failed t l.worker_id now failure jitter)) [
      | inl (t', f) ↦ (t', f, ground arith)
      | inr (x, f) ↦ absurd (ground (arith, str_eq_refl l.worker_id))
    ]

module _ {W : Type 0} (c : TaskClient W) (rt : Runtime W) (timed_out : JsonObj) where
  -- Of a batch of tasks that are all claimed, by whichever workers, the reaper passes over none:
  -- as many come back, and each has failed or is dead, and was modified at the time of the reaper.
  pub time_out_each-All :
      (now : ℤ) (ts : List Task) (w : W)
      → All IsHeld ts
      → (length (time_out_each c rt timed_out now ts w).0 ≡ length ts)
        × All (IsReaped now) (time_out_each c rt timed_out now ts w).0
  unfolding time_out_each
  time_out_each-All now [] w h = (refl, tt)
  time_out_each-All now (t ∷ ts) w ((held, (l, e)), hs) =
      let jitter = rt.rand_intn 30 w in
      let (len, all) = time_out_each-All now ts jitter.1 hs in
      let (t', f, reaped) = into_failed-by_owner t l now (some timed_out) jitter.0 held e in
      let rest = (time_out_each c rt timed_out now ts jitter.1).0 in
      let step : (time_out_each c rt timed_out now (t ∷ ts) w).0 ≡ stamped t' now ∷ rest =
        ground arith in
      rw step (omega arith, ((reaped, refl), all))
