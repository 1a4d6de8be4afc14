-- ===== src/Cron/Valid/Steps.antt =====
-- `Schedule` and `Unschedule` of internal/infra/cron/task/recurring/scheduler.go step by step: taking an
-- entry out, and putting one in.
use tasques.Prelude.{
  ℕ, String, ◌≡◌, ◌≢◌, refl, sym, ap, ◌∙◌, Option, none, some, inl, inr, Option-cases, arith,
}
use native.Mathlib.Decide.{ℕ_discrete}
use tasques.Domain.Recurring.InSync.{same_or_not}
use tasques.Cron.{Cron, Job, Entries, entry_of, drop_entry, put_entry, take_out, entry_or_zero}
use tasques.Cron.Table.{entry_of-drop_self, entry_of-drop_ne, entry_of-put_self, entry_of-put_ne}
use tasques.Cron.Valid.{CronLaws, Valid}

module _ {C : Type 0} (cron : Cron C) (entries : C → ℕ → Option Job)
    (laws : CronLaws cron entries) where
  -- Two ids of the map that have one entry are equal.
  one_entry :
      (id k : String) (e : ℕ) (es : Entries) (c : C)
      → Valid entries es c
      → entry_of id es ≡ some e
      → entry_of k es ≡ some e
      → e ≢ 0
      → id ≡ k
  one_entry id k e es c v at_id at_k n =
      let (i, at_i, is_id) = v.sound id e at_id n in
      let (j, at_j, is_k) = v.sound k e at_k n in
      let same : i ≡ j = ground arith in sym is_id ∙ ap (λ x. x.task.id) same ∙ is_k

  -- Taking out one entry leaves that of another id.
  other_entry :
      (id k : String) (e f : ℕ) (es : Entries) (c : C)
      → Valid entries es c
      → entry_of id es ≡ some e
      → entry_of k es ≡ some f
      → k ≢ id
      → entries (cron.remove e c) f ≡ entries c f
  other_entry id k e f es c v at_id at_k n = elim (ℕ_discrete f e) [
    | no m ↦ laws.remove_other e f c m
    | yes same ↦ elim (ℕ_discrete f 0) [
      | yes z ↦
          ap (entries (cron.remove e c)) z
          ∙ laws.no_zero (cron.remove e c)
          ∙ sym (ap (entries c) z ∙ laws.no_zero c)
      | no m ↦ absurd (n (one_entry k id f es c v at_k (at_id ∙ ap some (sym same)) m))
    ]
  ]

  -- The state without the entry of an id.
  pub record Out (id : String) (es : Entries) (c : C) (es' : Entries) (c' : C) : Type 0 where
    pub gone : entry_of id es' ≡ none
    pub kept : (k : String) → k ≢ id → entry_of k es' ≡ entry_of k es
    pub kept_jobs :
        (k : String) (f : ℕ) → k ≢ id → entry_of k es ≡ some f → entries c' f ≡ entries c f
    pub valid : Valid entries es' c'

  removed_entry :
      (id : String) (e : ℕ) (es : Entries) (c : C)
      → Valid entries es c
      → entry_of id es ≡ some e
      → Out id es c (drop_entry id es) (cron.remove e c)
  removed_entry id e es c v at_id = record {
    gone = entry_of-drop_self id es;
    kept = λ k. entry_of-drop_ne k id es;
    kept_jobs = λ k f n at_k. other_entry id k e f es c v at_id at_k n;
    valid = record {
      sound = λ k f at_k m. elim (same_or_not k id) [
        | inl s ↦
            let gone = ap (λ x. entry_of x (drop_entry id es)) s ∙ entry_of-drop_self id es in
            absurd (ground arith)
        | inr n ↦
            let before = sym (entry_of-drop_ne k id es n) ∙ at_k in
            let (j, at_j, is_k) = v.sound k f before m in
            (j, other_entry id k e f es c v at_id before n ∙ at_j, is_k)
      ];
      complete = λ f j at_f. elim (ℕ_discrete f e) [
        | yes s ↦
            let gone = ap (entries (cron.remove e c)) s ∙ laws.removed e c in absurd (ground arith)
        | no m ↦
            let before = v.complete f j (sym (laws.remove_other e f c m) ∙ at_f) in
            elim (same_or_not j.task.id id) [
              | inl s ↦ absurd (ground (arith, ap (λ x. entry_of x es) s))
              | inr n ↦ entry_of-drop_ne j.task.id id es n ∙ before
            ]
      ];
    };
  }

  pub take_out-Out :
      (id : String) (es : Entries) (c : C)
      → Valid entries es c
      → Out id es c
          (take_out cron id (entry_of id es) (es, c)).0
          (take_out cron id (entry_of id es) (es, c)).1
  take_out-Out id es c v = elim (Option-cases (entry_of id es)) [
    | inl e ↦
        rw e (record { gone = e; kept = λ k n. refl; kept_jobs = λ k f n at_k. refl; valid = v })
    | inr (e, at_id) ↦ rw at_id (removed_entry id e es c v at_id)
  ]

  -- An entry is put in where there is none of that id.
  put_none :
      (id : String) (es : Entries) (c c' : C)
      → Valid entries es c
      → entry_of id es ≡ none
      → ((k : ℕ) → entries c' k ≡ entries c k)
      → Valid entries (put_entry id 0 es) c'
  put_none id es c c' v gone same = record {
    sound = λ k f at_k m. elim (same_or_not k id) [
      | inl s ↦
          let zero_id = ap (λ x. entry_of x (put_entry id 0 es)) s ∙ entry_of-put_self id 0 es in
          absurd (m (ground arith))
      | inr n ↦
          let (j, at_j, is_k) = v.sound k f (sym (entry_of-put_ne k id 0 es n) ∙ at_k) m in
          (j, same f ∙ at_j, is_k)
    ];
    complete = λ f j at_f.
        let before = v.complete f j (sym (same f) ∙ at_f) in
        elim (same_or_not j.task.id id) [
          | inl s ↦ absurd (ground (arith, ap (λ x. entry_of x es) s))
          | inr n ↦ entry_of-put_ne j.task.id id 0 es n ∙ before
        ];
  }

  put_some :
      (t : Job) (e : ℕ) (es : Entries) (c c' : C)
      → Valid entries es c
      → entry_of t.task.id es ≡ none
      → entries c e ≡ none
      → entries c' e ≡ some t
      → ((k : ℕ) → k ≢ e → entries c' k ≡ entries c k)
      → Valid entries (put_entry t.task.id e es) c'
  put_some t e es c c' v gone new at_e other = record {
    sound = λ k f at_k m. elim (same_or_not k t.task.id) [
      | inl s ↦
          let found =
            ap (λ x. entry_of x (put_entry t.task.id e es)) s ∙ entry_of-put_self t.task.id e es in
          let same : f ≡ e = ground arith in (t, ap (entries c') same ∙ at_e, sym s)
      | inr n ↦
          let (j, at_j, is_k) = v.sound k f (sym (entry_of-put_ne k t.task.id e es n) ∙ at_k) m in
          (j, other f (λ s. absurd (ground (arith, ap (entries c) s))) ∙ at_j, is_k)
    ];
    complete = λ f j at_f. elim (ℕ_discrete f e) [
      | yes s ↦
          let same : j ≡ t = ground (arith, ap (entries c') s) in
          ap (λ x. entry_of x.task.id (put_entry t.task.id e es)) same
          ∙ entry_of-put_self t.task.id e es
          ∙ ap some (sym s)
      | no m ↦
          let before = v.complete f j (sym (other f m) ∙ at_f) in
          elim (same_or_not j.task.id t.task.id) [
            | inl s ↦ absurd (ground (arith, ap (λ x. entry_of x es) s))
            | inr n ↦ entry_of-put_ne j.task.id t.task.id e es n ∙ before
          ]
    ];
  }

  pub put-Valid :
      (spec : String) (t : Job) (es : Entries) (c : C)
      → Valid entries es c
      → entry_of t.task.id es ≡ none
      → Valid entries
          (put_entry t.task.id (entry_or_zero (cron.add_job spec t c).0) es)
          (cron.add_job spec t c).1
  put-Valid spec t es c v gone = elim (Option-cases (cron.add_job spec t c).0) [
    | inl failed ↦ rw failed (
        put_none t.task.id es c (cron.add_job spec t c).1 v gone
          (λ k. laws.add_failed spec t c k failed))
    | inr (e, done) ↦
        let (new, at_e) = laws.added spec t c e done in
        rw done (
          put_some t e es c (cron.add_job spec t c).1 v gone new at_e
            (λ k. laws.add_other spec t c e k done))
  ]

  -- Adding an entry leaves those that are in the map.
  pub add_job_kept :
      (spec : String) (t : Job) (es : Entries) (c : C) (k : String) (f : ℕ)
      → Valid entries es c
      → entry_of k es ≡ some f
      → entries (cron.add_job spec t c).1 f ≡ entries c f
  add_job_kept spec t es c k f v at_k = elim (Option-cases (cron.add_job spec t c).0) [
    | inl failed ↦ laws.add_failed spec t c f failed
    | inr (e, done) ↦ elim (ℕ_discrete f e) [
      | no m ↦ laws.add_other spec t c e f done m
      | yes s ↦
          let (new, at_e) = laws.added spec t c e done in
          let none_at = laws.no_zero (cron.add_job spec t c).1 in
          let used : f ≢ 0 =
            λ z. absurd (ground (arith, ap (entries (cron.add_job spec t c).1) (sym s ∙ z))) in
          let (j, at_j, is_k) = v.sound k f at_k used in absurd (ground (arith, ap (entries c) s))
    ]
  ]
