-- ===== src/Jobs/Worker/Progress.antt =====
-- The worker never raises on a valid queue, and every run brings the queue nearer to empty.
use nexa_assist.Common.{
  ℕ, ◌+◌, ◌-◌, ◌<◌, String, ◌≡◌, refl, Bool, true, false, not, ◌||◌, Option, none, some, List, [],
  ◌∷◌, Result, ok, string_key, arith, leb, count, sum_map, sum_map-append, sum_map_agree, ==_iff,
  inl, inr, Option-cases, Result-cases, Bool-cases,
}
use nexa_assist.Dict.{lookup, insert, lookup-insert}
use nexa_assist.Jobs.Base.{Job, JobStatus, pending, running, failed}
use nexa_assist.Jobs
use nexa_assist.Jobs.Handlers.{Ran, finished, timed_out, crashed, raised, Registry}
use nexa_assist.Jobs.Memory.{Queue, start, bury, requeue}
use nexa_assist.Jobs.Memory.Invariant.{
  IsValid, taken, taken-IsValid, succeed-IsValid, bury-IsValid, requeue-IsValid,
}
use nexa_assist.Jobs.Memory.Steps.{complete_lem, fail_lem}
use nexa_assist.Jobs.Worker.{
  JobRun, JobOutcome, succeeded, retrying, dead_lettered, Texts, fail_run, complete_run, run,
  dispatch,
}

module _ {V : Type 0} where
  -- The record of an attempt of a job that was taken with this state.
  abbrev pub report : Job V → JobOutcome → Option String → JobRun
  report job outcome error = record {
    job_id = job.id;
    name = job.name;
    outcome = outcome;
    attempts = job.attempts + 1;
    error = error;
  }

  -- The attempts that the job of an identifier has left, and their sum over the pending ones.
  abbrev pub left : Option (Job V) → ℕ
  left none = 0
  left (some job) = job.max_attempts - job.attempts

  abbrev pub remaining : Queue V → ℕ
  remaining q = sum_map (λ id. left (lookup id q.jobs)) q.pending

  -- The status that the stored job has after each outcome.
  abbrev pub Shows : JobOutcome → Option (Job V) → Type 0
  Shows outcome none = ⊥
  Shows succeeded (some job) = job.status ≡ Jobs.Base.succeeded
  Shows retrying (some job) = job.status ≡ pending
  Shows dead_lettered (some job) = job.status ≡ failed

  -- What a run of the job at the head must establish.
  pub record Settles (q : Queue V) (job : Job V) (done : JobRun) (q' : Queue V) : Type 0 where
    pub valid : IsValid q'
    pub nearer : remaining q' < remaining q
    pub same_job : done.job_id ≡ job.id
    pub counted : done.attempts ≡ job.attempts + 1
    pub shown : Shows done.outcome (lookup job.id q'.jobs)

  module _ (q : Queue V) (rest : List String) (job : Job V) (v : IsValid q)
      (e : q.pending ≡ job.id ∷ rest) (f : lookup job.id q.jobs ≡ some job)
      (b : job.attempts < job.max_attempts) (n : count job.id rest ≡ 0) where
    abbrev held : Queue V
    held = taken q job.id rest job

    held-IsValid : IsValid held
    held-IsValid = taken-IsValid q job.id rest job v e f refl

    found : lookup job.id held.jobs ≡ some (start job)
    found = ground (arith, lookup-insert job.id job.id (start job) q.jobs, ==_iff job.id job.id)

    -- The jobs that wait behind the head keep their attempts whatever is written for the head.
    behind :
        (new : Job V)
        → sum_map (λ id. left (lookup id (insert job.id new held.jobs))) rest
          ≡ sum_map (λ id. left (lookup id q.jobs)) rest
    behind new =
        sum_map_agree (λ id. left (lookup id (insert job.id new held.jobs)))
          (λ id. left (lookup id q.jobs)) job.id rest
          (λ id other. ground (
            arith,
            lookup-insert job.id id new held.jobs,
            lookup-insert job.id id (start job) q.jobs,
            ==_iff job.id id,
            ==_iff id job.id,
          ))
          n

    remaining-head :
        remaining q
        ≡ (job.max_attempts - job.attempts) + sum_map (λ id. left (lookup id q.jobs)) rest
    remaining-head = rw (e, sum_map) (rw (f, left))

    requeue-nearer :
        (retry : Job V)
        → retry.attempts ≡ job.attempts + 1
        → retry.max_attempts ≡ job.max_attempts
        → remaining (requeue held job.id retry) < remaining q
    requeue-nearer retry a m =
        let jobs' = insert job.id retry held.jobs in
        let tail = sum_map-append (λ id. left (lookup id jobs')) rest (job.id ∷ []) in
        ground (
          arith,
          tail,
          remaining-head,
          behind retry,
          lookup-insert job.id job.id retry held.jobs,
          ==_iff job.id job.id,
        )

    module _ {P : Type 0} (texts : Texts) (registry : Registry V P) where
      abbrev Settled : Result Jobs.Base.JobFault (JobRun × Queue V) → Type 0
      Settled r = (done : JobRun) × (q' : Queue V) × (r ≡ ok (done, q')) × Settles q job done q'

      complete_run-Settled : Settled (complete_run texts registry held (start job))
      unfolding complete_run
      complete_run-Settled =
          let won = record (start job) { status = Jobs.Base.succeeded; error = none } in
          (
            report job succeeded none,
            record held { jobs = insert job.id won held.jobs },
            rw (complete_lem held (start job) (start job) found),
            record {
              valid = succeed-IsValid held job.id (start job) held-IsValid found refl;
              nearer = omega (arith, remaining-head, behind won);
              same_job = refl;
              counted = refl;
              shown =
                  ground (arith, lookup-insert job.id job.id won held.jobs, ==_iff job.id job.id);
            },
          )

      fail_run-Settled :
          (why : String) (retryable : Bool)
          → Settled (fail_run texts registry held (start job) why retryable)
      unfolding fail_run
      fail_run-Settled why retryable =
          let gone = record (start job) { status = failed; error = some why } in
          let retry = record (start job) { status = pending; error = some why } in
          elim (Bool-cases (leb job.max_attempts (job.attempts + 1) || not retryable)) [
            | inl spent ↦ (
              report job dead_lettered (some why),
              bury held job.id gone,
              rw (fail_lem held (start job) (start job) why retryable found) (rw spent refl),
              record {
                valid = bury-IsValid held job.id (start job) held-IsValid (some why) found refl;
                nearer = omega (arith, remaining-head, behind gone);
                same_job = refl;
                counted = refl;
                shown =
                    ground
                      (arith, lookup-insert job.id job.id gone held.jobs, ==_iff job.id job.id);
              },
            )
            | inr more ↦ (
              report job retrying (some why),
              requeue held job.id retry,
              rw (fail_lem held (start job) (start job) why retryable found) (rw more refl),
              record {
                valid =
                    requeue-IsValid held job.id (start job) held-IsValid (some why) found refl
                      (ground arith);
                nearer = requeue-nearer retry refl refl;
                same_job = refl;
                counted = refl;
                shown =
                    ground
                      (arith, lookup-insert job.id job.id retry held.jobs, ==_iff job.id job.id);
              },
            )
          ]

      run-Settled : (ran : Ran) → Settled (run texts registry held (start job) ran)
      unfolding run
      run-Settled finished = complete_run-Settled
      run-Settled timed_out = fail_run-Settled texts.too_slow true
      run-Settled (raised message retryable) = fail_run-Settled message retryable
      run-Settled crashed = fail_run-Settled _ true

      -- Whichever way the dispatch of the job at the head goes, it settles the attempt.
      pub dispatch-Settled : Settled (dispatch texts registry held (start job))
      unfolding dispatch
      dispatch-Settled = elim (Option-cases (lookup job.name registry)) [
        | inl unknown ↦ rw (unknown, dispatch) (fail_run-Settled (texts.no_handler job.name) false)
        | inr (handler, known) ↦ elim (Result-cases (handler.model_validate job.payload)) [
          | inl (why, bad) ↦
              rw (known, dispatch)
                (rw (bad, dispatch) (fail_run-Settled (texts.invalid_payload why) false))
          | inr (params, fits) ↦
              rw (known, dispatch)
                (rw (fits, dispatch) (run-Settled (handler.run (start job) params)))
        ]
      ]
