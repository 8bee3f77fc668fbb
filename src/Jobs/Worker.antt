-- ===== src/Jobs/Worker.antt =====
-- backend/app/jobs/worker.py: `JobWorker` over the in-memory queue. Durations, metrics and log lines
-- are left out; the three error texts that embed a name, a timeout or a validation report are
-- parameters, since their rendering is Python's.
pub mod Progress
pub mod Draining
use nexa_assist.Common.{
  ℕ, zero, suc, String, Bool, true, false, Option, none, some, List, [], ◌∷◌, Result, ok, err,
  ◌>>=◌, string_key,
}
use nexa_assist.Dict.{lookup}
use nexa_assist.Jobs.Base.{Job, JobStatus, JobFault, failed}
use nexa_assist.Jobs.Handlers.{Ran, finished, timed_out, crashed, raised, Handler, Registry}
use nexa_assist.Jobs.Memory.{Queue, dequeue, complete, fail}

pub data JobOutcome : Type 0 where
  succeeded retrying dead_lettered : JobOutcome

pub record JobRun : Type 0 where
  pub job_id : String
  pub name : String
  pub outcome : JobOutcome
  pub attempts : ℕ
  pub error : Option String

pub record Texts : Type 0 where
  pub no_handler : String → String
  pub too_slow : String
  pub invalid_payload : String → String

abbrev pub unexpected_error : String
unexpected_error = "The job failed unexpectedly."

-- the outcome of a failed attempt, from the status that the queue recorded
abbrev pub outcome_of : JobStatus → JobOutcome
outcome_of failed = dead_lettered
outcome_of _ = retrying

module _ {V P : Type 0} (texts : Texts) (registry : Registry V P) where
  -- `_fail`
  unfoldable pub fail_run : Queue V → Job V → String → Bool → Result JobFault (JobRun × Queue V)
  fail_run q job error retryable = do
    (recorded, q') ← fail q job error retryable
    ok (
      record {
        job_id = job.id;
        name = job.name;
        outcome = outcome_of recorded.status;
        attempts = recorded.attempts;
        error = some error;
      },
      q',
    )

  unfoldable pub complete_run : Queue V → Job V → Result JobFault (JobRun × Queue V)
  complete_run q job = do
    (completed, q') ← complete q job
    ok (
      record {
        job_id = job.id;
        name = job.name;
        outcome = succeeded;
        attempts = completed.attempts;
        error = none;
      },
      q',
    )

  -- `_run`, by how the handler ended
  unfoldable pub run : Queue V → Job V → Ran → Result JobFault (JobRun × Queue V)
  run q job finished = complete_run q job
  run q job timed_out = fail_run q job texts.too_slow true
  run q job (raised message retryable) = fail_run q job message retryable
  run q job crashed = fail_run q job unexpected_error true

  unfoldable pub dispatch : Queue V → Job V → Result JobFault (JobRun × Queue V)
  dispatch q job = elim (lookup job.name registry) [
    | none ↦ fail_run q job (texts.no_handler job.name) false
    | some handler ↦ elim (handler.model_validate job.payload) [
      | err report ↦ fail_run q job (texts.invalid_payload report) false
      | ok params ↦ run q job (handler.run job params)
    ]
  ]

  abbrev pub dispatch_taken : Option (Job V) × Queue V → Result JobFault (Option JobRun × Queue V)
  dispatch_taken (none, q) = ok (none, q)
  dispatch_taken (some job, q) = do (done, q') ← dispatch q job; ok (some done, q')

  unfoldable pub run_once : Queue V → Result JobFault (Option JobRun × Queue V)
  run_once q = dispatch_taken (dequeue q)

  -- the `for` loop over the budget of `drain`
  unfoldable pub drain : ℕ → Queue V → Result JobFault (List JobRun × Queue V)
  drain zero q = ok ([], q)
  drain (suc n) q = elim (run_once q) [
    | err e ↦ err e
    | ok (none, q') ↦ ok ([], q')
    | ok (some done, q') ↦ elim (drain n q') [
      | err e ↦ err e
      | ok (runs, q'') ↦ ok (done ∷ runs, q'')
    ]
  ]
