-- ===== src/Jobs/Memory.antt =====
-- backend/app/jobs/memory.py: `InMemoryJobQueue`. A method returns its result with the queue that
-- it leaves; a method that raises does so before it has changed anything. Logging is left out.
pub mod Invariant
pub mod Steps
pub mod Terminal
use nexa_assist.Common.{
  ℕ, ◌+◌, String, Bool, true, false, not, ◌||◌, Option, none, some, List, [], ◌∷◌, ◌++◌, length,
  Result, ok, err, ◌>>=◌, string_key, if◌then◌else◌,
}
use nexa_assist.Dict.{Dict, lookup, insert}
use nexa_assist.Jobs.Base.{
  Job, JobFault, job_not_found, pending, running, succeeded, failed, Json, build_job, exhausted,
}

pub record Queue (V : Type 0) : Type 0 where
  pub pending : List String
  pub jobs : Dict String (Job V)
  pub dead : List String

module _ {V : Type 0} where
  abbrev pub empty : Queue V
  empty = record { pending = []; jobs = []; dead = [] }

  -- `_stored`
  unfoldable pub stored : Queue V → String → Result JobFault (Job V)
  stored q id = elim (lookup id q.jobs) [ none ↦ err job_not_found | some job ↦ ok job ]

  -- the two writes of `enqueue`, once the job is built
  unfoldable pub add : Queue V → Job V → Queue V
  add q job = record q { jobs = insert job.id job q.jobs; pending = q.pending ++ job.id ∷ [] }

  unfoldable pub enqueue :
      {T : Type 0}
      → Json V T
      → String
      → Queue V
      → String
      → Option V
      → ℕ
      → Result JobFault (Job V × Queue V)
  enqueue json new_id q name payload max_attempts = do
    job ← build_job json new_id name payload max_attempts
    ok (job, add q job)

  -- The job as a worker holds it: running, one more attempt counted.
  abbrev pub start : Job V → Job V
  start job = record job { status = running; attempts = job.attempts + 1 }

  -- the `while` loop over the pending identifiers; one without a job is skipped
  unfoldable pub dequeue_from :
      Dict String (Job V) → List String → List String → Option (Job V) × Queue V
  dequeue_from jobs dead [] = (none, record { pending = []; jobs = jobs; dead = dead })
  dequeue_from jobs dead (id ∷ rest) = elim (lookup id jobs) [
    | none ↦ dequeue_from jobs dead rest
    | some job ↦ (
      some (start job),
      record { pending = rest; jobs = insert id (start job) jobs; dead = dead },
    )
  ]

  unfoldable pub dequeue : Queue V → Option (Job V) × Queue V
  unfolding dequeue_from
  dequeue q = dequeue_from q.jobs q.dead q.pending

  unfoldable pub complete : Queue V → Job V → Result JobFault (Job V × Queue V)
  unfolding stored
  complete q job = do
    kept ← stored q job.id
    let done = record kept { status = succeeded; error = none }
    ok (done, record q { jobs = insert job.id done q.jobs })

  -- the job back at the end of the queue
  abbrev pub requeue : Queue V → String → Job V → Queue V
  requeue q id job = record q { jobs = insert id job q.jobs; pending = q.pending ++ id ∷ [] }

  abbrev pub bury : Queue V → String → Job V → Queue V
  bury q id job = record q { jobs = insert id job q.jobs; dead = q.dead ++ id ∷ [] }

  unfoldable pub fail : Queue V → Job V → String → Bool → Result JobFault (Job V × Queue V)
  unfolding stored
  fail q job error retryable = do
    kept ← stored q job.id
    let gone = record kept { status = failed; error = some error }
    let retry = record kept { status = pending; error = some error }
    ok (
        if exhausted kept || not retryable
        then (gone, bury q job.id gone)
        else (retry, requeue q job.id retry))

  unfoldable pub depth : Queue V → ℕ
  depth q = length q.pending

  -- `[self._jobs[job_id] for job_id in self._dead]`, a `KeyError` being `none`
  unfoldable pub dead_lettered_from : Dict String (Job V) → List String → Option (List (Job V))
  dead_lettered_from jobs [] = some []
  dead_lettered_from jobs (id ∷ ids) = elim (lookup id jobs) [
    | none ↦ none
    | some job ↦ elim (dead_lettered_from jobs ids) [ none ↦ none | some rest ↦ some (job ∷ rest) ]
  ]

  unfoldable pub dead_lettered : Queue V → Option (List (Job V))
  unfolding dead_lettered_from
  dead_lettered q = dead_lettered_from q.jobs q.dead
