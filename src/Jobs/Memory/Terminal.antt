-- ===== src/Jobs/Memory/Terminal.antt =====
-- Settled jobs: what other jobs go through leaves them alone, and the dead-letter list can be read.
use nexa_assist.Common.{
  ℕ, ◌≤◌, String, ◌≡◌, refl, Bool, true, false, not, Option, none, some, List, [], ◌∷◌, arith, inl,
  inr, Option-cases, Result-cases, count, ok, string_key, ==_iff, leb, Bool-cases, ◌||◌,
}
use nexa_assist.Dict.{lookup, insert, lookup-insert}
use nexa_assist.Jobs.Base.{Job, Json, pending, succeeded, failed, build_job, ends, terminal}
use nexa_assist.Jobs.Base.Laws.{build_job_fields}
use nexa_assist.Jobs.Memory.{
  Queue, add, start, enqueue, dequeue, fail, requeue, bury, dead_lettered, dead_lettered_from,
}
use nexa_assist.Jobs.Memory.Invariant.{IsValid, head_waits, dequeue_lem}
use nexa_assist.Jobs.Memory.Steps.{
  Holds, Step, enqueued, dequeued, completed, ended, dequeue-nil, complete_lem, fail_lem,
}

module _ {V : Type 0} where
  -- Writing any job under an identifier whose job is not settled keeps the settled jobs.
  insert-settled :
      (q : Queue V) (id k : String) (job new : Job V) (old : Option (Job V))
      → lookup k q.jobs ≡ some job
      → ends job.status ≡ true
      → lookup id q.jobs ≡ old
      → ((kept : Job V) → old ≡ some kept → ends kept.status ≡ false)
      → lookup k (insert id new q.jobs) ≡ some job
  insert-settled q id k job new none f t g live =
      ground (arith, lookup-insert id k new q.jobs, ==_iff id k)
  insert-settled q id k job new (some kept) f t g live =
      ground (arith, lookup-insert id k new q.jobs, ==_iff id k, live kept refl)

  dequeue-settled :
      (q : Queue V) (ids : List String) (k : String) (job : Job V)
      → q.pending ≡ ids
      → IsValid q
      → lookup k q.jobs ≡ some job
      → ends job.status ≡ true
      → lookup k (dequeue q).1.jobs ≡ some job
  dequeue-settled q [] k job e v f t = rw (dequeue-nil q e) f
  dequeue-settled q (id ∷ rest) k job e v f t =
      let (head, g, i, p, b, n) = head_waits q id rest v e in
      rw (dequeue_lem q id rest head e g)
        (insert-settled q id k job (start head) (some head) f t g (λ kept same. ground arith))

  fail-settled :
      (q q' : Queue V) (job kept told : Job V) (why : String) (retryable : Bool) (k : String)
      (settled : Job V)
      → Holds q job kept
      → fail q job why retryable ≡ ok (told, q')
      → lookup k q.jobs ≡ some settled
      → ends settled.status ≡ true
      → lookup k q'.jobs ≡ some settled
  fail-settled q q' job kept told why retryable k settled h e f t =
      let keep = λ (new : Job V).
        insert-settled q job.id k settled new (some kept) f t h.0 (λ kept' same. ground arith) in
      elim (Bool-cases (leb kept.max_attempts kept.attempts || not retryable)) [
        | inl spent ↦
            rw
              (let p : q' ≡ bury q job.id (record kept { status = failed; error = some why }) =
                  cc (fail_lem q job kept why retryable h.0, spent) in
                p)
              (keep _)
        | inr left ↦
            rw
              (let p : q' ≡ requeue q job.id (record kept { status = pending; error = some why }) =
                  cc (fail_lem q job kept why retryable h.0, left) in
                p)
              (keep _)
      ]

module _ {V T : Type 0} (json : Json V T) where
  enqueue-settled :
      (q q' : Queue V) (id name : String) (payload : Option V) (budget : ℕ) (job : Job V)
      (k : String) (settled : Job V)
      → lookup id q.jobs ≡ none
      → enqueue json id q name payload budget ≡ ok (job, q')
      → lookup k q.jobs ≡ some settled
      → ends settled.status ≡ true
      → lookup k q'.jobs ≡ some settled
  unfolding enqueue add
  enqueue-settled q q' id name payload budget job k settled fresh e f t =
      elim (Result-cases (build_job json id name payload budget)) [
        | inl (g, p) ↦ absurd (ground arith)
        | inr (built, p) ↦
            let i = (build_job_fields json id name payload budget built p).1 in
            rw (let p : q' ≡ add q built = ground arith in p) (
              insert-settled q built.id k settled built none f t (rw i fresh)
                (λ kept same. absurd (cc)))
      ]

  -- In a valid queue a job that has succeeded or been dead-lettered is kept unchanged by `enqueue` under
  -- an identifier that is not stored, by `dequeue`, and by `complete` or `fail` for a job that is stored
  -- as running, so for another one.
  pub Step-settled :
      {q q' : Queue V} (k : String) (job : Job V)
      → Step json q q'
      → IsValid q
      → lookup k q.jobs ≡ some job
      → terminal job ≡ true
      → lookup k q'.jobs ≡ some job
  unfolding terminal
  Step-settled {q} {q'} k job (enqueued id name payload budget new fresh e) v f t =
      enqueue-settled q q' id name payload budget new k job fresh e f t
  Step-settled {q} {q'} k job (dequeued taken e) v f t =
      rw (let p : q' ≡ (dequeue q).1 = cc in p) (dequeue-settled q q.pending k job refl v f t)
  Step-settled {q} {q'} k job (completed held kept done h e) v f t =
      rw
        (let p : q' ≡ record q {
          jobs = insert held.id (record kept { status = succeeded; error = none }) q.jobs;
        } =
            cc (complete_lem q held kept h.0) in
          p)
        (insert-settled q held.id k job _ (some kept) f t h.0 (λ kept' same. ground arith))
  Step-settled {q} {q'} k job (ended held kept told why retryable h e) v f t =
      fail-settled q q' held kept told why retryable k job h e f t

module _ {V : Type 0} where
  -- What the dead-letter list of a queue is: for each identifier in order the job that is stored.
  abbrev pub Listed : Queue V → List String → List (Job V) → Type 0
  Listed q [] [] = Unit
  Listed q [] (_ ∷ _) = ⊥
  Listed q (_ ∷ _) [] = ⊥
  Listed q (id ∷ ids) (job ∷ jobs) =
      (lookup id q.jobs ≡ some job) × (job.status ≡ failed) × Listed q ids jobs

  -- Each of these identifiers occurs in the dead-letter list.
  dead-Listed :
      (q : Queue V) (ids : List String)
      → IsValid q
      → ((id : String) → count id ids ≤ count id q.dead)
      → (jobs : List (Job V)) × (dead_lettered_from q.jobs ids ≡ some jobs) × Listed q ids jobs
  unfolding dead_lettered_from
  dead-Listed q [] v h = ([], refl, tt)
  dead-Listed q (id ∷ ids) v h =
      let (jobs, e, l) = dead-Listed q ids v (λ k. ground (arith, h k)) in
      elim (Option-cases (lookup id q.jobs)) [
        | inl f ↦ absurd (ground (arith, h id, v.dead_once id, ==_iff id id))
        | inr (job, f) ↦ (
          job ∷ jobs,
          rw (f, dead_lettered_from) (rw (e, dead_lettered_from)),
          (f, ground (arith, h id, v.dead_once id, ==_iff id id), l),
        )
      ]

  -- In a valid queue reading the dead-letter list never fails on a missing key; it returns, in
  -- order, the stored job of each identifier, and all of them are failed.
  pub dead_lettered-Listed :
      (q : Queue V)
      → IsValid q
      → (jobs : List (Job V)) × (dead_lettered q ≡ some jobs) × Listed q q.dead jobs
  unfolding dead_lettered
  dead_lettered-Listed q v = dead-Listed q q.dead v (λ id. omega arith)
