-- ===== src/Jobs/Memory/Invariant.antt =====
-- The invariant of the in-memory queue, and that the four methods that write keep it.
use nexa_assist.Common.{
  ℕ, ◌≤◌, ◌<◌, String, ◌≡◌, refl, Option, none, some, List, [], ◌∷◌, arith, inl, inr, Option-cases,
  count, count-append, string_key, ==_iff,
}
use nexa_assist.Dict.{lookup, insert, lookup-insert}
use nexa_assist.Jobs.Base.{Job, JobStatus, pending, running, succeeded, failed}
use nexa_assist.Jobs.Memory.{Queue, empty, add, start, dequeue, dequeue_from, requeue, bury}

-- A waiting job has an attempt left; any other has used at least one; none exceeds its budget.
abbrev pub InBudget : JobStatus → ℕ → ℕ → Type 0
InBudget pending attempts budget = attempts < budget
InBudget _ attempts budget = (0 < attempts) × (attempts ≤ budget)

module _ {V : Type 0} where
  -- How often the identifier of a stored job stands among the pending ones, and among the dead.
  abbrev pub waiting : Option (Job V) → ℕ
  waiting none = 0
  waiting (some job) = elim job.status [ pending ↦ 1 | _ ↦ 0 ]

  abbrev pub buried : Option (Job V) → ℕ
  buried none = 0
  buried (some job) = elim job.status [ failed ↦ 1 | _ ↦ 0 ]

  abbrev pub IsFine : String → Option (Job V) → Type 0
  IsFine id none = Unit
  IsFine id (some job) = (job.id ≡ id) × InBudget job.status job.attempts job.max_attempts

  pub record IsValid (q : Queue V) : Type 0 where
    pub queued : (id : String) → count id q.pending ≡ waiting (lookup id q.jobs)
    pub dead_once : (id : String) → count id q.dead ≡ buried (lookup id q.jobs)
    pub fine : (id : String) → IsFine id (lookup id q.jobs)

  pub empty-IsValid : IsValid empty
  unfolding lookup
  empty-IsValid = record { queued = λ id. refl; dead_once = λ id. refl; fine = λ id. tt }

  -- A fresh pending job with a budget can be added.
  pub add-IsValid :
      (q : Queue V) (job : Job V)
      → IsValid q
      → lookup job.id q.jobs ≡ none
      → job.status ≡ pending
      → job.attempts < job.max_attempts
      → IsValid (add q job)
  unfolding add
  add-IsValid q job v fresh p b = record {
    queued = λ id. ground (
      arith,
      v.queued id,
      v.queued job.id,
      count-append id q.pending (job.id ∷ []),
      lookup-insert job.id id job q.jobs,
      ==_iff job.id id,
    );
    dead_once = λ id. ground (
      arith,
      v.dead_once id,
      v.dead_once job.id,
      lookup-insert job.id id job q.jobs,
      ==_iff job.id id,
    );
    fine = λ id. ground (arith, v.fine id, lookup-insert job.id id job q.jobs, ==_iff job.id id);
  }

  -- In a valid queue the head of the pending identifiers has a job, and it is waiting.
  pub head_waits :
      (q : Queue V) (id : String) (rest : List String)
      → IsValid q
      → q.pending ≡ id ∷ rest
      → (job : Job V) × (lookup id q.jobs ≡ some job)
        × (job.id ≡ id)
        × (job.status ≡ pending)
        × (job.attempts < job.max_attempts)
        × (count id rest ≡ 0)
  head_waits q id rest v e = elim (Option-cases (lookup id q.jobs)) [
    | inl f ↦ absurd (ground (arith, v.queued id, ==_iff id id))
    | inr (job, f) ↦ (
      job,
      f,
      ground (arith, v.fine id),
      ground (arith, v.queued id, ==_iff id id),
      ground (arith, v.queued id, ==_iff id id, v.fine id),
      ground (arith, v.queued id, ==_iff id id),
    )
  ]

  -- The queue once the job at the head is taken.
  abbrev pub taken : Queue V → String → List String → Job V → Queue V
  taken q id rest job = record q { pending = rest; jobs = insert id (start job) q.jobs }

  pub dequeue_lem :
      (q : Queue V) (id : String) (rest : List String) (job : Job V)
      → q.pending ≡ id ∷ rest
      → lookup id q.jobs ≡ some job
      → dequeue q ≡ (some (start job), taken q id rest job)
  unfolding dequeue
  dequeue_lem q id rest job e f = rw (e, dequeue_from) (rw (f, dequeue_from))

  pub taken-IsValid :
      (q : Queue V) (id : String) (rest : List String) (job : Job V)
      → IsValid q
      → q.pending ≡ id ∷ rest
      → lookup id q.jobs ≡ some job
      → job.id ≡ id
      → IsValid (taken q id rest job)
  taken-IsValid q id rest job v e f g = record {
    queued = λ k.
        ground (arith, v.queued k, v.fine k, lookup-insert id k (start job) q.jobs, ==_iff id k);
    dead_once = λ k. ground (
      arith,
      v.queued k,
      v.dead_once k,
      v.fine k,
      lookup-insert id k (start job) q.jobs,
      ==_iff id k,
    );
    fine = λ k.
        ground (arith, v.queued k, v.fine k, lookup-insert id k (start job) q.jobs, ==_iff id k);
  }

  module _ (q : Queue V) (id : String) (kept : Job V) (v : IsValid q) where
    -- A running job that is written back as succeeded, buried or requeued.
    pub succeed-IsValid :
        lookup id q.jobs ≡ some kept
        → kept.status ≡ running
        → IsValid (record q {
          jobs = insert id (record kept { status = succeeded; error = none }) q.jobs;
        })
    succeed-IsValid f r =
        let done = record kept { status = succeeded; error = none } in
        record {
          queued = λ k. ground (arith, v.queued k, lookup-insert id k done q.jobs, ==_iff id k);
          dead_once =
              λ k. ground (arith, v.dead_once k, lookup-insert id k done q.jobs, ==_iff id k);
          fine = λ k. ground (arith, v.fine k, lookup-insert id k done q.jobs, ==_iff id k);
        }

    pub bury-IsValid :
        (why : Option String)
        → lookup id q.jobs ≡ some kept
        → kept.status ≡ running
        → IsValid (bury q id (record kept { status = failed; error = why }))
    bury-IsValid why f r =
        let gone = record kept { status = failed; error = why } in
        record {
          queued = λ k. ground (arith, v.queued k, lookup-insert id k gone q.jobs, ==_iff id k);
          dead_once = λ k. ground (
            arith,
            v.dead_once k,
            count-append k q.dead (id ∷ []),
            lookup-insert id k gone q.jobs,
            ==_iff id k,
          );
          fine = λ k. ground (arith, v.fine k, lookup-insert id k gone q.jobs, ==_iff id k);
        }

    pub requeue-IsValid :
        (why : Option String)
        → lookup id q.jobs ≡ some kept
        → kept.status ≡ running
        → kept.attempts < kept.max_attempts
        → IsValid (requeue q id (record kept { status = pending; error = why }))
    requeue-IsValid why f r b =
        let retry = record kept { status = pending; error = why } in
        record {
          queued = λ k. ground (
            arith,
            v.queued k,
            count-append k q.pending (id ∷ []),
            lookup-insert id k retry q.jobs,
            ==_iff id k,
          );
          dead_once =
              λ k. ground (arith, v.dead_once k, lookup-insert id k retry q.jobs, ==_iff id k);
          fine = λ k. ground (arith, v.fine k, lookup-insert id k retry q.jobs, ==_iff id k);
        }
