-- ===== src/Jobs/Memory/Steps.antt =====
-- The in-memory queue under any sequence of calls by workers that settle only jobs they hold.
use nexa_assist.Common.{
  ℕ, String, ◌≡◌, refl, Bool, not, Option, none, some, List, [], ◌∷◌, arith, inl, inr, Result-cases,
  ok, string_key, leb, Bool-cases, if◌then◌else◌, ◌||◌,
}
use nexa_assist.Dict.{lookup, insert}
use nexa_assist.Jobs.Base.{Job, Json, pending, running, succeeded, failed, build_job}
use nexa_assist.Jobs.Base.Laws.{build_job_fields}
use nexa_assist.Jobs.Memory.{
  Queue, empty, stored, add, enqueue, dequeue, dequeue_from, complete, fail, requeue, bury,
}
use nexa_assist.Jobs.Memory.Invariant.{
  IsValid, empty-IsValid, add-IsValid, head_waits, taken, dequeue_lem, taken-IsValid,
  succeed-IsValid, bury-IsValid, requeue-IsValid,
}

module _ {V : Type 0} where
  -- `job` is a copy of a job that the queue has handed out and that is not settled.
  abbrev pub Holds : Queue V → Job V → Job V → Type 0
  Holds q job kept = (lookup job.id q.jobs ≡ some kept) × (kept.status ≡ running)

  pub dequeue-nil : (q : Queue V) → q.pending ≡ [] → dequeue q ≡ (none, record q { pending = [] })
  unfolding dequeue
  dequeue-nil q e = rw (e, dequeue_from)

  pub dequeue-IsValid :
      (q : Queue V) (ids : List String) → q.pending ≡ ids → IsValid q → IsValid (dequeue q).1
  dequeue-IsValid q [] e v = rw (dequeue-nil q e) (rw e at v)
  dequeue-IsValid q (id ∷ rest) e v =
      let (job, f, g, p, b, n) = head_waits q id rest v e in
      rw (dequeue_lem q id rest job e f) (taken-IsValid q id rest job v e f g)

  pub complete_lem :
      (q : Queue V) (job kept : Job V)
      → lookup job.id q.jobs ≡ some kept
      → let done = record kept { status = succeeded; error = none } in
        complete q job ≡ ok (done, record q { jobs = insert job.id done q.jobs })
  unfolding complete
  complete_lem q job kept f = rw (f, stored)

  -- A failed attempt goes back to the end of the queue while the error allows another attempt and
  -- the budget has one left; otherwise it is dead-lettered. The caller sees which by the status.
  pub fail_lem :
      (q : Queue V) (job kept : Job V) (why : String) (retryable : Bool)
      → lookup job.id q.jobs ≡ some kept
      → fail q job why retryable ≡ (
          let gone = record kept { status = failed; error = some why } in
          let retry = record kept { status = pending; error = some why } in
          ok (
            if leb kept.max_attempts kept.attempts || not retryable
            then (gone, bury q job.id gone)
            else (retry, requeue q job.id retry)))
  unfolding fail
  fail_lem q job kept why retryable f = rw (f, stored)

  pub fail-IsValid :
      (q q' : Queue V) (job kept told : Job V) (why : String) (retryable : Bool)
      → IsValid q
      → Holds q job kept
      → fail q job why retryable ≡ ok (told, q')
      → IsValid q'
  fail-IsValid q q' job kept told why retryable v h e =
      elim (Bool-cases (leb kept.max_attempts kept.attempts || not retryable)) [
        | inl spent ↦
            rw
              (let p : q' ≡ bury q job.id (record kept { status = failed; error = some why }) =
                  cc (fail_lem q job kept why retryable h.0, spent) in
                p)
              (bury-IsValid q job.id kept v (some why) h.0 h.1)
        | inr left ↦
            rw
              (let p : q' ≡ requeue q job.id (record kept { status = pending; error = some why }) =
                  cc (fail_lem q job kept why retryable h.0, left) in
                p)
              (requeue-IsValid q job.id kept v (some why) h.0 h.1 (ground arith))
      ]

  -- The calls that change a queue. A worker settles only jobs that it holds, and a new identifier
  -- is one that no stored job has.
  pub data Step {T : Type 0} (json : Json V T) (q q' : Queue V) : Type 0 where
    enqueued :
        (id name : String) (payload : Option V) (budget : ℕ) (job : Job V)
        → lookup id q.jobs ≡ none
        → enqueue json id q name payload budget ≡ ok (job, q')
        → Step json q q'
    dequeued : (taken : Option (Job V)) → dequeue q ≡ (taken, q') → Step json q q'
    completed :
        (job kept done : Job V) → Holds q job kept → complete q job ≡ ok (done, q') → Step json q q'
    ended :
        (job kept told : Job V) (why : String) (retryable : Bool)
        → Holds q job kept
        → fail q job why retryable ≡ ok (told, q')
        → Step json q q'

  pub data Reach {T : Type 0} (json : Json V T) (q : Queue V) : Queue V → Type 0 where
    here : Reach json q q
    next : {r s : Queue V} → Reach json q r → Step json r s → Reach json q s

module _ {V T : Type 0} (json : Json V T) where
  enqueue-IsValid :
      (q q' : Queue V) (id name : String) (payload : Option V) (budget : ℕ) (job : Job V)
      → IsValid q
      → lookup id q.jobs ≡ none
      → enqueue json id q name payload budget ≡ ok (job, q')
      → IsValid q'
  unfolding enqueue
  enqueue-IsValid q q' id name payload budget job v fresh e =
      elim (Result-cases (build_job json id name payload budget)) [
        | inl (f, p) ↦ absurd (ground arith)
        | inr (built, p) ↦
            let (b, i, s, a, x, n, y) = build_job_fields json id name payload budget built p in
            rw (let p : q' ≡ add q built = ground arith in p)
              (add-IsValid q built v (rw i fresh) s (rw a b))
      ]

  pub Step-IsValid : {q q' : Queue V} → Step json q q' → IsValid q → IsValid q'
  Step-IsValid {q} {q'} (enqueued id name payload budget job fresh e) v =
      enqueue-IsValid q q' id name payload budget job v fresh e
  Step-IsValid {q} {q'} (dequeued taken e) v =
      rw (let p : q' ≡ (dequeue q).1 = cc in p) (dequeue-IsValid q q.pending refl v)
  Step-IsValid {q} {q'} (completed job kept done h e) v =
      rw
        (let p : q' ≡ record q {
          jobs = insert job.id (record kept { status = succeeded; error = none }) q.jobs;
        } =
            cc (complete_lem q job kept h.0) in
          p)
        (succeed-IsValid q job.id kept v h.0 h.1)
  Step-IsValid {q} {q'} (ended job kept told why retryable h e) v =
      fail-IsValid q q' job kept told why retryable v h e

  -- After any sequence, from the empty queue, of `enqueue` under an identifier that is not stored, of
  -- `dequeue`, and of `complete` or `fail` for a job that is stored as running, each identifier is queued exactly as often as
  -- its job is pending, dead-lettered exactly as often as it is failed, stored under its own name,
  -- and no job has had more attempts than its budget; a pending one has an attempt left.
  pub Reach-IsValid : {q : Queue V} → Reach json empty q → IsValid q
  Reach-IsValid here = empty-IsValid
  Reach-IsValid (next r s) = Step-IsValid s (Reach-IsValid r)
