-- ===== src/Jobs/Worker/Draining.antt =====
-- `run_once` and `drain` on a valid queue: they never raise, and draining ends with an empty queue.
use nexa_assist.Common.{
  ℕ, zero, suc, ◌≤◌, ◌<◌, String, ◌≡◌, refl, none, some, List, [], ◌∷◌, ok, arith, length,
  string_key,
}
use nexa_assist.Dict.{lookup}
use nexa_assist.Jobs.Base.{Job}
use nexa_assist.Jobs.Handlers.{Registry}
use nexa_assist.Jobs.Memory.{Queue}
use nexa_assist.Jobs.Memory.Invariant.{IsValid, head_waits, dequeue_lem}
use nexa_assist.Jobs.Memory.Steps.{dequeue-nil}
use nexa_assist.Jobs.Worker.{JobRun, Texts, run_once, drain}
use nexa_assist.Jobs.Worker.Progress.{remaining, Settles, dispatch-Settled}

module _ {V P : Type 0} (texts : Texts) (registry : Registry V P) where
  run_once-nil :
      (q : Queue V)
      → q.pending ≡ []
      → run_once texts registry q ≡ ok (none, record q { pending = [] })
  unfolding run_once
  run_once-nil q e = rw (dequeue-nil q e)

  -- On a valid queue with work in it `run_once` does not raise: it takes the first identifier,
  -- counts one attempt of its job, leaves a valid queue, and the attempts that the pending jobs
  -- have left have fallen. The outcome that it
  -- reports is the status that the job now has.
  pub run_once-Settles :
      (q : Queue V) (id : String) (rest : List String)
      → IsValid q
      → q.pending ≡ id ∷ rest
      → (job : Job V) × (done : JobRun) × (q' : Queue V) × (lookup id q.jobs ≡ some job)
        × (run_once texts registry q ≡ ok (some done, q'))
        × Settles q job done q'
  unfolding run_once
  run_once-Settles q id rest v e =
      let (job, f, g, p, b, n) = head_waits q id rest v e in
      let (done, q', r, s) =
        dispatch-Settled q rest job v (rw g e) (rw g f) b (rw g n) texts registry in
      (job, done, q', f, rw (dequeue_lem q job.id rest job (rw g e) (rw g f)) (rw r), s)

  drains :
      (limit : ℕ) (q : Queue V) (ids : List String)
      → q.pending ≡ ids
      → IsValid q
      → remaining q ≤ limit
      → (runs : List JobRun) × (q' : Queue V) × (drain texts registry limit q ≡ ok (runs, q'))
        × (q'.pending ≡ [])
        × IsValid q'
        × (length runs ≤ remaining q)
  unfolding drain
  drains zero q [] e v h = ([], q, refl, e, v, omega arith)
  drains zero q (id ∷ rest) e v h =
      let (job, done, q', f, r, s) = run_once-Settles q id rest v e in
      absurd (let n : remaining q' < remaining q = s.nearer in omega arith)
  drains (suc n) q [] e v h =
      ([], record q { pending = [] }, rw (run_once-nil q e, drain), refl, rw e at v, omega arith)
  drains (suc n) q (id ∷ rest) e v h =
      let (job, done, q', f, r, s) = run_once-Settles q id rest v e in
      let less : remaining q' < remaining q = s.nearer in
      let (runs, q'', d, p, v', k) = drains n q' q'.pending refl s.valid (omega arith) in
      (done ∷ runs, q'', rw (r, drain) (rw (d, drain)), p, v', omega arith)

  -- However many jobs are queued, a drain whose limit covers the attempts that they have left ends
  -- with an empty, valid queue and has made no more runs than that.
  pub drain_empties :
      (limit : ℕ) (q : Queue V)
      → IsValid q
      → remaining q ≤ limit
      → (runs : List JobRun) × (q' : Queue V) × (drain texts registry limit q ≡ ok (runs, q'))
        × (q'.pending ≡ [])
        × IsValid q'
        × (length runs ≤ remaining q)
  drain_empties limit q = drains limit q q.pending refl
