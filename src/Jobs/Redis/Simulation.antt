-- ===== src/Jobs/Redis/Simulation.antt =====
-- Each method of the queue on a server does what its namesake in memory does, unless a command of the
-- server fails.
use nexa_assist.Common.{
  ℕ, String, ◌≡◌, refl, ap, sym, ◌∙◌, ◌⊎◌, Bool, true, not, ◌||◌, Option, none, some, List, [], ◌∷◌,
  Result, ok, err, string_key, arith, Bool-cases, Option-cases, Result-cases, List-cases, inl, inr,
  All, is_some,
}
use nexa_assist.Dict.{lookup, insert}
use nexa_assist.Jobs.Base.{
  Job, JobFault, job_not_found, pending, succeeded, failed, Json, build_job, exhausted,
}
use nexa_assist.Jobs.Memory
use nexa_assist.Jobs.Memory.{Queue, add, start, stored, requeue, bury}
use nexa_assist.Jobs.Redis
use nexa_assist.Jobs.Redis.{
  Store, Command, set, rpush, lrem, after, SameStore, Server, RedisFault, unavailable, fault,
  guarded, lifted, pending_key, processing_key, dead_key, job_key, get_job, take_moved,
  bury_commands, retry_commands, settle,
}
use nexa_assist.Jobs.Redis.Refinement.{
  Refines, read, SameStore-Refines, add-Refines, requeue-Refines, bury-Refines, finish-Refines,
  moved-Refines, write-Refines,
}

module _ {X S V : Type 0} (server : Server X S) (parse : X → Option (Job V)) (ns : String) where
  -- A command of the server fails in this state, or in the one that moving an entry leaves.
  pub data Fails : S → Type 0 where
    no_get : {s : S} (k : String) → server.get s k ≡ none → Fails s
    no_execute : {s : S} (commands : List (Command X)) → server.execute s commands ≡ none → Fails s
    no_lmove : {s : S} (from to : String) → server.lmove s from to ≡ none → Fails s
    after_lmove :
        {s : S} (from to : String) (r : Option String) (s' : S)
        → server.lmove s from to ≡ some (r, s')
        → Fails s'
        → Fails s

  -- A command fails and the call is given up as unavailable, or the call ends as the one in memory
  -- does: with the same error, or with the same result and a server that still stands for the queue
  -- in memory.
  pub data Agrees {A : Type 0} (s : S) (r : Result RedisFault (A × S))
      (m : Result JobFault (A × Queue V)) : Type 0 where
    down : Fails s → r ≡ err unavailable → Agrees s r m
    refused : (e : JobFault) → r ≡ err (fault e) → m ≡ err e → Agrees s r m
    done :
        (a : A) (s' : S) (q' : Queue V)
        → r ≡ ok (a, s')
        → m ≡ ok (a, q')
        → Refines parse ns (server.contents s') q'
        → Agrees s r m

module _ {X S V T : Type 0} (server : Server X S) (json : Json V T) (dump : Job V → X)
    (parse : X → Option (Job V)) (parse-dump : (job : Job V) → parse (dump job) ≡ some job)
    (ns : String) where
  -- What a transaction leaves stands for the queue that its commands' effect stands for.
  execute-Refines :
      (s s' : S) (commands : List (Command X)) (q' : Queue V)
      → server.execute s commands ≡ some s'
      → Refines parse ns (after commands (server.contents s)) q'
      → Refines parse ns (server.contents s') q'
  execute-Refines s s' commands q' e r =
      SameStore-Refines dump parse parse-dump ns _ _ q' (server.execute_law s s' commands e) r

  -- Three ways to read a job.
  get_job_lem :
      (s : S) (q : Queue V) (id : String)
      → Refines parse ns (server.contents s) q
      → (Fails server parse ns s × (get_job server json dump parse ns s id ≡ err unavailable))
        ⊎ (((get_job server json dump parse ns s id ≡ err (fault job_not_found))
              × (stored q id ≡ err job_not_found))
            ⊎ ((job : Job V) × (get_job server json dump parse ns s id ≡ ok job)
                × (stored q id ≡ ok job)
                × (job.id ≡ id)))
  unfolding get_job stored
  get_job_lem s q id r = elim (Option-cases (server.get s (job_key ns id))) [
    | inl out ↦ inl (no_get (job_key ns id) out, rw (out) refl)
    | inr (raw, got) ↦
        let held : read parse raw ≡ lookup id q.jobs =
          ap (read parse) (server.get_law s (job_key ns id) raw got) ∙ r.same_jobs id in
        elim (Option-cases raw) [
          | inl none_there ↦
              let unknown : lookup id q.jobs ≡ none = sym held ∙ ap (read parse) none_there in
              inr (inl (rw (got) (rw (none_there) refl), rw (unknown, stored) refl))
          | inr (text, there) ↦
              let parsed : parse text ≡ lookup id q.jobs = sym (ap (read parse) there) ∙ held in
              elim (Option-cases (parse text)) [
                | inl broken ↦ inr (
                    inl (
                      rw (got) (rw (there) (rw (broken) refl)),
                      rw (sym parsed ∙ broken, stored) refl,
                    ))
                | inr (job, good) ↦ inr (
                    inr (
                      job,
                      rw (got) (rw (there) (rw (good) refl)),
                      rw (sym parsed ∙ good, stored) refl,
                      r.own_name id job (sym parsed ∙ good),
                    ))
              ]
        ]
  ]

  -- `enqueue` on a server that stands for a queue is given up where a command fails, or it refuses with the
  -- error of `enqueue` in memory, or it returns the same job and the server stands for the queue
  -- that `enqueue` in memory leaves.
  pub enqueue-Agrees :
      (new_id name : String) (payload : Option V) (max_attempts : ℕ) (s : S) (q : Queue V)
      → Refines parse ns (server.contents s) q
      → Agrees server parse ns s
          (Redis.enqueue server json dump parse ns new_id s name payload max_attempts)
          (Memory.enqueue json new_id q name payload max_attempts)
  unfolding Redis.enqueue Memory.enqueue
  enqueue-Agrees new_id name payload max_attempts s q r =
      elim (Result-cases (build_job json new_id name payload max_attempts)) [
        | inl (e, bad) ↦ refused e (rw (bad) refl) (rw (bad) refl)
        | inr (job, good) ↦
            let commands =
              set (job_key ns job.id) (dump job) ∷ rpush (pending_key ns) job.id ∷ [] in
            elim (Option-cases (server.execute s commands)) [
              | inl out ↦ down (no_execute commands out) (rw (good) (rw (out) refl))
              | inr (s', sent) ↦
                  done job s' (add q job) (rw (good) (rw (sent) refl)) (rw (good) refl) (
                    execute-Refines s s' commands (add q job) sent
                      (add-Refines dump parse parse-dump ns (server.contents s) q job r))
            ]
      ]

  -- The same of `complete`.
  pub complete-Agrees :
      (s : S) (q : Queue V) (job : Job V)
      → Refines parse ns (server.contents s) q
      → Agrees server parse ns s
          (Redis.complete server json dump parse ns s job)
          (Memory.complete q job)
  unfolding Redis.complete Memory.complete
  complete-Agrees s q job r = elim (get_job_lem s q job.id r) [
    | inl (fails, out) ↦ down fails (rw (out) refl)
    | inr (inl (bad, unknown)) ↦ refused job_not_found (rw (bad) refl) (rw (unknown) refl)
    | inr (inr (kept, good, known, same)) ↦
        let finished : Job V = record kept { status = succeeded; error = none } in
        let commands =
          set (job_key ns kept.id) (dump finished) ∷ lrem (processing_key ns) kept.id ∷ [] in
        let q' : Queue V = record q { jobs = insert kept.id finished q.jobs } in
        elim (Option-cases (server.execute s commands)) [
          | inl out ↦ down (no_execute commands out) (rw (good) (rw (out) refl))
          | inr (s', sent) ↦
              done finished s' q' (rw (good) (rw (sent) refl)) (rw (known) (rw (same) refl)) (
                execute-Refines s s' commands q' sent
                  (finish-Refines dump parse parse-dump ns (server.contents s) q finished r))
        ]
  ]

  -- `fail` on a server that stands for a queue is given up as unavailable only where a command of the
  -- server fails; otherwise it refuses with the error of `fail` in memory, or it returns the same job, to be retried or dead-lettered, and the server
  -- stands for the queue that `fail` in memory leaves.
  pub fail-Agrees :
      (s : S) (q : Queue V) (job : Job V) (error : String) (retryable : Bool)
      → Refines parse ns (server.contents s) q
      → Agrees server parse ns s
          (Redis.fail server json dump parse ns s job error retryable)
          (Memory.fail q job error retryable)
  unfolding Redis.fail Memory.fail
  fail-Agrees s q job error retryable r = elim (get_job_lem s q job.id r) [
    | inl (fails, out) ↦ down fails (rw (out) refl)
    | inr (inl (bad, unknown)) ↦ refused job_not_found (rw (bad) refl) (rw (unknown) refl)
    | inr (inr (kept, good, known, same)) ↦
        let gone : Job V = record kept { status = failed; error = some error } in
        let retry : Job V = record kept { status = pending; error = some error } in
        elim (Bool-cases (exhausted kept || not retryable)) [
          | inl over ↦
              elim (Option-cases
                (server.execute s (bury_commands server json dump parse ns gone))) [
                  | inl out ↦
                      down (no_execute (bury_commands server json dump parse ns gone) out)
                        (rw (good) (rw (over) (rw (out) refl)))
                  | inr (s', sent) ↦
                      done gone s' (bury q kept.id gone) (rw (good) (rw (over) (rw (sent) refl)))
                        (rw (known) (rw (over) (rw (same) refl)))
                        (execute-Refines s s' (bury_commands server json dump parse ns gone)
                          (bury q kept.id gone) sent
                          (bury-Refines dump parse parse-dump ns (server.contents s) q gone r))
                ]
          | inr again ↦
              elim (Option-cases
                (server.execute s (retry_commands server json dump parse ns retry))) [
                  | inl out ↦
                      down (no_execute (retry_commands server json dump parse ns retry) out)
                        (rw (good) (rw (again) (rw (out) refl)))
                  | inr (s', sent) ↦
                      done retry s' (requeue q kept.id retry)
                        (rw (good) (rw (again) (rw (sent) refl)))
                        (rw (known) (rw (again) (rw (same) refl)))
                        (execute-Refines s s' (retry_commands server json dump parse ns retry)
                          (requeue q kept.id retry) sent
                          (requeue-Refines dump parse parse-dump ns (server.contents s) q retry r))
                ]
        ]
  ]

  stored-found :
      (q : Queue V) (id : String) (job : Job V) → lookup id q.jobs ≡ some job → stored q id ≡ ok job
  unfolding stored
  stored-found q id job held = rw (held, stored) refl

  -- The rest of `dequeue`, once the first identifier was moved.
  take_moved-Agrees :
      (s : S) (q : Queue V) (id : String) (job : Job V)
      → Refines parse ns (server.contents s) q
      → lookup id q.jobs ≡ some job
      → Agrees server parse ns s
          (take_moved server json dump parse ns (some id) s)
          (ok (some (start job), record q { jobs = insert id (start job) q.jobs }))
  unfolding take_moved
  take_moved-Agrees s q id job r held = elim (get_job_lem s q id r) [
    | inl (fails, out) ↦ down fails (rw (out) refl)
    | inr (inl (bad, unknown)) ↦ let found = stored-found q id job held in absurd (ground arith)
    | inr (inr (kept, good, known, same)) ↦
        let found = stored-found q id job held in
        let is_job : kept ≡ job = ground arith in
        let commands = set (job_key ns (start kept).id) (dump (start kept)) ∷ [] in
        let q' : Queue V = record q { jobs = insert kept.id (start kept) q.jobs } in
        elim (Option-cases (server.execute s commands)) [
          | inl out ↦ down (no_execute commands out) (rw (good) (rw (out) refl))
          | inr (s', sent) ↦
              done (some (start kept)) s' q' (rw (good) (rw (sent) refl))
                (rw (← is_job) (rw (same) refl))
                (execute-Refines s s' commands q' sent
                  (write-Refines dump parse parse-dump ns (server.contents s) q (start kept) r))
        ]
  ]

  -- What agrees after an entry was moved agrees before.
  later :
      {A : Type 0} {r : Result RedisFault (A × S)} {m : Result JobFault (A × Queue V)} (s s' : S)
      (moved_id : Option String)
      → server.lmove s (pending_key ns) (processing_key ns) ≡ some (moved_id, s')
      → Agrees server parse ns s' r m
      → Agrees server parse ns s r m
  later s s' moved_id went (down fails e) =
      down (after_lmove (pending_key ns) (processing_key ns) moved_id s' went fails) e
  later s s' moved_id went (refused f e k) = refused f e k
  later s s' moved_id went (done a t q e k r) = done a t q e k r

  -- With every queued job stored, as in any valid queue, `dequeue` on a server that stands for the
  -- queue is given up as unavailable only where a command of the server fails; otherwise it returns what `dequeue` in memory returns and the server
  -- stands for the queue that this leaves.
  pub dequeue-Agrees :
      (s : S) (q : Queue V)
      → Refines parse ns (server.contents s) q
      → All (λ id. is_some (lookup id q.jobs) ≡ true) q.pending
      → Agrees server parse ns s (Redis.dequeue server json dump parse ns s) (ok (Memory.dequeue q))
  unfolding Redis.dequeue Memory.dequeue take_moved
  dequeue-Agrees s q r h =
      elim (Option-cases (server.lmove s (pending_key ns) (processing_key ns))) [
        | inl out ↦ down (no_lmove (pending_key ns) (processing_key ns) out) (rw (out) refl)
        | inr ((moved_id, s'), went) ↦ elim (List-cases q.pending) [
          | inl nothing ↦
              let (is_none, same) =
                server.lmove_empty s s' (pending_key ns) (processing_key ns) moved_id
                  (r.same_pending ∙ nothing) went in
              let q' : Queue V = record q { pending = [] } in
              let r' : Refines parse ns (server.contents s) q' = record {
                same_pending = r.same_pending ∙ nothing;
                same_dead = r.same_dead;
                same_jobs = r.same_jobs;
                own_name = r.own_name;
              } in
              done none s' q' (rw (went) (rw (is_none) refl)) (rw (nothing) refl)
                (SameStore-Refines dump parse parse-dump ns _ _ q' same r')
          | inr (id, rest, some_left) ↦
              let all_stored : All (λ i. is_some (lookup i q.jobs) ≡ true) (id ∷ rest) =
                rw (some_left) at h in
              let (is_id, same) =
                server.lmove_first s s' (pending_key ns) (processing_key ns) id rest moved_id
                  (r.same_pending ∙ some_left) went in
              let q' : Queue V = record q { pending = rest } in
              let r' =
                SameStore-Refines dump parse parse-dump ns _ _ q' same
                  (moved-Refines dump parse parse-dump ns (server.contents s) q id rest r) in
              elim (Option-cases (lookup id q.jobs)) [
                | inl lost ↦ absurd (ground (arith, all_stored.0))
                | inr (job, held) ↦
                    let rest_of =
                      later s s' moved_id went (take_moved-Agrees s' q' id job r' held) in
                    rw (went) (rw (is_id) (rw (some_left) (rw (held, Memory.dequeue_from) rest_of)))
              ]
        ]
      ]
