-- ===== src/Jobs/Redis/Refinement.antt =====
-- The queue on a server does what the queue in memory does, unless the server is unavailable.
use nexa_assist.Common.{
  ℕ, zero, suc, nat_eq, String, ◌≡◌, ◌≢◌, refl, ap, ◌∙◌, false, Option, none, some, List, [], ◌∷◌,
  string_key, ◌==◌, ==_iff, if◌then◌else◌, arith,
}
use nexa_assist.Names.{codes, ◌+++◌, +++_cancel}
use nexa_assist.Dict.{Dict, lookup, insert, lookup-insert}
use nexa_assist.Jobs.Base.{Job}
use nexa_assist.Jobs.Memory.{Queue, add, requeue, bury}
use nexa_assist.Jobs.Redis.{
  Store, set, rpush, lrem, after, moved, SameStore, pending_key, processing_key, dead_key, job_key,
}

-- The character at a place, 0 beyond the end.
abbrev nth : ℕ → List ℕ → ℕ
nth n [] = 0
nth zero (c ∷ cs) = c
nth (suc n) (c ∷ cs) = nth n cs

differ : (n : ℕ) (s t : String) → nat_eq (nth n (codes s)) (nth n (codes t)) ≡ false → s ≢ t
differ n s t h e = ground (arith, ap (λ x. nth n (codes x)) e)

-- The keys of one namespace are all different.
apart : (ns s t : String) → s ≢ t → (ns +++ s == ns +++ t) ≡ false
apart ns s t h = ground (arith, ==_iff (ns +++ s) (ns +++ t), +++_cancel ns s t)

job-pending : (ns id : String) → (job_key ns id == pending_key ns) ≡ false
unfolding job_key pending_key ◌+++◌
job-pending ns id = apart ns (":job:" +++ id) ":pending" (differ 1 (":job:" +++ id) ":pending" refl)

job-dead : (ns id : String) → (job_key ns id == dead_key ns) ≡ false
unfolding job_key dead_key ◌+++◌
job-dead ns id = apart ns (":job:" +++ id) ":dead" (differ 1 (":job:" +++ id) ":dead" refl)

processing-pending : (ns : String) → (processing_key ns == pending_key ns) ≡ false
unfolding processing_key pending_key
processing-pending ns = apart ns ":processing" ":pending" (differ 2 ":processing" ":pending" refl)

processing-dead : (ns : String) → (processing_key ns == dead_key ns) ≡ false
unfolding processing_key dead_key
processing-dead ns = apart ns ":processing" ":dead" (differ 1 ":processing" ":dead" refl)

pending-dead : (ns : String) → (pending_key ns == dead_key ns) ≡ false
unfolding pending_key dead_key
pending-dead ns = apart ns ":pending" ":dead" (differ 1 ":pending" ":dead" refl)

job-job : (ns a b : String) → (job_key ns a == job_key ns b) ≡ (a == b)
unfolding job_key
job-job ns a b = ground (
  arith,
  ==_iff (ns +++ (":job:" +++ a)) (ns +++ (":job:" +++ b)),
  ==_iff a b,
  +++_cancel ns (":job:" +++ a) (":job:" +++ b),
  +++_cancel ":job:" a b,
)

-- The job that a stored text stands for.
abbrev pub read : {X V : Type 0} → (X → Option (Job V)) → Option X → Option (Job V)
read parse none = none
read parse (some text) = parse text

-- What a server holds stands for a queue in memory.
pub record Refines {X V : Type 0} (parse : X → Option (Job V)) (ns : String) (c : Store X)
    (q : Queue V) : Type 0 where
  pub same_pending : c.lists (pending_key ns) ≡ q.pending
  pub same_dead : c.lists (dead_key ns) ≡ q.dead
  pub same_jobs : (id : String) → read parse (c.strings (job_key ns id)) ≡ lookup id q.jobs
  pub own_name : (id : String) (job : Job V) → lookup id q.jobs ≡ some job → job.id ≡ id

module _ {X V : Type 0} (dump : Job V → X) (parse : X → Option (Job V))
    (parse-dump : (job : Job V) → parse (dump job) ≡ some job) (ns : String) where
  pub SameStore-Refines :
      (c d : Store X) (q : Queue V) → SameStore c d → Refines parse ns d q → Refines parse ns c q
  SameStore-Refines c d q same r = record {
    same_pending = same.same_lists (pending_key ns) ∙ r.same_pending;
    same_dead = same.same_lists (dead_key ns) ∙ r.same_dead;
    same_jobs = λ id. ap (read parse) (same.same_strings (job_key ns id)) ∙ r.same_jobs id;
    own_name = r.own_name;
  }

  -- SET of a job's key is the assignment in memory.
  set-jobs :
      (strings : String → Option X) (jobs : Dict String (Job V)) (job : Job V) (id : String)
      → read parse (strings (job_key ns id)) ≡ lookup id jobs
      → read parse
          (if job_key ns job.id == job_key ns id then some (dump job) else strings (job_key ns id))
        ≡ lookup id (insert job.id job jobs)
  set-jobs strings jobs job id h =
      rw (job-job ns job.id id) (ground (arith, parse-dump job, lookup-insert job.id id job jobs))

  insert-own_name :
      (jobs : Dict String (Job V)) (new : Job V)
      → ((id : String) (job : Job V) → lookup id jobs ≡ some job → job.id ≡ id)
      → (id : String) (job : Job V) → lookup id (insert new.id new jobs) ≡ some job
      → job.id ≡ id
  insert-own_name jobs new own id job h =
      ground (arith, lookup-insert new.id id new jobs, ==_iff new.id id, own id job)

  pub add-Refines :
      (c : Store X) (q : Queue V) (job : Job V)
      → Refines parse ns c q
      → Refines parse ns
          (after (set (job_key ns job.id) (dump job) ∷ rpush (pending_key ns) job.id ∷ []) c)
          (add q job)
  unfolding add
  add-Refines c q job r = record {
    same_pending =
        ground
          (arith, job-pending ns job.id, ==_iff (pending_key ns) (pending_key ns), r.same_pending);
    same_dead = ground (arith, job-dead ns job.id, pending-dead ns, r.same_dead);
    same_jobs = λ id. set-jobs c.strings q.jobs job id (r.same_jobs id);
    own_name = insert-own_name q.jobs job r.own_name;
  }

  -- SET, LREM of the processing list and RPUSH at the end of the pending one.
  pub requeue-Refines :
      (c : Store X) (q : Queue V) (job : Job V)
      → Refines parse ns c q
      → Refines parse ns
          (after
            (set (job_key ns job.id) (dump job)
              ∷ lrem (processing_key ns) job.id
              ∷ rpush (pending_key ns) job.id
              ∷ [])
            c)
          (requeue q job.id job)
  requeue-Refines c q job r = record {
    same_pending = ground (
      arith,
      job-pending ns job.id,
      processing-pending ns,
      ==_iff (pending_key ns) (pending_key ns),
      r.same_pending,
    );
    same_dead =
        ground (arith, job-dead ns job.id, processing-dead ns, pending-dead ns, r.same_dead);
    same_jobs = λ id. set-jobs c.strings q.jobs job id (r.same_jobs id);
    own_name = insert-own_name q.jobs job r.own_name;
  }

  pub bury-Refines :
      (c : Store X) (q : Queue V) (job : Job V)
      → Refines parse ns c q
      → Refines parse ns
          (after
            (set (job_key ns job.id) (dump job)
              ∷ lrem (processing_key ns) job.id
              ∷ rpush (dead_key ns) job.id
              ∷ [])
            c)
          (bury q job.id job)
  bury-Refines c q job r = record {
    same_pending = ground (
      arith,
      job-pending ns job.id,
      processing-pending ns,
      pending-dead ns,
      ==_iff (dead_key ns) (pending_key ns),
      ==_iff (pending_key ns) (dead_key ns),
      r.same_pending,
    );
    same_dead = ground (
      arith,
      job-dead ns job.id,
      processing-dead ns,
      ==_iff (dead_key ns) (dead_key ns),
      r.same_dead,
    );
    same_jobs = λ id. set-jobs c.strings q.jobs job id (r.same_jobs id);
    own_name = insert-own_name q.jobs job r.own_name;
  }

  pub finish-Refines :
      (c : Store X) (q : Queue V) (job : Job V)
      → Refines parse ns c q
      → Refines parse ns
          (after (set (job_key ns job.id) (dump job) ∷ lrem (processing_key ns) job.id ∷ []) c)
          (record q { jobs = insert job.id job q.jobs })
  finish-Refines c q job r = record {
    same_pending = ground (arith, job-pending ns job.id, processing-pending ns, r.same_pending);
    same_dead = ground (arith, job-dead ns job.id, processing-dead ns, r.same_dead);
    same_jobs = λ id. set-jobs c.strings q.jobs job id (r.same_jobs id);
    own_name = insert-own_name q.jobs job r.own_name;
  }

  -- LMOVE of the first pending identifier.
  pub moved-Refines :
      (c : Store X) (q : Queue V) (id : String) (rest : List String)
      → Refines parse ns c q
      → Refines parse ns
          (record {
            strings = c.strings;
            lists = moved (pending_key ns) (processing_key ns) id rest c.lists;
          })
          (record q { pending = rest })
  moved-Refines c q id rest r = record {
    same_pending = ground (arith, processing-pending ns, ==_iff (pending_key ns) (pending_key ns));
    same_dead = ground (arith, processing-dead ns, pending-dead ns, r.same_dead);
    same_jobs = r.same_jobs;
    own_name = r.own_name;
  }

  -- SET of a job's key alone.
  pub write-Refines :
      (c : Store X) (q : Queue V) (job : Job V)
      → Refines parse ns c q
      → Refines parse ns
          (after (set (job_key ns job.id) (dump job) ∷ []) c)
          (record q { jobs = insert job.id job q.jobs })
  write-Refines c q job r = record {
    same_pending = ground (arith, job-pending ns job.id, r.same_pending);
    same_dead = ground (arith, job-dead ns job.id, r.same_dead);
    same_jobs = λ id. set-jobs c.strings q.jobs job id (r.same_jobs id);
    own_name = insert-own_name q.jobs job r.own_name;
  }
