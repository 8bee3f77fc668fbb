-- ===== src/Jobs/Tests.antt =====
-- Tests of the job modules, and their theorems at concrete queues.
use nexa_assist.Common.{
  ℕ, ◌≤◌, ◌≡◌, refl, true, none, some, List, [], ◌∷◌, ok, err, arith, length, leb, if◌then◌else◌,
  string_key, ==_iff,
}
use nexa_assist.Dict.{lookup, insert}
use nexa_assist.Names.{all_allowed}
use nexa_assist.Jobs
use nexa_assist.Jobs.Base.{
  Job, JobFault, Json, pending, running, succeeded, failed, validate_job_name, validate_payload,
  restored, build_job, terminal,
}
use nexa_assist.Jobs.Handlers.{Handler, Registry, finished, crashed}
use nexa_assist.Jobs.Memory.{Queue, empty, add, start, enqueue, dequeue}
use nexa_assist.Jobs.Memory.Invariant.{IsValid}
use nexa_assist.Jobs.Memory.Steps.{enqueued, dequeued, Reach, here, next, Reach-IsValid}
use nexa_assist.Jobs.Memory.Terminal.{Step-settled}
use nexa_assist.Jobs.Worker.{JobRun, Texts, drain}
use nexa_assist.Jobs.Worker.Progress.{remaining}
use nexa_assist.Jobs.Worker.Draining.{drain_empties}

-- Numbers as payloads; an odd one does not survive the round trip.
abbrev codec : Json ℕ ℕ
codec = record {
  empty = 0;
  is_mapping = λ v. true;
  dumps = λ v. some v;
  loads = λ t. some t;
  same = λ a b. leb a b;
}

abbrev ping : Job ℕ
ping = record {
  id = "a1";
  name = "ping";
  payload = 4;
  status = pending;
  attempts = 0;
  max_attempts = 2;
  error = none;
}

abbrev one : Queue ℕ
one = record { pending = "a1" ∷ []; jobs = ("a1", ping) ∷ []; dead = [] }

abbrev taken_one : Queue ℕ
taken_one = record { pending = []; jobs = ("a1", start ping) ∷ []; dead = [] }

enqueue-one : enqueue codec "a1" empty "ping" (some 4) 2 ≡ ok (ping, one)
unfolding enqueue build_job validate_job_name validate_payload restored all_allowed add insert
enqueue-one = refl

dequeue-one : dequeue one ≡ (some (start ping), taken_one)
unfolding dequeue lookup insert
dequeue-one = refl

no_budget : build_job codec "a1" "ping" (some 4) 0 ≡ err Jobs.Base.definition_error
unfolding build_job
no_budget = refl

bad_name : validate_job_name "Ping!" ≡ err Jobs.Base.definition_error
unfolding validate_job_name all_allowed
bad_name = refl

one-Reach : Reach codec empty one
unfolding lookup
one-Reach = next here (enqueued "a1" "ping" (some 4) 2 ping refl enqueue-one)

Reach-IsValid_example : IsValid taken_one
Reach-IsValid_example =
    Reach-IsValid codec (next one-Reach (dequeued (some (start ping)) dequeue-one))

one-IsValid : IsValid one
one-IsValid = Reach-IsValid codec one-Reach

abbrev lost : Job ℕ
lost = record ping { status = failed; attempts = 2; error = some "down" }

abbrev graveyard : Queue ℕ
graveyard = record { pending = []; jobs = ("a1", lost) ∷ []; dead = "a1" ∷ [] }

graveyard-IsValid : IsValid graveyard
unfolding lookup
graveyard-IsValid = record {
  queued = λ id. ground (arith, ==_iff "a1" id);
  dead_once = λ id. ground (arith, ==_iff "a1" id);
  fine = λ id. ground (arith, ==_iff "a1" id);
}

abbrev second : Queue ℕ
second = add graveyard (record ping { id = "b2"; payload = 0 })

Step-settled_example : lookup "a1" second.jobs ≡ some lost
unfolding add enqueue build_job validate_job_name validate_payload restored all_allowed lookup
    insert terminal
Step-settled_example =
    Step-settled codec "a1" lost
      (enqueued "b2" "ping" none 2 (record ping { id = "b2"; payload = 0 }) refl refl)
      graveyard-IsValid refl refl

abbrev texts : Texts
texts = record {
  no_handler = λ name. "No handler is registered.";
  too_slow = "The job did not finish within 30s.";
  invalid_payload = λ report. report;
}

-- Fails the first attempt and succeeds at the second.
abbrev flaky : Handler ℕ ℕ
flaky = record {
  name = "ping";
  declares_model = true;
  model_validate = λ v. ok v;
  run = λ job params. if leb job.attempts 1 then crashed else finished;
}

abbrev registry : Registry ℕ ℕ
registry = ("ping", flaky) ∷ []

drain_empties_example :
    (runs : List JobRun) × (q' : Queue ℕ) × (drain texts registry 100 one ≡ ok (runs, q'))
    × (q'.pending ≡ [])
    × IsValid q'
    × (length runs ≤ remaining one)
unfolding lookup
drain_empties_example = drain_empties texts registry 100 one one-IsValid (omega arith)
