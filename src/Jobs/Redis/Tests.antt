-- ===== src/Jobs/Redis/Tests.antt =====
-- A server that never fails, and the theorems on the queue that stands on it. Stored texts are the
-- jobs themselves.
use nexa_assist.Common.{
  ℕ, String, ◌≡◌, refl, ap, true, Option, none, some, List, [], ◌∷◌, ok, arith, length, leb, All,
  is_some, string_key,
}
use nexa_assist.Dict.{lookup, insert}
use nexa_assist.Jobs.Base.{Job, Json, pending}
use nexa_assist.Jobs.Memory
use nexa_assist.Jobs.Memory.{Queue, empty, add}
use nexa_assist.Jobs.Redis
use nexa_assist.Jobs.Redis.{Store, Command, after, moved, SameStore, Server, pending_key, job_key}
use nexa_assist.Jobs.Redis.Refinement.{Refines, add-Refines}
use nexa_assist.Jobs.Redis.Simulation.{Agrees, dequeue-Agrees, fail-Agrees}

abbrev Contents : Type 0
Contents = Store (Job ℕ)

abbrev move_at : Contents → String → String → List String → Option String × Contents
move_at c from to [] = (none, c)
move_at c from to (x ∷ rest) =
    (some x, record { strings = c.strings; lists = moved from to x rest c.lists })

same : (c d : Contents) → c ≡ d → SameStore c d
same c d e = record {
  same_strings = λ j. ap (λ (s : Contents). s.strings j) e;
  same_lists = λ j. ap (λ (s : Contents). s.lists j) e;
}

executed :
    (c d : Contents) (commands : List (Command (Job ℕ)))
    → some (after commands c) ≡ some d
    → SameStore d (after commands c)
executed c d commands h = same d (after commands c) (ground arith)

moved_none :
    (c d : Contents) (from to : String) (r : Option String)
    → c.lists from ≡ []
    → some (move_at c from to (c.lists from)) ≡ some (r, d)
    → (r ≡ none) × SameStore d c
moved_none c d from to r e h = let g = rw (e) at h in (ground arith, same d c (ground arith))

moved_one :
    (c d : Contents) (from to x : String) (rest : List String) (r : Option String)
    → c.lists from ≡ x ∷ rest
    → some (move_at c from to (c.lists from)) ≡ some (r, d)
    → (r ≡ some x)
      × SameStore d (record { strings = c.strings; lists = moved from to x rest c.lists })
moved_one c d from to x rest r e h =
    let g = rw (e) at h in
    (
      ground arith,
      same d (record { strings = c.strings; lists = moved from to x rest c.lists }) (ground arith),
    )

some_same : {A : Type 0} (a b : A) → some a ≡ some b → b ≡ a
some_same a b h = ground arith

abbrev server : Server (Job ℕ) Contents
server = record {
  contents = λ c. c;
  execute = λ c commands. some (after commands c);
  lmove = λ c from to. some (move_at c from to (c.lists from));
  get = λ c k. some (c.strings k);
  llen = λ c k. some (length (c.lists k));
  execute_law = executed;
  lmove_empty = moved_none;
  lmove_first = moved_one;
  get_law = λ c k r. some_same (c.strings k) r;
  llen_law = λ c k n. some_same (length (c.lists k)) n;
}

abbrev codec : Json ℕ ℕ
codec = record {
  empty = 0;
  is_mapping = λ v. true;
  dumps = λ v. some v;
  loads = λ t. some t;
  same = λ a b. leb a b;
}

abbrev dump : Job ℕ → Job ℕ
dump job = job

abbrev parse : Job ℕ → Option (Job ℕ)
parse job = some job

parse-dump : (job : Job ℕ) → parse (dump job) ≡ some job
parse-dump job = refl

abbrev ns : String
ns = "nexaassist:jobs"

abbrev nothing : Contents
nothing = record { strings = λ j. none; lists = λ j. [] }

nothing-Refines : Refines parse ns nothing empty
unfolding lookup
nothing-Refines = record {
  same_pending = refl;
  same_dead = refl;
  same_jobs = λ id. refl;
  own_name = λ id job h. absurd (ground arith);
}

abbrev ping : Job ℕ
ping = record {
  id = "a1";
  name = "ping";
  payload = 4;
  status = pending;
  attempts = 0;
  max_attempts = 2;
  error = none;
}

abbrev holding : Contents
holding =
    after (Command.set (job_key ns "a1") ping ∷ Command.rpush (pending_key ns) "a1" ∷ []) nothing

holding-Refines : Refines parse ns holding (add empty ping)
holding-Refines = add-Refines dump parse parse-dump ns nothing empty ping nothing-Refines

stored-All : All (λ id. is_some (lookup id (add empty ping).jobs) ≡ true) (add empty ping).pending
unfolding add lookup insert
stored-All = (refl, tt)

dequeue-Agrees_example :
    Agrees server parse ns holding
      (Redis.dequeue server codec dump parse ns holding)
      (ok (Memory.dequeue (add empty ping)))
dequeue-Agrees_example =
    dequeue-Agrees server codec dump parse parse-dump ns holding (add empty ping) holding-Refines
      stored-All

fail-Agrees_example :
    Agrees server parse ns holding
      (Redis.fail server codec dump parse ns holding ping "boom" true)
      (Memory.fail (add empty ping) ping "boom" true)
fail-Agrees_example =
    fail-Agrees server codec dump parse parse-dump ns holding (add empty ping) ping "boom" true
      holding-Refines
