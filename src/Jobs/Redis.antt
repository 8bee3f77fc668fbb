-- ===== src/Jobs/Redis.antt =====
-- backend/app/jobs/redis_queue.py: `RedisJobQueue`. The server is a parameter: an operation gives
-- `none` for an error of the client, which `_RedisGuard` turns into `JobQueueUnavailableError`, and
-- the laws of `Server` are what Redis documents of the commands, on what a server holds. A pipeline
-- is a transaction. `model_dump_json` and the parse of a stored job are
-- parameters too, and so is the type `X` of the texts that they write and read.
pub mod Refinement
pub mod Simulation
mod Tests
use nexa_assist.Common.{
  ℕ, String, ◌≡◌, Bool, true, false, not, ◌||◌, Option, none, some, List, [], ◌∷◌, ◌++◌, length,
  Result, ok, err, ◌>>=◌, string_key, ◌==◌, if◌then◌else◌,
}
use nexa_assist.Names.{◌+++◌}
use nexa_assist.Jobs.Base.{
  Job, JobFault, job_not_found, pending, succeeded, failed, Json, build_job, exhausted,
}
use nexa_assist.Jobs.Memory.{start}

-- What a server holds.
pub record Store (X : Type 0) : Type 0 where
  pub strings : String → Option X
  pub lists : String → List String

-- The commands that the queue's pipelines send.
pub data Command (X : Type 0) : Type 0 where
  set : String → X → Command X
  rpush lrem : String → String → Command X

-- LREM key 1 value: the first occurrence goes
abbrev pub remove_first : String → List String → List String
remove_first v [] = []
remove_first v (x ∷ xs) = let rest = remove_first v xs in if x == v then xs else x ∷ rest

-- What a command leaves of the strings and of the lists; SET takes the place of a list.
abbrev pub strings_after : {X : Type 0} → Command X → (String → Option X) → String → Option X
strings_after (set k v) strings j = if k == j then some v else strings j
strings_after (rpush k v) strings j = strings j
strings_after (lrem k v) strings j = strings j

abbrev pub lists_after : {X : Type 0} → Command X → (String → List String) → String → List String
lists_after (set k v) lists j = if k == j then [] else lists j
lists_after (rpush k v) lists j = if k == j then lists j ++ v ∷ [] else lists j
lists_after (lrem k v) lists j = if k == j then remove_first v (lists j) else lists j

abbrev pub after : {X : Type 0} → List (Command X) → Store X → Store X
after [] c = c
after (command ∷ commands) c =
    after commands
      (record { strings = strings_after command c.strings; lists = lists_after command c.lists })

-- LMOVE from to LEFT RIGHT, of a list that has a first entry
abbrev pub moved :
    String → String → String → List String → (String → List String) → String → List String
moved from to x rest lists j =
    let popped = if from == j then rest else lists j in if to == j then popped ++ x ∷ [] else popped

pub record SameStore {X : Type 0} (c d : Store X) : Type 0 where
  pub same_strings : (j : String) → c.strings j ≡ d.strings j
  pub same_lists : (j : String) → c.lists j ≡ d.lists j

pub record Server (X S : Type 0) : Type 0 where
  pub contents : S → Store X
  pub execute : S → List (Command X) → Option S
  pub lmove : S → String → String → Option (Option String × S)
  pub get : S → String → Option (Option X)
  pub llen : S → String → Option ℕ
  pub execute_law :
      (s s' : S) (commands : List (Command X))
      → execute s commands ≡ some s'
      → SameStore (contents s') (after commands (contents s))
  pub lmove_empty :
      (s s' : S) (from to : String) (r : Option String)
      → (contents s).lists from ≡ []
      → lmove s from to ≡ some (r, s')
      → (r ≡ none) × SameStore (contents s') (contents s)
  pub lmove_first :
      (s s' : S) (from to x : String) (rest : List String) (r : Option String)
      → (contents s).lists from ≡ x ∷ rest
      → lmove s from to ≡ some (r, s')
      → (r ≡ some x)
        × SameStore (contents s') (record {
          strings = (contents s).strings;
          lists = moved from to x rest (contents s).lists;
        })
  pub get_law : (s : S) (k : String) (r : Option X) → get s k ≡ some r → r ≡ (contents s).strings k
  pub llen_law :
      (s : S) (k : String) (n : ℕ) → llen s k ≡ some n → n ≡ length ((contents s).lists k)

pub data RedisFault : Type 0 where
  unavailable : RedisFault
  fault : JobFault → RedisFault

-- A call of the server under `_guard`.
abbrev pub guarded : {A : Type 0} → Option A → Result RedisFault A
guarded none = err unavailable
guarded (some a) = ok a

abbrev pub lifted : {A : Type 0} → Result JobFault A → Result RedisFault A
lifted (err e) = err (fault e)
lifted (ok a) = ok a

-- `_pending_key`, `_processing_key`, `_dead_key` and `_job_key`
unfoldable pub pending_key : String → String
pending_key ns = ns +++ ":pending"

unfoldable pub processing_key : String → String
processing_key ns = ns +++ ":processing"

unfoldable pub dead_key : String → String
dead_key ns = ns +++ ":dead"

unfoldable pub job_key : String → String → String
job_key ns id = ns +++ (":job:" +++ id)

module _ {X S V T : Type 0} (server : Server X S) (json : Json V T) (dump : Job V → X)
    (parse : X → Option (Job V)) (ns : String) where
  -- `get` and `_parse`
  unfoldable pub get_job : S → String → Result RedisFault (Job V)
  get_job s id = do
    raw ← guarded (server.get s (job_key ns id))
    elim raw [
      | none ↦ err (fault job_not_found)
      | some text ↦ elim (parse text) [ none ↦ err (fault job_not_found) | some job ↦ ok job ]
    ]

  unfoldable pub enqueue : String → S → String → Option V → ℕ → Result RedisFault (Job V × S)
  enqueue new_id s name payload max_attempts = do
    job ← lifted (build_job json new_id name payload max_attempts)
    s' ←
        guarded (
          server.execute s
            (set (job_key ns job.id) (dump job) ∷ rpush (pending_key ns) job.id ∷ []))
    ok (job, s')

  -- `dequeue`, once an identifier was moved
  unfoldable pub take_moved : Option String → S → Result RedisFault (Option (Job V) × S)
  unfolding get_job
  take_moved none s = ok (none, s)
  take_moved (some id) s = do
    kept ← get_job s id
    s' ← guarded (server.execute s (set (job_key ns (start kept).id) (dump (start kept)) ∷ []))
    ok (some (start kept), s')

  unfoldable pub dequeue : S → Result RedisFault (Option (Job V) × S)
  unfolding take_moved
  dequeue s = do
    (moved_id, s') ← guarded (server.lmove s (pending_key ns) (processing_key ns))
    take_moved moved_id s'

  unfoldable pub complete : S → Job V → Result RedisFault (Job V × S)
  unfolding get_job
  complete s job = do
    kept ← get_job s job.id
    let done = record kept { status = succeeded; error = none }
    s' ← guarded (
        server.execute s
          (set (job_key ns done.id) (dump done) ∷ lrem (processing_key ns) done.id ∷ []))
    ok (done, s')

  -- the pipelines of `fail`
  abbrev pub bury_commands : Job V → List (Command X)
  bury_commands gone =
      set (job_key ns gone.id) (dump gone)
      ∷ lrem (processing_key ns) gone.id
      ∷ rpush (dead_key ns) gone.id
      ∷ []

  abbrev pub retry_commands : Job V → List (Command X)
  retry_commands retry =
      set (job_key ns retry.id) (dump retry)
      ∷ lrem (processing_key ns) retry.id
      ∷ rpush (pending_key ns) retry.id
      ∷ []

  abbrev pub settle : Job V × List (Command X) → S → Result RedisFault (Job V × S)
  settle (job, commands) s = do s' ← guarded (server.execute s commands); ok (job, s')

  unfoldable pub fail : S → Job V → String → Bool → Result RedisFault (Job V × S)
  unfolding get_job
  fail s job error retryable = do
    kept ← get_job s job.id
    let gone = record kept { status = failed; error = some error }
    let retry = record kept { status = pending; error = some error }
    settle
        (if exhausted kept || not retryable
          then (gone, bury_commands gone)
          else (retry, retry_commands retry))
        s

  unfoldable pub depth : S → Result RedisFault ℕ
  depth s = guarded (server.llen s (pending_key ns))
