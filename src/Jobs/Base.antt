-- ===== src/Jobs/Base.antt =====
-- backend/app/jobs/base.py: jobs, their statuses and the validation that every backend shares.
-- `json` and `uuid` are not part of the program: the codec is a record of functions and the new
-- identifier is an argument. Attempt counts are naturals; a negative `max_attempts` fails the
-- same test as 0.
pub mod Laws
use nexa_assist.Common.{
  ℕ, String, Bool, true, false, not, ◌||◌, Option, none, some, ltb, leb, length, Result, ok, err,
  ◌>>=◌, ◌>>◌, raise_if,
}
use nexa_assist.Names.{codes, all_allowed, is_empty}

-- The errors of jobs/errors.py that a process can raise without a server.
pub data JobFault : Type 0 where
  job_not_found payload_error definition_error : JobFault

pub data JobStatus : Type 0 where
  pending running succeeded failed : JobStatus

pub record Job (V : Type 0) : Type 0 where
  pub id : String
  pub name : String
  pub payload : V
  pub status : JobStatus
  pub attempts : ℕ
  pub max_attempts : ℕ
  pub error : Option String

-- What `validate_payload` asks of `json` and of a Python value: `V` are the values, `T` the texts.
-- `none` is a `TypeError` or a `ValueError`.
pub record Json (V T : Type 0) : Type 0 where
  pub empty : V
  pub is_mapping : V → Bool
  pub dumps : V → Option T
  pub loads : T → Option V
  pub same : V → V → Bool

abbrev pub max_name_length : ℕ
max_name_length = 64

abbrev pub ends : JobStatus → Bool
ends succeeded = true
ends failed = true
ends _ = false

module _ {V : Type 0} where
  abbrev pub exhausted : Job V → Bool
  exhausted j = leb j.max_attempts j.attempts

  unfoldable pub terminal : Job V → Bool
  terminal j = ends j.status

unfoldable pub validate_job_name : String → Result JobFault String
validate_job_name name = do
  raise_if (is_empty (codes name) || not (all_allowed (codes name))) definition_error
  raise_if (ltb max_name_length (length (codes name))) definition_error
  ok name

module _ {V T : Type 0} (json : Json V T) where
  -- json.loads(json.dumps(plain))
  unfoldable pub restored : V → Option V
  restored plain = elim (json.dumps plain) [ none ↦ none | some text ↦ json.loads text ]

  unfoldable pub validate_payload : Option V → Result JobFault V
  validate_payload none = ok json.empty
  validate_payload (some plain) = do
    raise_if (not (json.is_mapping plain)) payload_error
    elim (restored plain) [
      | none ↦ err payload_error
      | some back ↦ raise_if (not (json.same back plain)) payload_error >> ok plain
    ]

  unfoldable pub build_job : String → String → Option V → ℕ → Result JobFault (Job V)
  build_job new_id name payload max_attempts = do
    raise_if (ltb max_attempts 1) definition_error
    valid ← validate_job_name name
    plain ← validate_payload payload
    ok (record {
      id = new_id;
      name = valid;
      payload = plain;
      status = pending;
      attempts = 0;
      max_attempts = max_attempts;
      error = none;
    })
