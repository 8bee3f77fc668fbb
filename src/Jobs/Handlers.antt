-- ===== src/Jobs/Handlers.antt =====
-- backend/app/jobs/handlers.py: `JobHandlerRegistry`, a name-to-handler table that is validated at
-- registration. A handler is what the program takes of one: the check of its payload model
-- (pydantic's, not part of the program) and how a run of it ended. The job is an argument of the
-- run too, so that two attempts with the same parameters may end differently.
use nexa_assist.Common.{
  String, Bool, true, not, none, some, Result, ok, err, ◌>>=◌, ◌>>◌, raise_if, string_key, ◌+◌, ◌≡◌,
  arith, length, if◌then◌else◌, ◌==◌, inl, inr, Option-cases, Result-cases,
}
use nexa_assist.Dict.{Dict, lookup, insert, has_key, lookup-insert, length-insert}
use nexa_assist.Jobs.Base.{Job, JobFault, job_not_found, definition_error, validate_job_name}
use nexa_assist.Jobs.Base.Laws.{IsJobName, validate_job_name_iff, name_checked}

-- How `handler.run` ended under `asyncio.timeout`: it returned, was cut off, raised `JobError`
-- with its message and whether another attempt could work, or raised anything else.
pub data Ran : Type 0 where
  finished timed_out crashed : Ran
  raised : String → Bool → Ran

pub record Handler (V P : Type 0) : Type 0 where
  pub name : String
  pub declares_model : Bool
  pub model_validate : V → Result String P
  pub run : Job V → P → Ran

abbrev pub Registry : Type 0 → Type 0 → Type 0
Registry V P = Dict String (Handler V P)

module _ {V P : Type 0} where
  unfoldable pub register : Registry V P → Handler V P → Result JobFault (Registry V P)
  register r handler = do
    name ← validate_job_name handler.name
    raise_if (not handler.declares_model) definition_error
    raise_if (has_key name r) definition_error
    ok (insert name handler r)

  unfoldable pub get : Registry V P → String → Result JobFault (Handler V P)
  get r name = elim (lookup name r) [ none ↦ err job_not_found | some handler ↦ ok handler ]

  registered :
      (r r' : Registry V P) (handler : Handler V P)
      → register r handler ≡ ok r'
      → IsJobName handler.name
        × (handler.declares_model ≡ true)
        × (lookup handler.name r ≡ none)
        × (r' ≡ insert handler.name handler r)
  unfolding register
  registered r r' handler h = elim (Result-cases (validate_job_name handler.name)) [
    | inl (f, p) ↦ absurd (ground arith)
    | inr (valid, p) ↦
        let e = (name_checked handler.name valid p).0 in
        elim (Option-cases (lookup handler.name r)) [
          | inl new ↦
              ((validate_job_name_iff handler.name).0 (rw e at p), ground arith, new, ground arith)
          | inr (old, there) ↦ absurd (ground arith)
        ]
  ]

  -- A registration that succeeds was of a valid, new name with a payload model; the table then
  -- finds that handler under its name and every other name as before, and has one entry more.
  pub register_lem :
      (r r' : Registry V P) (handler : Handler V P)
      → register r handler ≡ ok r'
      → IsJobName handler.name
        × (handler.declares_model ≡ true)
        × (lookup handler.name r ≡ none)
        × ((name : String)
            → lookup name r' ≡ (if handler.name == name then some handler else lookup name r))
        × (length r' ≡ length r + 1)
  register_lem r r' handler h =
      let (name, model, new, e) = registered r r' handler h in
      (
        name,
        model,
        new,
        λ k. rw e (lookup-insert handler.name k handler r),
        ground (arith, length-insert handler.name handler r),
      )
