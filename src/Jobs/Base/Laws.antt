-- ===== src/Jobs/Base/Laws.antt =====
-- What the validation of jobs/base.py lets through.
use nexa_assist.Common.{
  ℕ, ◌≤◌, ◌<◌, String, ◌≡◌, ◌↔◌, true, Option, none, some, arith, All, length, ok, inl, inr,
  Option-cases, Result-cases,
}
use nexa_assist.Names.{codes, allowed, all_allowed, all_allowed-All, All-all_allowed}
use nexa_assist.Jobs.Base.{
  Job, Json, pending, restored, validate_job_name, validate_payload, build_job, max_name_length,
}

pub record IsJobName (name : String) : Type 0 where
  pub nonempty : 0 < length (codes name)
  pub characters : All (λ c. allowed c ≡ true) (codes name)
  pub short : length (codes name) ≤ max_name_length

name_checks :
    (name : String)
    → 0 < length (codes name)
    → all_allowed (codes name) ≡ true
    → length (codes name) ≤ max_name_length
    → validate_job_name name ≡ ok name
unfolding validate_job_name
name_checks name p q r = ground arith

pub name_checked :
    (name valid : String)
    → validate_job_name name ≡ ok valid
    → (valid ≡ name)
      × (0 < length (codes name))
      × (all_allowed (codes name) ≡ true)
      × (length (codes name) ≤ max_name_length)
unfolding validate_job_name
name_checked name valid h = ground arith

-- A name is accepted, and returned as it is, exactly when it has 1 to 64 characters, all of them
-- lowercase letters, digits or underscores.
pub validate_job_name_iff : (name : String) → (validate_job_name name ≡ ok name) ↔ IsJobName name
validate_job_name_iff name = (
  λ h.
      let (e, p, q, r) = name_checked name name h in
      record { nonempty = p; characters = all_allowed-All _ q; short = r },
  λ v. name_checks name v.nonempty (All-all_allowed _ v.characters) v.short,
)

module _ {V T : Type 0} (json : Json V T) where
  -- What a payload has that reaches a queue: it is the mapping that was given and the codec
  -- restores something equal to it, or none was given and it is the empty one.
  pub data Accepted : Option V → V → Type 0 where
    default : (v : V) → v ≡ json.empty → Accepted none v
    given :
        (plain v back : V)
        → v ≡ plain
        → json.is_mapping plain ≡ true
        → restored json plain ≡ some back
        → json.same back plain ≡ true
        → Accepted (some plain) v

  validate_payload-Accepted :
      (payload : Option V) (v : V) → validate_payload json payload ≡ ok v → Accepted payload v
  unfolding validate_payload
  validate_payload-Accepted none v h = default v (ground arith)
  validate_payload-Accepted (some plain) v h = elim (Option-cases (restored json plain)) [
    | inl e ↦ absurd (ground arith)
    | inr (back, e) ↦ given plain v back (ground arith) (ground arith) e (ground arith)
  ]

  -- A job is built exactly from a budget of at least one attempt, a valid name and an accepted
  -- payload; it is pending and no attempt has been made.
  pub build_job_fields :
      (new_id name : String) (payload : Option V) (budget : ℕ) (j : Job V)
      → build_job json new_id name payload budget ≡ ok j
      → (0 < j.max_attempts)
        × (j.id ≡ new_id)
        × (j.status ≡ pending)
        × (j.attempts ≡ 0)
        × (j.error ≡ none)
        × IsJobName j.name
        × Accepted payload j.payload
  unfolding build_job
  build_job_fields new_id name payload budget j h = elim (Result-cases (validate_job_name name)) [
    | inl (f, p) ↦ absurd (ground arith)
    | inr (valid, p) ↦ elim (Result-cases (validate_payload json payload)) [
      | inl (f, q) ↦ absurd (ground arith)
      | inr (plain, q) ↦ (
        ground arith,
        ground arith,
        ground arith,
        ground arith,
        ground arith,
        rw ((let e : j.name ≡ valid = ground arith in e), (name_checked name valid p).0)
            ((validate_job_name_iff name).0 (rw (name_checked name valid p).0 at p)),
        rw (let e : j.payload ≡ plain = ground arith in e)
            (validate_payload-Accepted payload plain q),
      )
    ]
  ]
