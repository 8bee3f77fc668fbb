-- ===== src/Auth/Keys.antt =====
-- Which keys are accepted, as whom, and how they are configured.
use nexa_assist.Common.{
  ◌≤◌, String, ◌≡◌, refl, inl, inr, Bool, true, false, ◌||◌, ◌&&◌, Option, none, some, List, [],
  ◌∷◌, ◌++◌, ap, Result, ok, err, arith, string_key, ◌==◌, ==_iff, Bool-cases,
}
use nexa_assist.Names.{◌+++◌}
use nexa_assist.Text.{strip, partition, is_ascii, is_nonempty, text_length}
use nexa_assist.Text.Laws.{lacks, partition-first}
use nexa_assist.Auth.{
  RequestIdentity, key_identity, ApiKeyCredential, api_keys, AuthFault, invalid_credentials,
  type_error, compare_digest, match_from, identify, authenticate, parse_credentials, colon,
  min_key_length,
}

-- Some credential of the list has this subject and secret.
abbrev pub grants : String → String → List ApiKeyCredential → Bool
grants subject secret [] = false
grants subject secret (c ∷ credentials) =
    (c.subject == subject && c.secret == secret) || grants subject secret credentials

-- All secrets are ASCII.
abbrev pub all_ascii : List ApiKeyCredential → Bool
all_ascii [] = true
all_ascii (c ∷ credentials) = is_ascii c.secret && all_ascii credentials

compare_digest-ascii :
    (a b : String) → is_ascii a ≡ true → is_ascii b ≡ true → compare_digest a b ≡ ok (a == b)
unfolding compare_digest
compare_digest-ascii a b p q = rw (p) (rw (q) refl)

-- With ASCII texts the loop finds a credential with the presented secret, or keeps what it had.
pub data Found (before : Option ApiKeyCredential) (presented : String)
    (credentials : List ApiKeyCredential) (found : Option ApiKeyCredential) : Type 0 where
  kept :
      found ≡ before
      → ((s : String) → grants s presented credentials ≡ false)
      → Found before presented credentials found
  matched :
      (c : ApiKeyCredential) (earlier later : List ApiKeyCredential)
      → found ≡ some c
      → c.secret ≡ presented
      → credentials ≡ earlier ++ c ∷ later
      → ((s : String) → grants s presented later ≡ false)
      → Found before presented credentials found

take_here :
    (before : Option ApiKeyCredential) (c : ApiKeyCredential) (presented : String)
    (credentials : List ApiKeyCredential) (found : Option ApiKeyCredential)
    → (presented == c.secret) ≡ true
    → Found (some c) presented credentials found
    → Found before presented (c ∷ credentials) found
take_here before c presented credentials found same (kept e h) =
    matched c [] credentials e (ground (arith, ==_iff presented c.secret)) refl h
take_here before c presented credentials found same (matched d earlier later e h split rest) =
    matched d (c ∷ earlier) later e h (ap (λ l. c ∷ l) split) rest

pass_by :
    (before : Option ApiKeyCredential) (c : ApiKeyCredential) (presented : String)
    (credentials : List ApiKeyCredential) (found : Option ApiKeyCredential)
    → (presented == c.secret) ≡ false
    → Found before presented credentials found
    → Found before presented (c ∷ credentials) found
pass_by before c presented credentials found differs (kept e h) =
    kept e (λ s. ground (arith, h s, ==_iff presented c.secret, ==_iff c.secret presented))
pass_by before c presented credentials found differs (matched d earlier later e h split rest) =
    matched d (c ∷ earlier) later e h (ap (λ l. c ∷ l) split) rest

match_from-Found :
    (before : Option ApiKeyCredential) (presented : String) (credentials : List ApiKeyCredential)
    → is_ascii presented ≡ true
    → all_ascii credentials ≡ true
    → (found : Option ApiKeyCredential) × (match_from before presented credentials ≡ ok found)
      × Found before presented credentials found
unfolding match_from
match_from-Found before presented [] p q = (before, refl, kept refl (λ s. refl))
match_from-Found before presented (c ∷ credentials) p q =
    let cmp = compare_digest-ascii presented c.secret p (ground arith) in
    elim (Bool-cases (presented == c.secret)) [
      | inl same ↦
          let (found, e, f) = match_from-Found (some c) presented credentials p (ground arith) in
          (found, rw (cmp) (rw (same) e), take_here before c presented credentials found same f)
      | inr differs ↦
          let (found, e, f) = match_from-Found before presented credentials p (ground arith) in
          (found, rw (cmp) (rw (differs) e), pass_by before c presented credentials found differs f)
    ]

-- What `authenticate` makes of a presented key.
pub data Judged (presented : String) (credentials : List ApiKeyCredential)
    (r : Result AuthFault RequestIdentity) : Type 0 where
  accepted :
      (c : ApiKeyCredential) (earlier later : List ApiKeyCredential)
      → r ≡ ok (key_identity c.subject)
      → c.secret ≡ presented
      → credentials ≡ earlier ++ c ∷ later
      → ((s : String) → grants s presented later ≡ false)
      → Judged presented credentials r
  rejected :
      r ≡ err invalid_credentials
      → ((s : String) → grants s presented credentials ≡ false)
      → Judged presented credentials r

judge :
    (presented : String) (credentials : List ApiKeyCredential) (found : Option ApiKeyCredential)
    → Found none presented credentials found
    → Judged presented credentials (identify found)
judge presented credentials found (kept e h) = rejected (rw (e) refl) h
judge presented credentials found (matched c earlier later e h split rest) =
    accepted c earlier later (rw (e) refl) h split rest

-- Where the configured secrets and the presented key are ASCII and the key is not empty, it is accepted
-- as the subject of the last credential that has exactly this secret, or it is rejected as invalid and
-- no credential has it.
pub authenticate-Judged :
    (credentials : List ApiKeyCredential) (presented : String)
    → is_nonempty presented ≡ true
    → is_ascii presented ≡ true
    → all_ascii credentials ≡ true
    → Judged presented credentials (authenticate (api_keys credentials) (some presented))
unfolding authenticate
authenticate-Judged credentials presented n p q =
    let (found, e, f) = match_from-Found none presented credentials p q in
    rw (n) (rw (e) (judge presented credentials found f))

-- A presented key that is not ASCII is not rejected: the comparison raises.
pub authenticate_non_ascii :
    (c : ApiKeyCredential) (credentials : List ApiKeyCredential) (presented : String)
    → is_ascii presented ≡ false
    → is_nonempty presented ≡ true
    → authenticate (api_keys (c ∷ credentials)) (some presented) ≡ err type_error
unfolding authenticate match_from compare_digest
authenticate_non_ascii c credentials presented p n = rw (n) (rw (p) refl)

text_length-nonempty : (s : String) → 1 ≤ text_length s → is_nonempty s ≡ true
unfolding text_length
text_length-nonempty String.[] h = absurd (omega arith)
text_length-nonempty (String.◌∷◌ c s) h = refl

-- An entry of a configuration, `subject:secret`, is read back as that credential: the subject has no
-- colon and the secret may have some; neither has white space at its ends, and the secret has at
-- least 16 characters.
pub parse_credentials-entry :
    (subject secret : String)
    → lacks colon subject ≡ true
    → strip subject ≡ subject
    → strip secret ≡ secret
    → is_nonempty subject ≡ true
    → min_key_length ≤ text_length secret
    → is_nonempty (strip (subject +++ (":" +++ secret))) ≡ true
    → parse_credentials ((subject +++ (":" +++ secret)) ∷ [])
      ≡ ok (record { subject = subject; secret = secret } ∷ [])
unfolding parse_credentials
parse_credentials-entry subject secret l s t n long full =
    let split : partition colon (subject +++ (":" +++ secret)) ≡ some (subject, secret) =
      partition-first colon subject (":" +++ secret) secret l (unfold partition ◌+++◌ in refl) in
    rw (full) (
      rw (split)
        (rw (s) (rw (t) (rw (n) (rw (text_length-nonempty secret (omega arith)) (ground arith))))))
