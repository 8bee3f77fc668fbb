-- ===== src/Auth.antt =====
-- backend/app/auth/identity.py, authorization.py and providers.py: identities, ownership and API
-- keys. `compare_digest` is Python's: on texts that are not ASCII it raises `TypeError`. Secrets are
-- plain texts here, and fingerprints and log lines are left out.
pub mod Keys
mod Tests
use Prim.Native.Char.{code}
use nexa_assist.Common.{
  ℕ, String, Bool, true, false, not, ◌||◌, ◌&&◌, Option, none, some, List, [], ◌∷◌, ◌++◌, Result,
  ok, err, ◌>>=◌, ◌>>◌, raise_if, ltb, map, contains, string_key, ◌==◌, if◌then◌else◌,
}
use nexa_assist.Text.{strip, partition, is_ascii, is_nonempty, text_length}

abbrev pub anonymous_subject : String
anonymous_subject = "anonymous"

pub data IdentityKind : Type 0 where
  anonymous api_key : IdentityKind

pub record RequestIdentity : Type 0 where
  pub subject : String
  pub kind : IdentityKind
  pub authenticated : Bool

-- `RequestIdentity.anonymous` and `RequestIdentity.api_key`
abbrev pub anonymous_identity : RequestIdentity
anonymous_identity = record { subject = anonymous_subject; kind = anonymous; authenticated = false }

abbrev pub key_identity : String → RequestIdentity
key_identity subject = record { subject = subject; kind = api_key; authenticated = true }

pub record OwnerScope : Type 0 where
  pub subject : String

unfoldable pub permits : OwnerScope → Option String → Bool
permits scope none = false
permits scope (some owner) = owner == scope.subject

-- `OpenAuthorizer` and `SubjectScopedAuthorizer`
pub data Authorizer : Type 0 where
  open_all subject_scoped : Authorizer

unfoldable pub scope_for : Authorizer → RequestIdentity → Option OwnerScope
scope_for open_all identity = none
scope_for subject_scoped identity = some (record { subject = identity.subject })

unfoldable pub owner_for : Authorizer → RequestIdentity → Option String
owner_for open_all identity = none
owner_for subject_scoped identity = some identity.subject

pub record ApiKeyCredential : Type 0 where
  pub subject : String
  pub secret : String

-- `AnonymousAuthenticator` and `ApiKeyAuthenticator`
pub data Authenticator : Type 0 where
  accept_all : Authenticator
  api_keys : List ApiKeyCredential → Authenticator

pub data AuthFault : Type 0 where
  configuration authentication_required invalid_credentials type_error : AuthFault

unfoldable pub protects : Authenticator → Bool
protects accept_all = false
protects (api_keys credentials) = true

-- len(set(subjects)) != len(subjects)
abbrev pub repeats : List String → Bool
repeats [] = false
repeats (s ∷ subjects) = contains s subjects || repeats subjects

abbrev pub subjects_of : List ApiKeyCredential → List String
subjects_of [] = []
subjects_of (c ∷ credentials) = c.subject ∷ subjects_of credentials

-- `ApiKeyAuthenticator.__init__`
unfoldable pub new_authenticator : List ApiKeyCredential → Result AuthFault Authenticator
new_authenticator [] = err configuration
new_authenticator (c ∷ credentials) = do
  raise_if (repeats (subjects_of (c ∷ credentials))) configuration
  ok (api_keys (c ∷ credentials))

-- secrets.compare_digest
unfoldable pub compare_digest : String → String → Result AuthFault Bool
compare_digest a b = do raise_if (not (is_ascii a && is_ascii b)) type_error; ok (a == b)

-- The loop of `_match`, with what was found before.
unfoldable pub match_from :
    Option ApiKeyCredential
    → String
    → List ApiKeyCredential
    → Result AuthFault (Option ApiKeyCredential)
match_from found presented [] = ok found
match_from found presented (c ∷ credentials) = do
  same ← compare_digest presented c.secret
  match_from (if same then some c else found) presented credentials

abbrev pub identify : Option ApiKeyCredential → Result AuthFault RequestIdentity
identify none = err invalid_credentials
identify (some c) = ok (key_identity c.subject)

-- `authenticate`; `require_identity` (api/v1/identity.py) calls it on the header.
unfoldable pub authenticate : Authenticator → Option String → Result AuthFault RequestIdentity
unfolding match_from
authenticate accept_all presented = ok anonymous_identity
authenticate (api_keys credentials) none = err authentication_required
authenticate (api_keys credentials) (some presented) = do
  raise_if (not (is_nonempty presented)) authentication_required
  found ← match_from none presented credentials
  identify found

abbrev pub min_key_length : ℕ
min_key_length = 16

abbrev pub colon : ℕ
colon = b':'

-- One entry of `parse_credentials` that is not blank.
abbrev pub parse_parts : Option (String × String) → Result AuthFault ApiKeyCredential
parse_parts none = err configuration
parse_parts (some (subject, secret)) = do
  raise_if (not (is_nonempty (strip subject)) || not (is_nonempty (strip secret))) configuration
  raise_if (ltb (text_length (strip secret)) min_key_length) configuration
  ok (record { subject = strip subject; secret = strip secret })

unfoldable pub parse_credentials : List String → Result AuthFault (List ApiKeyCredential)
unfolding partition strip
parse_credentials [] = ok []
parse_credentials (entry ∷ entries) =
    let rest = parse_credentials entries in
    let parsed = parse_parts (partition colon entry) >>= λ c. rest >>= λ others. ok (c ∷ others) in
    if is_nonempty (strip entry) then parsed else rest
