-- ===== src/Auth/Tests.antt =====
-- Tests of authentication, and the theorems on keys at concrete ones.
use nexa_assist.Common.{◌≡◌, refl, false, none, some, List, [], ◌∷◌, ok, err, string_key}
use nexa_assist.Text.{is_ascii}
use nexa_assist.Auth.{
  ApiKeyCredential, configuration, type_error, key_identity, api_keys, compare_digest, match_from,
  authenticate, new_authenticator, permits,
}
use nexa_assist.Auth.Keys.{Judged, authenticate-Judged, authenticate_non_ascii}

abbrev support : ApiKeyCredential
support = record { subject = "support"; secret = "0123456789abcdef" }

abbrev billing : ApiKeyCredential
billing = record { subject = "billing"; secret = "fedcba9876543210" }

abbrev keys : List ApiKeyCredential
keys = support ∷ billing ∷ []

twice : new_authenticator (support ∷ support ∷ []) ≡ err configuration
unfolding new_authenticator
twice = refl

as_billing : authenticate (api_keys keys) (some "fedcba9876543210") ≡ ok (key_identity "billing")
unfolding authenticate match_from compare_digest is_ascii
as_billing = refl

authenticate-Judged_example :
    Judged "fedcba9876543210" keys (authenticate (api_keys keys) (some "fedcba9876543210"))
authenticate-Judged_example =
    authenticate-Judged keys "fedcba9876543210" refl (unfold is_ascii in refl)
      (unfold is_ascii in refl)

authenticate_non_ascii_example : authenticate (api_keys keys) (some "clé") ≡ err type_error
authenticate_non_ascii_example =
    authenticate_non_ascii support (billing ∷ []) "clé" (unfold is_ascii in refl) refl

unowned : permits (record { subject = "ops" }) none ≡ false
unfolding permits
unowned = refl
