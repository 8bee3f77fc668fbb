-- ===== src/RateLimit/Tests.antt =====
-- Tests of the rate limiter, and its theorems at a concrete limiter: two requests a minute, with a
-- clock of ten ticks a second.
use Prim.Native.Nat.{min}
use nexa_assist.Common.{
  ◌+◌, ◌-◌, ◌*◌, ◌≡◌, refl, true, false, [], ◌∷◌, arith, string_key, nat_key, pair_key, err,
}
use nexa_assist.Dict.{lookup, insert}
use nexa_assist.RateLimit.{Limiter, new_limiter, configuration, prune, used_of, decide, check}
use nexa_assist.RateLimit.Quota.{asked, granted, granted_lem, IsPast, retry_allowed}

abbrev limiter : Limiter
limiter = record { limit = 2; window = 60; counts = (("bo", 1), 5) ∷ (("al", 2), 1) ∷ [] }

abbrev full : Limiter
full = record { limit = 2; window = 60; counts = (("al", 2), 2) ∷ [] }

new_zero : new_limiter 0 60 ≡ err configuration
unfolding new_limiter
new_zero = refl

-- At 125.5 s the window ends in 54.5 s: the caller is told 55.
refusal :
    (check 10 full 1255 "al").0
    ≡ record { allowed = false; remaining = 0; retry_after_seconds = 55 }
unfolding check decide prune lookup insert
refusal = refl

granted_lem_example :
    granted 10 "al" limiter ((1255, "al") ∷ (1260, "bo") ∷ (1270, "al") ∷ [])
    ≡ min
        (asked "al" ((1255, "al") ∷ (1260, "bo") ∷ (1270, "al") ∷ []))
        (2 - used_of (lookup ("al", 2) limiter.counts))
granted_lem_example =
    granted_lem 10 "al" limiter 2 ((1255, "al") ∷ (1260, "bo") ∷ (1270, "al") ∷ [])
      (refl, (refl, (refl, tt)))

full-IsPast : IsPast 10 full 1255
unfolding lookup
full-IsPast key w late = ground arith

retry_allowed_example :
    let (decision, l') = check 10 full 1255 "al" in
    (check 10 l' (1255 + decision.retry_after_seconds * 10) "al").0.allowed ≡ true
unfolding check decide prune lookup insert
retry_allowed_example =
    retry_allowed 10 full 1255 "al" (omega arith) (omega arith) (omega arith) full-IsPast refl
