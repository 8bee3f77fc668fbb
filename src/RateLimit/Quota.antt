-- ===== src/RateLimit/Quota.antt =====
-- How many requests a caller is granted in a window, whatever the other callers do.
use Prim.Native.Nat.{min}
use nexa_assist.Common.{
  ℕ, ◌+◌, ◌-◌, ◌*◌, ◌/◌, ◌≤◌, ◌<◌, String, ◌≡◌, refl, true, false, none, List, [], ◌∷◌, arith, ltb,
  if◌then◌else◌, string_key, nat_key, pair_key, ◌==◌, ==_iff, ◌&&◌, Bool-cases, inl, inr, All,
}
use nexa_assist.Dict.{lookup}
use nexa_assist.RateLimit.{Limiter, used_of, decide, window_of, check}
use nexa_assist.RateLimit.Windows.{lookup-prune, check_counts, retry_reaches}

div_mono : (a b w : ℕ) → a ≤ b → a / w ≤ b / w
div_mono a b w h = grind arith

-- A caller's requests among a sequence of requests, and those of them that are allowed.
abbrev pub asked : String → List (ℕ × String) → ℕ
asked key [] = 0
asked key ((now, k) ∷ requests) = (if k == key then 1 else 0) + asked key requests

module _ (unit : ℕ) where
  unfoldable pub granted : String → Limiter → List (ℕ × String) → ℕ
  granted key l [] = 0
  granted key l ((now, k) ∷ requests) =
      let (decision, l') = check unit l now k in
      (if k == key && decision.allowed then 1 else 0) + granted key l' requests

  check_allowed :
      (l : Limiter) (now : ℕ) (key : String)
      → (check unit l now key).0.allowed ≡ (
          if ltb l.limit (used_of (lookup (key, window_of unit l now) l.counts) + 1)
          then false
          else true)
  unfolding check decide
  check_allowed l now key = rw lookup-prune (ground arith)

  limit-check : (l : Limiter) (now : ℕ) (key : String) → (check unit l now key).1.limit ≡ l.limit
  unfolding check
  limit-check l now key = refl

  window-check : (l : Limiter) (now : ℕ) (key : String) → (check unit l now key).1.window ≡ l.window
  unfolding check
  window-check l now key = refl

  used-check :
      (l : Limiter) (now w : ℕ) (k key : String)
      → window_of unit l now ≡ w
      → used_of (lookup (key, w) (check unit l now k).1.counts)
        ≡ used_of (lookup (key, w) l.counts) + (if k == key then 1 else 0)
  used-check l now w k key e = rw (← e) (
      rw check_counts (elim (Bool-cases (k == key)) [
        | inl same ↦ rw ((==_iff k key).0 same) (ground (arith, ==_iff key key))
        | inr other ↦ rw other (ground arith)
      ]))

  allowed_step :
      (l : Limiter) (now w : ℕ) (k key : String)
      → window_of unit l now ≡ w
      → (k == key) ≡ true
      → (check unit l now k).0.allowed
        ≡ (if ltb l.limit (used_of (lookup (key, w) l.counts) + 1) then false else true)
  allowed_step l now w k key e same =
      rw (← e) (rw (← (==_iff k key).0 same) (check_allowed l now k))

  -- Of the requests that a caller makes within one window, mixed in any way with those of other
  -- callers, exactly as many are allowed as the limit leaves: the first ones.
  pub granted_lem :
      (key : String) (l : Limiter) (w : ℕ) (requests : List (ℕ × String))
      → All (λ r. r.0 / (l.window * unit) ≡ w) requests
      → granted key l requests
        ≡ min (asked key requests) (l.limit - used_of (lookup (key, w) l.counts))
  unfolding granted
  granted_lem key l w [] h = omega arith
  granted_lem key l w ((now, k) ∷ requests) h =
      let later =
        granted_lem key (check unit l now k).1 w requests (rw (window-check l now k) h.1) in
      let used = used-check l now w k key h.0 in
      elim (Bool-cases (k == key)) [
        | inl same ↦
            ground (arith, later, used, limit-check l now k, allowed_step l now w k key h.0 same)
        | inr other ↦ ground (arith, later, used, limit-check l now k)
      ]

  -- No window later than that of `now` has a count; so it is as long as the clock never goes back.
  abbrev pub IsPast : Limiter → ℕ → Type 0
  IsPast l now = (key : String) (w : ℕ) → window_of unit l now < w → lookup (key, w) l.counts ≡ none

  pub check-IsPast :
      (l : Limiter) (now later : ℕ) (key : String)
      → now ≤ later
      → IsPast l now
      → IsPast (check unit l later key).1 later
  check-IsPast l now later key le past k w late = ground (
    arith,
    check_counts unit l later key (k, w),
    past k w,
    div_mono now later (l.window * unit) le,
    window-check l later key,
  )

  check_retry :
      (l : Limiter) (now : ℕ) (key : String)
      → 0 < unit
      → 0 < l.window
      → (check unit l now key).0.allowed ≡ false
      → (now + (check unit l now key).0.retry_after_seconds * unit) / (l.window * unit)
        ≡ now / (l.window * unit) + 1
  unfolding check
  check_retry l now key u p refused = (retry_reaches unit _ l.limit l.window now u p refused).2

  -- A refused caller that waits exactly as long as it was told is allowed at its next request.
  pub retry_allowed :
      (l : Limiter) (now : ℕ) (key : String)
      → 0 < unit
      → 0 < l.window
      → 0 < l.limit
      → IsPast l now
      → (check unit l now key).0.allowed ≡ false
      → let (decision, l') = check unit l now key in
        (check unit l' (now + decision.retry_after_seconds * unit) key).0.allowed ≡ true
  retry_allowed l now key u p q past refused =
      let (decision, l') = check unit l now key in
      let later = now + decision.retry_after_seconds * unit in
      let w = window_of unit l now in
      let next : window_of unit l later ≡ w + 1 = check_retry l now key u p refused in
      ground (
        arith,
        check_allowed l' later key,
        limit-check l now key,
        window-check l now key,
        next,
        check_counts unit l now key (key, w + 1),
        past key (w + 1),
      )
