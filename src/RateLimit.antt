-- ===== src/RateLimit.antt =====
-- backend/app/ratelimit: the verdict (base.py) and the two limiters that need no server
-- (limiters.py). Time is counted in ticks, `unit` of them to a second, in place of the float that
-- the injected clock returns; the clock's reading is an argument. Logging is left out.
pub mod Windows
pub mod Quota
mod Tests
use Prim.Native.Nat.{max}
use nexa_assist.Common.{
  ℕ, ◌+◌, ◌-◌, ◌*◌, ◌/◌, ◌%◌, String, ◌≡◌, Bool, true, false, Option, none, some, List, [], ◌∷◌,
  arith, ltb, if◌then◌else◌, Result, ok, err, ◌>>◌, raise_if, string_key, nat_key, pair_key, ◌==◌,
  Eq, nat_eq_iff,
}
use nexa_assist.Dict.{Dict, lookup, insert}

pub record RateLimitDecision : Type 0 where
  pub allowed : Bool
  pub remaining : ℕ
  pub retry_after_seconds : ℕ

pub data LimitFault : Type 0 where
  configuration : LimitFault

unfoldable pub validate : ℕ → ℕ → Result LimitFault (Unit {0})
validate limit window_seconds = do
  raise_if (ltb limit 1) configuration
  raise_if (ltb window_seconds 1) configuration

-- math.ceil(a / unit)
abbrev pub ceil_div : ℕ → ℕ → ℕ
ceil_div a unit = (a + unit - 1) / unit

-- `NullRateLimiter.check`
unfoldable pub null_check : String → RateLimitDecision
null_check key = record { allowed = true; remaining = 0; retry_after_seconds = 0 }

abbrev pub Counts : Type 0
Counts = Dict (String × ℕ) ℕ

pub record Limiter : Type 0 where
  pub limit : ℕ
  pub window : ℕ
  pub counts : Counts

unfoldable pub new_limiter : ℕ → ℕ → Result LimitFault Limiter
unfolding validate
new_limiter limit window_seconds = do
  validate limit window_seconds
  ok (record { limit = limit; window = window_seconds; counts = [] })

-- `_prune`: the entries of earlier windows are dropped
unfoldable pub prune : ℕ → Counts → Counts
prune current [] = []
prune current ((k, used) ∷ counts) =
    let rest = prune current counts in if ltb k.1 current then rest else (k, used) ∷ rest

-- `counts.get(key, 0)`
abbrev pub used_of : Option ℕ → ℕ
used_of none = 0
used_of (some used) = used

module _ (unit : ℕ) where
  -- `_decide`
  unfoldable pub decide : ℕ → ℕ → ℕ → ℕ → RateLimitDecision
  decide used limit window_seconds now =
      let elapsed = now % (window_seconds * unit) in
      if ltb limit used
      then record {
        allowed = false;
        remaining = 0;
        retry_after_seconds = max 1 (ceil_div (window_seconds * unit - elapsed) unit);
      }
      else record { allowed = true; remaining = limit - used; retry_after_seconds = 0 }

  -- int(now // self._window)
  abbrev pub window_of : Limiter → ℕ → ℕ
  window_of l now = now / (l.window * unit)

  unfoldable pub check : Limiter → ℕ → String → RateLimitDecision × Limiter
  check l now key =
      let window = window_of l now in
      let counts = prune window l.counts in
      let used = used_of (lookup (key, window) counts) + 1 in
      (decide used l.limit l.window now, record l { counts = insert (key, window) used counts })
