-- ===== src/RateLimit/Windows.antt =====
-- The fixed window: what a check counts, and when a refused caller may come back.
use Prim.Native.Nat.{max}
use native.Mathlib.Nat.{mod-lt, div-add-mod}
use nexa_assist.Common.{
  ℕ, ◌+◌, ◌-◌, ◌*◌, ◌/◌, ◌%◌, ◌≤◌, ◌<◌, String, ◌≡◌, false, none, some, [], ◌∷◌, arith, ltb,
  if◌then◌else◌, string_key, nat_key, pair_key, ◌==◌, ==_iff,
}
use nexa_assist.Dict.{lookup, lookup-insert}
use nexa_assist.RateLimit.{Counts, Limiter, prune, used_of, decide, window_of, check, ceil_div}

pub lookup-prune :
    (current : ℕ) (k : String × ℕ) (counts : Counts)
    → lookup k (prune current counts) ≡ (if ltb k.1 current then none else lookup k counts)
unfolding lookup prune
lookup-prune current k [] = ground arith
lookup-prune current k ((j, used) ∷ counts) =
    ground (arith, ==_iff j k, lookup-prune current k counts)

ceil_div_bounds :
    (d unit : ℕ) → 0 < unit → (d ≤ ceil_div d unit * unit) × (ceil_div d unit * unit < d + unit)
ceil_div_bounds d unit u = grind arith

div_unique : (x w q : ℕ) → w * q ≤ x → x < w * q + w → x / w ≡ q
div_unique x w q lo hi = grind arith

le_of_mul : (c w unit : ℕ) → 0 < unit → c * unit < w * unit + unit → c ≤ w
le_of_mul c w unit u h = grind arith

ceil_div_pos : (d unit : ℕ) → 0 < unit → 0 < d → 1 ≤ ceil_div d unit
ceil_div_pos d unit u p = grind arith

-- A wait that covers the rest of the window, and less than one unit more, ends in the next window.
lands_next :
    (size q r c unit now : ℕ)
    → size * q + r ≡ now
    → r < size
    → unit ≤ size
    → size - r ≤ c * unit
    → c * unit < size - r + unit
    → (size * (q + 1) ≤ now + c * unit) × (now + c * unit < size * (q + 1) + size)
lands_next size q r c unit now split short fine lo hi = omega arith

module _ (unit : ℕ) where
  -- After a check the caller's count in the current window is one up, the counts of earlier windows
  -- are gone, and every other count is as it was.
  pub check_counts :
      (l : Limiter) (now : ℕ) (key : String) (k : String × ℕ)
      → let w = window_of unit l now in
        lookup k (check unit l now key).1.counts ≡ (
          if (key, w) == k
          then some (used_of (lookup (key, w) l.counts) + 1)
          else if ltb k.1 w
          then none
          else lookup k l.counts)
  unfolding check
  check_counts l now key k =
      simp (lookup-insert, lookup-prune) (ground (arith, ==_iff (key, window_of unit l now) k))

  refused :
      (used limit window now : ℕ)
      → (decide unit used limit window now).allowed ≡ false
      → limit < used
  unfolding decide
  refused used limit window now h = ground arith

  pub retry_lem :
      (used limit window now : ℕ)
      → (decide unit used limit window now).allowed ≡ false
      → (decide unit used limit window now).retry_after_seconds
        ≡ max 1 (ceil_div (window * unit - now % (window * unit)) unit)
  unfolding decide
  retry_lem used limit window now h = ground arith

  wait_bounds :
      (window now wait : ℕ)
      → 0 < unit
      → 0 < window
      → wait ≡ max 1 (ceil_div (window * unit - now % (window * unit)) unit)
      → (1 ≤ wait)
        × (wait ≤ window)
        × ((now + wait * unit) / (window * unit) ≡ now / (window * unit) + 1)
  wait_bounds window now wait u w e =
      let size = window * unit in
      let pos : 0 < size = grind arith in
      let r : now % size < size = mod-lt now pos in
      let split : size * (now / size) + now % size ≡ now = div-add-mod now size in
      let (lo, hi) = ceil_div_bounds (size - now % size) unit u in
      let one = ceil_div_pos (size - now % size) unit u (omega arith) in
      let same : wait ≡ ceil_div (size - now % size) unit = omega arith in
      let wide : unit ≤ size = grind arith in
      let (first, last) = lands_next size (now / size) (now % size) _ unit now split r wide lo hi in
      let fits : wait ≤ window = le_of_mul wait window unit u (
        rw same
          (let h : ceil_div (size - now % size) unit * unit < size + unit = omega arith in h)) in
      (omega arith, fits, div_unique _ size _ (rw same first) (rw same last))

  -- A refused caller is told to wait at least one second and at most a window, and after exactly
  -- that long the next window has begun.
  pub retry_reaches :
      (used limit window now : ℕ)
      → 0 < unit
      → 0 < window
      → (decide unit used limit window now).allowed ≡ false
      → let wait = (decide unit used limit window now).retry_after_seconds in
        (1 ≤ wait)
        × (wait ≤ window)
        × ((now + wait * unit) / (window * unit) ≡ now / (window * unit) + 1)
  retry_reaches used limit window now u w h =
      wait_bounds window now _ u w (retry_lem used limit window now h)
