-- ===== src/Context/Budget.antt =====
-- The window never costs more than its budget.
use Prim.Native.Nat.{max}
use nexa_assist.Common.{
  ℕ, zero, suc, ◌+◌, ◌-◌, ◌*◌, ◌≤◌, ◌<◌, ◌≡◌, Bool, true, false, List, [], ◌∷◌, reverse, length,
  take, leb, arith, sum_map, All, length-append, Bool-cases, inl, inr,
}
use nexa_assist.Context.{
  ConversationMessage, ContextMessage, estimate_tokens, truncation_marker, rstrip, truncate, whole,
  shortened, select, build, chars_per_token,
}

module _ (is_space : ℕ → Bool) where
  length-rstrip-le : (text : List ℕ) → length (rstrip is_space text) ≤ length text
  unfolding rstrip
  length-rstrip-le [] = omega arith
  length-rstrip-le (c ∷ text) = ground (arith, length-rstrip-le text)

  length-take-le : (n : ℕ) (text : List ℕ) → length (take n text) ≤ n
  length-take-le zero text = omega arith
  length-take-le (suc n) [] = omega arith
  length-take-le (suc n) (c ∷ text) = omega (arith, length-take-le n text)

  -- From a budget of four tokens on, a truncated text is estimated within the budget, marker
  -- included. (With fewer tokens the marker alone is over it.)
  pub truncate_fits :
      (content : List ℕ) (budget : ℕ)
      → 4 ≤ budget
      → estimate_tokens (truncate is_space content budget) ≤ budget
  unfolding truncate estimate_tokens
  truncate_fits content budget h =
      let n = max 1 (budget * chars_per_token - length truncation_marker) in
      let text = rstrip is_space (take n content) in
      ground (
        arith,
        length-append text truncation_marker,
        length-rstrip-le (take n content),
        length-take-le n content,
      )

  -- For every budget below that there is a text whose truncation is estimated above it.
  pub truncate_exceeds :
      (content : List ℕ) (budget : ℕ) (c : ℕ)
      → budget < 4
      → is_space c ≡ false
      → 1 ≤ length content
      → budget < estimate_tokens (truncate is_space (c ∷ content) budget)
  unfolding truncate estimate_tokens rstrip
  truncate_exceeds content budget c h s l =
      let one : max 1 (budget * chars_per_token - length truncation_marker) ≡ 1 = omega arith in
      rw one (ground arith)

  pub select_total :
      (limit : ℕ) (older : List ConversationMessage) (kept : List ContextMessage) (used : ℕ)
      → used ≤ limit
      → used ≡ sum_map (λ m. m.tokens) kept
      → let (kept', used', _) = select is_space limit older kept used in
        (used' ≤ limit) × (used' ≡ sum_map (λ m. m.tokens) kept')
  unfolding select
  select_total limit [] kept used h e = (h, e)
  select_total limit (m ∷ older) [] used h e =
      ground (arith, select_total limit older (whole is_space m ∷ []) (used + m.token_estimate))
  select_total limit (m ∷ older) (k ∷ kept) used h e =
      ground
        (arith, select_total limit older (whole is_space m ∷ k ∷ kept) (used + m.token_estimate))

  -- A kept turn whose text is estimated at no more than it is counted for.
  abbrev pub Covered : ContextMessage → Type 0
  Covered c = estimate_tokens c.content ≤ c.tokens

  abbrev pub Estimated : ConversationMessage → Type 0
  Estimated m = m.token_estimate ≡ estimate_tokens m.content

  select-Covered :
      (limit : ℕ) (older : List ConversationMessage) (kept : List ContextMessage) (used : ℕ)
      → 4 ≤ limit
      → used ≡ sum_map (λ m. m.tokens) kept
      → All Estimated older
      → All Covered kept
      → All Covered (select is_space limit older kept used).0
  unfolding select
  select-Covered limit [] kept used l u e c = c
  select-Covered limit (m ∷ older) kept used l u e c = elim (Bool-cases (leb limit used)) [
    | inl none_left ↦ rw none_left c
    | inr room ↦ elim (Bool-cases (leb m.token_estimate (limit - used))) [
      | inl fits ↦ rw room (
          rw fits (
            select-Covered limit older (whole is_space m ∷ kept) (used + m.token_estimate) l
              (omega arith) e.1 (omega arith, c)))
      | inr over ↦ rw room (rw over (cut kept u c))
    ]
  ]
    where
      cut :
          (k : List ContextMessage)
          → used ≡ sum_map (λ m. m.tokens) k
          → All Covered k
          → All Covered (
              let r : List ContextMessage × ℕ × Bool = elim k [
                | [] ↦ (shortened is_space m (limit - used) ∷ [], used + (limit - used), true)
                | newer ∷ rest ↦ (newer ∷ rest, used, false)
              ] in
              r.0)
      cut [] u c = (truncate_fits m.content (limit - used) (omega arith), tt)
      cut (newer ∷ rest) u c = c

  sum-Covered :
      (kept : List ContextMessage)
      → All Covered kept
      → sum_map (λ m. estimate_tokens m.content) kept ≤ sum_map (λ m. m.tokens) kept
  sum-Covered [] c = omega arith
  sum-Covered (k ∷ kept) c = omega (arith, sum-Covered kept c.1)

  -- For a history whose stored estimates are right and a budget of at least four tokens, the texts of
  -- the window together are estimated within the budget, also when a turn was truncated; the
  -- reported total is the sum of what the kept turns are counted for, and is within it too.
  pub build_fits :
      (limit : ℕ) (history : List ConversationMessage)
      → 4 ≤ limit
      → All Estimated (reverse history)
      → let c = build is_space limit history in
        (sum_map (λ m. estimate_tokens m.content) c.messages ≤ limit)
        × (c.total_tokens ≡ sum_map (λ m. m.tokens) c.messages)
        × (c.total_tokens ≤ limit)
  unfolding build
  build_fits limit history l e =
      let (fits, total) = select_total limit (reverse history) [] 0 (omega arith) (omega arith) in
      let covered =
        sum-Covered _ (select-Covered limit (reverse history) [] 0 l (omega arith) e tt) in
      (omega arith, total, fits)
