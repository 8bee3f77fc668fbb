-- ===== src/Context/Selection.antt =====
-- Which turns the window keeps: the most recent ones, as many as fit.
use Prim.Native.Nat.{max}
use nexa_assist.Common.{
  ℕ, ◌+◌, ◌<◌, ◌≤◌, sum_map, ◌≡◌, Bool, List, [], ◌∷◌, ◌++◌, reverse, map, length,
}
use nexa_assist.Context.{ConversationMessage, ContextMessage, ConversationContext, whole}

module _ (is_space : ℕ → Bool) where
  -- The turns taken, newest first, put before what was kept.
  abbrev onto : List ConversationMessage → List ContextMessage → List ContextMessage
  onto [] kept = kept
  onto (m ∷ taken) kept = onto taken (whole is_space m ∷ kept)

  -- The selection stopped for want of room, or at the end of the history.
  abbrev pub Full : ℕ → ℕ → List ConversationMessage → Type 0
  Full limit used [] = Unit
  Full limit used (m ∷ _) = limit < used + max 1 m.token_estimate

  pub record Selected (limit : ℕ) (older : List ConversationMessage)
      (kept kept' : List ContextMessage) (used' : ℕ) : Type 0 where
    pub taken : List ConversationMessage
    pub left : List ConversationMessage
    pub split : older ≡ taken ++ left
    pub result : kept' ≡ onto taken kept
    pub full : Full limit used' left

  -- What an untruncated window of a history is: the whole turns of its most recent part, in reading
  -- order, whose estimates sum up to at most the budget; the rest is counted as dropped, and its newest
  -- turn would not have fitted.
  pub record IsWindow (limit : ℕ) (history : List ConversationMessage) (c : ConversationContext)
      : Type 0 where
    pub earlier : List ConversationMessage
    pub recent : List ConversationMessage
    pub split : history ≡ reverse earlier ++ recent
    pub messages : c.messages ≡ map (whole is_space) recent
    pub dropped : c.dropped ≡ length earlier
    pub total : c.total_tokens ≡ sum_map (λ m. m.token_estimate) recent
    pub fits : c.total_tokens ≤ limit
    pub full : Full limit c.total_tokens earlier
