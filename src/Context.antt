-- ===== src/Context.antt =====
-- backend/app/services/context.py: `ContextWindow`, and `estimate_tokens` of
-- backend/app/services/conversation.py. A text is the list of its code points; what counts as white
-- space for `rstrip` is a parameter. A stored message is what the window reads of one.
pub mod Budget
pub mod Selection
mod Tests
use Prim.Native.Nat.{max}
use nexa_assist.Common.{
  ℕ, ◌+◌, ◌-◌, ◌*◌, ◌/◌, Bool, true, false, List, [], ◌∷◌, ◌++◌, reverse, length, take, leb, nat_eq,
  ltb, if◌then◌else◌, Result, ok, err, raise_if, ◌>>◌, String,
}
use nexa_assist.Names.{codes}

pub data MessageRole : Type 0 where
  customer assistant : MessageRole

pub record ConversationMessage : Type 0 where
  pub role : MessageRole
  pub content : List ℕ
  pub token_estimate : ℕ

pub record ContextMessage : Type 0 where
  pub role : MessageRole
  pub content : List ℕ
  pub tokens : ℕ

pub record ConversationContext : Type 0 where
  pub messages : List ContextMessage
  pub total_tokens : ℕ
  pub dropped : ℕ
  pub truncated : Bool

abbrev pub chars_per_token : ℕ
chars_per_token = 4

-- max(1, -(-len(text) // CHARS_PER_TOKEN))
unfoldable pub estimate_tokens : List ℕ → ℕ
estimate_tokens text = max 1 ((length text + 3) / chars_per_token)

abbrev pub truncation_marker : List ℕ
truncation_marker = codes " …[truncated]"

module _ (is_space : ℕ → Bool) where
  -- str.rstrip
  unfoldable pub rstrip : List ℕ → List ℕ
  rstrip [] = []
  rstrip (c ∷ text) = elim (rstrip text) [
    | [] ↦ if is_space c then [] else c ∷ []
    | d ∷ rest ↦ c ∷ d ∷ rest
  ]

  -- `_truncate`
  unfoldable pub truncate : List ℕ → ℕ → List ℕ
  truncate content budget_tokens =
      let characters = max 1 (budget_tokens * chars_per_token - length truncation_marker) in
      if leb (length content) characters
      then content
      else rstrip (take characters content) ++ truncation_marker

  abbrev pub whole : ConversationMessage → ContextMessage
  whole m = record { role = m.role; content = m.content; tokens = m.token_estimate }

  abbrev pub shortened : ConversationMessage → ℕ → ContextMessage
  shortened m remaining = record {
    role = m.role;
    content = truncate m.content remaining;
    tokens = remaining;
  }

  -- The loop over the reversed history. `kept` is in reading order: consing is what appending
  -- and the final `reverse` come to.
  unfoldable pub select :
      ℕ → List ConversationMessage → List ContextMessage → ℕ → List ContextMessage × ℕ × Bool
  select max_tokens [] kept used = (kept, used, false)
  select max_tokens (m ∷ older) kept used =
      let rest = select max_tokens older (whole m ∷ kept) (used + m.token_estimate) in
      if leb max_tokens used
      then (kept, used, false)
      else if leb m.token_estimate (max_tokens - used)
      then rest
      else elim kept [
        | [] ↦ (shortened m (max_tokens - used) ∷ [], used + (max_tokens - used), true)
        | newer ∷ rest' ↦ (newer ∷ rest', used, false)
      ]

  unfoldable pub build : ℕ → List ConversationMessage → ConversationContext
  build max_tokens history =
      let (kept, used, truncated) = select max_tokens (reverse history) [] 0 in
      record {
        messages = kept;
        total_tokens = used;
        dropped = length history - length kept;
        truncated = truncated;
      }

-- the constructor's check
pub data ContextFault : Type 0 where
  value_error : ContextFault

unfoldable pub new_window : ℕ → Result ContextFault ℕ
new_window max_tokens = do raise_if (ltb max_tokens 1) value_error; ok max_tokens
