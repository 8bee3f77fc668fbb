-- ===== src/Conversations.antt =====
-- backend/app/services/conversation.py: `ConversationService`. The database session is a parameter:
-- an operation gives `none` for an error of the database, and the laws of `Session` say what its
-- statements do to the two tables, the unique constraint on positions included. Citations are of any
-- type; identifiers are texts; creation times and log lines are left out.
pub mod Positions
pub mod Races
pub mod Ownership
pub mod Tests
use nexa_assist.Common.{
  ℕ, ◌+◌, String, ◌≡◌, Bool, true, false, not, ◌&&◌, ◌||◌, Option, none, some, List, [], ◌∷◌, ◌++◌,
  Result, ok, err, ◌>>=◌, ◌>>◌, raise_if, string_key, nat_eq, leb, ◌==◌, if◌then◌else◌, is_some,
}
use nexa_assist.Names.{codes}
use nexa_assist.Dict.{Dict, lookup, insert}
use nexa_assist.Auth.{OwnerScope, permits}
use nexa_assist.Context.{MessageRole, estimate_tokens}

pub record Conversation : Type 0 where
  pub id : String
  pub customer_id : String
  pub owner_subject : Option String

pub record MessageRow (C : Type 0) : Type 0 where
  pub conversation_id : String
  pub position : ℕ
  pub role : MessageRole
  pub content : String
  pub token_estimate : ℕ
  pub citations : List C

pub record Tables (C : Type 0) : Type 0 where
  pub conversations : Dict String Conversation
  pub messages : List (MessageRow C)

abbrev pub larger : ℕ → Option ℕ → ℕ
larger n none = n
larger n (some m) = if leb m n then n else m

-- SELECT max(position) WHERE conversation_id = id
unfoldable pub highest : {C : Type 0} → String → List (MessageRow C) → Option ℕ
highest id [] = none
highest id (m ∷ messages) =
    let rest = highest id messages in
    if m.conversation_id == id then some (larger m.position rest) else rest

-- Some row has this conversation and position.
unfoldable pub taken : {C : Type 0} → String → ℕ → List (MessageRow C) → Bool
taken id n [] = false
taken id n (m ∷ messages) = (m.conversation_id == id && nat_eq m.position n) || taken id n messages

pub record Session (C S : Type 0) : Type 0 where
  pub tables : S → Tables C
  pub get_row : S → String → Option (Option Conversation)
  pub max_position : S → String → Option (Option ℕ)
  pub add_message : S → MessageRow C → Option S
  pub add_conversation : S → Conversation → Option S
  pub get_row_law :
      (s : S) (id : String) (r : Option Conversation)
      → get_row s id ≡ some r
      → r ≡ lookup id (tables s).conversations
  pub max_position_law :
      (s : S) (id : String) (r : Option ℕ)
      → max_position s id ≡ some r
      → r ≡ highest id (tables s).messages
  pub add_message_law :
      (s s' : S) (m : MessageRow C)
      → add_message s m ≡ some s'
      → tables s' ≡ record (tables s) { messages = (tables s).messages ++ m ∷ [] }
  pub add_message_unique :
      (s s' : S) (m : MessageRow C)
      → add_message s m ≡ some s'
      → taken m.conversation_id m.position (tables s).messages ≡ false
  pub add_conversation_law :
      (s s' : S) (c : Conversation)
      → add_conversation s c ≡ some s'
      → tables s' ≡ record (tables s) { conversations = insert c.id c (tables s).conversations }

pub data Fault : Type 0 where
  conversation_not_found database_error llm_error : Fault

-- A statement that the database may refuse.
abbrev pub executed : {A : Type 0} → Option A → Result Fault A
executed none = err database_error
executed (some a) = ok a

-- `scope is not None and not scope.permits(owner)`
abbrev pub refuses : Option OwnerScope → Conversation → Bool
refuses none c = false
refuses (some scope) c = not (permits scope c.owner_subject)

abbrev pub visible : Option OwnerScope → Option Conversation → Result Fault Conversation
visible scope none = err conversation_not_found
visible scope (some c) = do raise_if (refuses scope c) conversation_not_found; ok c

-- 0 if highest is None else highest + 1
abbrev pub next_after : Option ℕ → ℕ
next_after none = 0
next_after (some n) = n + 1

module _ {C S : Type 0} (session : Session C S) where
  -- `start`; the identifier is the new UUID
  unfoldable pub start : S → String → String → Option String → Result Fault (Conversation × S)
  start s new_id customer_id owner_subject = do
    let c : Conversation = record {
      id = new_id;
      customer_id = customer_id;
      owner_subject = owner_subject;
    }
    s' ← executed (session.add_conversation s c)
    ok (c, s')

  unfoldable pub get : S → String → Option OwnerScope → Result Fault Conversation
  get s id scope = do row ← executed (session.get_row s id); visible scope row

  -- `_next_position`
  unfoldable pub next_position : S → String → Result Fault ℕ
  next_position s id = do top ← executed (session.max_position s id); ok (next_after top)

  -- The row that `append` stores.
  abbrev pub message_at : String → ℕ → MessageRole → String → List C → MessageRow C
  message_at id position role content citations = record {
    conversation_id = id;
    position = position;
    role = role;
    content = content;
    token_estimate = estimate_tokens (codes content);
    citations = citations;
  }

  unfoldable pub append :
      S
      → String
      → MessageRole
      → String
      → List C
      → Option OwnerScope
      → Result Fault (MessageRow C × S)
  unfolding get next_position
  append s id role content citations scope = do
    c ← get s id scope
    position ← next_position s id
    let m = message_at id position role content citations
    s' ← executed (session.add_message s m)
    ok (m, s')
