-- ===== src/Conversations/Tests.antt =====
-- A database that refuses duplicate positions only, and the theorems on conversations over it.
use nexa_assist.Common.{
  ℕ, String, ◌≡◌, ◌↔◌, refl, true, false, Option, none, some, [], ◌∷◌, ◌++◌, ok, err, arith,
  string_key, ◌==◌, if◌then◌else◌, ==_iff,
}
use nexa_assist.Dict.{lookup, insert}
use nexa_assist.Auth.{OwnerScope, permits}
use nexa_assist.Context.{customer}
use nexa_assist.Conversations.{
  Conversation, MessageRow, Tables, Session, conversation_not_found, highest, taken, get, append,
  message_at,
}
use nexa_assist.Conversations.Positions.{InOrder}
use nexa_assist.Conversations.Races.{reads, inserts, Reach, here, next, Reach-InOrder}
use nexa_assist.Conversations.Ownership.{append_hidden}

abbrev pub Held : Type 0
Held = Tables ℕ

abbrev stored : Held → MessageRow ℕ → Held
stored t m = record t { messages = t.messages ++ m ∷ [] }

abbrev add : Held → MessageRow ℕ → Option Held
add t m = if taken m.conversation_id m.position t.messages then none else some (stored t m)

pub add_stored : (t u : Held) (m : MessageRow ℕ) → add t m ≡ some u → u ≡ stored t m
add_stored t u m h = ground arith

pub add_unique :
    (t u : Held) (m : MessageRow ℕ)
    → add t m ≡ some u
    → taken m.conversation_id m.position t.messages ≡ false
add_unique t u m h = ground arith

pub some_same : {A : Type 0} (a b : A) → some a ≡ some b → b ≡ a
some_same a b h = ground arith

abbrev pub database : Session ℕ Held
database = record {
  tables = λ t. t;
  get_row = λ t id. some (lookup id t.conversations);
  max_position = λ t id. some (highest id t.messages);
  add_message = add;
  add_conversation = λ t c. some (record t { conversations = insert c.id c t.conversations });
  get_row_law = λ t id r. some_same (lookup id t.conversations) r;
  max_position_law = λ t id r. some_same (highest id t.messages) r;
  add_message_law = add_stored;
  add_message_unique = add_unique;
  add_conversation_law =
      λ t u c. some_same (record t { conversations = insert c.id c t.conversations }) u;
}

abbrev pub refund : Conversation
refund = record { id = "c1"; customer_id = "u1"; owner_subject = some "support" }

abbrev pub held : Held
held = record { conversations = ("c1", refund) ∷ []; messages = [] }

abbrev asked : MessageRow ℕ
asked = message_at database "c1" 0 customer "Where is it?" []

abbrev pub support : OwnerScope
support = record { subject = "support" }

appended :
    append database held "c1" customer "Where is it?" [] (some support)
    ≡ ok (asked, stored held asked)
unfolding append get lookup permits highest taken
appended = refl

-- Two appends read the same position; the first insert takes it.
raced :
    Reach database
      (record { store = held; waiting = [] })
      (record { store = stored held asked; waiting = ("c1", 0) ∷ [] })
unfolding taken highest
raced =
    next
      (next (next here (reads (record { store = held; waiting = [] }) "c1" none refl))
        (reads (record { store = held; waiting = ("c1", 0) ∷ [] }) "c1" none refl))
      (inserts (record { store = held; waiting = ("c1", 0) ∷ ("c1", 0) ∷ [] }) [] (("c1", 0) ∷ [])
        "c1" 0 customer "Where is it?" [] (stored held asked) refl refl)

Reach-InOrder_example : InOrder (stored held asked)
Reach-InOrder_example = Reach-InOrder database held _ (λ id. refl) raced

support_not_billing : (let a : String = "support" in let b : String = "billing" in a == b) ≡ false
support_not_billing = refl

not_billing : ◌≡◌ {A = Option String} (some "support") (some "billing") → ⊥
not_billing e =
    let a : String = "support" in
    let b : String = "billing" in
    let iff : ((a == b) ≡ true) ↔ (a ≡ b) = ==_iff a b in ground (arith, iff, support_not_billing)

append_hidden_example :
    let billing : OwnerScope = record { subject = "billing" } in
    (get database held "c1" (some billing) ≡ err conversation_not_found)
    × (append database held "c1" customer "Hi" [] (some billing) ≡ err conversation_not_found)
append_hidden_example =
    append_hidden database held "c1" (some refund) customer "Hi" [] (record { subject = "billing" })
      (unfold lookup in refl) (λ h. not_billing (unfold lookup in h))
