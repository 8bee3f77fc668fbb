-- ===== src/Conversations/Positions.antt =====
-- The positions of a conversation's messages count up from 0 in the order of their arrival.
use nexa_assist.Common.{
  ℕ, suc, ◌+◌, ◌-◌, ◌≤◌, String, ◌≡◌, refl, ap, sym, ◌∙◌, Bool, true, false, ◌&&◌, Option, none,
  some, List, [], ◌∷◌, ◌++◌, arith, ok, string_key, nat_eq, ltb, ◌==◌, ==_iff, if◌then◌else◌,
  Option-cases, Bool-cases, inl, inr,
}
use nexa_assist.Dict.{lookup}
use nexa_assist.Auth.{OwnerScope}
use nexa_assist.Context.{MessageRole}
use nexa_assist.Conversations.{
  Conversation, MessageRow, Tables, Session, highest, taken, refuses, next_after, get,
  next_position, append, message_at,
}

module _ {C : Type 0} where
  -- How many messages a conversation has.
  abbrev pub count_of : String → List (MessageRow C) → ℕ
  count_of id [] = 0
  count_of id (m ∷ messages) = (if m.conversation_id == id then 1 else 0) + count_of id messages

  -- The positions of its messages are n, n + 1, ...
  abbrev pub in_order : ℕ → String → List (MessageRow C) → Bool
  in_order n id [] = true
  in_order n id (m ∷ messages) =
      if m.conversation_id == id
      then nat_eq m.position n && in_order (suc n) id messages
      else in_order n id messages

  highest-in_order :
      (n : ℕ) (id : String) (messages : List (MessageRow C))
      → in_order n id messages ≡ true
      → highest id messages
        ≡ (if nat_eq (count_of id messages) 0 then none else some (n + count_of id messages - 1))
  unfolding highest
  highest-in_order n id [] h = refl
  highest-in_order n id (m ∷ messages) h = ground (
    arith,
    ==_iff m.conversation_id id,
    highest-in_order n id messages,
    highest-in_order (suc n) id messages,
  )

  pub in_order-append :
      (n : ℕ) (id : String) (messages : List (MessageRow C)) (m : MessageRow C)
      → in_order n id (messages ++ m ∷ []) ≡ (
          in_order n id messages
          && (if m.conversation_id == id
              then nat_eq m.position (n + count_of id messages)
              else true))
  in_order-append n id [] m = ground arith
  in_order-append n id (x ∷ messages) m =
      ground (arith, in_order-append n id messages m, in_order-append (suc n) id messages m)

  pub count_of-append :
      (id : String) (messages : List (MessageRow C)) (m : MessageRow C)
      → count_of id (messages ++ m ∷ [])
        ≡ count_of id messages + (if m.conversation_id == id then 1 else 0)
  count_of-append id [] m = omega arith
  count_of-append id (x ∷ messages) m = omega (arith, count_of-append id messages m)

  -- The positions that are taken are those below the number of messages.
  pub taken-in_order :
      (n k : ℕ) (id : String) (messages : List (MessageRow C))
      → in_order n id messages ≡ true
      → n ≤ k
      → taken id k messages ≡ ltb k (n + count_of id messages)
  unfolding taken
  taken-in_order n k id [] h le = ground arith
  taken-in_order n k id (m ∷ messages) h le = elim (Bool-cases (nat_eq k n)) [
    | inl same ↦ ground (arith, taken-in_order n k id messages)
    | inr more ↦
        ground (arith, taken-in_order n k id messages, taken-in_order (suc n) k id messages)
  ]

  abbrev pub InOrder : Tables C → Type 0
  InOrder t = (id : String) → in_order 0 id t.messages ≡ true

  pub next-count :
      (t : Tables C) (id : String)
      → InOrder t
      → next_after (highest id t.messages) ≡ count_of id t.messages
  next-count t id h = ground (arith, highest-in_order 0 id t.messages (h id))

  -- A message in its place keeps the order.
  pub add-InOrder :
      (t : Tables C) (m : MessageRow C)
      → InOrder t
      → m.position ≡ count_of m.conversation_id t.messages
      → InOrder (record t { messages = t.messages ++ m ∷ [] })
  add-InOrder t m h e id = elim (Bool-cases (m.conversation_id == id)) [
    | inl mine ↦
        let place : m.position ≡ count_of id t.messages =
          e ∙ ap (λ i. count_of i t.messages) ((==_iff m.conversation_id id).0 mine) in
        ground (arith, in_order-append 0 id t.messages m, h id)
    | inr others ↦ ground (arith, in_order-append 0 id t.messages m, h id)
  ]

module _ {C S : Type 0} (session : Session C S) where
  -- What `append` stored, when it succeeds.
  pub record Appended (s : S) (id : String) (role : MessageRole) (content : String)
      (citations : List C) (scope : Option OwnerScope) (m : MessageRow C) (s' : S) : Type 0 where
    pub conversation : Conversation
    pub found : lookup id (session.tables s).conversations ≡ some conversation
    pub allowed : refuses scope conversation ≡ false
    pub position : ℕ
    pub next : position ≡ next_after (highest id (session.tables s).messages)
    pub row : m ≡ message_at session id position role content citations
    pub stored :
        session.tables s'
        ≡ record (session.tables s) { messages = (session.tables s).messages ++ m ∷ [] }

  pub append-Appended :
      (s s' : S) (id : String) (role : MessageRole) (content : String) (citations : List C)
      (scope : Option OwnerScope) (m : MessageRow C)
      → append session s id role content citations scope ≡ ok (m, s')
      → Appended s id role content citations scope m s'
  unfolding append get next_position
  append-Appended s s' id role content citations scope m h =
      elim (Option-cases (session.get_row s id)) [
        | inl down ↦ absurd (ground arith)
        | inr (row, got) ↦ elim (Option-cases row) [
          | inl missing ↦ absurd (ground arith)
          | inr (c, there) ↦ elim (Bool-cases (refuses scope c)) [
            | inl refused ↦ absurd (ground arith)
            | inr permitted ↦ elim (Option-cases (session.max_position s id)) [
              | inl down ↦ absurd (ground arith)
              | inr (top, known) ↦
                  let new = message_at session id (next_after top) role content citations in
                  elim (Option-cases (session.add_message s new)) [
                    | inl down ↦ absurd (ground arith)
                    | inr (s'', sent) ↦
                        let same_row : m ≡ new = ground arith in
                        let same_state : s'' ≡ s' = ground arith in
                        record {
                          conversation = c;
                          found = sym (session.get_row_law s id row got) ∙ there;
                          allowed = permitted;
                          position = next_after top;
                          next = ap next_after (session.max_position_law s id top known);
                          row = same_row;
                          stored =
                              session.add_message_law s s' m
                                (rw (same_row) (rw (← same_state) sent));
                        }
                  ]
            ]
          ]
        ]
      ]

  -- A turn that is appended takes the next position: where the positions of every conversation count
  -- up from 0 they still do, its own is the number of turns that the conversation had, and nothing
  -- else in the tables changes.
  pub append-InOrder :
      (s s' : S) (id : String) (role : MessageRole) (content : String) (citations : List C)
      (scope : Option OwnerScope) (m : MessageRow C)
      → append session s id role content citations scope ≡ ok (m, s')
      → InOrder (session.tables s)
      → InOrder (session.tables s')
        × (m.conversation_id ≡ id)
        × (m.position ≡ count_of id (session.tables s).messages)
        × (session.tables s'
            ≡ record (session.tables s) { messages = (session.tables s).messages ++ m ∷ [] })
  append-InOrder s s' id role content citations scope m h order =
      let done = append-Appended s s' id role content citations scope m h in
      let own : m.conversation_id ≡ id = rw (done.row) refl in
      let place : m.position ≡ count_of id (session.tables s).messages =
        ap (λ (x : MessageRow C). x.position) done.row
        ∙ done.next
        ∙ next-count (session.tables s) id order in
      let placed : m.position ≡ count_of m.conversation_id (session.tables s).messages =
        place ∙ ap (λ i. count_of i (session.tables s).messages) (sym own) in
      (rw (done.stored) (add-InOrder (session.tables s) m order placed), own, place, done.stored)
