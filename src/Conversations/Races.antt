-- ===== src/Conversations/Races.antt =====
-- Appends of several requests that interleave: each reads the next position and inserts later.
use nexa_assist.Common.{
  ℕ, ◌≤◌, String, ◌≡◌, ap, Option, some, List, [], ◌∷◌, ◌++◌, arith, All, All-append, string_key,
}
use nexa_assist.Context.{MessageRole}
use nexa_assist.Conversations.{MessageRow, Tables, Session, next_after, message_at}
use nexa_assist.Conversations.Positions.{
  count_of, InOrder, count_of-append, taken-in_order, next-count, add-InOrder,
}

module _ {C S : Type 0} (session : Session C S) where
  -- The database, and what the appends under way have read: a conversation and its next position.
  pub record Racing : Type 0 where
    pub store : S
    pub waiting : List (String × ℕ)

  pub data Step : Racing → Racing → Type 0 where
    -- `_next_position`
    reads :
        (r : Racing) (id : String) (top : Option ℕ)
        → session.max_position r.store id ≡ some top
        → Step r (record r { waiting = (id, next_after top) ∷ r.waiting })
    -- the insert, which the database may refuse
    inserts :
        (r : Racing) (before later : List (String × ℕ)) (id : String) (n : ℕ) (role : MessageRole)
        (content : String) (citations : List C) (s' : S)
        → r.waiting ≡ before ++ (id, n) ∷ later
        → session.add_message r.store (message_at session id n role content citations) ≡ some s'
        → Step r (record { store = s'; waiting = before ++ later })
    gives_up :
        (r : Racing) (before later : List (String × ℕ)) (id : String) (n : ℕ)
        → r.waiting ≡ before ++ (id, n) ∷ later
        → Step r (record r { waiting = before ++ later })

  pub data Reach (r : Racing) : Racing → Type 0 where
    here : Reach r r
    next : {t u : Racing} → Reach r t → Step t u → Reach r u

  -- What an append has read is at most the number of messages.
  abbrev Seen : Tables C → String × ℕ → Type 0
  Seen t w = w.1 ≤ count_of w.0 t.messages

  record IsSound (r : Racing) : Type 0 where
    order : InOrder (session.tables r.store)
    seen : All (Seen (session.tables r.store)) r.waiting

  All-left :
      (P : String × ℕ → Type 0) (xs ys : List (String × ℕ)) → All P (xs ++ ys) → All P xs × All P ys
  All-left P [] ys h = (tt, h)
  All-left P (x ∷ xs) ys h = let (a, b) = All-left P xs ys h.1 in ((h.0, a), b)

  -- A message more leaves what was read below the number of messages.
  Seen-grows :
      (t : Tables C) (m : MessageRow C) (ws : List (String × ℕ))
      → All (Seen t) ws
      → All (Seen (record t { messages = t.messages ++ m ∷ [] })) ws
  Seen-grows t m [] h = tt
  Seen-grows t m (w ∷ ws) h =
      (omega (arith, h.0, count_of-append w.0 t.messages m), Seen-grows t m ws h.1)

  drop_one :
      (r : Racing) (t : Tables C) (before later : List (String × ℕ)) (w : String × ℕ)
      → r.waiting ≡ before ++ w ∷ later
      → All (Seen t) r.waiting
      → All (Seen t) (before ++ later) × Seen t w
  drop_one r t before later w e h =
      let split = All-left (Seen t) before (w ∷ later) (rw (← e) h) in
      (All-append (Seen t) before later split.0 split.1.1, split.1.0)

  Step-IsSound : {r u : Racing} → Step r u → IsSound r → IsSound u
  Step-IsSound (reads r id top known) h =
      let start : next_after top ≤ count_of id (session.tables r.store).messages = omega (
        arith,
        next-count (session.tables r.store) id h.order,
        ap next_after (session.max_position_law r.store id top known),
      ) in
      record { order = h.order; seen = (start, h.seen) }
  Step-IsSound (inserts r before later id n role content citations s' e sent) h =
      let t = session.tables r.store in
      let m = message_at session id n role content citations in
      let (others, mine) = drop_one r t before later (id, n) e h.seen in
      let free = session.add_message_unique r.store s' m sent in
      let place : n ≡ count_of id t.messages =
        ground (arith, taken-in_order 0 n id t.messages (h.order id) (omega arith)) in
      let stored = session.add_message_law r.store s' m sent in
      record {
        order = rw (stored) (add-InOrder t m h.order place);
        seen = rw (stored) (Seen-grows t m (before ++ later) others);
      }
  Step-IsSound (gives_up r before later id n e) h = record {
    order = h.order;
    seen = (drop_one r (session.tables r.store) before later (id, n) e h.seen).0;
  }

  Reach-IsSound : {r u : Racing} → IsSound r → Reach r u → IsSound u
  Reach-IsSound h here = h
  Reach-IsSound h (next r st) = Step-IsSound st (Reach-IsSound h r)

  -- However appends interleave, each between its read of the next position and its insert, the
  -- positions of every conversation keep counting up from 0: an insert at a position that another
  -- append has taken meanwhile is refused by the unique constraint.
  pub Reach-InOrder :
      (s : S) (u : Racing)
      → InOrder (session.tables s)
      → Reach (record { store = s; waiting = [] }) u
      → InOrder (session.tables u.store)
  Reach-InOrder s u order reached =
      (Reach-IsSound (record { order = order; seen = tt }) reached).order
