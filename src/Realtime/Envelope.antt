-- ===== src/Realtime/Envelope.antt =====
-- backend/app/realtime/envelope.py and connection.py's `Connection`: the frames of the protocol and
-- the line to one client. A frame from the client is what pydantic makes of its JSON. Conversation
-- identifiers are texts.
use nexa_assist.Common.{
  ℕ, zero, suc, String, Bool, true, ◌&&◌, Option, List, [], ◌∷◌, ◌++◌, Result, ok, err, ◌>>=◌, leb,
}
use nexa_assist.Text.{text_length}

abbrev pub max_question_length : ℕ
max_question_length = 4_000

pub data ClientMessage : Type 0 where
  ping : ClientMessage
  ask : String → Option String → ClientMessage

-- The constraints on the fields of a frame.
unfoldable pub admissible : ClientMessage → Bool
admissible ping = true
admissible (ask question conversation_id) =
    leb 1 (text_length question) && leb (text_length question) max_question_length

pub data ServerMessage (C : Type 0) : Type 0 where
  ready : String → ServerMessage C
  pong : ServerMessage C
  delta : String → ServerMessage C
  -- text, deltas, conversation_id, grounded, citations, escalated
  complete : String → ℕ → Option String → Bool → List C → Bool → ServerMessage C
  -- code, message
  error : String → String → ServerMessage C

-- What has been sent, and how many frames the client takes before it is gone, which the network
-- decides; `world` is the state of what an answer uses.
pub record Line (W C : Type 0) : Type 0 where
  pub world : W
  pub sent : List (ServerMessage C)
  pub room : ℕ

module _ {W C : Type 0} where
  -- `Connection.send`; the error is a client that is gone, with the line as it was left.
  unfoldable pub send : Line W C → ServerMessage C → Result (Line W C) (Line W C)
  send l f = elim l.room [
    | zero ↦ err l
    | suc n ↦ ok (record l { sent = l.sent ++ f ∷ []; room = n })
  ]

  -- `for …: await connection.send(…)`
  unfoldable pub send_all : Line W C → List (ServerMessage C) → Result (Line W C) (Line W C)
  unfolding send
  send_all l [] = ok l
  send_all l (f ∷ frames) = do l' ← send l f; send_all l' frames
