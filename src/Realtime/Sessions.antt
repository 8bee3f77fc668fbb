-- ===== src/Realtime/Sessions.antt =====
-- backend/app/api/v1/realtime.py: tickets over HTTP, the handshake, and the life of one socket. The
-- client's frames are a list, at whose end it leaves; what is waited for in between is left out. The
-- length in bytes of a frame and its reading (pydantic) are parameters, and so are the clock, the new
-- ticket and the new identifier. Log lines and the texts of close frames are left out.
pub mod Handshake
pub mod Endings
pub mod Lifetimes
use nexa_assist.Common.{
  ℕ, String, Bool, true, false, not, ◌&&◌, Option, none, some, List, [], ◌∷◌, ◌++◌, Result, ok, err,
  ltb, if◌then◌else◌,
}
use nexa_assist.Text.{is_nonempty}
use nexa_assist.Auth.{
  RequestIdentity, anonymous_identity, key_identity, Authenticator, protects, Authorizer, scope_for,
  OwnerScope,
}
use nexa_assist.Tickets.{TicketStore, issue, redeem}
use nexa_assist.Realtime.Envelope.{
  ClientMessage, ping, ask, ServerMessage, ready, pong, error, Line, send,
}
use nexa_assist.Realtime.Registry.{ConnectionRegistry, add, remove}
use nexa_assist.Realtime.Answers.{AnswerStreamer, answer}

abbrev pub close_at_capacity : ℕ
close_at_capacity = 1008

abbrev pub close_too_large : ℕ
close_too_large = 1009

abbrev pub close_unauthenticated : ℕ
close_unauthenticated = 1008

-- The code of a close without one.
abbrev pub close_normal : ℕ
close_normal = 1000

abbrev pub protocol_error_code : String
protocol_error_code = "realtime_protocol_error"

abbrev pub protocol_error_message : String
protocol_error_message = "The message did not match the expected format."

-- `issue_ticket`
unfoldable pub issue_ticket : TicketStore → RequestIdentity → String → ℕ → ℕ → String × TicketStore
unfolding issue
issue_ticket tickets identity new pruned_at issued_at =
    issue tickets new identity.subject pruned_at issued_at

-- The identity that a redeemed ticket gives.
abbrev pub identity_of : Option String → Option RequestIdentity
identity_of none = none
identity_of (some subject) = some (key_identity subject)

-- The ticket of a protected handshake.
abbrev pub redeemed : Option String → TicketStore → ℕ → Option RequestIdentity × TicketStore
redeemed none tickets now = (none, tickets)
redeemed (some ticket) tickets now =
    if is_nonempty ticket
    then (identity_of (redeem tickets ticket now).0, (redeem tickets ticket now).1)
    else (none, tickets)

unfoldable pub authenticate_socket :
    Option String → Authenticator → TicketStore → ℕ → Option RequestIdentity × TicketStore
unfolding protects redeem
authenticate_socket ticket authenticator tickets now =
    if not (protects authenticator)
    then (some anonymous_identity, tickets)
    else redeemed ticket tickets now

-- How the loop of `_serve` ends: a frame that is too large was answered by a close, the client has left,
-- which the receiving side sees, or a frame could not be sent.
pub data Ending : Type 0 where
  too_large left unsent : Ending

-- `application_state`: what the server's side of the socket has done.
pub data WebSocketState : Type 0 where
  connected disconnected : WebSocketState

-- The state after the loop: the server's side is done with once it has sent a close frame, and also once
-- it could not send.
abbrev pub application_state : Ending → WebSocketState
application_state too_large = disconnected
application_state left = connected
application_state unsent = disconnected

-- The close frames that `_serve` has sent.
abbrev pub closed_by : Ending → List ℕ
closed_by too_large = close_too_large ∷ []
closed_by left = []
closed_by unsent = []

-- if websocket.application_state is WebSocketState.CONNECTED: await websocket.close()
abbrev pub close_if : WebSocketState → List ℕ → List ℕ
close_if connected closes = closes ++ close_normal ∷ []
close_if disconnected closes = closes

-- What is left when a socket has been served: the registry, the tickets, the line and the codes of
-- the close frames.
pub record Served (W C : Type 0) : Type 0 where
  pub registry : ConnectionRegistry
  pub tickets : TicketStore
  pub line : Line W C
  pub closes : List ℕ

module _ {W C I Raw : Type 0} (byte_length : Raw → ℕ)
    (parse_client_message : Raw → Option ClientMessage) (max_message_bytes : ℕ) where
  -- `_handle`, with `_busy` before and after
  unfoldable pub handle :
      AnswerStreamer W C I → Bool → Line W C → ClientMessage → Bool × Result (Line W C) (Line W C)
  unfolding answer
  handle streamer busy l (ask question id) = answer streamer busy l question id
  handle streamer busy l ping = (busy, send l pong)

  -- One frame: malformed, or handled.
  unfoldable pub respond_to :
      AnswerStreamer W C I
      → Bool
      → Line W C
      → Option ClientMessage
      → Bool × Result (Line W C) (Line W C)
  unfolding handle
  respond_to streamer busy l none =
      (busy, send l (error protocol_error_code protocol_error_message))
  respond_to streamer busy l (some message) = handle streamer busy l message

  -- `_serve`, the frames that the client sends before it leaves
  unfoldable pub serve : AnswerStreamer W C I → Bool → Line W C → List Raw → Ending × Line W C
  unfolding respond_to
  serve streamer busy l [] = (left, l)
  serve streamer busy l (raw ∷ frames) =
      let done = respond_to streamer busy l (parse_client_message raw) in
      if ltb max_message_bytes (byte_length raw)
      then (too_large, l)
      else elim done.1 [ err gone ↦ (unsent, gone) | ok l' ↦ serve streamer done.0 l' frames ]

  -- The greeting and the loop.
  unfoldable pub greet_and_serve :
      AnswerStreamer W C I → Line W C → String → List Raw → Ending × Line W C
  unfolding serve
  greet_and_serve streamer l id frames = elim (send l (ready id)) [
    | err gone ↦ (unsent, gone)
    | ok l' ↦ serve streamer false l' frames
  ]

  -- `realtime`; `streamer_for` builds the streamer under a scope
  unfoldable pub realtime :
      (Option OwnerScope → AnswerStreamer W C I)
      → Authenticator
      → Authorizer
      → ConnectionRegistry
      → TicketStore
      → Option String
      → ℕ
      → String
      → Line W C
      → List Raw
      → Served W C
  unfolding authenticate_socket add remove greet_and_serve scope_for
  realtime streamer_for authenticator authorizer registry tickets ticket now new_id l frames =
      let shaken = authenticate_socket ticket authenticator tickets now in
      let refused : ℕ → Served W C =
        λ code. record { registry = registry; tickets = shaken.1; line = l; closes = code ∷ [] } in
      elim shaken.0 [
        | none ↦ refused close_unauthenticated
        | some identity ↦ elim (add registry new_id) [
          | err full ↦ refused close_at_capacity
          | ok registry' ↦
              let scope = scope_for authorizer identity in
              let (ending, l') = greet_and_serve (streamer_for scope) l new_id frames in
              record {
                registry = remove registry' new_id;
                tickets = shaken.1;
                line = l';
                closes = close_if (application_state ending) (closed_by ending);
              }
        ]
      ]
