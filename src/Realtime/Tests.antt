-- ===== src/Realtime/Tests.antt =====
-- Two sockets over the service of Assistant.Tests: one that answers from the pipeline, and one without
-- a database whose recorder fails once the answer is there.
use nexa_assist.Common.{
  ℕ, ◌+◌, ◌-◌, ◌≤◌, String, ◌≡◌, refl, true, false, Option, none, some, List, [], ◌∷◌, ◌++◌, map,
  ok, err, length, leb, if◌then◌else◌, arith, string_key, All,
}
use nexa_assist.Dict.{lookup, insert}
use nexa_assist.Text.{join, text_length, is_spaces}
use nexa_assist.Auth.{
  key_identity, api_keys, Authenticator, subject_scoped, permits, RequestIdentity, protects,
}
use nexa_assist.Context.{MessageRole, customer, assistant}
use nexa_assist.Conversations.{append, highest, taken}
use nexa_assist.Conversations.Tests.{Held, held, support}
use nexa_assist.Assistant.{respond}
use nexa_assist.Assistant.Tests.{service, reply, exchange, responds}
use nexa_assist.Tickets.{TicketStore}
use nexa_assist.Tickets.SingleUse.{Call, run, redeemed}
use nexa_assist.Escalation.{consider, evaluate, reasons_of, with_notice}
use nexa_assist.Routing.{route}
use nexa_assist.Policy
use nexa_assist.Policy.{enforce, apply, evaluate_from}
use nexa_assist.Realtime.Envelope.{
  ClientMessage, ping, ask, pong, delta, complete, error, Line, send, send_all,
}
use nexa_assist.Realtime.Registry.{ConnectionRegistry, at_capacity, new_registry, add, live}
use nexa_assist.Realtime.Registry.Capacity.{here, next, came, refused, Changes-live}
use nexa_assist.Realtime.Chunks.{chunk, chunk_size}
use nexa_assist.Realtime.Chunks.Pieces.{Sized}
use nexa_assist.Realtime.Chunks.Cuts.{opens, others, chunk_lem}
use nexa_assist.Realtime.Answers.{
  AnswerStreamer, Raised, app_error, answer, session_answer, record_turn,
}
use nexa_assist.Realtime.Answers.Endings.{Ends, answer-Answer}
use nexa_assist.Realtime.Answers.Grounded.{answer_respond}
use nexa_assist.Realtime.Sessions.{authenticate_socket, issue_ticket, serve, Served}
use nexa_assist.Realtime.Sessions.Handshake.{
  authenticate_socket_once, issue_ticket-authenticate_socket,
}
use nexa_assist.Realtime.Sessions.Lifetimes.{
  over, frame, serve-Brief, realtime-registry, served, Closes,
}

abbrev greeting : String
greeting = "Your invoice is under Billing in Settings."

cut : chunk chunk_size greeting ≡ "Your invoice is under Billing" ∷ " in Settings." ∷ []
unfolding chunk text_length is_spaces
cut = refl

chunk_lem_example :
    (join (chunk 24 greeting) ≡ greeting)
    × Sized 24 (chunk 24 greeting)
    × All (λ p. opens p ≡ true) (others (chunk 24 greeting))
chunk_lem_example = chunk_lem 24 greeting (omega arith)

-- The recorder takes the customer's turn and fails on the assistant's.
abbrev recorder : ℕ → String → MessageRole → String → ℕ × Option Raised
recorder n id customer content = (n + 1, none)
recorder n id assistant content =
    (n, some (app_error "conversation_not_found" "The requested conversation was not found."))

abbrev prose : AnswerStreamer ℕ ℕ ℕ
prose = record {
  stream_text = λ n question. (n, "Hi " ∷ "there" ∷ [], none);
  recorder = some recorder;
  answerer = none;
}

abbrev line : Line ℕ ℕ
line = record { world = 0; sent = []; room = 9 }

-- The answer could not be recorded: the client is told so, and then that the exchange is complete, with
-- the conversation in which it is not.
unrecorded : answer prose false line "Hello?" (some "c1") ≡ (
  false,
  ok (record {
    world = 1;
    sent =
        delta "Hi "
        ∷ delta "there"
        ∷ error "conversation_not_found" "The requested conversation was not found."
        ∷ complete "Hi there" 2 (some "c1") false [] false
        ∷ [];
    room = 5;
  }),
)
unfolding answer send send_all record_turn join
unrecorded = refl

answer-Answer_example :
    let r = answer prose false line "Hello?" (some "c1") in
    (r.0 ≡ false) × Ends (some "c1") line.sent r.1
answer-Answer_example = answer-Answer prose line "Hello?" (some "c1")

-- The pipeline of the service that blocks the agent's reply.
abbrev grounded : AnswerStreamer Held ℕ ℕ
grounded = record {
  stream_text = λ t question. (t, [], none);
  recorder = none;
  answerer = some (session_answer service (some support));
}

abbrev quiet : Line Held ℕ
quiet = record { world = held; sent = []; room = 20 }

abbrev pieces : List String
pieces = chunk chunk_size reply.reply

abbrev told : Line Held ℕ
told = record {
  world = exchange;
  sent =
      map delta pieces
      ++ complete reply.reply (length pieces) (some "c1") true reply.citations reply.escalated ∷ [];
  room = 16;
}

tells : (answer grounded false quiet "refund" (some "c1")).1 ≡ ok told
unfolding answer session_answer respond chunk text_length is_spaces send send_all append lookup
    permits highest taken consider evaluate reasons_of route enforce apply Policy.evaluate
    evaluate_from with_notice
tells = refl

answer_respond_example :
    (told.world ≡ exchange)
    × (told.sent
        ≡ map delta pieces
          ++ complete reply.reply (length pieces) (some "c1") true reply.citations reply.escalated
            ∷ [])
answer_respond_example =
    answer_respond grounded service (some support) quiet told "refund" (some "c1") exchange reply
      refl responds tells

abbrev full : ConnectionRegistry
full = record { max = 1; connections = ("s1", tt) ∷ [] }

abbrev none_yet : ConnectionRegistry
none_yet = record { max = 1; connections = [] }

first : add none_yet "s1" ≡ ok full
unfolding add insert
first = refl

second : add full "s2" ≡ err at_capacity
unfolding add
second = refl

Changes-live_example : (1 ≤ 1) × (live full ≤ 1)
Changes-live_example = Changes-live 1 none_yet full (unfold new_registry in refl) (
    next none_yet full full
      (next none_yet none_yet full (here none_yet) (came none_yet full "s1" first))
      (refused full "s2" at_capacity second))

abbrev keys : Authenticator
keys = api_keys (record { subject = "al"; secret = "a-long-enough-secret" } ∷ [])

abbrev store : TicketStore
store = record { ttl = 60; tickets = ("t1", ("al", 70)) ∷ [] }

abbrev traffic : List Call
traffic = redeemed "t2" 30 ∷ []

authenticate_socket_once_example :
    (authenticate_socket
      (some "t1")
      keys
      (run (authenticate_socket (some "t1") keys store 20).1 traffic)
      40).0
    ≡ none
authenticate_socket_once_example =
    authenticate_socket_once keys "t1" store 20 40 traffic (unfold protects in refl)
      (unfold lookup in (refl, tt)) (refl, tt)

abbrev al : RequestIdentity
al = key_identity "al"

issue_ticket-authenticate_socket_example :
    (authenticate_socket (some "t3") keys (run (issue_ticket store al "t3" 20 21).1 traffic) 80).0
    ≡ (if leb (21 + 60) 80 then none else some (key_identity "al"))
issue_ticket-authenticate_socket_example =
    issue_ticket-authenticate_socket keys al "t3" store 20 21 80 traffic (unfold protects in refl)
      refl (unfold lookup in (refl, tt)) (refl, tt) (tt, tt)

-- A frame is its length and what it reads as.
abbrev Raw : Type 0
Raw = ℕ × Option ClientMessage

abbrev size : Raw → ℕ
size raw = raw.0

abbrev parse : Raw → Option ClientMessage
parse raw = raw.1

serve-Brief_example :
    serve size parse 100 prose false line
      (((5, none) ∷ (14, some ping) ∷ []) ++ (50, some (ask "Hello?" none)) ∷ [])
    ≡ serve size parse 100 prose false
        (record line {
          sent =
              error "realtime_protocol_error" "The message did not match the expected format."
              ∷ pong
              ∷ [];
          room = 9 - 2;
        })
        ((50, some (ask "Hello?" none)) ∷ [])
serve-Brief_example =
    serve-Brief size parse 100 prose false line ((5, none) ∷ (14, some ping) ∷ [])
      ((50, some (ask "Hello?" none)) ∷ [])
      (error "realtime_protocol_error" "The message did not match the expected format." ∷ pong ∷ [])
      (frame (5, none) _ _ _ refl refl (frame (14, some ping) _ _ _ refl refl over)) (omega arith)

abbrev open_socket : Served ℕ ℕ
open_socket =
    served size parse 100 (λ scope. prose) keys subject_scoped
      (record { max = 1; connections = [] }) store (some "t1") 20 "s1" line
      ((14, some ping) ∷ (101, none) ∷ [])

realtime-registry_example :
    (open_socket.registry ≡ record { max = 1; connections = [] })
    × Closes size parse 100
        (λ scope. prose)
        keys
        subject_scoped
        (record { max = 1; connections = [] })
        store
        (some "t1")
        20
        "s1"
        line
        ((14, some ping) ∷ (101, none) ∷ [])
        open_socket.closes
        open_socket.line
realtime-registry_example =
    realtime-registry size parse 100 (λ scope. prose) keys subject_scoped
      (record { max = 1; connections = [] }) store (some "t1") 20 "s1" line
      ((14, some ping) ∷ (101, none) ∷ []) (unfold lookup in refl)
