-- ===== src/Realtime/Sessions/Lifetimes.antt =====
-- What a socket leaves behind, and what it answers frame by frame.
use nexa_assist.Common.{
  ℕ, suc, ◌-◌, ◌≤◌, ◌<◌, String, ◌≡◌, ◌⊎◌, refl, ap, ◌∙◌, inl, inr, Bool, true, false, Option, none,
  some, List, [], ◌∷◌, ◌++◌, append_assoc, append-nil, Result, ok, arith, ltb, length, Option-cases,
  Result-cases, string_key,
}
use nexa_assist.Dict.{lookup}
use nexa_assist.Auth.{Authenticator, Authorizer, RequestIdentity, scope_for, OwnerScope}
use nexa_assist.Tickets.{TicketStore}
use nexa_assist.Realtime.Envelope.{ClientMessage, ping, ask, ServerMessage, pong, error, Line, send}
use nexa_assist.Realtime.Registry.{ConnectionRegistry, add, live}
use nexa_assist.Realtime.Registry.Capacity.{remove-add}
use nexa_assist.Realtime.Answers.{AnswerStreamer}
use nexa_assist.Realtime.Sessions.Endings.{any_large, Ended, greet_and_serve-Ended}
use nexa_assist.Realtime.Sessions.{
  authenticate_socket, respond_to, serve, greet_and_serve, Ending, too_large, left, unsent,
  application_state, closed_by, close_if, Served, realtime, protocol_error_code,
  protocol_error_message,
}

-- What a frame is answered with, if it is no question.
abbrev pub brief : {C : Type 0} → Option ClientMessage → Option (ServerMessage C)
brief none = some (error protocol_error_code protocol_error_message)
brief (some ping) = some pong
brief (some (ask question id)) = none

-- These frames are no questions and not too large, and these are the answers.
pub data Brief {C Raw : Type 0} (byte_length : Raw → ℕ)
    (parse_client_message : Raw → Option ClientMessage) (max_message_bytes : ℕ)
    : List Raw → List (ServerMessage C) → Type 0 where
  over : Brief byte_length parse_client_message max_message_bytes [] []
  frame :
      (raw : Raw) (frames : List Raw) (f : ServerMessage C) (answers : List (ServerMessage C))
      → ltb max_message_bytes (byte_length raw) ≡ false
      → brief (parse_client_message raw) ≡ some f
      → Brief byte_length parse_client_message max_message_bytes frames answers
      → Brief byte_length parse_client_message max_message_bytes (raw ∷ frames) (f ∷ answers)

send_room :
    {W C : Type 0} (l : Line W C) (f : ServerMessage C) (n : ℕ)
    → l.room ≡ suc n
    → send l f ≡ ok (record l { sent = l.sent ++ f ∷ []; room = n })
unfolding send
send_room l f n h = rw (h) refl

module _ {W C I Raw : Type 0} (byte_length : Raw → ℕ)
    (parse_client_message : Raw → Option ClientMessage) (max_message_bytes : ℕ) where
  respond_to-brief :
      (streamer : AnswerStreamer W C I) (busy : Bool) (l : Line W C) (m : Option ClientMessage)
      (f : ServerMessage C)
      → brief m ≡ some f
      → respond_to byte_length parse_client_message max_message_bytes streamer busy l m
        ≡ (busy, send l f)
  unfolding respond_to
  respond_to-brief streamer busy l none f h = ground arith
  respond_to-brief streamer busy l (some ping) f h = ground arith
  respond_to-brief streamer busy l (some (ask question id)) f h = absurd (ground arith)

  serve_step :
      (streamer : AnswerStreamer W C I) (busy next : Bool) (l l1 : Line W C) (raw : Raw)
      (frames : List Raw)
      → ltb max_message_bytes (byte_length raw) ≡ false
      → respond_to byte_length parse_client_message max_message_bytes streamer busy l
          (parse_client_message raw)
        ≡ (next, ok l1)
      → serve byte_length parse_client_message max_message_bytes streamer busy l (raw ∷ frames)
        ≡ serve byte_length parse_client_message max_message_bytes streamer next l1 frames
  unfolding serve
  serve_step streamer busy next l l1 raw frames small done =
      let first : (respond_to byte_length parse_client_message max_message_bytes streamer busy l
            (parse_client_message raw)).0
          ≡ next =
        ap (λ (r : Bool × Result (Line W C) (Line W C)). r.0) done in
      let second : (respond_to byte_length parse_client_message max_message_bytes streamer busy l
            (parse_client_message raw)).1
          ≡ ok l1 =
        ap (λ (r : Bool × Result (Line W C) (Line W C)). r.1) done in
      rw (small) (rw (second) (rw (first) refl))

  -- A frame that is malformed is answered by a protocol error and a ping by a pong, each by one frame in
  -- the order of arrival, and the connection goes on with whatever follows as long as the client takes
  -- the frames.
  pub serve-Brief :
      (streamer : AnswerStreamer W C I) (busy : Bool) (l : Line W C) (frames later : List Raw)
      (answers : List (ServerMessage C))
      → Brief byte_length parse_client_message max_message_bytes frames answers
      → length answers ≤ l.room
      → serve byte_length parse_client_message max_message_bytes streamer busy l (frames ++ later)
        ≡ serve byte_length parse_client_message max_message_bytes streamer busy
            (record l { sent = l.sent ++ answers; room = l.room - length answers })
            later
  serve-Brief streamer busy l _ later _ over h =
      let same : l.room - 0 ≡ l.room = omega arith in rw (append-nil) (rw (same) refl)
  serve-Brief streamer busy l _ later _ (frame raw frames f answers small b rest) h =
      let n = l.room - 1 in
      let room : l.room ≡ suc n = omega (arith, h) in
      let l1 : Line W C = record l { sent = l.sent ++ f ∷ []; room = n } in
      let done =
        respond_to-brief streamer busy l (parse_client_message raw) f b
        ∙ ap (λ r. (busy, r)) (send_room l f n room) in
      let small_rest : length answers ≤ n = omega (arith, h) in
      let left : n - length answers ≡ l.room - suc (length answers) = omega (arith, h) in
      serve_step streamer busy busy l l1 raw (frames ++ later) small done
      ∙ serve-Brief streamer busy l1 frames later answers rest small_rest
      ∙ ap
          (λ (x : Line W C).
            serve byte_length parse_client_message max_message_bytes streamer busy x later)
          (rw (left) (rw (append_assoc) refl))

  module _ (streamer_for : Option OwnerScope → AnswerStreamer W C I) (authenticator : Authenticator)
      (authorizer : Authorizer) (registry : ConnectionRegistry) (tickets : TicketStore)
      (ticket : Option String) (now : ℕ) (new_id : String) (l : Line W C) (frames : List Raw) where
    abbrev pub served : Served W C
    served =
        realtime byte_length parse_client_message max_message_bytes streamer_for authenticator
          authorizer registry tickets ticket now new_id l frames

    -- The close frames of a socket, by what becomes of it.
    pub data Closes (closes : List ℕ) (line : Line W C) : Type 0 where
      unknown :
          (authenticate_socket ticket authenticator tickets now).0 ≡ none
          → closes ≡ 1008 ∷ []
          → Closes closes line
      full :
          (identity : RequestIdentity)
          → (authenticate_socket ticket authenticator tickets now).0 ≡ some identity
          → registry.max ≤ live registry
          → closes ≡ 1008 ∷ []
          → Closes closes line
      large :
          (identity : RequestIdentity)
          → (authenticate_socket ticket authenticator tickets now).0 ≡ some identity
          → live registry < registry.max
          → any_large byte_length max_message_bytes frames ≡ true
          → closes ≡ 1009 ∷ []
          → Closes closes line
      gone :
          (identity : RequestIdentity)
          → (authenticate_socket ticket authenticator tickets now).0 ≡ some identity
          → live registry < registry.max
          → any_large byte_length max_message_bytes frames ≡ false
          → closes ≡ 1000 ∷ []
          → Closes closes line
      cut_off :
          (identity : RequestIdentity)
          → (authenticate_socket ticket authenticator tickets now).0 ≡ some identity
          → live registry < registry.max
          → line.room ≡ 0
          → closes ≡ []
          → Closes closes line

    closes_admitted :
        (identity : RequestIdentity) (ending : Ending) (line : Line W C)
        → (authenticate_socket ticket authenticator tickets now).0 ≡ some identity
        → live registry < registry.max
        → Ended byte_length max_message_bytes frames ending line
        → Closes (close_if (application_state ending) (closed_by ending)) line
    closes_admitted identity too_large line known room e = large identity known room e refl
    closes_admitted identity left line known room e = gone identity known room e refl
    closes_admitted identity unsent line known room e = cut_off identity known room e refl

    -- Whatever becomes of a socket under an identifier that no connection has, the registry is left as it
    -- was found, so that a connection that was counted has given its place back, and the socket is closed
    -- once at most: with 1008 if it is not authenticated or the registry is full; otherwise with 1009, and
    -- some frame was too large, or with 1000, when the client leaves, and none was, or not at all, and the
    -- client takes no more frames.
    pub realtime-registry :
        lookup new_id registry.connections ≡ none
        → (served.registry ≡ registry) × Closes served.closes served.line
    unfolding realtime add live
    realtime-registry free =
        elim (Option-cases (authenticate_socket ticket authenticator tickets now).0) [
          | inl nobody ↦ (ground arith, unknown nobody (ground arith))
          | inr (identity, known) ↦ elim (Result-cases (add registry new_id)) [
            | inl (e', e) ↦ (ground arith, full identity known (ground arith) (ground arith))
            | inr (registry', e) ↦
                let streamer = streamer_for (scope_for authorizer identity) in
                let done =
                  greet_and_serve byte_length parse_client_message max_message_bytes streamer l
                    new_id frames in
                let same : served.closes ≡ close_if (application_state done.0) (closed_by done.0) =
                  ground arith in
                let told : served.line ≡ done.1 = ground arith in
                (
                  ground (arith, remove-add registry registry' new_id e free),
                  rw (same) (
                      rw (told) (
                        closes_admitted identity done.0 done.1 known (ground arith) (
                          greet_and_serve-Ended byte_length parse_client_message max_message_bytes
                            streamer l new_id frames))),
                )
          ]
        ]

    -- A socket that is not let in, for want of a ticket that is redeemed or because the registry is full,
    -- is closed with 1008 and is sent nothing.
    pub realtime_refused :
        ((authenticate_socket ticket authenticator tickets now).0 ≡ none)
          ⊎ (registry.max ≤ live registry)
        → (served.line ≡ l) × (served.closes ≡ 1008 ∷ []) × (served.registry ≡ registry)
    unfolding realtime add live
    realtime_refused h =
        elim (Option-cases (authenticate_socket ticket authenticator tickets now).0) [
          | inl nobody ↦ ground arith
          | inr (identity, known) ↦ ground arith
        ]
