-- ===== src/Realtime/Sessions/Endings.antt =====
-- How the loop of a socket ends: `_serve` of backend/app/api/v1/realtime.py.
use nexa_assist.Common.{
  ℕ, String, ◌≡◌, refl, inl, inr, Bool, true, false, ◌||◌, Option, none, some, List, [], ◌∷◌, ok,
  err, arith, ltb, Bool-cases, Result-cases,
}
use nexa_assist.Realtime.Envelope.{ClientMessage, ServerMessage, ping, ask, ready, Line, send}
use nexa_assist.Realtime.Answers.{AnswerStreamer, answer}
use nexa_assist.Realtime.Answers.Gone.{Gone, answer-Gone}
use nexa_assist.Realtime.Sessions.{
  handle, respond_to, serve, greet_and_serve, Ending, too_large, left, unsent,
}

send-Gone : {W C : Type 0} (l : Line W C) (f : ServerMessage C) → Gone (send l f)
unfolding send
send-Gone l f l' h = ground arith

module _ {Raw : Type 0} (byte_length : Raw → ℕ) (max_message_bytes : ℕ) where
  -- Some frame is too large.
  abbrev pub any_large : List Raw → Bool
  any_large [] = false
  any_large (raw ∷ frames) = ltb max_message_bytes (byte_length raw) || any_large frames

  -- What each ending tells of the frames and of the line.
  abbrev pub Ended : {W C : Type 0} → List Raw → Ending → Line W C → Type 0
  Ended frames too_large l = any_large frames ≡ true
  Ended frames left l = any_large frames ≡ false
  Ended frames unsent l = l.room ≡ 0

  later :
      {W C : Type 0} (raw : Raw) (frames : List Raw) (ending : Ending) (l : Line W C)
      → ltb max_message_bytes (byte_length raw) ≡ false
      → Ended frames ending l
      → Ended (raw ∷ frames) ending l
  later raw frames too_large l small e = ground arith
  later raw frames left l small e = ground arith
  later raw frames unsent l small e = e

module _ {W C I Raw : Type 0} (byte_length : Raw → ℕ)
    (parse_client_message : Raw → Option ClientMessage) (max_message_bytes : ℕ) where
  respond_to-Gone :
      (streamer : AnswerStreamer W C I) (busy : Bool) (l : Line W C) (m : Option ClientMessage)
      → Gone (respond_to byte_length parse_client_message max_message_bytes streamer busy l m).1
  unfolding respond_to handle answer
  respond_to-Gone streamer busy l none = send-Gone l _
  respond_to-Gone streamer busy l (some ping) = send-Gone l _
  respond_to-Gone streamer true l (some (ask question id)) = send-Gone l _
  respond_to-Gone streamer false l (some (ask question id)) = answer-Gone streamer l question id

  pub serve-Ended :
      (streamer : AnswerStreamer W C I) (busy : Bool) (l : Line W C) (frames : List Raw)
      → let (ending, l') =
          serve byte_length parse_client_message max_message_bytes streamer busy l frames in
        Ended byte_length max_message_bytes frames ending l'
  unfolding serve
  serve-Ended streamer busy l [] = refl
  serve-Ended streamer busy l (raw ∷ frames) =
      let done =
        respond_to byte_length parse_client_message max_message_bytes streamer busy l
          (parse_client_message raw) in
      elim (Bool-cases (ltb max_message_bytes (byte_length raw))) [
        | inl large ↦ rw (large) (ground arith)
        | inr small ↦ elim (Result-cases done.1) [
          | inl (gone, e) ↦
              rw (small)
                (rw (e) (respond_to-Gone streamer busy l (parse_client_message raw) gone e))
          | inr (l1, e) ↦
              let rest = serve-Ended streamer done.0 l1 frames in
              let r =
                serve byte_length parse_client_message max_message_bytes streamer done.0 l1
                  frames in
              let kept = later byte_length max_message_bytes raw frames r.0 r.1 small rest in
              rw (small) (rw (e) kept)
        ]
      ]

  module _ (streamer : AnswerStreamer W C I) (l l1 : Line W C) (id : String)
      (frames : List Raw) where
    greet_and_serve-send :
        send l (ready id) ≡ ok l1
        → greet_and_serve byte_length parse_client_message max_message_bytes streamer l id frames
          ≡ serve byte_length parse_client_message max_message_bytes streamer false l1 frames
    unfolding greet_and_serve
    greet_and_serve-send e = ground arith

    greet_and_serve_unsent :
        send l (ready id) ≡ err l1
        → greet_and_serve byte_length parse_client_message max_message_bytes streamer l id frames
          ≡ (unsent, l1)
    unfolding greet_and_serve
    greet_and_serve_unsent e = ground arith

  pub greet_and_serve-Ended :
      (streamer : AnswerStreamer W C I) (l : Line W C) (id : String) (frames : List Raw)
      → let (ending, l') =
          greet_and_serve byte_length parse_client_message max_message_bytes streamer l id frames in
        Ended byte_length max_message_bytes frames ending l'
  greet_and_serve-Ended streamer l id frames = elim (Result-cases (send l (ready id))) [
    | inl (gone, e) ↦
        rw (greet_and_serve_unsent streamer l gone id frames e) (send-Gone l (ready id) gone e)
    | inr (l1, e) ↦
        rw (greet_and_serve-send streamer l l1 id frames e) (serve-Ended streamer false l1 frames)
  ]
