-- ===== src/Realtime/Answers/Grounded.antt =====
-- The frames of an answer that the pipeline of Assistant gives.
use nexa_assist.Common.{
  String, ◌≡◌, ◌∙◌, inl, inr, true, false, Option, some, List, [], ◌∷◌, ◌++◌, map, ok, err, ◌>>=◌,
  arith, length, Result-cases,
}
use nexa_assist.Auth.{OwnerScope}
use nexa_assist.Conversations.{Fault}
use nexa_assist.Assistant.{AssistantReply, AssistantService, respond}
use nexa_assist.Realtime.Chunks.{chunk, chunk_size}
use nexa_assist.Realtime.Envelope.{ServerMessage, delta, complete, Line, send, send_all}
use nexa_assist.Realtime.Answers.{
  AnswerStreamer, answer_grounded, answer, reported, raised_by, session_answer,
  pipeline_failed_code, stream_failed_message,
}
use nexa_assist.Realtime.Answers.Frames.{send-Sent, send_then-Sent}

module _ {W C : Type 0} where
  send-world : (l l' : Line W C) (f : ServerMessage C) → send l f ≡ ok l' → l'.world ≡ l.world
  unfolding send
  send-world l l' f h = ground arith

  send_all-world :
      (l l' : Line W C) (frames : List (ServerMessage C))
      → send_all l frames ≡ ok l'
      → l'.world ≡ l.world
  unfolding send_all
  send_all-world l l' [] h = ground arith
  send_all-world l l' (f ∷ frames) h = elim (Result-cases (send l f)) [
    | inl (gone, e) ↦ absurd (ground arith)
    | inr (l1, e) ↦ send_all-world l1 l' frames (ground arith) ∙ send-world l l1 f e
  ]

  send_then-world :
      (l l' : Line W C) (frames : List (ServerMessage C)) (f : ServerMessage C)
      → (send_all l frames >>= λ l1. send l1 f) ≡ ok l'
      → l'.world ≡ l.world
  send_then-world l l' frames f h = elim (Result-cases (send_all l frames)) [
    | inl (gone, e) ↦ absurd (ground arith)
    | inr (l1, e) ↦ send-world l1 l' f (ground arith) ∙ send_all-world l l1 frames e
  ]

module _ {C S T I : Type 0} (streamer : AnswerStreamer S C I) (service : AssistantService C S T I)
    (scope : Option OwnerScope) (l l' : Line S C) (question : String) (id : Option String) where
  -- What the pipeline returns is what the client is sent: its reply in pieces, and a completion with the
  -- reply, its citations, whether it was escalated and the conversation; and the database is left as
  -- the pipeline left it. So no turn is recorded twice.
  pub answer_respond :
      (s' : S) (r : AssistantReply C I)
      → streamer.answerer ≡ some (session_answer service scope)
      → respond service l.world question id scope ≡ (s', ok r)
      → (answer streamer false l question id).1 ≡ ok l'
      → let pieces = chunk chunk_size r.reply in
        (l'.world ≡ s')
        × (l'.sent
            ≡ l.sent
              ++ (map delta pieces
                  ++ complete r.reply (length pieces) id true r.citations r.escalated ∷ []))
  unfolding answer answer_grounded session_answer
  answer_respond s' r there given h =
      let l1 : Line S C = record l { world = s' } in
      let pieces = chunk chunk_size r.reply in
      let last : ServerMessage C =
        complete r.reply (length pieces) id true r.citations r.escalated in
      let run : (send_all l1 (map delta pieces) >>= λ l2. send l2 last) ≡ ok l' = ground arith in
      (
        send_then-world l1 l' (map delta pieces) last run,
        send_then-Sent l1 l' (map delta pieces) last run,
      )

  -- An error of the pipeline is one error frame, and the database is left as the pipeline left it.
  pub answer_raised :
      (s' : S) (e : Fault)
      → streamer.answerer ≡ some (session_answer service scope)
      → respond service l.world question id scope ≡ (s', err e)
      → (answer streamer false l question id).1 ≡ ok l'
      → (l'.world ≡ s')
        × (l'.sent
            ≡ l.sent ++ reported pipeline_failed_code stream_failed_message (raised_by e) ∷ [])
  unfolding answer answer_grounded session_answer
  answer_raised s' e there given h =
      let l1 : Line S C = record l { world = s' } in
      let f : ServerMessage C = reported pipeline_failed_code stream_failed_message (raised_by e) in
      let run : send l1 f ≡ ok l' = ground arith in (send-world l1 l' f run, send-Sent l1 l' f run)
