-- ===== src/Realtime/Answers/Gone.antt =====
-- An answer is cut off only by a client that takes no more frames.
use nexa_assist.Common.{
  String, ◌≡◌, inl, inr, Bool, true, false, Option, none, some, List, [], ◌∷◌, map, Result, ok, err,
  ◌>>=◌, arith, length, if◌then◌else◌, Option-cases, Result-cases,
}
use nexa_assist.Text.{join}
use nexa_assist.Context.{MessageRole, customer, assistant}
use nexa_assist.Assistant.{AssistantReply}
use nexa_assist.Realtime.Chunks.{chunk, chunk_size}
use nexa_assist.Realtime.Envelope.{ServerMessage, delta, complete, error, Line, send, send_all}
use nexa_assist.Realtime.Answers.{
  AnswerStreamer, record_turn, record_if_given, answer_grounded, stream_deltas, stream_prose,
  answer, Raised, reported, no_recorder_code, no_recorder_message, record_failed_code,
  record_failed_message, pipeline_failed_code, stream_failed_message,
}

-- Where the call ends early, the client takes no more frames.
abbrev pub Gone : {W C A : Type 0} → Result (Line W C) A → Type 0
Gone {W} {C} m = (l : Line W C) → m ≡ err l → l.room ≡ 0

bind-Gone :
    {W C A B : Type 0} (m : Result (Line W C) A) (k : A → Result (Line W C) B)
    → Gone m
    → ((a : A) → Gone (k a))
    → Gone (m >>= k)
bind-Gone (ok a) k h each = each a
bind-Gone (err gone) k h each = λ l e. h l (ground arith)

ok-Gone : {W C A : Type 0} (a : A) → Gone {W = W} {C = C} {A = A} (ok a)
ok-Gone a l e = absurd (ground arith)

module _ {W C : Type 0} where
  send-Gone : (l : Line W C) (f : ServerMessage C) → Gone (send l f)
  unfolding send
  send-Gone l f l' e = ground arith

  send_all-Gone : (l : Line W C) (frames : List (ServerMessage C)) → Gone (send_all l frames)
  unfolding send_all
  send_all-Gone l [] = ok-Gone l
  send_all-Gone l (f ∷ frames) =
      bind-Gone (send l f) (λ l'. send_all l' frames) (send-Gone l f)
        (λ l'. send_all-Gone l' frames)

module _ {W C I : Type 0} (streamer : AnswerStreamer W C I) where
  record_turn-Gone :
      (l : Line W C) (conversation : String) (role : MessageRole) (content : String)
      → Gone (record_turn streamer l conversation role content)
  unfolding record_turn
  record_turn-Gone l conversation role content l' h = elim (Option-cases streamer.recorder) [
    | inl missing ↦
        let f : ServerMessage C = error no_recorder_code no_recorder_message in
        elim (Result-cases (send l f)) [
          | inl (gone, e) ↦ send-Gone l f l' (ground arith)
          | inr (l1, e) ↦ absurd (ground arith)
        ]
    | inr (recorder, there) ↦
        let done = recorder l.world conversation role content in
        let l1 : Line W C = record l { world = done.0 } in
        elim (Option-cases done.1) [
          | inl fine ↦ absurd (ground arith)
          | inr (raised, e) ↦
              let f : ServerMessage C = reported record_failed_code record_failed_message raised in
              elim (Result-cases (send l1 f)) [
                | inl (gone, e') ↦ send-Gone l1 f l' (ground arith)
                | inr (l2, e') ↦ absurd (ground arith)
              ]
        ]
  ]

  record_if_given-Gone :
      (l : Line W C) (id : Option String) (role : MessageRole) (content : String)
      → Gone (record_if_given streamer l id role content)
  unfolding record_if_given
  record_if_given-Gone l none role content = ok-Gone (l, true)
  record_if_given-Gone l (some id) role content = record_turn-Gone l id role content

  answer_grounded-Gone :
      (answerer : W → String → Option String → W × Result Raised (AssistantReply C I))
      (l : Line W C) (question : String) (id : Option String)
      → Gone (answer_grounded streamer answerer l question id)
  unfolding answer_grounded
  answer_grounded-Gone answerer l question id l' h =
      let done = answerer l.world question id in
      let l1 : Line W C = record l { world = done.0 } in
      elim (Result-cases done.1) [
        | inl (raised, e) ↦
            send-Gone l1 (reported pipeline_failed_code stream_failed_message raised) l'
              (ground arith)
        | inr (reply, e) ↦
            let pieces = chunk chunk_size reply.reply in
            let last : ServerMessage C =
              complete reply.reply (length pieces) id true reply.citations reply.escalated in
            bind-Gone (send_all l1 (map delta pieces)) (λ l2. send l2 last)
              (send_all-Gone l1 (map delta pieces)) (λ l2. send-Gone l2 last) l' (ground arith)
      ]

  -- What follows the deltas of the fallback.
  abbrev ending : List String → Option String → Line W C → Result (Line W C) (Line W C)
  ending pieces id l2 = do
    (l3, _) ← record_if_given streamer l2 id assistant (join pieces)
    send l3 (complete (join pieces) (length pieces) id false [] false)

  stream_deltas-Gone :
      (l : Line W C) (question : String) (id : Option String)
      → Gone (stream_deltas streamer l question id)
  unfolding stream_deltas
  stream_deltas-Gone l question id l' h =
      let done = streamer.stream_text l.world question in
      let l1 : Line W C = record l { world = done.0 } in
      let pieces = done.1 in
      elim (Option-cases done.2) [
        | inr (code, e) ↦
            bind-Gone (send_all l1 (map delta pieces))
              (λ l2. send l2 (error code stream_failed_message))
              (send_all-Gone l1 (map delta pieces))
              (λ l2. send-Gone l2 (error code stream_failed_message)) l' (ground arith)
        | inl normal ↦
            bind-Gone (send_all l1 (map delta pieces)) (ending pieces id)
              (send_all-Gone l1 (map delta pieces))
              (λ l2.
                bind-Gone (record_if_given streamer l2 id assistant (join pieces)) _
                  (record_if_given-Gone l2 id assistant (join pieces))
                  (λ a. send-Gone a.0 (complete (join pieces) (length pieces) id false [] false)))
              l' (ground arith)
      ]

  stream_prose-Gone :
      (l : Line W C) (question : String) (id : Option String)
      → Gone (stream_prose streamer l question id)
  unfolding stream_prose
  stream_prose-Gone l question id =
      bind-Gone (record_if_given streamer l id customer question) _
        (record_if_given-Gone l id customer question) (λ a. asked a.1 a.0)
    where
      asked :
          (b : Bool) (l1 : Line W C)
          → Gone (if b then stream_deltas streamer l1 question id else ok l1)
      asked true l1 = stream_deltas-Gone l1 question id
      asked false l1 = ok-Gone l1

  -- An answer that is not sent to its end is cut off by a client that takes no more frames.
  pub answer-Gone :
      (l : Line W C) (question : String) (id : Option String)
      → Gone (answer streamer false l question id).1
  unfolding answer
  answer-Gone l question id l' h = elim (Option-cases streamer.answerer) [
    | inl fallback ↦ stream_prose-Gone l question id l' (ground arith)
    | inr (answerer, there) ↦ answer_grounded-Gone answerer l question id l' (ground arith)
  ]
