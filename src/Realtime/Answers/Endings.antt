-- ===== src/Realtime/Answers/Endings.antt =====
-- How the frames of one answer end, over both of its paths.
use nexa_assist.Common.{
  err, String, ◌≡◌, refl, ap, ◌∙◌, inl, inr, Bool, true, false, Option, none, some, List, [], ◌∷◌,
  ◌++◌, append_assoc, map, Result, ok, arith, length, Result-cases, Option-cases, Bool-cases,
}
use nexa_assist.Text.{join}
use nexa_assist.Assistant.{AssistantReply}
use nexa_assist.Realtime.Chunks.{chunk, chunk_size}
use nexa_assist.Realtime.Chunks.Pieces.{join-chunk}
use nexa_assist.Realtime.Envelope.{ServerMessage, delta, complete, error, Line, send, send_all}
use nexa_assist.Realtime.Answers.{
  AnswerStreamer, record_turn, record_if_given, answer_grounded, stream_deltas, stream_prose,
  answer, Raised, app_error, exception, reported, pipeline_failed_code, stream_failed_message,
  no_recorder_code, no_recorder_message, record_failed_code, record_failed_message,
}
use nexa_assist.Realtime.Answers.Gone.{Gone, answer-Gone}
use nexa_assist.Realtime.Answers.Frames.{
  failed, completed, unrecorded, Answer, Sent, send-Sent, send_all-Sent, send_then-Sent, refusal,
  completed_as,
}
use nexa_assist.Context.{MessageRole, customer, assistant}

-- Nothing was sent where a turn was recorded, or none was to be; an error was where it was not.
pub data Recording {C : Type 0} (id : Option String) (sent after : List (ServerMessage C))
    : Bool → Type 0 where
  recorded : after ≡ sent → Recording id sent after true
  lost :
      (code message conversation : String)
      → id ≡ some conversation
      → after ≡ sent ++ error code message ∷ []
      → Recording id sent after false

reported-lost :
    {W C : Type 0} (l l' : Line W C) (conversation code message : String) (raised : Raised)
    → send l (reported code message raised) ≡ ok l'
    → Recording (some conversation) l.sent l'.sent false
reported-lost l l' conversation code message (app_error c m) h =
    lost c m conversation refl (send-Sent l l' (error c m) h)
reported-lost l l' conversation code message exception h =
    lost code message conversation refl (send-Sent l l' (error code message) h)

kept :
    {C : Type 0} {id : Option String} {sent after : List (ServerMessage C)}
    → Recording id sent after true
    → after ≡ sent
kept (recorded h) = h

unasked :
    {C : Type 0} {id : Option String} {sent after : List (ServerMessage C)}
    → Recording id sent after false
    → Answer id sent after
unasked (lost code message conversation given h) = record {
  pieces = [];
  ending = error code message ∷ [];
  closing = failed code message;
  frames = h;
}

-- Deltas, what recording the answer sends, and the completion.
ended :
    {W C : Type 0} (l1 l2 l3 l' : Line W C) (pieces : List String) (id : Option String) (b : Bool)
    → Sent l1 (map delta pieces) l2
    → Recording id l2.sent l3.sent b
    → Sent l3 (complete (join pieces) (length pieces) id false [] false ∷ []) l'
    → Answer id l1.sent l'.sent
ended l1 l2 l3 l' pieces id _ deltas (recorded h) last = record {
  pieces = pieces;
  ending = complete (join pieces) (length pieces) id false [] false ∷ [];
  closing = completed false false [];
  frames =
      last
      ∙ ap (λ x. x ++ complete (join pieces) (length pieces) id false [] false ∷ []) (h ∙ deltas)
      ∙ append_assoc l1.sent (map delta pieces) _;
}
ended l1 l2 l3 l' pieces id _ deltas (lost code message conversation given h) last = record {
  pieces = pieces;
  ending = error code message ∷ complete (join pieces) (length pieces) id false [] false ∷ [];
  closing = unrecorded code message conversation given;
  frames =
      last
      ∙ ap (λ x. x ++ complete (join pieces) (length pieces) id false [] false ∷ [])
          (h ∙ ap (λ x. x ++ error code message ∷ []) deltas)
      ∙ simp (append_assoc);
}

-- The frames of an answer that is sent to its end; a client that takes no more frames otherwise.
abbrev pub Ends :
    {W C : Type 0} → Option String → List (ServerMessage C) → Result (Line W C) (Line W C) → Type 0
Ends id before (ok l') = Answer id before l'.sent
Ends id before (err gone) = gone.room ≡ 0

Ends-of :
    {W C : Type 0} (before : List (ServerMessage C)) (r : Result (Line W C) (Line W C))
    (id : Option String)
    → ((l' : Line W C) → r ≡ ok l' → Answer id before l'.sent)
    → Gone r
    → Ends id before r
Ends-of before (ok l') id answered gone = answered l' refl
Ends-of before (err l') id answered gone = gone l' refl

module _ {W C I : Type 0} (streamer : AnswerStreamer W C I) where
  answer_grounded-Answer :
      (answerer : W → String → Option String → W × Result Raised (AssistantReply C I))
      (l l' : Line W C) (question : String) (id : Option String)
      → answer_grounded streamer answerer l question id ≡ ok l'
      → Answer id l.sent l'.sent
  unfolding answer_grounded
  answer_grounded-Answer answerer l l' question id h =
      let done = answerer l.world question id in
      let l1 : Line W C = record l { world = done.0 } in
      elim (Result-cases done.1) [
        | inl (raised, e) ↦
            refusal l1 l' id pipeline_failed_code stream_failed_message raised (ground arith)
        | inr (reply, e) ↦
            let pieces = chunk chunk_size reply.reply in
            let last : ServerMessage C =
              complete reply.reply (length pieces) id true reply.citations reply.escalated in
            let sent = send_then-Sent l1 l' (map delta pieces) last (ground arith) in
            record {
              pieces = pieces;
              ending = last ∷ [];
              closing =
                  completed_as pieces id reply.reply reply.citations reply.escalated
                    (join-chunk chunk_size reply.reply);
              frames = sent;
            }
      ]

  record_turn-Recording :
      (l l' : Line W C) (conversation : String) (role : MessageRole) (content : String) (b : Bool)
      → record_turn streamer l conversation role content ≡ ok (l', b)
      → Recording (some conversation) l.sent l'.sent b
  unfolding record_turn
  record_turn-Recording l l' conversation role content b h = elim (Option-cases streamer.recorder) [
    | inl missing ↦ elim (Result-cases (send l (error no_recorder_code no_recorder_message))) [
      | inl (gone, e) ↦ absurd (ground arith)
      | inr (l1, e) ↦
          let same : l1 ≡ l' = ground arith in
          let no : false ≡ b = ground arith in
          rw (← no) (
            rw (← same) (
              lost no_recorder_code no_recorder_message conversation refl
                (send-Sent l l1 (error no_recorder_code no_recorder_message) e)))
    ]
    | inr (recorder, there) ↦
        let done = recorder l.world conversation role content in
        let l1 : Line W C = record l { world = done.0 } in
        elim (Option-cases done.1) [
          | inl fine ↦
              let same : l'.sent ≡ l.sent = ground arith in
              let yes : true ≡ b = ground arith in rw (← yes) (recorded same)
          | inr (raised, e) ↦
              elim (Result-cases
                (send l1 (reported record_failed_code record_failed_message raised))) [
                  | inl (gone, e') ↦ absurd (ground arith)
                  | inr (l2, e') ↦
                      let same : l2 ≡ l' = ground arith in
                      let no : false ≡ b = ground arith in
                      rw (← no) (
                        rw (← same) (
                          reported-lost l1 l2 conversation record_failed_code record_failed_message
                            raised e'))
                ]
        ]
  ]

  record_if_given-Recording :
      (l l' : Line W C) (id : Option String) (role : MessageRole) (content : String) (b : Bool)
      → record_if_given streamer l id role content ≡ ok (l', b)
      → Recording id l.sent l'.sent b
  unfolding record_if_given
  record_if_given-Recording l l' none role content b h =
      let same : l'.sent ≡ l.sent = ground arith in
      let yes : true ≡ b = ground arith in rw (← yes) (recorded same)
  record_if_given-Recording l l' (some conversation) role content b h =
      record_turn-Recording l l' conversation role content b h

  stream_deltas-Answer :
      (l l' : Line W C) (question : String) (id : Option String)
      → stream_deltas streamer l question id ≡ ok l'
      → Answer id l.sent l'.sent
  unfolding stream_deltas
  stream_deltas-Answer l l' question id h =
      let done = streamer.stream_text l.world question in
      let l1 : Line W C = record l { world = done.0 } in
      let pieces = done.1 in
      elim (Option-cases done.2) [
        | inr (code, e) ↦ record {
          pieces = pieces;
          ending = error code stream_failed_message ∷ [];
          closing = failed code stream_failed_message;
          frames =
              send_then-Sent l1 l' (map delta pieces) (error code stream_failed_message)
                (ground arith);
        }
        | inl normal ↦ elim (Result-cases (send_all l1 (map delta pieces))) [
          | inl (gone, e) ↦ absurd (ground arith)
          | inr (l2, e) ↦
              elim (Result-cases (record_if_given streamer l2 id assistant (join pieces))) [
                | inl (gone, e') ↦ absurd (ground arith)
                | inr ((l3, b), e') ↦
                    ended l1 l2 l3 l' pieces id b (send_all-Sent l1 l2 (map delta pieces) e)
                      (record_if_given-Recording l2 l3 id assistant (join pieces) b e')
                      (send-Sent l3 l' (complete (join pieces) (length pieces) id false [] false)
                        (ground arith))
              ]
        ]
      ]

  -- The fallback sends deltas and an end, or the error that the question could not be recorded.
  stream_prose-Answer :
      (l l' : Line W C) (question : String) (id : Option String)
      → stream_prose streamer l question id ≡ ok l'
      → Answer id l.sent l'.sent
  unfolding stream_prose
  stream_prose-Answer l l' question id h =
      elim (Result-cases (record_if_given streamer l id customer question)) [
        | inl (gone, e) ↦ absurd (ground arith)
        | inr ((l1, b), e) ↦ elim (Bool-cases b) [
          | inl asked ↦
              let r : Recording id l.sent l1.sent true =
                rw (← asked) (record_if_given-Recording l l1 id customer question b e) in
              let same : l1.sent ≡ l.sent = kept r in
              rw (← same) (stream_deltas-Answer l1 l' question id (ground arith))
          | inr refused ↦
              let r : Recording id l.sent l1.sent false =
                rw (← refused) (record_if_given-Recording l l1 id customer question b e) in
              let same : l1 ≡ l' = ground arith in rw (← same) (unasked r)
        ]
      ]

  -- A question that is taken up is answered by deltas and then an end: one error, or one completion
  -- that carries the deltas put together, their number and the conversation, or, where the answer could
  -- not be recorded, an error and then the completion; or it is cut off by a client that takes no more
  -- frames. The connection is free again afterwards in any case.
  pub answer-Answer :
      (l : Line W C) (question : String) (id : Option String)
      → let r = answer streamer false l question id in (r.0 ≡ false) × Ends id l.sent r.1
  unfolding answer
  answer-Answer l question id = (
    refl,
    Ends-of l.sent (answer streamer false l question id).1 id
        (λ l' h. elim (Option-cases streamer.answerer) [
          | inl fallback ↦ stream_prose-Answer l l' question id (ground arith)
          | inr (answerer, there) ↦ answer_grounded-Answer answerer l l' question id (ground arith)
        ])
        (answer-Gone streamer l question id),
  )
