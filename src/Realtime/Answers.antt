-- ===== src/Realtime/Answers.antt =====
-- backend/app/realtime/answers.py: `AnswerStreamer`, and the classes behind its protocols,
-- `SessionAnswerer` (pipeline.py) and `SessionTurnRecorder` (conversations.py). The streaming provider
-- is a parameter: the deltas that it yields and the code of the error that it ends with, if any. A
-- client that is gone ends a call by an error, after which `finally` still runs. Log lines are left out.
pub mod Frames
pub mod Endings
pub mod Grounded
pub mod Gone
use nexa_assist.Common.{
  ℕ, String, Bool, true, false, Option, none, some, List, [], ◌∷◌, map, Result, ok, err, ◌>>=◌,
  length, if◌then◌else◌,
}
use nexa_assist.Text.{join}
use nexa_assist.Auth.{OwnerScope}
use nexa_assist.Context.{MessageRole, customer, assistant}
use nexa_assist.Conversations.{
  Session, Fault, conversation_not_found, database_error, llm_error, append,
}
use nexa_assist.Assistant.{AssistantReply, AssistantService, respond}
use nexa_assist.Realtime.Chunks.{chunk, chunk_size}
use nexa_assist.Realtime.Envelope.{ServerMessage, delta, complete, error, Line, send, send_all}

abbrev pub busy_code : String
busy_code = "realtime_busy"

abbrev pub busy_message : String
busy_message = "A question is already being answered on this connection."

abbrev pub stream_failed_message : String
stream_failed_message = "The answer could not be completed."

abbrev pub no_recorder_code : String
no_recorder_code = "realtime_conversations_unavailable"

abbrev pub no_recorder_message : String
no_recorder_message = "This connection cannot record conversations."

abbrev pub pipeline_failed_code : String
pipeline_failed_code = "realtime_answer_failed"

abbrev pub record_failed_code : String
record_failed_code = "realtime_turn_not_recorded"

abbrev pub record_failed_message : String
record_failed_message = "The exchange could not be recorded."

-- What a call raised: an `AppError` with its code and message, or another exception.
pub data Raised : Type 0 where
  app_error : String → String → Raised
  exception : Raised

-- The two `except` clauses of `_answer_grounded` and of `_record`.
abbrev pub reported : {C : Type 0} → String → String → Raised → ServerMessage C
reported code message (app_error c m) = error c m
reported code message exception = error code message

pub record AnswerStreamer (W C I : Type 0) : Type 0 where
  pub stream_text : W → String → W × List String × Option String
  pub recorder : Option (W → String → MessageRole → String → W × Option Raised)
  -- `none` where there is no answerer or it is not available
  pub answerer : Option (W → String → Option String → W × Result Raised (AssistantReply C I))

module _ {W C I : Type 0} (streamer : AnswerStreamer W C I) where
  -- `_record`, and whether the turn was recorded
  unfoldable pub record_turn :
      Line W C → String → MessageRole → String → Result (Line W C) (Line W C × Bool)
  record_turn l id role content = elim streamer.recorder [
    | none ↦ do l' ← send l (error no_recorder_code no_recorder_message); ok (l', false)
    | some recorder ↦
        let done = recorder l.world id role content in
        let l' : Line W C = record l { world = done.0 } in
        elim done.1 [
          | none ↦ ok (l', true)
          | some raised ↦ do
            l'' ← send l' (reported record_failed_code record_failed_message raised)
            ok (l'', false)
        ]
  ]

  -- `if conversation_id is not None: await self._record(…)`
  unfoldable pub record_if_given :
      Line W C → Option String → MessageRole → String → Result (Line W C) (Line W C × Bool)
  record_if_given l none role content = ok (l, true)
  record_if_given l (some id) role content = record_turn l id role content

  -- `_answer_grounded`, with the pipeline that is available
  unfoldable pub answer_grounded :
      (W → String → Option String → W × Result Raised (AssistantReply C I))
      → Line W C
      → String
      → Option String
      → Result (Line W C) (Line W C)
  answer_grounded answerer l question id =
      let done = answerer l.world question id in
      let l' : Line W C = record l { world = done.0 } in
      elim done.1 [
        | err raised ↦ send l' (reported pipeline_failed_code stream_failed_message raised)
        | ok reply ↦
            let pieces = chunk chunk_size reply.reply in
            do
              l'' ← send_all l' (map delta pieces)
              send l''
                  (complete reply.reply (length pieces) id true reply.citations reply.escalated)
      ]

  -- The stream of `_stream_prose`, once the question is recorded.
  unfoldable pub stream_deltas : Line W C → String → Option String → Result (Line W C) (Line W C)
  stream_deltas l question id =
      let done = streamer.stream_text l.world question in
      let l' : Line W C = record l { world = done.0 } in
      let pieces = done.1 in
      do
        l'' ← send_all l' (map delta pieces)
        elim done.2 [
          | some code ↦ send l'' (error code stream_failed_message)
          | none ↦ do
            (l''', _) ← record_if_given l'' id assistant (join pieces)
            send l''' (complete (join pieces) (length pieces) id false [] false)
        ]

  unfoldable pub stream_prose : Line W C → String → Option String → Result (Line W C) (Line W C)
  unfolding stream_deltas record_if_given
  stream_prose l question id = do
    (l', recorded) ← record_if_given l id customer question
    if recorded then stream_deltas l' question id else ok l'

  -- `answer`, with `_busy` before and after: `finally` resets it on every path.
  unfoldable pub answer :
      Bool → Line W C → String → Option String → Bool × Result (Line W C) (Line W C)
  unfolding answer_grounded stream_prose
  answer true l question id = (true, send l (error busy_code busy_message))
  answer false l question id = (
    false,
    elim streamer.answerer [
      | some answerer ↦ answer_grounded answerer l question id
      | none ↦ stream_prose l question id
    ],
  )

-- What the socket makes of an error of the services. The errors of the model are one here, with the code
-- and the message of their base class.
abbrev pub raised_by : Fault → Raised
raised_by conversation_not_found =
    app_error "conversation_not_found" "The requested conversation was not found."
raised_by llm_error = app_error "llm_error" "The language model request could not be completed."
raised_by database_error = exception

module _ {C S T I : Type 0} where
  -- `SessionAnswerer.answer`, in a session over the database `s`
  unfoldable pub session_answer :
      AssistantService C S T I
      → Option OwnerScope
      → S
      → String
      → Option String
      → S × Result Raised (AssistantReply C I)
  session_answer service scope s question id =
      let done = respond service s question id scope in
      elim done.1 [ err e ↦ (done.0, err (raised_by e)) | ok reply ↦ (done.0, ok reply) ]

-- `SessionTurnRecorder.record`
unfoldable pub session_record :
    {C S : Type 0}
    → Session C S
    → Option OwnerScope
    → S
    → String
    → MessageRole
    → String
    → S × Option Raised
session_record session scope s id role content = elim (append session s id role content [] scope) [
  | err e ↦ (s, some (raised_by e))
  | ok done ↦ (done.1, none)
]
