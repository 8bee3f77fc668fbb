-- ===== src/Realtime/Answers/Frames.antt =====
-- The frames of one answer.
use nexa_assist.Common.{
  String, ◌≡◌, ap, sym, ◌∙◌, inl, inr, Bool, true, false, Option, some, List, [], ◌∷◌, ◌++◌,
  append_assoc, append-nil, map, ok, ◌>>=◌, arith, length, Result-cases,
}
use nexa_assist.Text.{join}
use nexa_assist.Realtime.Envelope.{ServerMessage, delta, complete, error, Line, send, send_all}
use nexa_assist.Realtime.Answers.{Raised, app_error, exception, reported}

-- How the frames of an answer end after the deltas.
pub data Closing {C : Type 0} (pieces : List String) (id : Option String)
    : List (ServerMessage C) → Type 0 where
  -- an error in place of the end
  failed : (code message : String) → Closing pieces id (error code message ∷ [])
  completed :
      (grounded escalated : Bool) (citations : List C)
      → Closing pieces id
          (complete (join pieces) (length pieces) id grounded citations escalated ∷ [])
  -- the turn could not be recorded: an error, and the end all the same
  unrecorded :
      (code message conversation : String)
      → id ≡ some conversation
      → Closing pieces id
          (error code message ∷ complete (join pieces) (length pieces) id false [] false ∷ [])

-- The deltas of an answer, and then its end.
pub record Answer {C : Type 0} (id : Option String) (before after : List (ServerMessage C))
    : Type 0 where
  pub pieces : List String
  pub ending : List (ServerMessage C)
  pub closing : Closing pieces id ending
  pub frames : after ≡ before ++ (map delta pieces ++ ending)

module _ {W C : Type 0} where
  -- These frames have been sent.
  abbrev pub Sent : Line W C → List (ServerMessage C) → Line W C → Type 0
  Sent l frames l' = l'.sent ≡ l.sent ++ frames

  pub send-Sent : (l l' : Line W C) (f : ServerMessage C) → send l f ≡ ok l' → Sent l (f ∷ []) l'
  unfolding send
  send-Sent l l' f h = ground arith

  pub Sent-trans :
      (l m n : Line W C) (fs gs : List (ServerMessage C))
      → Sent l fs m
      → Sent m gs n
      → Sent l (fs ++ gs) n
  Sent-trans l m n fs gs h k = k ∙ ap (λ x. x ++ gs) h ∙ append_assoc l.sent fs gs

  pub send_all-Sent :
      (l l' : Line W C) (frames : List (ServerMessage C))
      → send_all l frames ≡ ok l'
      → Sent l frames l'
  unfolding send_all
  send_all-Sent l l' [] h =
      let same : l ≡ l' = ground arith in rw (← same) (sym (append-nil l.sent))
  send_all-Sent l l' (f ∷ frames) h = elim (Result-cases (send l f)) [
    | inl (gone, e) ↦ absurd (ground arith)
    | inr (l1, e) ↦
        Sent-trans l l1 l' (f ∷ []) frames (send-Sent l l1 f e)
          (send_all-Sent l1 l' frames (ground arith))
  ]

  -- Deltas, and a frame after them.
  pub send_then-Sent :
      (l l' : Line W C) (frames : List (ServerMessage C)) (f : ServerMessage C)
      → (send_all l frames >>= λ l1. send l1 f) ≡ ok l'
      → Sent l (frames ++ f ∷ []) l'
  send_then-Sent l l' frames f h = elim (Result-cases (send_all l frames)) [
    | inl (gone, e) ↦ absurd (ground arith)
    | inr (l1, e) ↦
        Sent-trans l l1 l' frames (f ∷ []) (send_all-Sent l l1 frames e)
          (send-Sent l1 l' f (ground arith))
  ]

  -- One error frame.
  pub refusal :
      (l l' : Line W C) (id : Option String) (code message : String) (raised : Raised)
      → send l (reported code message raised) ≡ ok l'
      → Answer id l.sent l'.sent
  refusal l l' id code message (app_error c m) h = record {
    pieces = [];
    ending = error c m ∷ [];
    closing = failed c m;
    frames = send-Sent l l' (error c m) h;
  }
  refusal l l' id code message exception h = record {
    pieces = [];
    ending = error code message ∷ [];
    closing = failed code message;
    frames = send-Sent l l' (error code message) h;
  }

pub completed_as :
    {C : Type 0} (pieces : List String) (id : Option String) (text : String) (citations : List C)
    (escalated : Bool)
    → join pieces ≡ text
    → Closing pieces id (complete text (length pieces) id true citations escalated ∷ [])
completed_as pieces id text citations escalated h = rw (← h) (completed true escalated citations)
