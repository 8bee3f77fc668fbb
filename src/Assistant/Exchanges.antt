-- ===== src/Assistant/Exchanges.antt =====
-- What an exchange leaves in the conversation, and what policy makes of its reply.
use nexa_assist.Common.{
  ℕ, ◌+◌, String, ◌≡◌, refl, ap, sym, ◌∙◌, ◌⊎◌, inl, inr, true, false, Option, none, some, List, [],
  ◌∷◌, ◌++◌, ok, err, arith, Result-cases, Option-cases, Bool-cases, append_assoc, string_key,
  ==_iff,
}
use nexa_assist.Auth.{OwnerScope}
use nexa_assist.Context.{MessageRole, customer, assistant, estimate_tokens}
use nexa_assist.Names.{codes}
use nexa_assist.Routing.{chosen}
use nexa_assist.Conversations.{
  Conversation, MessageRow, Tables, Fault, conversation_not_found, llm_error, append, message_at,
}
use nexa_assist.Conversations.Positions.{
  InOrder, count_of, count_of-append, append-InOrder, append-Appended,
}
use nexa_assist.Conversations.Ownership.{Owned, append_hidden}
use nexa_assist.Dict.{lookup}
use nexa_assist.Escalation.{unresolved, policy, with_notice, item_for, consider}
use nexa_assist.Escalation.Verdicts.{gives, consider_blocked}
use nexa_assist.Intent.{IntentAnalysis}
use nexa_assist.Policy.{PolicyRule, block, blocked_reply}
use nexa_assist.Policy.Enforcement.{decision}
use nexa_assist.Routing.Replies.{response, route_blocked}
use nexa_assist.Assistant.{
  AssistantReply, AssistantService, record_turn, respond, reply_of, routed_for, handoff_for, filed,
}

-- The tables with further messages.
abbrev pub with_messages : {C : Type 0} → Tables C → List (MessageRow C) → Tables C
with_messages t rows = record t { messages = t.messages ++ rows }

module _ {C S T I : Type 0} (service : AssistantService C S T I) where
  abbrev pub tables_of : S → Tables C
  tables_of s = service.session.tables s

  -- The row of a turn, at the next place of its conversation.
  abbrev pub turn : Tables C → String → MessageRole → String → List C → MessageRow C
  turn t id role content citations =
      message_at service.session id (count_of id t.messages) role content citations

  -- A recorded turn is the next row of its conversation.
  pub record_turn-turn :
      (s s' : S) (id : String) (role : MessageRole) (content : String) (citations : List C)
      (scope : Option OwnerScope)
      → record_turn service s (some id) role content citations scope ≡ ok s'
      → InOrder (tables_of s)
      → InOrder (tables_of s')
        × (tables_of s'
            ≡ with_messages (tables_of s) (turn (tables_of s) id role content citations ∷ []))
  unfolding record_turn
  record_turn-turn s s' id role content citations scope h order =
      elim (Result-cases (append service.session s id role content citations scope)) [
        | inl (e, failed) ↦ absurd (ground arith)
        | inr ((m, s''), done) ↦
            let same : s'' ≡ s' = ground arith in
            let done' : append service.session s id role content citations scope ≡ ok (m, s') =
              rw (← same) done in
            let kept =
              append-InOrder service.session s s' id role content citations scope m done' order in
            let a = append-Appended service.session s s' id role content citations scope m done' in
            let at : a.position ≡ count_of id (tables_of s).messages =
              sym (ap (λ (x : MessageRow C). x.position) a.row) ∙ kept.2 in
            let row : m ≡ turn (tables_of s) id role content citations =
              a.row ∙ ap (λ p. message_at service.session id p role content citations) at in
            (kept.0, kept.3 ∙ ap (λ x. with_messages (tables_of s) (x ∷ [])) row)
      ]

  two_turns :
      (t u : Tables C) (id message content : String) (citations : List C)
      → u ≡ with_messages t (turn t id customer message [] ∷ [])
      → with_messages u (turn u id assistant content citations ∷ [])
        ≡ with_messages t (
            turn t id customer message []
            ∷ message_at service.session id (count_of id t.messages + 1) assistant content citations
            ∷ [])
  two_turns t u id message content citations h =
      let q = turn t id customer message [] in
      let own : count_of id (t.messages ++ q ∷ []) ≡ count_of id t.messages + 1 =
        ground (arith, count_of-append id t.messages q, ==_iff id id) in
      rw (h) (rw (own) (rw (append_assoc) refl))

  -- The handoff leaves the conversations alone.
  filed-tables_of :
      (s : S) (message : String) (analysis : IntentAnalysis)
      → tables_of (filed service s message analysis) ≡ tables_of s
  unfolding filed
  filed-tables_of s message analysis =
      let item =
        item_for service.min_confidence message (routed_for service message analysis) none in
      elim (Bool-cases (handoff_for service s message analysis).escalated) [
        | inl called ↦ rw (called) (service.enqueue_law s item)
        | inr stays ↦ rw (stays) refl
      ]

  -- What has happened when a message is answered.
  pub record Answered (s s' : S) (message : String) (id : Option String) (scope : Option OwnerScope)
      (r : AssistantReply C I) : Type 0 where
    pub between : S
    pub analysis : IntentAnalysis
    pub known : service.analyze message ≡ some analysis
    pub asked : record_turn service s id customer message [] scope ≡ ok between
    pub reply :
        r
        ≡ reply_of id
            (routed_for service message analysis)
            (handoff_for service between message analysis)
    pub answered :
        record_turn service
          (filed service between message analysis)
          id
          assistant
          r.reply
          r.citations
          scope
        ≡ ok s'

  pub respond-Answered :
      (s s' : S) (message : String) (id : Option String) (scope : Option OwnerScope)
      (r : AssistantReply C I)
      → respond service s message id scope ≡ (s', ok r)
      → Answered s s' message id scope r
  unfolding respond
  respond-Answered s s' message id scope r h =
      elim (Result-cases (record_turn service s id customer message [] scope)) [
        | inl (e, failed) ↦ absurd (ground arith)
        | inr (s1, asked) ↦ elim (Option-cases (service.analyze message)) [
          | inl down ↦ absurd (ground arith)
          | inr (analysis, known) ↦
              let routed = routed_for service message analysis in
              let handoff = handoff_for service s1 message analysis in
              let s2 = filed service s1 message analysis in
              elim (Option-cases
                (service.raises (chosen service.router analysis) message analysis)) [
                  | inr (e, broke) ↦ absurd (ground arith)
                  | inl fine ↦
                      elim (Result-cases (
                        record_turn service s2 id assistant handoff.reply routed.citations scope)) [
                          | inl (e, failed) ↦ absurd (ground arith)
                          | inr (s3, stored) ↦
                              let same : s3 ≡ s' = ground arith in
                              let reply : r ≡ reply_of id routed handoff = ground arith in
                              record {
                                between = s1;
                                analysis = analysis;
                                known = known;
                                asked = asked;
                                reply = reply;
                                answered = rw (reply) (rw (← same) stored);
                              }
                        ]
                ]
        ]
      ]

  -- The customer's row.
  abbrev pub question_row : String → ℕ → String → MessageRow C
  question_row id position message = record {
    conversation_id = id;
    position = position;
    role = customer;
    content = message;
    token_estimate = estimate_tokens (codes message);
    citations = [];
  }

  -- An answered message of a conversation adds two rows to it and changes no other row and no
  -- conversation: at its next two places first the customer's, with the message, and then the
  -- assistant's, with the reply and the citations that are returned, each with the estimate of its own
  -- text. Where the positions of every conversation count up from 0 they still do.
  pub respond_answered :
      (s s' : S) (message id : String) (scope : Option OwnerScope) (r : AssistantReply C I)
      → respond service s message (some id) scope ≡ (s', ok r)
      → InOrder (tables_of s)
      → let t = tables_of s in
        let n = count_of id t.messages in
        InOrder (tables_of s')
        × (r.conversation_id ≡ some id)
        × (tables_of s'
            ≡ with_messages t (
                question_row id n message
                ∷ record {
                  conversation_id = id;
                  position = n + 1;
                  role = assistant;
                  content = r.reply;
                  token_estimate = estimate_tokens (codes r.reply);
                  citations = r.citations;
                }
                ∷ []))
  respond_answered s s' message id scope r h order =
      let a = respond-Answered s s' message (some id) scope r h in
      let kept = filed-tables_of a.between message a.analysis in
      let first = record_turn-turn s a.between id customer message [] scope a.asked order in
      let second =
        record_turn-turn (filed service a.between message a.analysis) s' id assistant r.reply
          r.citations scope a.answered (rw (kept) first.0) in
      (
        second.0,
        rw (a.reply) refl,
        second.1
            ∙ two_turns (tables_of s) (tables_of (filed service a.between message a.analysis)) id
                message r.reply r.citations (kept ∙ first.1),
      )

  -- Why no answer is given, once the question is stored: the model is down, a handler raises, or the
  -- reply could not be stored after the handoff.
  pub data Unanswered (s1 s' : S) (message id : String) (scope : Option OwnerScope) (e : Fault)
      : Type 0 where
    model_down :
        service.analyze message ≡ none
        → e ≡ llm_error
        → s' ≡ s1
        → Unanswered s1 s' message id scope e
    handler_raised :
        (analysis : IntentAnalysis)
        → service.analyze message ≡ some analysis
        → service.raises (chosen service.router analysis) message analysis ≡ some e
        → s' ≡ s1
        → Unanswered s1 s' message id scope e
    not_recorded :
        (analysis : IntentAnalysis)
        → service.analyze message ≡ some analysis
        → record_turn service s'
            (some id)
            assistant
            (handoff_for service s1 message analysis).reply
            (routed_for service message analysis).citations
            scope
          ≡ err e
        → Unanswered s1 s' message id scope e

  -- A call that raises either could not record the question, raises that very error and has changed
  -- nothing, or has stored the question at the next place of its conversation, and no other row or
  -- conversation, and the error is that of the model, of the handler or of storing the reply. So a
  -- failure after the question loses the answer, never the question.
  pub respond_raised :
      (s s' : S) (message id : String) (scope : Option OwnerScope) (e : Fault)
      → respond service s message (some id) scope ≡ (s', err e)
      → InOrder (tables_of s)
      → ((s' ≡ s) × (record_turn service s (some id) customer message [] scope ≡ err e))
        ⊎ ((s1 : S) × (record_turn service s (some id) customer message [] scope ≡ ok s1)
            × (tables_of s'
                ≡ with_messages
                    (tables_of s)
                    (question_row id (count_of id (tables_of s).messages) message ∷ []))
            × Unanswered s1 s' message id scope e)
  unfolding respond
  respond_raised s s' message id scope e h order =
      elim (Result-cases (record_turn service s (some id) customer message [] scope)) [
        | inl (e', failed) ↦
            let same : e' ≡ e = ground arith in inl (ground arith, rw (← same) failed)
        | inr (s1, asked) ↦
            let first = record_turn-turn s s1 id customer message [] scope asked order in
            elim (Option-cases (service.analyze message)) [
              | inl down ↦
                  let same : s' ≡ s1 = ground arith in
                  inr (s1, asked, rw (same) first.1, model_down down (ground arith) same)
              | inr (analysis, known) ↦
                  elim (Option-cases
                    (service.raises (chosen service.router analysis) message analysis)) [
                      | inr (e', broke) ↦
                          let same : s' ≡ s1 = ground arith in
                          let that : e' ≡ e = ground arith in
                          inr (
                            s1,
                            asked,
                            rw (same) first.1,
                            handler_raised analysis known (rw (← that) broke) same,
                          )
                      | inl fine ↦
                          let routed = routed_for service message analysis in
                          let handoff = handoff_for service s1 message analysis in
                          let s2 = filed service s1 message analysis in
                          elim (Result-cases (
                            record_turn service s2 (some id) assistant handoff.reply
                              routed.citations scope)) [
                                | inl (e', failed) ↦
                                    let same : s2 ≡ s' = ground arith in
                                    let that : e' ≡ e = ground arith in
                                    inr (
                                      s1,
                                      asked,
                                      rw (← same) (filed-tables_of s1 message analysis ∙ first.1),
                                      not_recorded analysis known
                                          (rw (← same) (rw (← that) failed)),
                                    )
                                | inr (s3, stored) ↦ absurd (ground arith)
                              ]
                    ]
            ]
      ]

  record_turn_hidden :
      (s : S) (message id : String) (row : Option Conversation) (scope : OwnerScope)
      → service.session.get_row s id ≡ some row
      → (Owned scope (lookup id (tables_of s).conversations) → ⊥)
      → record_turn service s (some id) customer message [] (some scope)
        ≡ err conversation_not_found
  unfolding record_turn
  record_turn_hidden s message id row scope got h =
      rw ((append_hidden service.session s id row customer message [] scope got h).1) refl

  -- Under a scope, a message to a conversation that belongs to another subject, or to nobody, is
  -- answered as one to a conversation that does not exist: nothing is stored.
  pub respond_hidden :
      (s : S) (message id : String) (row : Option Conversation) (scope : OwnerScope)
      → service.session.get_row s id ≡ some row
      → (Owned scope (lookup id (tables_of s).conversations) → ⊥)
      → respond service s message (some id) (some scope) ≡ (s, err conversation_not_found)
  unfolding respond
  respond_hidden s message id row scope got h =
      ground (arith, record_turn_hidden s message id row scope got h)

  -- The reply is the fixed one, which a person follows up, and cites nothing.
  abbrev pub HandedOver : AssistantReply C I → Type 0
  HandedOver r =
      (r.reply ≡ "I am not able to help with that here. A support agent will follow up.")
      × (r.citations ≡ [])
      × (r.handled ≡ false)
      × (r.escalated ≡ true)
      × (gives unresolved r.escalation_reasons ≡ 1)
      × (gives policy r.escalation_reasons ≡ 1)

  with_notice-blocked_reply : with_notice blocked_reply ≡ blocked_reply
  unfolding with_notice
  with_notice-blocked_reply = refl

  reply_of_blocked :
      (s : S) (message : String) (id : Option String) (analysis : IntentAnalysis)
      (rules : List PolicyRule)
      → service.router.enforcer ≡ some rules
      → (let given = response service.router message analysis in
          decision rules message analysis given.reply given.handled).action
        ≡ block
      → HandedOver (
          reply_of id
            (routed_for service message analysis)
            (handoff_for service s message analysis))
  unfolding consider
  reply_of_blocked s message id analysis rules enforced blocked =
      let routed = route_blocked service.router message analysis rules enforced blocked in
      let called =
        consider_blocked (λ item. (service.enqueue s item).1) service.min_confidence message none
          service.router analysis rules enforced blocked in
      (
        ground (arith, routed, called, with_notice-blocked_reply),
        routed.3,
        routed.1,
        called.0,
        called.1,
        called.2,
      )

  -- When a rule blocks what the handler said, an answered message is escalated, as unresolved and for
  -- policy, it cites nothing, and its reply is the fixed one, which says that a person follows and to which no
  -- second notice is added.
  pub respond_blocked :
      (s s' : S) (message : String) (id : Option String) (scope : Option OwnerScope)
      (analysis : IntentAnalysis) (rules : List PolicyRule) (r : AssistantReply C I)
      → service.analyze message ≡ some analysis
      → service.router.enforcer ≡ some rules
      → (let given = response service.router message analysis in
          decision rules message analysis given.reply given.handled).action
        ≡ block
      → respond service s message id scope ≡ (s', ok r)
      → HandedOver r
  respond_blocked s s' message id scope analysis rules r known enforced blocked h =
      let a = respond-Answered s s' message id scope r h in
      let same : a.analysis ≡ analysis = ground (arith, a.known) in
      rw (a.reply)
        (rw (same) (reply_of_blocked a.between message id analysis rules enforced blocked))
