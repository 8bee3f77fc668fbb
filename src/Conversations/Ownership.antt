-- ===== src/Conversations/Ownership.antt =====
-- A conversation of somebody else is answered as one that does not exist.
use nexa_assist.Common.{
  String, ◌≡◌, refl, ap, sym, ◌∙◌, inl, inr, false, Option, none, some, List, ok, err, arith,
  string_key, ◌==◌, ==_iff, Option-cases, Bool-cases,
}
use nexa_assist.Dict.{lookup}
use nexa_assist.Auth.{OwnerScope, permits}
use nexa_assist.Context.{MessageRole}
use nexa_assist.Conversations.{Conversation, Session, conversation_not_found, visible, get, append}

-- The conversation is there and belongs to the subject of the scope.
abbrev pub Owned : OwnerScope → Option Conversation → Type 0
Owned scope none = ⊥
Owned scope (some c) = c.owner_subject ≡ some scope.subject

permits-not :
    (scope : OwnerScope) (owner : Option String)
    → (owner ≡ some scope.subject → ⊥)
    → permits scope owner ≡ false
unfolding permits
permits-not scope none h = refl
permits-not scope (some o) h = elim (Bool-cases (o == scope.subject)) [
  | inl same ↦ absurd (h (ap some ((==_iff o scope.subject).0 same)))
  | inr other ↦ other
]

hidden-visible :
    (scope : OwnerScope) (row : Option Conversation)
    → (Owned scope row → ⊥)
    → visible (some scope) row ≡ err conversation_not_found
hidden-visible scope none h = refl
hidden-visible scope (some c) h = rw (permits-not scope c.owner_subject h) refl

module _ {C S : Type 0} (session : Session C S) where
  -- Under a scope a conversation that belongs to another subject, or to nobody, is answered exactly
  -- as one that does not exist, when it is read and when a turn is appended; nothing is stored.
  pub append_hidden :
      (s : S) (id : String) (row : Option Conversation) (role : MessageRole) (content : String)
      (citations : List C) (scope : OwnerScope)
      → session.get_row s id ≡ some row
      → (Owned scope (lookup id (session.tables s).conversations) → ⊥)
      → (get session s id (some scope) ≡ err conversation_not_found)
        × (append session s id role content citations (some scope) ≡ err conversation_not_found)
  unfolding get append
  append_hidden s id row role content citations scope got h =
      let known : row ≡ lookup id (session.tables s).conversations =
        session.get_row_law s id row got in
      let hidden = hidden-visible scope row (rw (known) h) in
      (rw (got) hidden, rw (got) (rw (hidden) refl))

  -- What a scope lets through is owned by its subject.
  pub get-Owned :
      (s : S) (id : String) (c : Conversation) (scope : OwnerScope)
      → get session s id (some scope) ≡ ok c
      → (lookup id (session.tables s).conversations ≡ some c)
        × (c.owner_subject ≡ some scope.subject)
  unfolding get permits
  get-Owned s id c scope h = elim (Option-cases (session.get_row s id)) [
    | inl down ↦ absurd (ground arith)
    | inr (row, got) ↦ elim (Option-cases row) [
      | inl missing ↦ absurd (ground arith)
      | inr (d, there) ↦
          let found : lookup id (session.tables s).conversations ≡ some d =
            sym (session.get_row_law s id row got) ∙ there in
          elim (Option-cases d.owner_subject) [
            | inl nobody ↦ absurd (ground arith)
            | inr (o, owner) ↦ ground (arith, ==_iff o scope.subject)
          ]
    ]
  ]
