-- ===== src/Workflows/Library.antt =====
-- backend/app/workflows/library.py: the workflows that are shipped. A number among the parameters is a
-- JSON value of the type `J`.
use nexa_assist.Common.{
  ℕ, String, ◌≡◌, refl, inl, inr, true, false, Option, none, some, List, [], ◌∷◌, Result, arith,
  string_key, ◌==◌, ==_iff, if◌then◌else◌, Bool-cases, All,
}
use nexa_assist.Names.{allowed}
use nexa_assist.Text.{drop_spaces}
use nexa_assist.Workflows.References.{
  text, other, reference_to, is_name, span_name, referenced_step, reference, strip_prefix,
}
use nexa_assist.Workflows.Definition.{Workflow, validate_workflow, check_steps}

module _ {J : Type 0} (number : ℕ → J) where
  abbrev pub ticket_context : Workflow J
  ticket_context = record {
    name = "ticket_context";
    description =
        "Gather everything known about one ticket: the ticket itself, plus documentation relevant to what the customer wrote.";
    inputs = "ticket_id" ∷ [];
    steps =
        record {
          id = "ticket";
          tool = "lookup_ticket";
          params = ("ticket_id", text (reference_to "ticket_id")) ∷ [];
          optional = false;
        }
        ∷ record {
          id = "recent";
          tool = "list_tickets";
          params = ("limit", other (number 5)) ∷ [];
          optional = true;
        }
        ∷ [];
  }

  abbrev pub knowledge_lookup : Workflow J
  knowledge_lookup = record {
    name = "knowledge_lookup";
    description = "Find documentation passages relevant to a customer question.";
    inputs = "question" ∷ [];
    steps =
        record {
          id = "passages";
          tool = "search_knowledge_base";
          params = ("query", text (reference_to "question")) ∷ ("top_k", other (number 4)) ∷ [];
          optional = false;
        }
        ∷ [];
  }

  abbrev pub open_ticket_review : Workflow J
  open_ticket_review = record {
    name = "open_ticket_review";
    description = "List the tickets currently awaiting attention.";
    inputs = [];
    steps =
        record {
          id = "open";
          tool = "list_tickets";
          params = ("status", text "open") ∷ ("limit", other (number 20)) ∷ [];
          optional = false;
        }
        ∷ [];
  }

  abbrev pub workflows : List (Workflow J)
  workflows = ticket_context ∷ knowledge_lookup ∷ open_ticket_review ∷ []

  abbrev find : String → List (Workflow J) → Option (Workflow J)
  find name [] = none
  find name (w ∷ ws) = if w.name == name then some w else find name ws

  -- `get`, which raises where there is none
  unfoldable pub get : String → Option (Workflow J)
  get name = find name workflows

  abbrev Accepted : Workflow J → Type 0
  Accepted w = validate_workflow w ≡ Result.ok w

  shipped_accepted : All Accepted workflows
  unfolding validate_workflow check_steps is_name span_name referenced_step reference strip_prefix
      drop_spaces allowed reference_to
  shipped_accepted = (refl, (refl, (refl, tt)))

  find-Accepted :
      (name : String) (ws : List (Workflow J)) (w : Workflow J)
      → All Accepted ws
      → find name ws ≡ some w
      → (w.name ≡ name) × Accepted w
  find-Accepted name [] w h e = absurd (ground arith)
  find-Accepted name (x ∷ ws) w h e = elim (Bool-cases (x.name == name)) [
    | inl same ↦ let found : x ≡ w = ground arith in rw (← found) ((==_iff x.name name).0 same, h.0)
    | inr different ↦ find-Accepted name ws w h.1 (ground arith)
  ]

  -- Every workflow that can be looked up has the name asked for and is one that the validators accept.
  pub get-Accepted :
      (name : String) (w : Workflow J)
      → get name ≡ some w
      → (w.name ≡ name) × (validate_workflow w ≡ Result.ok w)
  unfolding get
  get-Accepted name w e = find-Accepted name workflows w shipped_accepted e
