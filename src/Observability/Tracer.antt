-- ===== src/Observability/Tracer.antt =====
-- backend/app/observability/tracer.py: `SpanHandle`, `InMemoryRecorder` and `Tracer`. Traced code is a
-- tree of what it does with its tracer; `new_id` gives the identifiers in the order in which they are
-- drawn. Code that changes the handle of a span other than its innermost is not modelled.
use nexa_assist.Common.{ℕ, suc, String, Option, none, some, List, [], ◌∷◌, ◌++◌, string_key}
use nexa_assist.Dict.{Dict, insert}
use nexa_assist.Observability.Spans.{
  SpanKind, SpanStatus, ok, error, Value, Span, sanitise_attributes,
}

pub record SpanHandle : Type 0 where
  pub trace_id : String
  pub span_id : String
  pub parent_span_id : Option String
  pub name : String
  pub kind : SpanKind
  pub status : SpanStatus
  pub error_category : Option String
  pub attributes : Dict String Value

-- d.update(values)
abbrev pub updated : Dict String Value → Dict String Value → Dict String Value
updated d [] = d
updated d ((key, value) ∷ values) = updated (insert key value d) values

unfoldable pub set_attributes : SpanHandle → Dict String Value → SpanHandle
unfolding sanitise_attributes
set_attributes h values = record h {
  attributes = updated h.attributes (sanitise_attributes values);
}

unfoldable pub record_error : SpanHandle → String → SpanHandle
record_error h category = record h { status = error; error_category = some category }

unfoldable pub to_span : SpanHandle → Span
to_span h = record {
  trace_id = h.trace_id;
  span_id = h.span_id;
  parent_span_id = h.parent_span_id;
  name = h.name;
  kind = h.kind;
  status = h.status;
  error_category = h.error_category;
  attributes = h.attributes;
}

-- What is raised: an `Exception`, or another `BaseException` such as `CancelledError`, by its type's
-- name.
pub data Raised : Type 0 where
  exception base_exception : String → Raised

-- What traced code does.
mutual
  pub data Work : Type 0 where
    -- with tracer.span(name, kind, **attributes) as handle: ...
    spanned : String → SpanKind → Dict String Value → Body → Work
    -- handle.set_attributes(values)
    sets : Dict String Value → Work
    -- handle.record_error(category)
    marks : String → Work
    -- raise
    raises : Raised → Work
    -- try: ... except Exception: pass
    tries : Body → Work

  pub data Body : Type 0 where
    finished : Body
    andthen : Work → Body → Body

-- The recorded spans, `_current`, and how many identifiers have been drawn.
pub record Tracing : Type 0 where
  pub recorded : List Span
  pub current : Option SpanHandle
  pub drawn : ℕ

-- The handle that `span` opens under a parent, and the identifiers drawn after it.
unfoldable pub opened :
    (ℕ → String) → Option SpanHandle → ℕ → String → SpanKind → Dict String Value → SpanHandle × ℕ
unfolding sanitise_attributes
opened new_id none drawn name kind attributes = (
  record {
    trace_id = new_id drawn;
    span_id = new_id (suc drawn);
    parent_span_id = none;
    name = name;
    kind = kind;
    status = ok;
    error_category = none;
    attributes = sanitise_attributes attributes;
  },
  suc (suc drawn),
)
opened new_id (some parent) drawn name kind attributes = (
  record {
    trace_id = parent.trace_id;
    span_id = new_id drawn;
    parent_span_id = some parent.span_id;
    name = name;
    kind = kind;
    status = ok;
    error_category = none;
    attributes = sanitise_attributes attributes;
  },
  suc drawn,
)

-- A change of the innermost span.
abbrev pub on_current : (SpanHandle → SpanHandle) → Option SpanHandle → Option SpanHandle
on_current f none = none
on_current f (some h) = some (f h)

-- `except Exception as exc: handle.record_error(type(exc).__name__)`
abbrev pub marked : Option Raised → SpanHandle → SpanHandle
marked none h = h
marked (some (exception type_name)) h = record_error h type_name
marked (some (base_exception type_name)) h = h

-- `_emit` of the handle that is closed
abbrev pub emitted : List Span → Option Raised → Option SpanHandle → List Span
emitted spans raised none = spans
emitted spans raised (some h) = spans ++ to_span (marked raised h) ∷ []

-- `finally`: the span is recorded and the parent is current again.
abbrev pub closed : Option SpanHandle → Option Raised × Tracing → Option Raised × Tracing
closed parent (raised, s) =
    (raised, record s { recorded = emitted s.recorded raised s.current; current = parent })

-- What comes after is done unless an exception was raised.
abbrev pub followed : Option Raised × Tracing → Option Raised × Tracing → Option Raised × Tracing
followed (none, s) rest = rest
followed (some raised, s) rest = (some raised, s)

-- What `except Exception` lets through.
abbrev pub uncaught : Option Raised → Option Raised
uncaught (some (base_exception type_name)) = some (base_exception type_name)
uncaught (some (exception type_name)) = none
uncaught none = none

-- What is raised out of the code, if anything is, and the state.
unfoldable mutual
  pub run : (ℕ → String) → Tracing → Work → Option Raised × Tracing
  run new_id s (spanned name kind attributes body) =
      let fresh = opened new_id s.current s.drawn name kind attributes in
      closed s.current (run_body new_id (record s { current = some fresh.0; drawn = fresh.1 }) body)
  run new_id s (sets values) =
      (none, record s { current = on_current (λ h. set_attributes h values) s.current })
  run new_id s (marks category) =
      (none, record s { current = on_current (λ h. record_error h category) s.current })
  run new_id s (raises raised) = (some raised, s)
  run new_id s (tries body) = let done = run_body new_id s body in (uncaught done.0, done.1)

  pub run_body : (ℕ → String) → Tracing → Body → Option Raised × Tracing
  run_body new_id s finished = (none, s)
  run_body new_id s (andthen work body) =
      let done = run new_id s work in followed done (run_body new_id done.1 body)
