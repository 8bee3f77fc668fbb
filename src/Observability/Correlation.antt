-- ===== src/Observability/Correlation.antt =====
-- Every span is closed, in the trace of the span around it.
use nexa_assist.Common.{
  ℕ, String, ◌≡◌, refl, Bool, true, false, ◌&&◌, sym, ap, ◌∙◌, Option, none, some, List, [], ◌∷◌,
  ◌++◌, append_assoc, append-nil, arith, All, All-append,
}
use nexa_assist.Dict.{Dict}
use nexa_assist.Observability.Spans.{SpanKind, SpanStatus, error, Value, Span}
use nexa_assist.Observability.Tracer.{
  SpanHandle, set_attributes, record_error, to_span, Work, spanned, sets, marks, raises, tries,
  Body, Raised, exception, base_exception, finished, andthen, Tracing, opened, on_current, marked,
  closed, followed, run, run_body,
}
use nexa_assist.Observability.Traces.{
  Plains, sanitise_attributes-Plains, Same, Same-refl, Same-trans, set_attributes-Same,
  record_error-Same, marked-Same, PlainCurrent, OfTrace, Onward, Grown,
}

Onward-refl : (c : Option SpanHandle) → PlainCurrent c → Onward c c
Onward-refl none p = tt
Onward-refl (some h) p = Same-refl h p

Onward-trans : (a b c : Option SpanHandle) → Onward a b → Onward b c → Onward a c
Onward-trans none none none h k = tt
Onward-trans (some x) (some y) (some z) h k = Same-trans x y z h k
Onward-trans none (some _) _ h k = absurd h
Onward-trans (some _) none _ h k = absurd h
Onward-trans none none (some _) h k = absurd k
Onward-trans (some _) (some _) none h k = absurd k

Onward-PlainCurrent : (a b : Option SpanHandle) → Onward a b → PlainCurrent b
Onward-PlainCurrent none none h = tt
Onward-PlainCurrent (some x) (some y) h = h.plains
Onward-PlainCurrent none (some _) h = absurd h
Onward-PlainCurrent (some _) none h = absurd h

OfTrace-Onward :
    (a b : Option SpanHandle) (spans : List Span)
    → Onward a b
    → All (OfTrace b) spans
    → All (OfTrace a) spans
OfTrace-Onward a b [] h t = tt
OfTrace-Onward none b (sp ∷ spans) h t = (tt, OfTrace-Onward none b spans h t.1)
OfTrace-Onward (some x) (some y) (sp ∷ spans) h t =
    (t.0 ∙ h.trace, OfTrace-Onward (some x) (some y) spans h t.1)
OfTrace-Onward (some x) none (sp ∷ spans) h t = absurd h

-- A change of the current span alone.
Grown-change :
    (s : Tracing) (c : Option SpanHandle) → Onward s.current c → Grown s (record s { current = c })
Grown-change s c h = record {
  new = [];
  recorded = sym (append-nil s.recorded);
  plain = tt;
  traced = tt;
  onward = h;
}

Grown-trans : (s t u : Tracing) → Grown s t → Grown t u → Grown s u
Grown-trans s t u g k = record {
  new = g.new ++ k.new;
  recorded = k.recorded ∙ ap (λ x. x ++ k.new) g.recorded ∙ append_assoc s.recorded g.new k.new;
  plain = All-append (λ sp. Plains sp.attributes) g.new k.new g.plain k.plain;
  traced =
      All-append (OfTrace s.current) g.new k.new g.traced
        (OfTrace-Onward s.current t.current k.new g.onward k.traced);
  onward = Onward-trans s.current t.current u.current g.onward k.onward;
}

All-map :
    {P Q : Span → Type 0} (spans : List Span)
    → ((sp : Span) → P sp → Q sp)
    → All P spans
    → All Q spans
All-map [] f h = tt
All-map (sp ∷ spans) f h = (f sp h.0, All-map spans f h.1)

on_current-Onward :
    (f : SpanHandle → SpanHandle) (c : Option SpanHandle)
    → ((h : SpanHandle) → Plains h.attributes → Same h (f h))
    → PlainCurrent c
    → Onward c (on_current f c)
on_current-Onward f none k p = tt
on_current-Onward f (some h) k p = k h p

module _ (new_id : ℕ → String) where
  -- A span is opened in the trace of its parent.
  opened-OfTrace :
      (c : Option SpanHandle) (drawn : ℕ) (name : String) (kind : SpanKind)
      (attributes : Dict String Value) (sp : Span)
      → sp.trace_id ≡ (opened new_id c drawn name kind attributes).0.trace_id
      → OfTrace c sp
  unfolding opened
  opened-OfTrace none drawn name kind attributes sp h = tt
  opened-OfTrace (some parent) drawn name kind attributes sp h = h

  opened-Plains :
      (c : Option SpanHandle) (drawn : ℕ) (name : String) (kind : SpanKind)
      (attributes : Dict String Value)
      → Plains (opened new_id c drawn name kind attributes).0.attributes
  unfolding opened
  opened-Plains none drawn name kind attributes = sanitise_attributes-Plains attributes
  opened-Plains (some parent) drawn name kind attributes = sanitise_attributes-Plains attributes

  -- The status of the current span.
  abbrev status_of : Option SpanHandle → Option (SpanStatus × Option String)
  status_of none = none
  status_of (some h) = some (h.status, h.error_category)

  -- An `Exception` left the code.
  abbrev pub is_exception : Option Raised → Bool
  is_exception (some (exception type_name)) = true
  is_exception (some (base_exception type_name)) = false
  is_exception none = false

  -- The span of a handle that is closed, and what was recorded inside it.
  record Finished (s : Tracing) (h : SpanHandle) (raised : Option Raised) (c : Option SpanHandle)
      (s' : Tracing) : Type 0 where
    pub inner : List Span
    pub own : Span
    pub recorded : s'.recorded ≡ s.recorded ++ (inner ++ own ∷ [])
    pub back : s'.current ≡ s.current
    pub plain : All (λ sp. Plains sp.attributes) inner
    pub own_plain : Plains own.attributes
    pub traced : All (λ sp. sp.trace_id ≡ h.trace_id) inner
    pub trace : own.trace_id ≡ h.trace_id
    pub span : own.span_id ≡ h.span_id
    pub parent : own.parent_span_id ≡ h.parent_span_id
    pub name : own.name ≡ h.name
    pub kind : own.kind ≡ h.kind
    pub failed :
        (type_name : String)
        → raised ≡ some (exception type_name)
        → (own.status ≡ error) × (own.error_category ≡ some type_name)
    pub unfailed :
        is_exception raised ≡ false
        → status_of c ≡ status_of (some h)
        → (own.status ≡ h.status) × (own.error_category ≡ h.error_category)

  to_span-unfailed :
      (h h' : SpanHandle) (raised : Option Raised)
      → is_exception raised ≡ false
      → status_of (some h') ≡ status_of (some h)
      → ((to_span (marked raised h')).status ≡ h.status)
        × ((to_span (marked raised h')).error_category ≡ h.error_category)
  unfolding to_span
  to_span-unfailed h h' none u e = (ground arith, ground arith)
  to_span-unfailed h h' (some (exception t)) u e = absurd (ground arith)
  to_span-unfailed h h' (some (base_exception t)) u e = (ground arith, ground arith)

  to_span-failed :
      (h : SpanHandle) (raised : Option Raised) (type_name : String)
      → raised ≡ some (exception type_name)
      → ((to_span (marked raised h)).status ≡ error)
        × ((to_span (marked raised h)).error_category ≡ some type_name)
  unfolding to_span record_error
  to_span-failed h none type_name e = absurd (ground arith)
  to_span-failed h (some (exception t)) type_name e = (refl, sym (ground arith))
  to_span-failed h (some (base_exception t)) type_name e = absurd (ground arith)

  closed-Finished :
      (s : Tracing) (h : SpanHandle) (raised : Option Raised) (r : List Span)
      (c : Option SpanHandle) (now drawn : ℕ)
      → Grown
          (record { recorded = s.recorded; current = some h; drawn = drawn })
          (record { recorded = r; current = c; drawn = now })
      → Finished s h raised c
          (closed s.current (raised, record { recorded = r; current = c; drawn = now })).1
  unfolding to_span
  closed-Finished s h raised r none now drawn g = absurd g.onward
  closed-Finished s h raised r (some h') now drawn g =
      let last =
        Same-trans h h' (marked raised h') g.onward (marked-Same raised h' g.onward.plains) in
      record {
        inner = g.new;
        own = to_span (marked raised h');
        recorded =
            ap (λ x. x ++ to_span (marked raised h') ∷ []) g.recorded
            ∙ append_assoc s.recorded g.new _;
        back = refl;
        plain = g.plain;
        own_plain = last.plains;
        traced = g.traced;
        trace = last.trace;
        span = last.span;
        parent = last.parent;
        name = last.name;
        kind = last.kind;
        failed = to_span-failed h' raised;
        unfailed = to_span-unfailed h h' raised;
      }

  -- The closed span is one more of the trace around it.
  Finished-Grown :
      (s : Tracing) (h : SpanHandle) (raised : Option Raised) (last : Option SpanHandle)
      (s' : Tracing)
      → PlainCurrent s.current
      → ((sp : Span) → sp.trace_id ≡ h.trace_id → OfTrace s.current sp)
      → Finished s h raised last s'
      → Grown s s'
  Finished-Grown s h raised last s' p of c = record {
    new = c.inner ++ c.own ∷ [];
    recorded = c.recorded;
    plain = All-append (λ sp. Plains sp.attributes) c.inner (c.own ∷ []) c.plain (c.own_plain, tt);
    traced =
        All-append (OfTrace s.current) c.inner (c.own ∷ []) (All-map c.inner of c.traced)
          (of c.own c.trace, tt);
    onward = rw (c.back) (Onward-refl s.current p);
  }

  followed-Grown :
      (s : Tracing) (done rest : Option Raised × Tracing)
      → Grown s done.1
      → Grown done.1 rest.1
      → Grown s (followed done rest).1
  followed-Grown s (none, t) rest g k = Grown-trans s t rest.1 g k
  followed-Grown s (some raised, t) rest g k = g

  mutual
    unfolding run run_body

    run-Grown : (s : Tracing) (work : Work) → PlainCurrent s.current → Grown s (run new_id s work).1
    run-Grown s (spanned name kind attributes body) p =
        let fresh = opened new_id s.current s.drawn name kind attributes in
        let s1 : Tracing = record s { current = some fresh.0; drawn = fresh.1 } in
        let done = run_body new_id s1 body in
        Finished-Grown s fresh.0 done.0 done.1.current (closed s.current done).1 p
          (opened-OfTrace s.current s.drawn name kind attributes)
          (closed-Finished s fresh.0 done.0 done.1.recorded done.1.current done.1.drawn fresh.1
            (run_body-Grown s1 body (opened-Plains s.current s.drawn name kind attributes)))
    run-Grown s (sets values) p =
        Grown-change s (on_current (λ h. set_attributes h values) s.current) (
          on_current-Onward (λ h. set_attributes h values) s.current
            (λ h. set_attributes-Same h values) p)
    run-Grown s (marks category) p =
        Grown-change s (on_current (λ h. record_error h category) s.current) (
          on_current-Onward (λ h. record_error h category) s.current
            (λ h. record_error-Same h category) p)
    run-Grown s (raises raised) p = Grown-change s s.current (Onward-refl s.current p)
    run-Grown s (tries body) p = run_body-Grown s body p

    run_body-Grown :
        (s : Tracing) (body : Body) → PlainCurrent s.current → Grown s (run_body new_id s body).1
    run_body-Grown s finished p = Grown-change s s.current (Onward-refl s.current p)
    run_body-Grown s (andthen work body) p =
        let done = run new_id s work in
        let first = run-Grown s work p in
        followed-Grown s done (run_body new_id done.1 body) first
          (run_body-Grown done.1 body (Onward-PlainCurrent s.current done.1.current first.onward))

  -- Code that does not mark the span around it as failed.
  abbrev mutual
    pub unmarking : Work → Bool
    unmarking (spanned name kind attributes body) = true
    unmarking (sets values) = true
    unmarking (marks category) = false
    unmarking (raises raised) = true
    unmarking (tries body) = unmarking_body body

    pub unmarking_body : Body → Bool
    unmarking_body finished = true
    unmarking_body (andthen work body) = unmarking work && unmarking_body body

  on_current-status :
      (c : Option SpanHandle) (values : Dict String Value)
      → status_of (on_current (λ h. set_attributes h values) c) ≡ status_of c
  unfolding set_attributes
  on_current-status none values = refl
  on_current-status (some h) values = refl

  followed-status :
      (c : Option SpanHandle) (done rest : Option Raised × Tracing)
      → status_of done.1.current ≡ status_of c
      → status_of rest.1.current ≡ status_of done.1.current
      → status_of (followed done rest).1.current ≡ status_of c
  followed-status c (none, t) rest g k = k ∙ g
  followed-status c (some raised, t) rest g k = g

  mutual
    unfolding run run_body

    run-status :
        (s : Tracing) (work : Work)
        → unmarking work ≡ true
        → status_of (run new_id s work).1.current ≡ status_of s.current
    run-status s (spanned name kind attributes body) u = refl
    run-status s (sets values) u = on_current-status s.current values
    run-status s (marks category) u = absurd (ground arith)
    run-status s (raises raised) u = refl
    run-status s (tries body) u = run_body-status s body u

    run_body-status :
        (s : Tracing) (body : Body)
        → unmarking_body body ≡ true
        → status_of (run_body new_id s body).1.current ≡ status_of s.current
    run_body-status s finished u = refl
    run_body-status s (andthen work body) u =
        let done = run new_id s work in
        followed-status s.current done (run_body new_id done.1 body)
          (run-status s work (ground arith)) (run_body-status done.1 body (ground arith))

  abbrev pub parent_of : Option SpanHandle → Option String
  parent_of none = none
  parent_of (some parent) = some parent.span_id

  -- The span of some code that is closed, and what was recorded inside it.
  pub record Closed (s : Tracing) (name : String) (kind : SpanKind) (body : Body)
      (raised : Option Raised) (s' : Tracing) : Type 0 where
    pub inner : List Span
    pub own : Span
    pub recorded : s'.recorded ≡ s.recorded ++ (inner ++ own ∷ [])
    pub back : s'.current ≡ s.current
    pub plain : All (λ sp. Plains sp.attributes) inner
    pub own_plain : Plains own.attributes
    pub traced : All (λ sp. sp.trace_id ≡ own.trace_id) inner
    pub trace : OfTrace s.current own
    pub parent : own.parent_span_id ≡ parent_of s.current
    pub own_name : own.name ≡ name
    pub own_kind : own.kind ≡ kind
    pub failed :
        (type_name : String)
        → raised ≡ some (exception type_name)
        → (own.status ≡ error) × (own.error_category ≡ some type_name)
    pub unfailed :
        is_exception raised ≡ false
        → unmarking_body body ≡ true
        → (own.status ≡ SpanStatus.ok) × (own.error_category ≡ none)

  opened_lem :
      (c : Option SpanHandle) (drawn : ℕ) (name : String) (kind : SpanKind)
      (attributes : Dict String Value)
      → let h = (opened new_id c drawn name kind attributes).0 in
        (h.parent_span_id ≡ parent_of c)
        × (h.name ≡ name)
        × (h.kind ≡ kind)
        × (h.status ≡ SpanStatus.ok)
        × (h.error_category ≡ none)
  unfolding opened
  opened_lem none drawn name kind attributes = (refl, refl, refl, refl, refl)
  opened_lem (some parent) drawn name kind attributes = (refl, refl, refl, refl, refl)

  -- A span is closed whether its code returns or raises: whatever the code did, what is recorded anew is
  -- the spans inside it and then the span itself, with its name and kind and the span around it as its
  -- parent; they all have its trace, which is its parent's, and none of their attributes is prose; and
  -- the span around it is current again. If an `Exception` leaves the code, the span's status is an error
  -- with its type. Otherwise, also where another `BaseException` leaves it, the status is ok, unless the
  -- code marked the span itself.
  pub run-Closed :
      (s : Tracing) (name : String) (kind : SpanKind) (attributes : Dict String Value) (body : Body)
      → PlainCurrent s.current
      → let done = run new_id s (spanned name kind attributes body) in
        Closed s name kind body done.0 done.1
  unfolding run
  run-Closed s name kind attributes body p =
      let fresh = opened new_id s.current s.drawn name kind attributes in
      let s1 : Tracing = record s { current = some fresh.0; drawn = fresh.1 } in
      let done = run_body new_id s1 body in
      let grown = run_body-Grown s1 body (opened-Plains s.current s.drawn name kind attributes) in
      let f =
        closed-Finished s fresh.0 done.0 done.1.recorded done.1.current done.1.drawn fresh.1
          grown in
      let o = opened_lem s.current s.drawn name kind attributes in
      record {
        inner = f.inner;
        own = f.own;
        recorded = f.recorded;
        back = f.back;
        plain = f.plain;
        own_plain = f.own_plain;
        traced = All-map f.inner (λ sp e. e ∙ sym f.trace) f.traced;
        trace = opened-OfTrace s.current s.drawn name kind attributes f.own f.trace;
        parent = f.parent ∙ o.0;
        own_name = f.name ∙ o.1;
        own_kind = f.kind ∙ o.2;
        failed = f.failed;
        unfailed = λ e u.
            let kept = f.unfailed e (run_body-status s1 body u) in (kept.0 ∙ o.3, kept.1 ∙ o.4);
      }
