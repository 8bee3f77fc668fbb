-- ===== src/Observability/Traces.antt =====
-- The spans that traced code leaves: closed, correlated and free of prose.
use nexa_assist.Common.{
  ◌≤◌, String, ◌≡◌, refl, ◌∙◌, inl, inr, false, ◌||◌, Option, none, some, List, [], ◌∷◌, ◌++◌,
  arith, ltb, string_key, ◌==◌, All, Bool-cases,
}
use nexa_assist.Dict.{Dict, insert}
use nexa_assist.Text.{text_length}
use nexa_assist.Observability.Spans.{
  Value, none_value, structured, flag, number, text, Span, max_attribute_length, omitted, any_space,
  safe_value, sanitise_from, sanitise_attributes,
}
use nexa_assist.Observability.Tracer.{
  Raised, exception, base_exception, SpanHandle, updated, set_attributes, record_error, Tracing,
  marked,
}

-- No prose: a text is short and holds no white space.
abbrev pub Plain : Value → Type 0
Plain none_value = Unit
Plain (flag _) = Unit
Plain (number _) = Unit
Plain (text s) = (text_length s ≤ 120) × (any_space s ≡ false)
Plain structured = ⊥

abbrev pub Plains : Dict String Value → Type 0
Plains [] = Unit
Plains ((_, value) ∷ d) = Plain value × Plains d

omitted-Plain : Plain (text omitted)
unfolding text_length any_space
omitted-Plain = (omega arith, refl)

safe_value-Plain : (v : Value) → Plain (safe_value v)
unfolding safe_value
safe_value-Plain none_value = tt
safe_value-Plain (flag b) = tt
safe_value-Plain (number n) = tt
safe_value-Plain structured = omitted-Plain
safe_value-Plain (text s) =
    elim (Bool-cases (ltb max_attribute_length (text_length s) || any_space s)) [
      | inl prose ↦ rw (prose) omitted-Plain
      | inr fine ↦ rw (fine) (ground arith, ground arith)
    ]

insert-Plains :
    (k : String) (v : Value) (d : Dict String Value) → Plain v → Plains d → Plains (insert k v d)
unfolding insert
insert-Plains k v [] p ps = (p, tt)
insert-Plains k v ((j, w) ∷ d) p ps = elim (Bool-cases (j == k)) [
  | inl same ↦ rw (same) (p, ps.1)
  | inr other ↦ rw (other) (ps.0, insert-Plains k v d p ps.1)
]

sanitise_from-Plains :
    (clean raw : Dict String Value) → Plains clean → Plains (sanitise_from clean raw)
unfolding sanitise_from
sanitise_from-Plains clean [] h = h
sanitise_from-Plains clean ((key, value) ∷ raw) h =
    sanitise_from-Plains (insert key (safe_value value) clean) raw
      (insert-Plains key (safe_value value) clean (safe_value-Plain value) h)

-- Whatever is given as attributes, what is kept of it is no prose.
pub sanitise_attributes-Plains : (raw : Dict String Value) → Plains (sanitise_attributes raw)
unfolding sanitise_attributes
sanitise_attributes-Plains raw = sanitise_from-Plains [] raw tt

updated-Plains :
    (d values : Dict String Value) → Plains d → Plains values → Plains (updated d values)
updated-Plains d [] h v = h
updated-Plains d ((key, value) ∷ values) h v =
    updated-Plains (insert key value d) values (insert-Plains key value d v.0 h) v.1

-- The same span, further on.
pub record Same (h h' : SpanHandle) : Type 0 where
  pub trace : h'.trace_id ≡ h.trace_id
  pub span : h'.span_id ≡ h.span_id
  pub parent : h'.parent_span_id ≡ h.parent_span_id
  pub name : h'.name ≡ h.name
  pub kind : h'.kind ≡ h.kind
  pub plains : Plains h'.attributes

pub Same-refl : (h : SpanHandle) → Plains h.attributes → Same h h
Same-refl h p = record {
  trace = refl;
  span = refl;
  parent = refl;
  name = refl;
  kind = refl;
  plains = p;
}

pub Same-trans : (h i j : SpanHandle) → Same h i → Same i j → Same h j
Same-trans h i j a b = record {
  trace = b.trace ∙ a.trace;
  span = b.span ∙ a.span;
  parent = b.parent ∙ a.parent;
  name = b.name ∙ a.name;
  kind = b.kind ∙ a.kind;
  plains = b.plains;
}

pub set_attributes-Same :
    (h : SpanHandle) (values : Dict String Value)
    → Plains h.attributes
    → Same h (set_attributes h values)
unfolding set_attributes
set_attributes-Same h values p = record {
  trace = refl;
  span = refl;
  parent = refl;
  name = refl;
  kind = refl;
  plains =
      updated-Plains h.attributes (sanitise_attributes values) p
        (sanitise_attributes-Plains values);
}

pub record_error-Same :
    (h : SpanHandle) (category : String) → Plains h.attributes → Same h (record_error h category)
unfolding record_error
record_error-Same h category p = record {
  trace = refl;
  span = refl;
  parent = refl;
  name = refl;
  kind = refl;
  plains = p;
}

pub marked-Same :
    (raised : Option Raised) (h : SpanHandle) → Plains h.attributes → Same h (marked raised h)
marked-Same none h p = Same-refl h p
marked-Same (some (exception type_name)) h p = record_error-Same h type_name p
marked-Same (some (base_exception type_name)) h p = Same-refl h p

-- The attributes of the current span are no prose.
abbrev pub PlainCurrent : Option SpanHandle → Type 0
PlainCurrent none = Unit
PlainCurrent (some h) = Plains h.attributes

-- Spans of this trace, where one is open.
abbrev pub OfTrace : Option SpanHandle → Span → Type 0
OfTrace none sp = Unit
OfTrace (some h) sp = sp.trace_id ≡ h.trace_id

abbrev pub Onward : Option SpanHandle → Option SpanHandle → Type 0
Onward none none = Unit
Onward (some h) (some h') = Same h h'
Onward none (some _) = ⊥
Onward (some _) none = ⊥

-- What traced code does to the state: it adds spans of the trace and stays in its span.
pub record Grown (s s' : Tracing) : Type 0 where
  pub new : List Span
  pub recorded : s'.recorded ≡ s.recorded ++ new
  pub plain : All (λ sp. Plains sp.attributes) new
  pub traced : All (OfTrace s.current) new
  pub onward : Onward s.current s'.current
