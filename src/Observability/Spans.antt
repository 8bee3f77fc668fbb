-- ===== src/Observability/Spans.antt =====
-- backend/app/observability/spans.py: spans and what their attributes may hold. Durations are left out;
-- integers and floats are one kind of value.
use nexa_assist.Common.{
  ℕ, String, Bool, false, ◌||◌, Option, [], ◌∷◌, ltb, if◌then◌else◌, string_key,
}
use Prim.Native.Char.{code}
use nexa_assist.Dict.{Dict, insert}
use nexa_assist.Text.{is_space, text_length}

abbrev pub max_attribute_length : ℕ
max_attribute_length = 120

abbrev pub omitted : String
omitted = "<omitted>"

pub data SpanKind : Type 0 where
  request agent tool workflow llm routing retrieval : SpanKind

pub data SpanStatus : Type 0 where
  ok error : SpanStatus

-- What can be given as an attribute; `structured` is a dict, a list, a model or the like.
pub data Value : Type 0 where
  none_value structured : Value
  flag : Bool → Value
  number : ℕ → Value
  text : String → Value

pub record Span : Type 0 where
  pub trace_id : String
  pub span_id : String
  pub parent_span_id : Option String
  pub name : String
  pub kind : SpanKind
  pub status : SpanStatus
  pub error_category : Option String
  pub attributes : Dict String Value

-- any(c.isspace() for c in value)
unfoldable pub any_space : String → Bool
unfolding is_space
any_space String.[] = false
any_space (String.◌∷◌ c s) = is_space (code c) || any_space s

-- `_safe_value`
unfoldable pub safe_value : Value → Value
unfolding any_space text_length
safe_value none_value = none_value
safe_value (flag b) = flag b
safe_value (number n) = number n
safe_value (text s) =
    if ltb max_attribute_length (text_length s) || any_space s then text omitted else text s
safe_value structured = text omitted

-- The loop of `sanitise_attributes`, with what is clean so far.
unfoldable pub sanitise_from : Dict String Value → Dict String Value → Dict String Value
unfolding safe_value insert
sanitise_from clean [] = clean
sanitise_from clean ((key, value) ∷ raw) = sanitise_from (insert key (safe_value value) clean) raw

unfoldable pub sanitise_attributes : Dict String Value → Dict String Value
unfolding sanitise_from
sanitise_attributes raw = sanitise_from [] raw
