-- ===== src/Workflows/References.antt =====
-- backend/app/workflows/definition.py: NAME_PATTERN, REFERENCE, `reference_to` and
-- `referenced_step`. The two patterns are matched by hand, from left to right: the parts of
-- REFERENCE begin with characters that the part before cannot take, so its match is found without
-- trying again. `$` also matches before a newline at the end of the text.
use Prim.Native.Char.{code}
use nexa_assist.Common.{
  String, ◌≡◌, refl, ap, ◌∙◌, Bool, true, false, ◌&&◌, Option, none, some, arith, nat_eq,
  if◌then◌else◌,
}
use nexa_assist.Text.{drop_spaces}
use nexa_assist.Names.{◌+++◌, codes, is_lower, allowed, all_allowed}

unfoldable pub strip_prefix : String → String → Option String
strip_prefix String.[] s = some s
strip_prefix (String.◌∷◌ c p) String.[] = none
strip_prefix (String.◌∷◌ c p) (String.◌∷◌ d s) =
    let rest = strip_prefix p s in if nat_eq (code c) (code d) then rest else none

-- The longest part of `[a-z0-9_]*`, and what follows it.
unfoldable pub span_name : String → String × String
unfolding allowed
span_name String.[] = (String.[], String.[])
span_name (String.◌∷◌ c s) =
    let rest = span_name s in
    if allowed (code c) then (String.◌∷◌ c rest.0, rest.1) else (String.[], String.◌∷◌ c s)

-- `$`
abbrev pub at_end : String → Bool
at_end String.[] = true
at_end (String.◌∷◌ c String.[]) = nat_eq (code c) 10
at_end (String.◌∷◌ c (String.◌∷◌ d s)) = false

abbrev pub starts_lower : String → Bool
starts_lower String.[] = false
starts_lower (String.◌∷◌ c s) = is_lower (code c)

-- NAME_PATTERN.match(s)
unfoldable pub is_name : String → Bool
unfolding span_name
is_name s = starts_lower s && at_end (span_name s).1

-- `{{`, `}}`, `steps.` and `.output`
abbrev pub opening : String
opening = "{{"

abbrev pub closing : String
closing = "}}"

abbrev pub steps_dot : String
steps_dot = "steps."

abbrev pub dot_output : String
dot_output = ".output"

abbrev pub end_reference : String → String → Option String
end_reference name s = if at_end s then some name else none

abbrev pub close_reference : String × String → Option String
close_reference (name, s) =
    if starts_lower name
    then elim (strip_prefix dot_output s) [
      | none ↦ none
      | some tail ↦ elim (strip_prefix closing (drop_spaces tail)) [
        | none ↦ none
        | some end ↦ end_reference name end
      ]
    ]
    else none

-- REFERENCE.match(s), and its group 1
unfoldable pub reference : String → Option String
unfolding strip_prefix drop_spaces span_name
reference s = elim (strip_prefix opening s) [
  | none ↦ none
  | some inner ↦ elim (strip_prefix steps_dot (drop_spaces inner)) [
    | none ↦ none
    | some name ↦ close_reference (span_name name)
  ]
]

-- `reference_to`
unfoldable pub reference_to : String → String
unfolding ◌+++◌
reference_to id = "{{ steps." +++ id +++ ".output }}"

-- A parameter's value: a string, or a JSON value of another type.
pub data Value (J : Type 0) : Type 0 where
  text : String → Value J
  other : J → Value J

unfoldable pub referenced_step : {J : Type 0} → Value J → Option String
unfolding reference
referenced_step (text s) = reference s
referenced_step (other j) = none

span_name-append :
    (id : String)
    → all_allowed (codes id) ≡ true
    → span_name (id +++ ".output }}") ≡ (id, ".output }}")
unfolding span_name all_allowed ◌+++◌
span_name-append String.[] h = refl
span_name-append (String.◌∷◌ c s) h = ground (arith, span_name-append s)

-- A value built from a step's name, a lower case letter and then letters, digits or underscores, is
-- read back as a reference to that step.
pub referenced_step-reference_to :
    (J : Type 0) (id : String)
    → starts_lower id ≡ true
    → all_allowed (codes id) ≡ true
    → referenced_step {J = J} (text (reference_to id)) ≡ some id
unfolding referenced_step reference reference_to strip_prefix drop_spaces ◌+++◌
referenced_step-reference_to J id l h =
    let close : close_reference (id, ".output }}") ≡ some id = rw (l) refl in
    ap close_reference (span_name-append id h) ∙ close
