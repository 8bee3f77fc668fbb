-- ===== src/Text/Splits.antt =====
-- Python's `str.split()` and `str.split("\n\n")`.
use Prim.Native.Char.{Char, code}
use nexa_assist.Common.{
  ◌≡◌, ◌≢◌, refl, Bool, true, false, not, ◌&&◌, List, [], ◌∷◌, arith, nat_eq, All, Bool-cases, inl,
  inr, if◌then◌else◌, String,
}
use nexa_assist.Text.{is_space, all_spaces}

-- No white space in the text.
abbrev pub spaceless : String → Bool
spaceless String.[] = true
spaceless (String.◌∷◌ c s) = not (is_space (code c)) && spaceless s

-- A character in front of the first word.
abbrev pub onto_first : Char → List String → List String
onto_first c [] = String.◌∷◌ c String.[] ∷ []
onto_first c (word ∷ words) = String.◌∷◌ c word ∷ words

abbrev pub starts_spaced : String → Bool
starts_spaced String.[] = true
starts_spaced (String.◌∷◌ c s) = is_space (code c)

-- str.split()
unfoldable pub split_words : String → List String
unfolding is_space
split_words String.[] = []
split_words (String.◌∷◌ c s) =
    let words = split_words s in
    if is_space (code c)
    then words
    else if starts_spaced s
    then String.◌∷◌ c String.[] ∷ words
    else onto_first c words

-- A newline in front of the paragraphs of a text: it ends a paragraph if the text starts with another one.
-- The paragraphs of the text after that other newline come last.
abbrev pub at_newline : Char → String → List String → List String → List String
at_newline c String.[] here after = onto_first c here
at_newline c (String.◌∷◌ d s) here after =
    if nat_eq (code c) 10 && nat_eq (code d) 10 then String.[] ∷ after else onto_first c here

-- The paragraphs of a text and those of its tail.
unfoldable pub split_both : String → List String × List String
split_both String.[] = (String.[] ∷ [], String.[] ∷ [])
split_both (String.◌∷◌ c s) = let (here, after) = split_both s in (at_newline c s here after, here)

-- str.split("\n\n")
abbrev pub split_paragraphs : String → List String
split_paragraphs s = (split_both s).0

onto_first-spaceless :
    (c : Char) (words : List String)
    → is_space (code c) ≡ false
    → All (λ w. spaceless w ≡ true) words
    → All (λ w. spaceless w ≡ true) (onto_first c words)
onto_first-spaceless c [] h a = (ground arith, tt)
onto_first-spaceless c (w ∷ words) h a = (ground (arith, a.0), a.1)

-- Words have no white space.
pub split_words-spaceless : (s : String) → All (λ w. spaceless w ≡ true) (split_words s)
unfolding split_words
split_words-spaceless String.[] = tt
split_words-spaceless (String.◌∷◌ c s) =
    let rest = split_words-spaceless s in
    elim (Bool-cases (is_space (code c))) [
      | inl space ↦ rw (space) rest
      | inr letter ↦ elim (Bool-cases (starts_spaced s)) [
        | inl ends ↦ rw (letter) (rw (ends) (ground arith, rest))
        | inr goes_on ↦
            rw (letter) (rw (goes_on) (onto_first-spaceless c (split_words s) letter rest))
      ]
    ]

onto_first-solid :
    (c : Char) (words : List String)
    → is_space (code c) ≡ false
    → All (λ w. all_spaces w ≡ false) words
    → All (λ w. all_spaces w ≡ false) (onto_first c words)
onto_first-solid c [] h a = (ground arith, tt)
onto_first-solid c (w ∷ words) h a = (ground arith, a.1)

-- Words are not empty.
pub split_words-solid : (s : String) → All (λ w. all_spaces w ≡ false) (split_words s)
unfolding split_words
split_words-solid String.[] = tt
split_words-solid (String.◌∷◌ c s) =
    let rest = split_words-solid s in
    elim (Bool-cases (is_space (code c))) [
      | inl space ↦ rw (space) rest
      | inr letter ↦ elim (Bool-cases (starts_spaced s)) [
        | inl ends ↦ rw (letter) (rw (ends) (ground arith, rest))
        | inr goes_on ↦ rw (letter) (rw (goes_on) (onto_first-solid c (split_words s) letter rest))
      ]
    ]

-- A text that is not all white space has a word.
pub split_words-some : (s : String) → all_spaces s ≡ false → split_words s ≢ []
unfolding split_words
split_words-some String.[] h e = absurd (ground arith)
split_words-some (String.◌∷◌ c s) h e = elim (Bool-cases (is_space (code c))) [
  | inl space ↦ split_words-some s (ground arith) (ground arith)
  | inr letter ↦ elim (Bool-cases (starts_spaced s)) [
    | inl ends ↦ absurd (ground arith)
    | inr goes_on ↦ onto_first-some c (split_words s) (ground arith)
  ]
]
  where
    onto_first-some : (c : Char) (words : List String) → onto_first c words ≢ []
    onto_first-some c [] e = absurd (ground arith)
    onto_first-some c (w ∷ words) e = absurd (ground arith)

onto_first-blank :
    (c : Char) (ps : List String)
    → All (λ p. all_spaces p ≡ true) (onto_first c ps)
    → (is_space (code c) ≡ true) × All (λ p. all_spaces p ≡ true) ps
onto_first-blank c [] a = (ground (arith, a.0), tt)
onto_first-blank c (p ∷ ps) a = (ground (arith, a.0), (ground (arith, a.0), a.1))

-- The newline that ends a paragraph is white space.
newline_blank :
    (c : Char) (s : String) (here after : List String)
    → (All (λ p. all_spaces p ≡ true) here → all_spaces s ≡ true)
    → ((d : Char) (t : String)
        → s ≡ String.◌∷◌ d t
        → All (λ p. all_spaces p ≡ true) after
        → all_spaces t ≡ true)
    → All (λ p. all_spaces p ≡ true) (at_newline c s here after)
    → all_spaces (String.◌∷◌ c s) ≡ true
unfolding is_space
newline_blank c String.[] here after h k a =
    let b = onto_first-blank c here a in ground (arith, b.0)
newline_blank c (String.◌∷◌ d s) here after h k a =
    elim (Bool-cases (nat_eq (code c) 10 && nat_eq (code d) 10)) [
      | inl both ↦
          let rest = k d s refl (let b = rw (both) at a in b.1) in ground (arith, rest, both)
      | inr other ↦ let b = onto_first-blank c here (rw (other) at a) in ground (arith, b.0, h b.1)
    ]

split_both-blank :
    (s : String)
    → (All (λ p. all_spaces p ≡ true) (split_both s).0 → all_spaces s ≡ true)
      × ((d : Char) (t : String)
          → s ≡ String.◌∷◌ d t
          → All (λ p. all_spaces p ≡ true) (split_both s).1
          → all_spaces t ≡ true)
unfolding split_both
split_both-blank String.[] = (λ a. refl, λ d t e a. absurd (cc))
split_both-blank (String.◌∷◌ c s) =
    let rest = split_both-blank s in
    (
      newline_blank c s (split_both s).0 (split_both s).1 rest.0 rest.1,
      λ d t e a. let same : s ≡ t = cc in rw (← same) (rest.0 a),
    )

-- A text all of whose paragraphs are white space is white space.
pub split_paragraphs-blank :
    (s : String) → All (λ p. all_spaces p ≡ true) (split_paragraphs s) → all_spaces s ≡ true
split_paragraphs-blank s = (split_both-blank s).0

cut_words : split_words " I'd  rather\nwalk " ≡ "I'd" ∷ "rather" ∷ "walk" ∷ []
unfolding split_words
cut_words = refl

cut_paragraphs : split_paragraphs "one\n\n\ntwo\nthree\n\n" ≡ "one" ∷ "\ntwo\nthree" ∷ "" ∷ []
unfolding split_both
cut_paragraphs = refl
