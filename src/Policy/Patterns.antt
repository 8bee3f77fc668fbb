-- ===== src/Policy/Patterns.antt =====
-- backend/app/policy/library.py: `COMMITMENT_PATTERNS`, as lists of what their regular expressions ask
-- for one after the other; an optional group is written as two patterns. Case is ignored the way
-- Python's `re` does. Which characters beyond ASCII are alphanumeric is a parameter.
use nexa_assist.Common.{
  ℕ, ◌+◌, String, Bool, true, false, not, ◌&&◌, ◌||◌, Option, none, some, List, [], ◌∷◌, ◌++◌, leb,
  ltb, nat_eq, if◌then◌else◌,
}
use nexa_assist.Names.{codes, is_lower, is_digit}
use nexa_assist.Text.{is_space}

-- What a pattern asks for: `\b`, `\s`, `\s*`, or one of some words.
pub data Item : Type 0 where
  boundary space spaces : Item
  one_of : List String → Item

-- The character before, and the text from here on.
abbrev Place : Type 0
Place = Option ℕ × List ℕ

-- A character as `(?i)` compares it with a lower case letter.
abbrev folded : ℕ → ℕ
folded c =
    if leb b'A' c && leb c b'Z'
    then c + 32
    else if nat_eq c 304 || nat_eq c 305
    then b'i'
    else if nat_eq c 383
    then b's'
    else if nat_eq c 8490
    then b'k'
    else c

abbrev after_word : List ℕ → Option ℕ → List ℕ → List Place
after_word [] before text = (before, text) ∷ []
after_word (c ∷ word) before [] = []
after_word (c ∷ word) before (d ∷ text) =
    let rest = after_word word (some d) text in if nat_eq (folded d) c then rest else []

abbrev after_words : List String → Option ℕ → List ℕ → List Place
after_words [] before text = []
after_words (word ∷ words) before text =
    after_word (codes word) before text ++ after_words words before text

abbrev after_spaces : Option ℕ → List ℕ → List Place
after_spaces before [] = (before, []) ∷ []
after_spaces before (c ∷ text) =
    let rest = after_spaces (some c) text in (before, c ∷ text) ∷ (if is_space c then rest else [])

abbrev after_space : List ℕ → List Place
after_space [] = []
after_space (c ∷ text) = if is_space c then (some c, text) ∷ [] else []

module _ (is_alnum : ℕ → Bool) where
  -- \w
  abbrev is_word : ℕ → Bool
  is_word c =
      if ltb c 128
      then is_lower c || (leb b'A' c && leb c b'Z') || is_digit c || nat_eq c b'_'
      else is_alnum c

  abbrev ends_word : Option ℕ → Bool
  ends_word none = false
  ends_word (some c) = is_word c

  abbrev starts_word : List ℕ → Bool
  starts_word [] = false
  starts_word (c ∷ text) = is_word c

  abbrev at_boundary : Option ℕ → List ℕ → Bool
  at_boundary before text = if ends_word before then not (starts_word text) else starts_word text

  -- Where the text can go on after an item.
  abbrev ends_of : Item → Option ℕ → List ℕ → List Place
  ends_of boundary before text = if at_boundary before text then (before, text) ∷ [] else []
  ends_of space before text = after_space text
  ends_of spaces before text = after_spaces before text
  ends_of (one_of words) before text = after_words words before text

  abbrev all_ends : Item → List Place → List Place
  all_ends item [] = []
  all_ends item ((before, text) ∷ places) = ends_of item before text ++ all_ends item places

  abbrev matches : List Item → List Place → Bool
  matches items [] = false
  matches [] (_ ∷ _) = true
  matches (item ∷ items) (place ∷ places) = matches items (all_ends item (place ∷ places))

  -- `search`, from some character of the text on
  abbrev search_from : List Item → Option ℕ → List ℕ → Bool
  search_from items before [] = matches items ((before, []) ∷ [])
  search_from items before (c ∷ text) =
      matches items ((before, c ∷ text) ∷ []) || search_from items (some c) text

  abbrev we : Item
  we = one_of ("i" ∷ "we" ∷ [])

  abbrev done : Item
  done = one_of ("refunded" ∷ "reimbursed" ∷ "credited" ∷ [])

  -- `COMMITMENT_PATTERNS`
  unfoldable pub commitment_patterns : List (List Item)
  commitment_patterns =
      (boundary ∷ we ∷ space ∷ spaces ∷ done ∷ boundary ∷ [])
      ∷ (boundary
          ∷ we
          ∷ space
          ∷ spaces
          ∷ one_of ("have" ∷ [])
          ∷ space
          ∷ spaces
          ∷ done
          ∷ boundary
          ∷ [])
      ∷ (boundary
          ∷ we
          ∷ spaces
          ∷ one_of ("will" ∷ "'ll" ∷ "’ll" ∷ [])
          ∷ space
          ∷ spaces
          ∷ one_of ("refund" ∷ "reimburse" ∷ "credit" ∷ "cancel" ∷ [])
          ∷ boundary
          ∷ [])
      ∷ (boundary ∷ one_of ("guarantee" ∷ "guaranteed" ∷ []) ∷ boundary ∷ [])
      ∷ (boundary ∷ one_of ("full" ∷ []) ∷ space ∷ spaces ∷ one_of ("refund" ∷ []) ∷ boundary ∷ [])
      ∷ []

  abbrev any_found : List (List Item) → List ℕ → Bool
  any_found [] text = false
  any_found (items ∷ patterns) text = search_from items none text || any_found patterns text

  -- any(p.search(text) for p in COMMITMENT_PATTERNS)
  unfoldable pub commits : String → Bool
  unfolding commitment_patterns is_space
  commits text = any_found commitment_patterns (codes text)
