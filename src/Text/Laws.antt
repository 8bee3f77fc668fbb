-- ===== src/Text/Laws.antt =====
-- Laws of the operations on texts.
use Prim.Native.Char.{Char, code}
use nexa_assist.Common.{
  ℕ, String, ◌≡◌, refl, Bool, true, false, some, arith, nat_eq, if◌then◌else◌, List, [], ◌∷◌,
  Bool-cases, inl, inr,
}
use nexa_assist.Names.{◌+++◌}
use nexa_assist.Text.{
  is_space, partition, is_spaces, split_spaces, space_before, letter_before, join,
}

-- The separator does not occur in the text.
abbrev pub lacks : ℕ → String → Bool
lacks c String.[] = true
lacks c (String.◌∷◌ d s) = if nat_eq (code d) c then false else lacks c s

-- The first separator splits the text.
pub partition-first :
    (c : ℕ) (s sep t : String)
    → lacks c s ≡ true
    → partition c sep ≡ some (String.[], t)
    → partition c (s +++ sep) ≡ some (s, t)
unfolding partition ◌+++◌
partition-first c String.[] sep t h e = e
partition-first c (String.◌∷◌ d s) sep t h e = ground (arith, partition-first c s sep t)

pub +++_nil : (s : String) → s +++ String.[] ≡ s
unfolding ◌+++◌
+++_nil String.[] = refl
+++_nil (String.◌∷◌ c s) = ground (arith, +++_nil s)

pub +++_assoc : (s t u : String) → (s +++ t) +++ u ≡ s +++ (t +++ u)
unfolding ◌+++◌
+++_assoc String.[] t u = refl
+++_assoc (String.◌∷◌ c s) t u = ground (arith, +++_assoc s t u)

-- What `split_spaces` gives: words without white space, and white space between them.
pub data Turns : List String → Type 0 where
  last : (word : String) → is_spaces word ≡ false → Turns (word ∷ [])
  turn :
      (word spaces : String) (pieces : List String)
      → is_spaces word ≡ false
      → is_spaces spaces ≡ true
      → Turns pieces
      → Turns (word ∷ spaces ∷ pieces)

letter-Turns :
    (c : Char) (pieces : List String)
    → is_space (code c) ≡ false
    → Turns pieces
    → Turns (letter_before c pieces)
unfolding is_spaces
letter-Turns c _ h (last word w) = last (String.◌∷◌ c word) (ground arith)
letter-Turns c _ h (turn word spaces pieces w s t) =
    turn (String.◌∷◌ c word) spaces pieces (ground arith) s t

space-Turns :
    (c : Char) (pieces : List String)
    → is_space (code c) ≡ true
    → Turns pieces
    → Turns (space_before c pieces)
unfolding is_spaces
space-Turns c _ h (last String.[] w) =
    turn String.[] (String.◌∷◌ c String.[]) _ refl (ground arith) (last String.[] refl)
space-Turns c _ h (last (String.◌∷◌ d word) w) =
    turn String.[] (String.◌∷◌ c String.[]) _ refl (ground arith) (last (String.◌∷◌ d word) w)
space-Turns c _ h (turn String.[] spaces pieces w s t) =
    turn String.[] (String.◌∷◌ c spaces) pieces refl (ground arith) t
space-Turns c _ h (turn (String.◌∷◌ d word) spaces pieces w s t) =
    turn String.[] (String.◌∷◌ c String.[]) _ refl (ground arith)
      (turn (String.◌∷◌ d word) spaces pieces w s t)

pub split_spaces-Turns : (s : String) → Turns (split_spaces s)
unfolding split_spaces
split_spaces-Turns String.[] = last String.[] (unfold is_spaces in refl)
split_spaces-Turns (String.◌∷◌ c s) = elim (Bool-cases (is_space (code c))) [
  | inl space ↦ rw (space) (space-Turns c (split_spaces s) space (split_spaces-Turns s))
  | inr letter ↦ rw (letter) (letter-Turns c (split_spaces s) letter (split_spaces-Turns s))
]

join-space :
    (c : Char) (pieces : List String)
    → Turns pieces
    → join (space_before c pieces) ≡ String.◌∷◌ c (join pieces)
unfolding join ◌+++◌
join-space c _ (last String.[] w) = refl
join-space c _ (last (String.◌∷◌ d word) w) = refl
join-space c _ (turn String.[] spaces pieces w s t) = refl
join-space c _ (turn (String.◌∷◌ d word) spaces pieces w s t) = refl

join-letter :
    (c : Char) (pieces : List String) → join (letter_before c pieces) ≡ String.◌∷◌ c (join pieces)
unfolding join ◌+++◌
join-letter c [] = refl
join-letter c (word ∷ pieces) = refl

-- No character is lost.
pub join-split_spaces : (s : String) → join (split_spaces s) ≡ s
unfolding split_spaces
join-split_spaces String.[] = unfold join ◌+++◌ in refl
join-split_spaces (String.◌∷◌ c s) = ground (
  arith,
  join-space c (split_spaces s) (split_spaces-Turns s),
  join-letter c (split_spaces s),
  join-split_spaces s,
)
