-- ===== src/Knowledge/Sizes.antt =====
-- The sizes of chunks.
use Prim.Native.Char.{Char, code}
use nexa_assist.Common.{
  ℕ, ◌≤◌, String, ◌≡◌, ◌≢◌, ◌++◌, ◌⊎◌, refl, ap, inl, inr, true, false, ◌&&◌, List, [], ◌∷◌, ok,
  ltb, leb, arith, All, All-append, Bool-cases,
}
use nexa_assist.Names.{◌+++◌}
use nexa_assist.Text.Splits.{
  spaceless, split_words, split_paragraphs, split_words-spaceless, split_words-solid,
  split_words-some, split_paragraphs-blank,
}
use nexa_assist.Text.{
  all_spaces, is_space, strip, drop_spaces, rstrip, text_length, is_nonempty, before_stripped,
}
use nexa_assist.Knowledge.Chunking.{
  leftover, candidate_of, split_from, chunks_of, chunk_paragraphs, or_whole, chunk_text,
}

rstrip-spaceless : (s : String) → spaceless s ≡ true → rstrip s ≡ s
unfolding rstrip
rstrip-spaceless String.[] h = refl
rstrip-spaceless (String.◌∷◌ c String.[]) h = ground arith
rstrip-spaceless (String.◌∷◌ c (String.◌∷◌ d s)) h =
    ap (λ x. before_stripped c x) (rstrip-spaceless (String.◌∷◌ d s) (ground arith))

drop_spaces-spaceless : (s : String) → spaceless s ≡ true → drop_spaces s ≡ s
unfolding drop_spaces
drop_spaces-spaceless String.[] h = refl
drop_spaces-spaceless (String.◌∷◌ c s) h = ground arith

-- The first word of a part is the part.
first_candidate : (word : String) → spaceless word ≡ true → candidate_of String.[] word ≡ word
unfolding strip drop_spaces ◌+++◌ is_space
first_candidate word h = rw (drop_spaces-spaceless word h) (rstrip-spaceless word h)

-- A chunk holds text, and is of the size asked for or one word.
abbrev pub Fits : ℕ → String → Type 0
Fits chunk_size c = (is_nonempty c ≡ true) × ((text_length c ≤ chunk_size) ⊎ (spaceless c ≡ true))

leftover-Fits :
    (chunk_size : ℕ) (s : String)
    → (is_nonempty s ≡ true → Fits chunk_size s)
    → All (Fits chunk_size) (leftover s)
leftover-Fits chunk_size String.[] h = tt
leftover-Fits chunk_size (String.◌∷◌ c s) h = (h refl, tt)

candidate-Fits :
    (chunk_size : ℕ) (current word : String)
    → spaceless word ≡ true
    → (ltb chunk_size (text_length (candidate_of current word)) && is_nonempty current) ≡ false
    → (text_length (candidate_of current word) ≤ chunk_size)
      ⊎ (spaceless (candidate_of current word) ≡ true)
candidate-Fits chunk_size String.[] word h keep = inr (rw (first_candidate word h) h)
candidate-Fits chunk_size (String.◌∷◌ c s) word h keep = inl (ground arith)

split_from-Fits :
    (chunk_size : ℕ) (current : String) (words : List String)
    → (is_nonempty current ≡ true → Fits chunk_size current)
    → All (λ w. spaceless w ≡ true) words
    → All (Fits chunk_size) (split_from chunk_size current words)
unfolding split_from
split_from-Fits chunk_size current [] h w = leftover-Fits chunk_size current h
split_from-Fits chunk_size current (word ∷ words) h w =
    let candidate = candidate_of current word in
    elim (Bool-cases (ltb chunk_size (text_length candidate) && is_nonempty current)) [
      | inl cut ↦
          rw (cut) (h (ground arith), split_from-Fits chunk_size word words (λ n. (n, inr w.0)) w.1)
      | inr keep ↦ rw (keep) (
          split_from-Fits chunk_size candidate words
            (λ n. (n, candidate-Fits chunk_size current word w.0 keep)) w.1)
    ]

chunks_of-Fits :
    (chunk_size : ℕ) (paragraph : String) → All (Fits chunk_size) (chunks_of chunk_size paragraph)
chunks_of-Fits chunk_size String.[] = tt
chunks_of-Fits chunk_size (String.◌∷◌ c s) =
    let paragraph : String = String.◌∷◌ c s in
    elim (Bool-cases (leb (text_length paragraph) chunk_size)) [
      | inl fits ↦ rw (fits) ((refl, inl (ground arith)), tt)
      | inr long ↦ rw (long) (
          split_from-Fits chunk_size String.[] (split_words paragraph) (λ n. absurd (ground arith))
            (split_words-spaceless paragraph))
    ]

chunk_paragraphs-Fits :
    (chunk_size : ℕ) (paragraphs : List String)
    → All (Fits chunk_size) (chunk_paragraphs chunk_size paragraphs)
unfolding chunk_paragraphs
chunk_paragraphs-Fits chunk_size [] = tt
chunk_paragraphs-Fits chunk_size (p ∷ paragraphs) =
    All-append (Fits chunk_size) _ _ (chunks_of-Fits chunk_size (strip p))
      (chunk_paragraphs-Fits chunk_size paragraphs)

-- What is left of a text without its outer white space: nothing of a text that is white space, and
-- otherwise a text that begins with another character.
Stripped : String → String → Type 0
Stripped s t =
    ((all_spaces s ≡ true) × (t ≡ String.[])) ⊎ ((all_spaces s ≡ false) × (all_spaces t ≡ false))

drop_spaces-Stripped :
    (s : String)
    → ((all_spaces s ≡ true) × (drop_spaces s ≡ String.[]))
      ⊎ ((all_spaces s ≡ false)
          × ((c : Char) × (t : String) × (drop_spaces s ≡ String.◌∷◌ c t)
              × (is_space (code c) ≡ false)))
unfolding drop_spaces
drop_spaces-Stripped String.[] = inl (refl, refl)
drop_spaces-Stripped (String.◌∷◌ c s) = elim (Bool-cases (is_space (code c))) [
  | inr letter ↦ inr (ground arith, (c, s, rw (letter) refl, letter))
  | inl space ↦ elim (drop_spaces-Stripped s) [
    | inl (blank, e) ↦ inl (ground arith, rw (space) e)
    | inr (solid, (d, t, e, letter)) ↦ inr (ground arith, (d, t, rw (space) e, letter))
  ]
]

before_stripped-solid :
    (c : Char) (s : String) → is_space (code c) ≡ false → all_spaces (before_stripped c s) ≡ false
before_stripped-solid c String.[] h = ground arith
before_stripped-solid c (String.◌∷◌ d s) h = ground arith

strip-Stripped : (s : String) → Stripped s (strip s)
unfolding strip rstrip Stripped
strip-Stripped s = elim (drop_spaces-Stripped s) [
  | inl (blank, e) ↦ inl (blank, rw (e) refl)
  | inr (solid, (c, t, e, letter)) ↦ inr (solid, rw (e) (before_stripped-solid c (rstrip t) letter))
]

all_spaces-+++ : (s t : String) → all_spaces s ≡ false → all_spaces (s +++ t) ≡ false
unfolding ◌+++◌
all_spaces-+++ String.[] t h = absurd (ground arith)
all_spaces-+++ (String.◌∷◌ c s) t h = ground (arith, all_spaces-+++ s t)

candidate_of-solid :
    (current word : String)
    → all_spaces current ≡ false
    → all_spaces (candidate_of current word) ≡ false
unfolding Stripped
candidate_of-solid current word h = elim (strip-Stripped (current +++ (" " +++ word))) [
  | inl (blank, e) ↦
      let solid = all_spaces-+++ current (" " +++ word) h in absurd (ground (arith, blank, solid))
  | inr (solid, e) ↦ e
]

leftover-some : (s : String) → all_spaces s ≡ false → leftover s ≢ []
leftover-some String.[] h e = absurd (ground arith)
leftover-some (String.◌∷◌ c s) h e = absurd (ground arith)

split_from-some :
    (chunk_size : ℕ) (current : String) (words : List String)
    → all_spaces current ≡ false
    → split_from chunk_size current words ≢ []
unfolding split_from
split_from-some chunk_size current [] h e = leftover-some current h e
split_from-some chunk_size current (word ∷ words) h e =
    let candidate = candidate_of current word in
    elim (Bool-cases (ltb chunk_size (text_length candidate) && is_nonempty current)) [
      | inl cut ↦ absurd (ground arith)
      | inr keep ↦
          split_from-some chunk_size candidate words (candidate_of-solid current word h)
            (ground arith)
    ]

-- The first word is the part.
split_from-first :
    (chunk_size : ℕ) (words : List String)
    → words ≢ []
    → All (λ w. spaceless w ≡ true) words
    → All (λ w. all_spaces w ≡ false) words
    → split_from chunk_size String.[] words ≢ []
unfolding split_from
split_from-first chunk_size [] n w b e = n refl
split_from-first chunk_size (word ∷ words) n w b e =
    let first = first_candidate word w.0 in
    let cut : (ltb chunk_size (text_length (candidate_of String.[] word)) && false) ≡ false =
      ground arith in
    split_from-some chunk_size (candidate_of String.[] word) words (rw (first) b.0) (ground arith)

chunks_of-some :
    (chunk_size : ℕ) (paragraph : String)
    → all_spaces paragraph ≡ false
    → chunks_of chunk_size paragraph ≢ []
chunks_of-some chunk_size String.[] h e = absurd (ground arith)
chunks_of-some chunk_size (String.◌∷◌ c s) h e =
    let paragraph : String = String.◌∷◌ c s in
    elim (Bool-cases (leb (text_length paragraph) chunk_size)) [
      | inl fits ↦ absurd (ground arith)
      | inr long ↦
          split_from-first chunk_size (split_words paragraph) (split_words-some paragraph h)
            (split_words-spaceless paragraph) (split_words-solid paragraph) (ground arith)
    ]

append-nil_left : (a b : List String) → a ++ b ≡ [] → (a ≡ []) × (b ≡ [])
append-nil_left [] b e = (refl, e)
append-nil_left (x ∷ a) b e = absurd (ground arith)

-- Only white space gives no chunk.
chunk_paragraphs-blank :
    (chunk_size : ℕ) (paragraphs : List String)
    → chunk_paragraphs chunk_size paragraphs ≡ []
    → All (λ p. all_spaces p ≡ true) paragraphs
unfolding chunk_paragraphs Stripped
chunk_paragraphs-blank chunk_size [] e = tt
chunk_paragraphs-blank chunk_size (p ∷ paragraphs) e =
    let parts =
      append-nil_left (chunks_of chunk_size (strip p)) (chunk_paragraphs chunk_size paragraphs) e in
    let rest = chunk_paragraphs-blank chunk_size paragraphs parts.1 in
    elim (strip-Stripped p) [
      | inl (blank, gone) ↦ (blank, rest)
      | inr (solid, some_left) ↦ absurd (chunks_of-some chunk_size (strip p) some_left parts.0)
    ]

-- So nothing is ever stored as a whole.
or_whole-Fits :
    (chunk_size : ℕ) (text : String) (parts : List String)
    → All (Fits chunk_size) parts
    → (parts ≡ [] → all_spaces text ≡ true)
    → All (Fits chunk_size) (or_whole text parts)
      × (all_spaces text ≡ false → or_whole text parts ≢ [])
unfolding Stripped
or_whole-Fits chunk_size text [] h k = elim (strip-Stripped text) [
  | inl (blank, gone) ↦ (rw (gone) tt, λ solid. absurd (ground (arith, blank, solid)))
  | inr (solid, some_left) ↦ let blank = k refl in absurd (ground (arith, blank, solid))
]
or_whole-Fits chunk_size text (c ∷ parts) h k = (h, λ solid e. absurd (ground arith))

-- For a chunk size of at least 50 every text is chunked: each chunk holds text and has at most that size,
-- unless it is a single word, without white space to be split at; and a text that is not all white
-- space gives some chunk.
pub chunk_text-Fits :
    (text : String) (chunk_size : ℕ)
    → 50 ≤ chunk_size
    → (chunks : List String) × (chunk_text text chunk_size ≡ ok chunks)
      × All (Fits chunk_size) chunks
      × (all_spaces text ≡ false → chunks ≢ [])
unfolding chunk_text
chunk_text-Fits text chunk_size h =
    let parts = chunk_paragraphs chunk_size (split_paragraphs text) in
    let fits =
      or_whole-Fits chunk_size text parts (chunk_paragraphs-Fits chunk_size (split_paragraphs text))
        (λ e.
          split_paragraphs-blank text
            (chunk_paragraphs-blank chunk_size (split_paragraphs text) e)) in
    (or_whole text parts, ground arith, fits.0, fits.1)
