-- ===== src/Realtime/Chunks/Cuts.antt =====
-- Where an answer is cut.
use Prim.Native.Char.{code}
use nexa_assist.Common.{
  ℕ, ◌<◌, String, ◌≡◌, refl, Bool, true, false, List, [], ◌∷◌, arith, if◌then◌else◌, Bool-cases,
  inl, inr, All,
}
use nexa_assist.Names.{◌+++◌}
use nexa_assist.Text.{is_space, is_spaces, split_spaces, join}
use nexa_assist.Text.Laws.{Turns, last, turn, split_spaces-Turns}
use nexa_assist.Realtime.Chunks.Pieces.{nothing_before, cuts, Sized, join-chunk, chunk-Sized}
use nexa_assist.Realtime.Chunks.{chunk_from, chunk, leftover}

-- The text begins with white space.
unfoldable pub opens : String → Bool
opens String.[] = false
opens (String.◌∷◌ c s) = is_space (code c)

opens-append : (s t : String) → opens s ≡ true → opens (s +++ t) ≡ true
unfolding opens ◌+++◌
opens-append String.[] t h = absurd (ground arith)
opens-append (String.◌∷◌ c s) t h = h

opens-spaces : (s : String) → is_spaces s ≡ true → opens s ≡ true
unfolding opens is_spaces
opens-spaces String.[] h = absurd (ground arith)
opens-spaces (String.◌∷◌ c s) h = ground arith

leftover-opens : (s : String) → opens s ≡ true → All (λ p. opens p ≡ true) (leftover s)
leftover-opens String.[] h = tt
leftover-opens (String.◌∷◌ c s) h = (h, tt)

chunk_from-cons :
    (size : ℕ) (piece word : String) (words : List String)
    → chunk_from size piece (word ∷ words) ≡ (
        let grown = piece +++ word in
        if cuts size grown word
        then grown ∷ chunk_from size String.[] words
        else chunk_from size grown words)
unfolding chunk_from
chunk_from-cons size piece word words = refl

-- The loop never cuts after white space.
chunk_from-spaces :
    (size : ℕ) (piece spaces : String) (words : List String)
    → is_spaces spaces ≡ true
    → chunk_from size piece (spaces ∷ words) ≡ chunk_from size (piece +++ spaces) words
unfolding chunk_from
chunk_from-spaces size piece spaces words h = ground arith

chunk_from-last :
    (size : ℕ) (piece word : String)
    → chunk_from size piece (word ∷ [])
      ≡ (let grown = piece +++ word in if cuts size grown word then grown ∷ [] else leftover grown)
unfolding chunk_from
chunk_from-last size piece word = refl

-- A word, and the white space after it, which opens the next piece where the loop cuts.
chunk_from-turn :
    (size : ℕ) (piece word spaces : String) (words : List String)
    → is_spaces spaces ≡ true
    → chunk_from size piece (word ∷ spaces ∷ words) ≡ (
        let grown = piece +++ word in
        if cuts size grown word
        then grown ∷ chunk_from size spaces words
        else chunk_from size (grown +++ spaces) words)
chunk_from-turn size piece word spaces words h =
    let grown = piece +++ word in
    rw (chunk_from-cons) (
      ground (
        arith,
        chunk_from-spaces size grown spaces words h,
        chunk_from-spaces size String.[] spaces words h,
        nothing_before spaces,
      ))

chunk_from-opens :
    (size : ℕ) (piece : String) (words : List String)
    → Turns words
    → opens piece ≡ true
    → All (λ p. opens p ≡ true) (chunk_from size piece words)
chunk_from-opens size piece _ (last word w) h =
    let grown = piece +++ word in
    let o = opens-append piece word h in
    elim (Bool-cases (cuts size grown word)) [
      | inl cut ↦ rw (chunk_from-last size piece word) (rw (cut) (o, tt))
      | inr keep ↦ rw (chunk_from-last size piece word) (rw (keep) (leftover-opens grown o))
    ]
chunk_from-opens size piece _ (turn word spaces words w s t) h =
    let grown = piece +++ word in
    let o = opens-append piece word h in
    elim (Bool-cases (cuts size grown word)) [
      | inl cut ↦
          rw (chunk_from-turn size piece word spaces words s)
            (rw (cut) (o, chunk_from-opens size spaces words t (opens-spaces spaces s)))
      | inr keep ↦ rw (chunk_from-turn size piece word spaces words s) (
          rw (keep)
            (chunk_from-opens size (grown +++ spaces) words t (opens-append grown spaces o)))
    ]

-- All pieces but the first.
abbrev pub others : List String → List String
others [] = []
others (piece ∷ pieces) = pieces

leftover-others : (s : String) → others (leftover s) ≡ []
leftover-others String.[] = refl
leftover-others (String.◌∷◌ c s) = refl

chunk_from-others :
    (size : ℕ) (piece : String) (words : List String)
    → Turns words
    → All (λ p. opens p ≡ true) (others (chunk_from size piece words))
chunk_from-others size piece _ (last word w) =
    let grown = piece +++ word in
    elim (Bool-cases (cuts size grown word)) [
      | inl cut ↦ rw (chunk_from-last size piece word) (rw (cut) tt)
      | inr keep ↦ rw (chunk_from-last size piece word) (rw (keep) (rw (leftover-others grown) tt))
    ]
chunk_from-others size piece _ (turn word spaces words w s t) =
    let grown = piece +++ word in
    elim (Bool-cases (cuts size grown word)) [
      | inl cut ↦
          rw (chunk_from-turn size piece word spaces words s)
            (rw (cut) (chunk_from-opens size spaces words t (opens-spaces spaces s)))
      | inr keep ↦
          rw (chunk_from-turn size piece word spaces words s)
            (rw (keep) (chunk_from-others size (grown +++ spaces) words t))
    ]

chunk-opens : (size : ℕ) (text : String) → All (λ p. opens p ≡ true) (others (chunk size text))
unfolding chunk
chunk-opens size String.[] = tt
chunk-opens size (String.◌∷◌ c s) =
    chunk_from-others size String.[] (split_spaces (String.◌∷◌ c s))
      (split_spaces-Turns (String.◌∷◌ c s))

-- The pieces of an answer, for a size of at least one: put together they are the answer; none is empty;
-- each but the last has at least that many characters; and each but the first begins with the white
-- space at which the answer was cut.
pub chunk_lem :
    (size : ℕ) (text : String)
    → 0 < size
    → let pieces = chunk size text in
      (join pieces ≡ text) × Sized size pieces × All (λ p. opens p ≡ true) (others pieces)
chunk_lem size text h = (join-chunk size text, chunk-Sized size text h, chunk-opens size text)
