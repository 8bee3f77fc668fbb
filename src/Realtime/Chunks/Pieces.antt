-- ===== src/Realtime/Chunks/Pieces.antt =====
-- The pieces of an answer put together again, and their sizes.
use Prim.Native.Char.{Char}
use nexa_assist.Common.{
  ℕ, ◌≤◌, ◌<◌, String, ◌≡◌, refl, sym, ◌∙◌, ap, Bool, true, not, ◌&&◌, List, [], ◌∷◌, arith, leb,
  Bool-cases, inl, inr, All,
}
use nexa_assist.Names.{◌+++◌}
use nexa_assist.Text.{is_nonempty, text_length, is_spaces, split_spaces, join}
use nexa_assist.Text.Laws.{+++_nil, +++_assoc, join-split_spaces}
use nexa_assist.Realtime.Chunks.{
  chunk_from, chunk, leftover, split_from, split_keeping_whitespace, with_last,
}

join-leftover : (piece : String) → join (leftover piece) ≡ piece
unfolding join
join-leftover String.[] = refl
join-leftover (String.◌∷◌ c piece) = +++_nil (String.◌∷◌ c piece)

pub nothing_before : (s : String) → String.[] +++ s ≡ s
unfolding ◌+++◌
nothing_before s = refl

join-chunk_from :
    (size : ℕ) (piece : String) (words : List String)
    → join (chunk_from size piece words) ≡ piece +++ join words
unfolding chunk_from join
join-chunk_from size piece [] = join-leftover piece ∙ sym (+++_nil piece)
join-chunk_from size piece (word ∷ words) = ground (
  arith,
  join-chunk_from size (piece +++ word) words,
  join-chunk_from size String.[] words,
  +++_assoc piece word (join words),
  nothing_before (join words),
)

-- Put together, the pieces of an answer are the answer: no character is lost, doubled or moved.
pub join-chunk : (size : ℕ) (text : String) → join (chunk size text) ≡ text
unfolding chunk
join-chunk size String.[] = unfold join in refl
join-chunk size (String.◌∷◌ c s) =
    let text : String = String.◌∷◌ c s in
    join-chunk_from size String.[] (split_spaces text)
    ∙ nothing_before (join (split_spaces text))
    ∙ join-split_spaces text

moved : (s t : String) (c : Char) → with_last s c +++ t ≡ s +++ String.◌∷◌ c t
moved s t c = +++_assoc s (String.◌∷◌ c String.[]) t ∙ ap (λ u. s +++ u) (unfold ◌+++◌ in refl)

join_cons : (piece : String) (pieces : List String) → join (piece ∷ pieces) ≡ piece +++ join pieces
unfolding join
join_cons piece pieces = refl

join-split_from : (current text : String) → join (split_from current text) ≡ current +++ text
unfolding split_from
join-split_from current String.[] = join-leftover current ∙ sym (+++_nil current)
join-split_from current (String.◌∷◌ c text) = ground (
  arith,
  join-split_from (with_last current c) text,
  join-split_from String.[] text,
  moved current text c,
  nothing_before text,
  join_cons (with_last current c) (split_from String.[] text),
)

-- The deltas of the static provider are its text.
pub join-split_keeping_whitespace : (text : String) → join (split_keeping_whitespace text) ≡ text
unfolding split_keeping_whitespace
join-split_keeping_whitespace String.[] = unfold join in refl
join-split_keeping_whitespace (String.◌∷◌ c s) =
    join-split_from String.[] (String.◌∷◌ c s) ∙ nothing_before (String.◌∷◌ c s)

-- All pieces but the last are at least this long.
abbrev pub AllButLast : (String → Type 0) → List String → Type 0
AllButLast P [] = Unit
AllButLast P (piece ∷ []) = Unit
AllButLast P (piece ∷ next ∷ pieces) = P piece × AllButLast P (next ∷ pieces)

AllButLast-cons :
    (P : String → Type 0) (piece : String) (pieces : List String)
    → P piece
    → AllButLast P pieces
    → AllButLast P (piece ∷ pieces)
AllButLast-cons P piece [] p ps = tt
AllButLast-cons P piece (next ∷ pieces) p ps = (p, ps)

-- Every piece holds text, and every one but the last is long enough.
abbrev pub Sized : ℕ → List String → Type 0
Sized size pieces =
    All (λ p. is_nonempty p ≡ true) pieces × AllButLast (λ p. size ≤ text_length p) pieces

leftover-Sized : (size : ℕ) (piece : String) → Sized size (leftover piece)
leftover-Sized size String.[] = (tt, tt)
leftover-Sized size (String.◌∷◌ c piece) = ((refl, tt), tt)

nonempty : (s : String) → 0 < text_length s → is_nonempty s ≡ true
unfolding text_length
nonempty String.[] h = absurd (omega arith)
nonempty (String.◌∷◌ c s) h = refl

-- Whether the loop cuts after this word.
abbrev pub cuts : ℕ → String → String → Bool
cuts size grown word = leb size (text_length grown) && not (is_spaces word)

chunk_from-Sized :
    (size : ℕ) (piece : String) (words : List String)
    → 0 < size
    → Sized size (chunk_from size piece words)
unfolding chunk_from
chunk_from-Sized size piece [] h = leftover-Sized size piece
chunk_from-Sized size piece (word ∷ words) h =
    let grown = piece +++ word in
    elim (Bool-cases (cuts size grown word)) [
      | inl cut ↦
          let fresh = chunk_from-Sized size String.[] words h in
          let long : size ≤ text_length grown = ground arith in
          rw (cut) (
            (nonempty grown (omega arith), fresh.0),
            AllButLast-cons (λ p. size ≤ text_length p) grown (chunk_from size String.[] words) long
                fresh.1,
          )
      | inr keep ↦ rw (keep) (chunk_from-Sized size grown words h)
    ]

-- No piece is empty, and each but the last has at least the size asked for.
pub chunk-Sized : (size : ℕ) (text : String) → 0 < size → Sized size (chunk size text)
unfolding chunk
chunk-Sized size String.[] h = (tt, tt)
chunk-Sized size (String.◌∷◌ c s) h =
    chunk_from-Sized size String.[] (split_spaces (String.◌∷◌ c s)) h
