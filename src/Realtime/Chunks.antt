-- ===== src/Realtime/Chunks.antt =====
-- backend/app/realtime/answers.py: `chunk`, and backend/app/llm/streaming.py:
-- `_split_keeping_whitespace`. What `re.split(r"(\s+)", text)` gives is `split_spaces` of Text.
pub mod Pieces
pub mod Cuts
use Prim.Native.Char.{Char, code}
use nexa_assist.Common.{
  ℕ, String, Bool, true, false, not, ◌&&◌, List, [], ◌∷◌, leb, nat_eq, if◌then◌else◌,
}
use nexa_assist.Names.{◌+++◌}
use nexa_assist.Text.{is_nonempty, text_length, is_spaces, split_spaces}

abbrev pub chunk_size : ℕ
chunk_size = 24

-- `if piece: yield piece`
abbrev pub leftover : String → List String
leftover piece = if is_nonempty piece then piece ∷ [] else []

-- The loop of `chunk`, with the piece so far.
unfoldable pub chunk_from : ℕ → String → List String → List String
chunk_from size piece [] = leftover piece
chunk_from size piece (word ∷ words) =
    let grown = piece +++ word in
    let more = chunk_from size grown words in
    let fresh = chunk_from size String.[] words in
    if leb size (text_length grown) && not (is_spaces word) then grown ∷ fresh else more

unfoldable pub chunk : ℕ → String → List String
unfolding chunk_from ◌+++◌ split_spaces
chunk size text = if is_nonempty text then chunk_from size String.[] (split_spaces text) else []

-- A character at the end of a text.
abbrev pub with_last : String → Char → String
with_last current c = current +++ String.◌∷◌ c String.[]

-- The loop of `_split_keeping_whitespace`
unfoldable pub split_from : String → String → List String
split_from current String.[] = leftover current
split_from current (String.◌∷◌ c text) =
    let more = split_from (with_last current c) text in
    let fresh = split_from String.[] text in
    if nat_eq (code c) 32 then with_last current c ∷ fresh else more

unfoldable pub split_keeping_whitespace : String → List String
unfolding split_from ◌+++◌
split_keeping_whitespace text = if is_nonempty text then split_from String.[] text else []
