-- ===== src/Knowledge/Chunking.antt =====
-- backend/app/rag/chunking.py.
use nexa_assist.Common.{
  ℕ, String, not, ◌&&◌, List, [], ◌∷◌, ◌++◌, Result, ok, ◌>>◌, raise_if, ltb, leb, if◌then◌else◌,
}
use nexa_assist.Names.{◌+++◌}
use nexa_assist.Text.Splits.{split_words, split_paragraphs, split_both}
use nexa_assist.Text.{strip, text_length, is_nonempty}

abbrev pub default_chunk_size : ℕ
default_chunk_size = 800

abbrev pub min_chunk_size : ℕ
min_chunk_size = 50

pub data ChunkFault : Type 0 where
  value_error : ChunkFault

-- `if current: parts.append(current)`
abbrev pub leftover : String → List String
leftover current = if is_nonempty current then current ∷ [] else []

-- f"{current} {word}".strip()
abbrev pub candidate_of : String → String → String
candidate_of current word = strip (current +++ (" " +++ word))

-- The loop of `_split_long`, with the part so far.
unfoldable pub split_from : ℕ → String → List String → List String
split_from chunk_size current [] = leftover current
split_from chunk_size current (word ∷ words) =
    let candidate = candidate_of current word in
    let full = ltb chunk_size (text_length candidate) && is_nonempty current in
    let rest = split_from chunk_size (if full then word else candidate) words in
    if full then current ∷ rest else rest

-- `_split_long`
abbrev pub split_long : String → ℕ → List String
split_long paragraph chunk_size = split_from chunk_size String.[] (split_words paragraph)

-- The chunks of one stripped paragraph.
abbrev pub chunks_of : ℕ → String → List String
chunks_of chunk_size paragraph =
    if not (is_nonempty paragraph)
    then []
    else if leb (text_length paragraph) chunk_size
    then paragraph ∷ []
    else split_long paragraph chunk_size

unfoldable pub chunk_paragraphs : ℕ → List String → List String
unfolding split_from split_words
chunk_paragraphs chunk_size [] = []
chunk_paragraphs chunk_size (p ∷ paragraphs) =
    chunks_of chunk_size (strip p) ++ chunk_paragraphs chunk_size paragraphs

-- `if not chunks and text.strip(): chunks.append(text.strip())`
abbrev pub or_whole : String → List String → List String
or_whole text [] = leftover (strip text)
or_whole text (c ∷ chunks) = c ∷ chunks

unfoldable pub chunk_text : String → ℕ → Result ChunkFault (List String)
unfolding chunk_paragraphs split_both
chunk_text text chunk_size = do
  raise_if (ltb chunk_size min_chunk_size) value_error
  ok (or_whole text (chunk_paragraphs chunk_size (split_paragraphs text)))
