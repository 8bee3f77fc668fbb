-- ===== src/Knowledge/Tests.antt =====
-- Answers over two retrieved chunks, and a document with a word that is longer than a chunk.
use nexa_assist.Common.{
  arith, ℕ, String, ◌≡◌, ◌≢◌, refl, true, false, Option, some, List, [], ◌∷◌, ok, All,
}
use nexa_assist.Names.{◌+++◌}
use nexa_assist.Text.{all_spaces, strip, text_length}
use nexa_assist.Knowledge.Chunking.{chunk_text}
use nexa_assist.Knowledge.Sizes.{Fits, chunk_text-Fits}
use nexa_assist.Knowledge.Answering.{
  RetrievedChunk, GroundedModelAnswer, GroundedAnswer, distinct, answer, to_citation, citations_for,
}
use nexa_assist.Knowledge.Sources.{Cites, Firsts, answer-Cites}

abbrev chunk_of : String → ℕ → RetrievedChunk
chunk_of title n = record {
  document_id = "d1";
  document_title = title;
  ordinal = n;
  content = "Refunds are made within 30 days.";
  distance = 20;
}

abbrev found : String → ℕ → List RetrievedChunk
found question top_k = chunk_of "Refunds" 0 ∷ chunk_of "Billing" 3 ∷ []

-- A model that cites a source that is not there, and one twice.
abbrev inventive : String → List RetrievedChunk → Option GroundedModelAnswer
inventive question chunks =
    some
      (record { answered = true; answer = "Within 30 days."; cited_sources = 2 ∷ 7 ∷ 2 ∷ 0 ∷ [] })

cites_billing :
    answer 100 found inventive "When is it refunded?" 4
    ≡ some (record {
      answered = true;
      answer = "Within 30 days.";
      citations = to_citation 100 (chunk_of "Billing" 3) ∷ [];
    })
unfolding answer citations_for distinct
cites_billing = refl

abbrev invented : GroundedModelAnswer
invented = record {
  answered = true;
  answer = "Within 30 days.";
  cited_sources = 2 ∷ 7 ∷ 2 ∷ 0 ∷ [];
}

some_found : found "When is it refunded?" 4 ≢ []
some_found e = ground arith

answer-Cites_example :
    (r : GroundedAnswer) × (answer 100 found inventive "When is it refunded?" 4 ≡ some r)
    × (r.answered ≡ true)
    × (r.answer ≡ "Within 30 days.")
    × ((numbers : List ℕ) × Firsts invented.cited_sources numbers
        × Cites 100 (found "When is it refunded?" 4) numbers r.citations)
answer-Cites_example =
    answer-Cites 100 found inventive "When is it refunded?" 4 invented some_found refl

abbrev long_word : String
long_word = "https://example.com/a/very/long/address/without/any/white/space"

too_long : chunk_text long_word 50 ≡ ok (long_word ∷ [])
unfolding chunk_text strip text_length ◌+++◌
too_long = refl

-- Three paragraphs, of which the middle one is too long.
abbrev three : String
three = "One.\n\nThis paragraph has rather more characters than fifty, so it is split.\n\nThree."

in_parts :
    chunk_text three 50
    ≡ ok (
        "One." ∷ "This paragraph has rather more characters than" ∷ "fifty, so it is split."
        ∷ "Three." ∷ [])
unfolding chunk_text strip text_length ◌+++◌
in_parts = refl

chunk_text-Fits_example :
    (chunks : List String) × (chunk_text three 50 ≡ ok chunks)
    × All (Fits 50) chunks
    × (all_spaces three ≡ false → chunks ≢ [])
chunk_text-Fits_example = chunk_text-Fits three 50 (omega arith)
