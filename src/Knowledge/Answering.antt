-- ===== src/Knowledge/Answering.antt =====
-- backend/app/services/answer.py and the retrieved chunks of backend/app/services/document.py. Search and
-- the model are parameters: search gives the chunks, the model's answer is `none` where the provider
-- raised. Distances are on a scale on which `one` stands for 1; a negative source number is
-- dropped as 0 is, so the numbers are naturals. Log lines are left out.
use nexa_assist.Common.{
  ℕ, zero, suc, ◌-◌, String, Bool, false, ◌&&◌, Option, none, some, List, [], ◌∷◌, leb, nat_key,
  contains, length, if◌then◌else◌,
}

pub record RetrievedChunk : Type 0 where
  pub document_id : String
  pub document_title : String
  pub ordinal : ℕ
  pub content : String
  pub distance : ℕ

pub record Citation : Type 0 where
  pub document_id : String
  pub document_title : String
  pub ordinal : ℕ
  pub excerpt : String
  pub similarity : ℕ

pub record GroundedModelAnswer : Type 0 where
  pub answered : Bool
  pub answer : String
  pub cited_sources : List ℕ

pub record GroundedAnswer : Type 0 where
  pub answered : Bool
  pub answer : String
  pub citations : List Citation

abbrev pub no_sources_answer : String
no_sources_answer = "I do not have any documentation that covers that question."

-- s[:n]
abbrev pub prefix : ℕ → String → String
prefix zero s = String.[]
prefix (suc n) String.[] = String.[]
prefix (suc n) (String.◌∷◌ c s) = String.◌∷◌ c (prefix n s)

-- list(dict.fromkeys(numbers)), without those seen before
unfoldable pub distinct : List ℕ → List ℕ → List ℕ
distinct seen [] = []
distinct seen (n ∷ numbers) =
    let skipped = distinct seen numbers in
    let kept = n ∷ distinct (n ∷ seen) numbers in if contains n seen then skipped else kept

-- chunks[n], `none` where Python raises IndexError
abbrev pub nth : ℕ → List RetrievedChunk → Option RetrievedChunk
nth n [] = none
nth zero (c ∷ chunks) = some c
nth (suc n) (c ∷ chunks) = nth n chunks

module _ (one : ℕ) where
  -- `RetrievedChunk.similarity`, which is clamped at 0
  abbrev pub similarity : RetrievedChunk → ℕ
  similarity c = one - c.distance

  abbrev pub to_citation : RetrievedChunk → Citation
  to_citation c = record {
    document_id = c.document_id;
    document_title = c.document_title;
    ordinal = c.ordinal;
    excerpt = prefix 300 c.content;
    similarity = similarity c;
  }

  -- A citation more, or the IndexError.
  abbrev pub cite : Option RetrievedChunk → Option (List Citation) → Option (List Citation)
  cite none rest = none
  cite (some c) none = none
  cite (some c) (some citations) = some (to_citation c ∷ citations)

  -- [_to_citation(chunks[n - 1]) for n in numbers if 1 <= n <= len(chunks)]
  unfoldable pub citations_for : List RetrievedChunk → List ℕ → Option (List Citation)
  citations_for chunks [] = some []
  citations_for chunks (n ∷ numbers) =
      let rest = citations_for chunks numbers in
      if leb 1 n && leb n (length chunks) then cite (nth (n - 1) chunks) rest else rest

  -- The model's answer with these citations.
  abbrev pub answer_with : GroundedModelAnswer → Option (List Citation) → Option GroundedAnswer
  answer_with m none = none
  answer_with m (some citations) =
      some (record { answered = m.answered; answer = m.answer; citations = citations })

  -- What `answer` makes of the model's answer.
  abbrev pub grounded : List RetrievedChunk → Option GroundedModelAnswer → Option GroundedAnswer
  grounded chunks none = none
  grounded chunks (some m) = answer_with m (citations_for chunks (distinct [] m.cited_sources))

  -- What is answered from these chunks; without any, the model is not asked.
  abbrev pub from_chunks :
      (List RetrievedChunk → Option GroundedModelAnswer)
      → List RetrievedChunk
      → Option GroundedAnswer
  from_chunks complete [] =
      some (record { answered = false; answer = no_sources_answer; citations = [] })
  from_chunks complete (c ∷ chunks) = grounded (c ∷ chunks) (complete (c ∷ chunks))

  unfoldable pub answer :
      (String → ℕ → List RetrievedChunk)
      → (String → List RetrievedChunk → Option GroundedModelAnswer)
      → String
      → ℕ
      → Option GroundedAnswer
  answer retrieve complete question top_k =
      from_chunks (complete question) (retrieve question top_k)
