-- ===== src/Knowledge/Sources.antt =====
-- What an answer cites was retrieved for it.
use nexa_assist.Common.{
  ℕ, zero, suc, ◌-◌, ◌<◌, String, ◌≡◌, ◌≢◌, refl, inl, inr, Bool, true, false, ◌&&◌, Option, some,
  List, [], ◌∷◌, arith, leb, nat_key, nat_eq, ap, if◌then◌else◌, contains, length, Bool-cases,
}
use nexa_assist.Knowledge.Answering.{
  RetrievedChunk, Citation, GroundedModelAnswer, GroundedAnswer, distinct, prefix, nth, to_citation,
  citations_for, from_chunks, answer,
}

nth-lt :
    (n : ℕ) (chunks : List RetrievedChunk)
    → n < length chunks
    → (c : RetrievedChunk) × (nth n chunks ≡ some c)
nth-lt n [] h = absurd (omega arith)
nth-lt zero (c ∷ chunks) h = (c, refl)
nth-lt (suc n) (c ∷ chunks) h = nth-lt n chunks (omega (arith, h))

-- The number of a source names one of the chunks.
abbrev pub names_source : List RetrievedChunk → ℕ → Bool
names_source chunks n = leb 1 n && leb n (length chunks)

-- These citations are those of these numbers, in order, without the numbers that name no chunk.
pub data Cites (one : ℕ) (chunks : List RetrievedChunk) : List ℕ → List Citation → Type 0 where
  nothing : Cites one chunks [] []
  skipped :
      (n : ℕ) (numbers : List ℕ) (citations : List Citation)
      → names_source chunks n ≡ false
      → Cites one chunks numbers citations
      → Cites one chunks (n ∷ numbers) citations
  cited :
      (n : ℕ) (c : RetrievedChunk) (numbers : List ℕ) (citations : List Citation)
      → names_source chunks n ≡ true
      → nth (n - 1) chunks ≡ some c
      → Cites one chunks numbers citations
      → Cites one chunks (n ∷ numbers) (
          record {
            document_id = c.document_id;
            document_title = c.document_title;
            ordinal = c.ordinal;
            excerpt = prefix 300 c.content;
            similarity = one - c.distance;
          }
          ∷ citations)

citations_for-Cites :
    (one : ℕ) (chunks : List RetrievedChunk) (numbers : List ℕ)
    → (citations : List Citation) × (citations_for one chunks numbers ≡ some citations)
      × Cites one chunks numbers citations
unfolding citations_for
citations_for-Cites one chunks [] = ([], refl, nothing)
citations_for-Cites one chunks (n ∷ numbers) =
    let (citations, e, rest) = citations_for-Cites one chunks numbers in
    elim (Bool-cases (names_source chunks n)) [
      | inr other ↦ (citations, rw (other) e, skipped n numbers citations other rest)
      | inl there ↦
          let (c, found) = nth-lt (n - 1) chunks (ground arith) in
          (
            to_citation one c ∷ citations,
            rw (there) (rw (found) (rw (e) refl)),
            cited n c numbers citations there found rest,
          )
    ]

-- No number is twice in the list.
abbrev pub Distinct : List ℕ → Type 0
Distinct [] = Unit
Distinct (n ∷ numbers) = (contains n numbers ≡ false) × Distinct numbers

distinct-contains :
    (seen numbers : List ℕ) (n : ℕ)
    → contains n seen ≡ true
    → contains n (distinct seen numbers) ≡ false
unfolding distinct
distinct-contains seen [] n h = refl
distinct-contains seen (m ∷ numbers) n h =
    ground (arith, distinct-contains seen numbers n h, distinct-contains (m ∷ seen) numbers n)

distinct-Distinct : (seen numbers : List ℕ) → Distinct (distinct seen numbers)
unfolding distinct
distinct-Distinct seen [] = tt
distinct-Distinct seen (n ∷ numbers) = elim (Bool-cases (contains n seen)) [
  | inl before ↦ rw (before) (distinct-Distinct seen numbers)
  | inr new ↦
      rw (new) (
        distinct-contains (n ∷ seen) numbers n (ground arith),
        distinct-Distinct (n ∷ seen) numbers,
      )
]

-- The first occurrence of a comes before any of b, which does occur.
abbrev pub precedes : ℕ → ℕ → List ℕ → Bool
precedes a b [] = false
precedes a b (n ∷ numbers) =
    if nat_eq n b then false else if nat_eq n a then contains b numbers else precedes a b numbers

-- These are the numbers of a list, each once and in the order of their first occurrences.
pub record Firsts (numbers firsts : List ℕ) : Type 0 where
  pub once : Distinct firsts
  pub same : (n : ℕ) → contains n firsts ≡ contains n numbers
  pub order : (a b : ℕ) → precedes a b firsts ≡ precedes a b numbers

distinct-same :
    (seen numbers : List ℕ) (n : ℕ)
    → contains n seen ≡ false
    → contains n (distinct seen numbers) ≡ contains n numbers
unfolding distinct
distinct-same seen [] n h = refl
distinct-same seen (m ∷ numbers) n h = elim (Bool-cases (contains m seen)) [
  | inl before ↦
      ground (arith, distinct-same seen numbers n h, (λ (e : m ≡ n). ap (λ k. contains k seen) e))
  | inr new ↦ elim (Bool-cases (nat_eq m n)) [
    | inl is_n ↦ rw (new) (rw (is_n) refl)
    | inr other ↦ rw (new) (rw (other) (distinct-same (m ∷ seen) numbers n (rw (other) h)))
  ]
]

distinct-order :
    (seen numbers : List ℕ) (a b : ℕ)
    → contains a seen ≡ false
    → contains b seen ≡ false
    → precedes a b (distinct seen numbers) ≡ precedes a b numbers
unfolding distinct
distinct-order seen [] a b h k = refl
distinct-order seen (m ∷ numbers) a b h k = elim (Bool-cases (contains m seen)) [
  | inl before ↦ ground (
    arith,
    distinct-order seen numbers a b h k,
    (λ (e : m ≡ a). ap (λ k. contains k seen) e),
    (λ (e : m ≡ b). ap (λ k. contains k seen) e),
  )
  | inr new ↦ elim (Bool-cases (nat_eq m b)) [
    | inl is_b ↦ rw (new) (rw (is_b) refl)
    | inr not_b ↦ elim (Bool-cases (nat_eq m a)) [
      | inl is_a ↦
          rw (new) (rw (not_b) (rw (is_a) (distinct-same (m ∷ seen) numbers b (rw (not_b) k))))
      | inr not_a ↦ rw (new) (
          rw (not_b)
            (rw (not_a) (distinct-order (m ∷ seen) numbers a b (rw (not_a) h) (rw (not_b) k))))
    ]
  ]
]

distinct-Firsts : (numbers : List ℕ) → Firsts numbers (distinct [] numbers)
distinct-Firsts numbers = record {
  once = distinct-Distinct [] numbers;
  same = λ n. distinct-same [] numbers n refl;
  order = λ a b. distinct-order [] numbers a b refl refl;
}

from_chunks-Cites :
    (one : ℕ) (complete : List RetrievedChunk → Option GroundedModelAnswer)
    (chunks : List RetrievedChunk) (m : GroundedModelAnswer)
    → chunks ≢ []
    → complete chunks ≡ some m
    → (r : GroundedAnswer) × (from_chunks one complete chunks ≡ some r)
      × (r.answered ≡ m.answered)
      × (r.answer ≡ m.answer)
      × ((numbers : List ℕ) × Firsts m.cited_sources numbers × Cites one chunks numbers r.citations)
from_chunks-Cites one complete [] m some_found given = absurd (some_found refl)
from_chunks-Cites one complete (c ∷ chunks) m some_found given =
    let (citations, all, cites) =
      citations_for-Cites one (c ∷ chunks) (distinct [] m.cited_sources) in
    (
      record { answered = m.answered; answer = m.answer; citations = citations },
      rw (given) (rw (all) refl),
      refl,
      refl,
      (distinct [] m.cited_sources, distinct-Firsts m.cited_sources, cites),
    )

-- Where something was retrieved, an answer of the model never fails to be returned, as the model gave it,
-- and cites exactly the chunks that its source numbers name, each number once and in the order in which
-- it first stands; a number that names no chunk is dropped, so nothing is cited that was not retrieved.
pub answer-Cites :
    (one : ℕ) (retrieve : String → ℕ → List RetrievedChunk)
    (complete : String → List RetrievedChunk → Option GroundedModelAnswer) (question : String)
    (top_k : ℕ) (m : GroundedModelAnswer)
    → retrieve question top_k ≢ []
    → complete question (retrieve question top_k) ≡ some m
    → (r : GroundedAnswer) × (answer one retrieve complete question top_k ≡ some r)
      × (r.answered ≡ m.answered)
      × (r.answer ≡ m.answer)
      × ((numbers : List ℕ) × Firsts m.cited_sources numbers
          × Cites one (retrieve question top_k) numbers r.citations)
unfolding answer
answer-Cites one retrieve complete question top_k m =
    from_chunks-Cites one (complete question) (retrieve question top_k) m
