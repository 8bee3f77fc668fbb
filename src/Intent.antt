-- ===== src/Intent.antt =====
-- backend/app/schemas/intent.py: the closed set of intents and the classification of a message.
-- Confidence is only compared, so it is a natural on any scale that is fine enough.
use nexa_assist.Common.{ℕ, String, ◌≡◌, ◌↔◌, Bool, true, nat_eq, Eq, arith, List, [], ◌∷◌}

pub data IntentCategory : Type 0 where
  billing technical_support account product_question complaint other : IntentCategory

-- in declaration order
abbrev pub categories : List IntentCategory
categories = billing ∷ technical_support ∷ account ∷ product_question ∷ complaint ∷ other ∷ []

abbrev pub index : IntentCategory → ℕ
index billing = 0
index technical_support = 1
index account = 2
index product_question = 3
index complaint = 4
index other = 5

abbrev pub category_eq : IntentCategory → IntentCategory → Bool
category_eq a b = nat_eq (index a) (index b)

pub category_eq_iff : (a b : IntentCategory) → (category_eq a b ≡ true) ↔ (a ≡ b)
category_eq_iff a b = ground arith

instance abbrev pub category_key : Eq IntentCategory
category_key = record { beq = category_eq; beq_iff = category_eq_iff }

pub record IntentAnalysis : Type 0 where
  pub intent : IntentCategory
  pub confidence : ℕ
  pub reason : String
