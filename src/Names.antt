-- ===== src/Names.antt =====
-- The character set that jobs/base.py and tools/registry.py share for names:
-- `set("abcdefghijklmnopqrstuvwxyz0123456789_")`, and the length of a name in characters.
use Prim.Native.Char.{code}
use nexa_assist.Common.{
  ℕ, String, ◌≡◌, refl, Bool, true, false, ◌&&◌, ◌||◌, List, [], ◌∷◌, arith, leb, nat_eq, All,
}

-- The code points of a text.
abbrev pub codes : String → List ℕ
codes String.[] = []
codes (String.◌∷◌ c s) = code c ∷ codes s

abbrev pub is_lower : ℕ → Bool
is_lower c = leb b'a' c && leb c b'z'

abbrev pub is_digit : ℕ → Bool
is_digit c = leb b'0' c && leb c b'9'

unfoldable pub allowed : ℕ → Bool
allowed c = is_lower c || is_digit c || nat_eq c b'_'

-- set(name) <= _ALLOWED_NAME
unfoldable pub all_allowed : List ℕ → Bool
unfolding allowed
all_allowed [] = true
all_allowed (c ∷ cs) = allowed c && all_allowed cs

abbrev pub is_empty : List ℕ → Bool
is_empty [] = true
is_empty (_ ∷ _) = false

pub all_allowed-All : (cs : List ℕ) → all_allowed cs ≡ true → All (λ c. allowed c ≡ true) cs
unfolding all_allowed
all_allowed-All [] h = tt
all_allowed-All (c ∷ cs) h = ground (arith, all_allowed-All cs)

pub All-all_allowed : (cs : List ℕ) → All (λ c. allowed c ≡ true) cs → all_allowed cs ≡ true
unfolding all_allowed
All-all_allowed [] h = refl
All-all_allowed (c ∷ cs) h = ground (arith, All-all_allowed cs h.1)

-- s + t
infixr 65 ◌+++◌
unfoldable pub ◌+++◌ : String → String → String
String.[] +++ t = t
(String.◌∷◌ c s) +++ t = String.◌∷◌ c (s +++ t)

pub +++_cancel : (p s t : String) → p +++ s ≡ p +++ t → s ≡ t
unfolding ◌+++◌
+++_cancel String.[] s t h = h
+++_cancel (String.◌∷◌ c p) s t h = +++_cancel p s t (ground arith)
