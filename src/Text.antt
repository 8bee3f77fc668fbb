-- ===== src/Text.antt =====
-- What the source uses of Python's `str`: white space, `strip`, `partition` and ASCII. The white
-- space of `str.isspace`, `str.strip` and `\s` is the same set.
pub mod Laws
pub mod Splits
use Prim.Native.Char.{Char, code}
use nexa_assist.Common.{
  ℕ, suc, ◌+◌, String, Bool, true, false, ◌&&◌, ◌||◌, Option, none, some, List, [], ◌∷◌, nat_eq,
  leb, ltb, if◌then◌else◌,
}
use nexa_assist.Names.{◌+++◌}

unfoldable pub is_space : ℕ → Bool
is_space c =
    (leb 9 c && leb c 13)
    || (leb 28 c && leb c 32)
    || nat_eq c 133
    || nat_eq c 160
    || nat_eq c 5760
    || (leb 8192 c && leb c 8202)
    || nat_eq c 8232
    || nat_eq c 8233
    || nat_eq c 8239
    || nat_eq c 8287
    || nat_eq c 12288

-- str.lstrip
unfoldable pub drop_spaces : String → String
unfolding is_space
drop_spaces String.[] = String.[]
drop_spaces (String.◌∷◌ c s) =
    let rest = drop_spaces s in if is_space (code c) then rest else String.◌∷◌ c s

-- A character before a text whose end is stripped.
abbrev pub before_stripped : Char → String → String
before_stripped c String.[] = if is_space (code c) then String.[] else String.◌∷◌ c String.[]
before_stripped c (String.◌∷◌ d rest) = String.◌∷◌ c (String.◌∷◌ d rest)

-- str.rstrip
unfoldable pub rstrip : String → String
unfolding is_space
rstrip String.[] = String.[]
rstrip (String.◌∷◌ c s) = before_stripped c (rstrip s)

unfoldable pub strip : String → String
unfolding drop_spaces rstrip
strip s = rstrip (drop_spaces s)

-- A character more before the separator.
abbrev pub longer : Char → Option (String × String) → Option (String × String)
longer d none = none
longer d (some (before, rest)) = some (String.◌∷◌ d before, rest)

-- s.partition(chr(c)): `none` where the separator is not found
unfoldable pub partition : ℕ → String → Option (String × String)
partition c String.[] = none
partition c (String.◌∷◌ d s) =
    let rest = longer d (partition c s) in if nat_eq (code d) c then some (String.[], s) else rest

-- str.isascii
unfoldable pub is_ascii : String → Bool
is_ascii String.[] = true
is_ascii (String.◌∷◌ c s) = ltb (code c) 128 && is_ascii s

-- bool(s)
abbrev pub is_nonempty : String → Bool
is_nonempty String.[] = false
is_nonempty (String.◌∷◌ c s) = true

-- len(s)
unfoldable pub text_length : String → ℕ
text_length String.[] = 0
text_length (String.◌∷◌ c s) = suc (text_length s)

abbrev pub all_spaces : String → Bool
all_spaces String.[] = true
all_spaces (String.◌∷◌ c s) = is_space (code c) && all_spaces s

-- str.isspace
unfoldable pub is_spaces : String → Bool
unfolding is_space
is_spaces s = is_nonempty s && all_spaces s

-- A white space character before the pieces of a text.
abbrev pub space_before : Char → List String → List String
space_before c [] = String.[] ∷ String.◌∷◌ c String.[] ∷ []
space_before c (String.[] ∷ []) = String.[] ∷ String.◌∷◌ c String.[] ∷ String.[] ∷ []
space_before c (String.[] ∷ spaces ∷ pieces) = String.[] ∷ String.◌∷◌ c spaces ∷ pieces
space_before c (String.◌∷◌ d word ∷ pieces) =
    String.[] ∷ String.◌∷◌ c String.[] ∷ String.◌∷◌ d word ∷ pieces

-- Another character before them.
abbrev pub letter_before : Char → List String → List String
letter_before c [] = String.◌∷◌ c String.[] ∷ []
letter_before c (word ∷ pieces) = String.◌∷◌ c word ∷ pieces

-- re.split(r"(\s+)", s): words and the white space between them by turns, a word first and last
unfoldable pub split_spaces : String → List String
unfolding is_space
split_spaces String.[] = String.[] ∷ []
split_spaces (String.◌∷◌ c s) =
    let pieces = split_spaces s in
    if is_space (code c) then space_before c pieces else letter_before c pieces

-- "".join(pieces)
unfoldable pub join : List String → String
unfolding ◌+++◌
join [] = String.[]
join (piece ∷ pieces) = piece +++ join pieces

-- str.lower, on ASCII letters alone
abbrev pub lowered : List ℕ → List ℕ
lowered [] = []
lowered (c ∷ text) = (if leb b'A' c && leb c b'Z' then c + 32 else c) ∷ lowered text

abbrev pub starts_with : List ℕ → List ℕ → Bool
starts_with [] text = true
starts_with (c ∷ part) [] = false
starts_with (c ∷ part) (d ∷ text) = nat_eq c d && starts_with part text

-- part in text
abbrev pub occurs : List ℕ → List ℕ → Bool
occurs part [] = starts_with part []
occurs part (d ∷ text) = starts_with part (d ∷ text) || occurs part text
