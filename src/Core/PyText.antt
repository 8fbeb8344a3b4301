-- ===== src/Core/PyText.antt =====
-- What the source uses of Python's `str` and `int`, on texts of ASCII characters.
use Prim.Native.Char.{Char, code}
use drf_enterprise_informati.Prelude.{
  ℕ, ◌+◌, ◌*◌, ◌-◌, String, ◌≡◌, refl, Bool, true, false, ◌&&◌, ◌||◌, Option, none, some, List, [],
  ◌∷◌, leb, nat_eq, if◌then◌else◌, is_set,
}

-- `negsuc n` is -(n + 1).
pub data ℤ : Type 0 where
  pos : ℕ → ℤ
  negsuc : ℕ → ℤ

-- `max(z, 0)`
abbrev pub to_nat : ℤ → ℕ
to_nat (pos n) = n
to_nat (negsuc n) = 0

abbrev negate : ℕ → ℤ
negate n = if nat_eq n 0 then pos 0 else negsuc (n - 1)

abbrev pub codes : String → List ℕ
codes String.[] = []
codes (String.◌∷◌ c s) = code c ∷ codes s

abbrev push_head : Char → List String → List String
push_head c [] = String.◌∷◌ c String.[] ∷ []
push_head c (p ∷ ps) = String.◌∷◌ c p ∷ ps

-- `s.split(sep)` at a separator of one character
unfoldable pub split_on : ℕ → String → List String
split_on sep String.[] = "" ∷ []
split_on sep (String.◌∷◌ c s) =
    let rest = split_on sep s in if nat_eq (code c) sep then "" ∷ rest else push_head c rest

abbrev is_digit : ℕ → Bool
is_digit c = leb 48 c && leb c 57

-- The characters that `strip` removes.
abbrev pub is_space : ℕ → Bool
is_space c = (leb 9 c && leb c 13) || (leb 28 c && leb c 32)

abbrev all_space : List ℕ → Bool
all_space [] = true
all_space (c ∷ s) = is_space c && all_space s

-- Digits with single underscores between them, then white space.
digits : ℕ → Bool → List ℕ → Option ℕ
digits n after_digit [] = if after_digit then some n else none
digits n after_digit (c ∷ s) =
    let more = digits (n * 10 + (c - 48)) true s in
    let joined = digits n false s in
    if is_digit c
    then more
    else if nat_eq c b'_' && after_digit
    then joined
    else if after_digit && all_space (c ∷ s)
    then some n
    else none

abbrev map_sign : (ℕ → ℤ) → Option ℕ → Option ℤ
map_sign f none = none
map_sign f (some n) = some (f n)

signed : List ℕ → Option ℤ
unfolding digits
signed [] = none
signed (c ∷ s) =
    if nat_eq c b'-'
    then map_sign negate (digits 0 false s)
    else if nat_eq c b'+'
    then map_sign pos (digits 0 false s)
    else map_sign pos (digits 0 false (c ∷ s))

skip_space : List ℕ → List ℕ
skip_space [] = []
skip_space (c ∷ s) = let rest = skip_space s in if is_space c then rest else c ∷ s

-- `int(s)`; `none` is the ValueError
unfoldable pub int : String → Option ℤ
unfolding signed skip_space
int s = signed (skip_space (codes s))

abbrev lower_code : ℕ → ℕ
lower_code c = if leb b'A' c && leb c b'Z' then c + 32 else c

-- `s.lower() == word`
unfoldable pub lower_eq : List ℕ → List ℕ → Bool
lower_eq [] [] = true
lower_eq (c ∷ s) (d ∷ word) = nat_eq (lower_code c) d && lower_eq s word
lower_eq _ _ = false

int_examples :
    (int " -1_000 " ≡ some (negsuc 999))
    × (int "+7" ≡ some (pos 7))
    × (int "1__0" ≡ none)
    × (int "" ≡ none)
    × (int "-0" ≡ some (pos 0))
unfolding int
int_examples = (refl, refl, refl, refl, refl)

split_example : split_on b'/' "10/min/" ≡ "10" ∷ "min" ∷ "" ∷ []
unfolding split_on
split_example = refl

space_parts : String → List String
space_parts String.[] = "" ∷ []
space_parts (String.◌∷◌ c s) =
    let rest = space_parts s in if is_space (code c) then "" ∷ rest else push_head c rest

non_empty : List String → List String
non_empty [] = []
non_empty (w ∷ ws) = let rest = non_empty ws in if is_set w then w ∷ rest else rest

-- `s.split()`
unfoldable pub words : String → List String
unfolding space_parts non_empty
words s = non_empty (space_parts s)

words_example : words " read  write:all " ≡ "read" ∷ "write:all" ∷ []
unfolding words
words_example = refl
