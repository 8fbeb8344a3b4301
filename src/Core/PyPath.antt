-- ===== src/Core/PyPath.antt =====
-- What the source uses of `os.path.splitext` and of `str.lower`, on texts of ASCII characters.
use Prim.Native.Char.{Char, code}
use Prim.Native.String.{◌++◌, char_at}
use drf_enterprise_informati.Prelude.{
  ◌-◌, String, ◌≡◌, refl, ◌&&◌, List, [], ◌∷◌, leb, nat_eq, if◌then◌else◌,
}
use drf_enterprise_informati.Core.PyText.{split_on}

lower_char : Char → Char
lower_char c =
    if leb b'A' (code c) && leb (code c) b'Z'
    then char_at "abcdefghijklmnopqrstuvwxyz" (code c - b'A')
    else c

-- `s.lower()`
unfoldable pub lower : String → String
unfolding lower_char
lower String.[] = String.[]
lower (String.◌∷◌ c s) = String.◌∷◌ (lower_char c) (lower s)

last_part : String → List String → String
last_part part [] = part
last_part part (next ∷ rest) = last_part next rest

strip_dots : String → String
strip_dots String.[] = String.[]
strip_dots (String.◌∷◌ c s) =
    let rest = strip_dots s in if nat_eq (code c) b'.' then rest else String.◌∷◌ c s

extension_of : List String → String
unfolding last_part
extension_of (stem ∷ part ∷ rest) = "." ++ last_part part rest
extension_of _ = ""

-- `os.path.splitext(path)[1]`: from the last dot of the last component on, where the dots that the
-- component starts with do not count
unfoldable pub ext_of : String → String
unfolding strip_dots extension_of last_part split_on
ext_of path = extension_of (split_on b'.' (strip_dots (last_part "" (split_on b'/' path))))

ext_of_examples :
    (ext_of "a.b/report.tar.GZ" ≡ ".GZ")
    × (ext_of "a.b/report" ≡ "")
    × (ext_of "..profile" ≡ "")
    × (ext_of "x." ≡ ".")
unfolding ext_of
ext_of_examples = (refl, refl, refl, refl)

lower_example : lower ".PdF9" ≡ ".pdf9"
unfolding lower
lower_example = refl
