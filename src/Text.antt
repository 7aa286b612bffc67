-- ===== src/Text.antt =====
-- Rust's text operations that the program uses (`str::to_lowercase`, `ends_with`, `strip_suffix`,
-- `trim_end_matches`, `split`, `parse::<u16>` and `parse::<usize>`), on lists of bytes.
-- `to_lowercase` is that of ASCII text; the names of the DNS are ASCII.
pub mod Laws
use Prim.Native.Char.{code}
use safexip.Prelude.{
  ℕ, ◌+◌, ◌-◌, ◌*◌, String, Bool, true, false, ◌&&◌, Option, none, some, List, [], ◌∷◌, ltb, leb,
  ◌==◌, if◌then◌else◌, map, is_some,
}

abbrev pub Text : Type 0
Text = List ℕ

-- The bytes of an ASCII literal.
abbrev pub codes : String → Text
codes String.[] = []
codes (String.◌∷◌ c s) = code c ∷ codes s

unfoldable pub text_eq : Text → Text → Bool
text_eq [] [] = true
text_eq [] (d ∷ t) = false
text_eq (c ∷ s) [] = false
text_eq (c ∷ s) (d ∷ t) = (c == d) && text_eq s t

unfoldable pub lower : ℕ → ℕ
lower c = if leb b'A' c && leb c b'Z' then c + 32 else c

unfoldable pub to_lowercase : Text → Text
unfolding lower
to_lowercase s = map lower s

-- `s.strip_suffix(suffix)`.
unfoldable pub strip_suffix : Text → Text → Option Text
unfolding text_eq
strip_suffix [] suffix = if text_eq [] suffix then some [] else none
strip_suffix (c ∷ s) suffix =
    let rest = strip_suffix s suffix in
    if text_eq (c ∷ s) suffix then some [] else elim rest [ none ↦ none | some p ↦ some (c ∷ p) ]

unfoldable pub ends_with : Text → Text → Bool
unfolding strip_suffix
ends_with s suffix = is_some (strip_suffix s suffix)

cons_trimmed : ℕ → ℕ → Text → Text
cons_trimmed d c [] = if c == d then [] else c ∷ []
cons_trimmed d c (r ∷ rest) = c ∷ r ∷ rest

-- `s.trim_end_matches(d)`.
unfoldable pub trim_end : ℕ → Text → Text
unfolding cons_trimmed
trim_end d [] = []
trim_end d (c ∷ s) = cons_trimmed d c (trim_end d s)

cons_part : ℕ → List Text → List Text
cons_part c [] = (c ∷ []) ∷ []
cons_part c (p ∷ ps) = (c ∷ p) ∷ ps

-- `s.split(d)`: one part more than there are separators.
unfoldable pub split : ℕ → Text → List Text
unfolding cons_part
split d [] = [] ∷ []
split d (c ∷ s) = let rest = split d s in if c == d then [] ∷ rest else cons_part c rest

-- The digit loop of `from_str_radix(10)`: it fails on a byte that is no digit and past `limit`.
unfoldable pub parse_digits : ℕ → Text → ℕ → Option ℕ
parse_digits limit [] n = some n
parse_digits limit (c ∷ s) n =
    let m = n * 10 + (c - b'0') in
    let rest = parse_digits limit s m in
    if leb b'0' c && leb c b'9' && leb m limit then rest else none

-- `s.parse()` into an unsigned integer of at most `limit`: a leading `+` is skipped, and a text with
-- no digit is an error.
unfoldable pub parse_unsigned : ℕ → Text → Option ℕ
unfolding parse_digits
parse_unsigned limit [] = none
parse_unsigned limit (c ∷ []) = if c == b'+' then none else parse_digits limit (c ∷ []) 0
parse_unsigned limit (c ∷ d ∷ s) =
    if c == b'+' then parse_digits limit (d ∷ s) 0 else parse_digits limit (c ∷ d ∷ s) 0
