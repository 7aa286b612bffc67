-- ===== src/Api/Utf8.antt =====
-- `String::from_utf8(bytes).is_ok()`: the well-formed sequences of UTF-8, as in the Unicode standard.
use safexip.Prelude.{
  ℕ, ◌-◌, Bool, false, ◌&&◌, Option, none, some, List, [], ◌∷◌, leb, ltb, ◌==◌, if◌then◌else◌,
}

-- How many continuation bytes are due, and the range of the next.
pub record Due : Type 0 where
  pub remaining : ℕ
  pub low : ℕ
  pub high : ℕ

abbrev due : ℕ → ℕ → ℕ → Option Due
due remaining low high = some (record { remaining = remaining; low = low; high = high })

-- The first byte of a character.
lead_byte : ℕ → Option Due
lead_byte c =
    if ltb c 0x80
    then due 0 0x80 0xbf
    else if leb 0xc2 c && leb c 0xdf
    then due 1 0x80 0xbf
    else if c == 0xe0
    then due 2 0xa0 0xbf
    else if c == 0xed
    then due 2 0x80 0x9f
    else if leb 0xe1 c && leb c 0xef
    then due 2 0x80 0xbf
    else if c == 0xf0
    then due 3 0x90 0xbf
    else if leb 0xf1 c && leb c 0xf3
    then due 3 0x80 0xbf
    else if c == 0xf4
    then due 3 0x80 0x8f
    else none

next_byte : Due → ℕ → Option Due
unfolding lead_byte
next_byte d c =
    if d.remaining == 0
    then lead_byte c
    else if leb d.low c && leb c d.high
    then due (d.remaining - 1) 0x80 0xbf
    else none

scan_utf8 : List ℕ → Option Due → Bool
unfolding next_byte
scan_utf8 bytes none = false
scan_utf8 [] (some d) = d.remaining == 0
scan_utf8 (c ∷ bytes) (some d) = scan_utf8 bytes (next_byte d c)

unfoldable pub is_utf8 : List ℕ → Bool
unfolding scan_utf8
is_utf8 bytes = scan_utf8 bytes (due 0 0x80 0xbf)
