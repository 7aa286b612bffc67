-- ===== src/Xip.antt =====
-- src/xip.rs: names of the zone, and addresses written into names.
pub mod Zone
pub mod Octets
pub mod Parse
pub mod Windows
use safexip.Prelude.{
  ℕ, zero, suc, ◌+◌, ◌-◌, ◌%◌, Bool, ◌||◌, Option, none, some, List, [], ◌∷◌, ◌++◌, ltb,
  if◌then◌else◌, length, take, drop, set,
}
use safexip.Text.{
  Text, codes, text_eq, to_lowercase, ends_with, strip_suffix, split, parse_unsigned,
}
use safexip.Config.{Ipv4Addr}

unfoldable pub is_our_domain : Text → Text → Bool
is_our_domain hostname domain =
    let host = to_lowercase hostname in
    let zone = to_lowercase domain in text_eq host zone || ends_with host (b'.' ∷ zone)

-- `s.parse::<u16>()`, the test against 255 and the cast to `u8`.
unfoldable pub parse_octet : Text → Option ℕ
unfolding parse_unsigned
parse_octet s = elim (parse_unsigned 65535 s) [
  | none ↦ none
  | some val ↦ if ltb 255 val then none else some (val % 256)
]

-- The loop of `parse_octets` over the parts from number `i` on, with the array `b`.
unfoldable pub fill_octets : List Text → ℕ → List ℕ → Option (List ℕ)
fill_octets [] i b = some b
fill_octets (s ∷ octets) i b = elim (parse_octet s) [
  | none ↦ none
  | some val ↦ fill_octets octets (i + 1) (set b i val)
]

-- `Ipv4Addr::from` of an array of four.
from_array : List ℕ → Option Ipv4Addr
from_array (a ∷ b ∷ c ∷ d ∷ []) = some (record { first = a; second = b; third = c; fourth = d })
from_array _ = none

unfoldable pub parse_octets : List Text → Option Ipv4Addr
unfolding from_array
parse_octets octets = elim (fill_octets octets 0 (0 ∷ 0 ∷ 0 ∷ 0 ∷ [])) [
  | none ↦ none
  | some b ↦ from_array b
]

abbrev pub window : List Text → ℕ → List Text
window parts i = take 4 (drop i parts)

-- `for i in (0..n).rev()`: the first window from the end that parses.
unfoldable pub scan_windows : List Text → ℕ → Option Ipv4Addr
scan_windows parts zero = none
scan_windows parts (suc i) = elim (parse_octets (window parts i)) [
  | none ↦ scan_windows parts i
  | some ip ↦ some ip
]

unfoldable pub parse_xip_ip : Text → Text → Option Ipv4Addr
parse_xip_ip hostname domain =
    elim (strip_suffix (to_lowercase hostname) (b'.' ∷ to_lowercase domain)) [
      | none ↦ none
      | some prefix ↦
          let parts = split b'-' prefix in
          if ltb (length parts) 4 then none else scan_windows parts (length parts - 4 + 1)
    ]
