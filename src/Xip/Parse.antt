-- ===== src/Xip/Parse.antt =====
-- src/xip.rs: reading an address from a name.
use safexip.Prelude.{
  ℕ, zero, suc, ◌+◌, ◌-◌, ◌≤◌, none, some, List, [], ◌∷◌, ◌++◌, append_assoc, ◌≡◌, ◌≢◌, refl, ap,
  ◌∙◌, arith, ltb, if◌then◌else◌, length, length-append, take, set, drop-append_length, All,
  Option-cases, inl, inr, ◌⊎◌,
}
use safexip.Text.{Text, to_lowercase, strip_suffix, split}
use safexip.Text.Laws.{to_lowercase-append, strip_suffix-append}
use safexip.Config.{Ipv4Addr}
use safexip.Xip.{from_array, parse_octet, fill_octets, parse_octets, scan_windows, parse_xip_ip}
use safexip.Xip.Octets.{
  decimal, parse_octet-decimal, decimal-Lacks, to_lowercase-decimal, parse_octet-le,
}

split-ne-nil : (d : ℕ) (s : Text) → split d s ≢ []
unfolding split
split-ne-nil d [] = cc
split-ne-nil d (c ∷ s) = ground arith

-- Text on both sides of a separator is split on its own.
split-append : (d : ℕ) (s t : Text) → split d (s ++ d ∷ t) ≡ split d s ++ split d t
unfolding split
split-append d [] t = ground arith
split-append d (c ∷ s) t = ground (arith, split-append d s t, split-ne-nil d s)

split-Lacks : (d : ℕ) (s : Text) → All (λ c. c ≢ d) s → split d s ≡ s ∷ []
unfolding split
split-Lacks d [] h = refl
split-Lacks d (c ∷ s) (hc, h) = ground (arith, split-Lacks d s h)

-- An address as four octets joined by dashes.
abbrev pub dashed : Ipv4Addr → Text
dashed ip =
    decimal ip.first
    ++ b'-' ∷ (decimal ip.second ++ b'-' ∷ (decimal ip.third ++ b'-' ∷ decimal ip.fourth))

pub record IsIpv4 (ip : Ipv4Addr) : Type 0 where
  pub first_u8 : ip.first ≤ 255
  pub second_u8 : ip.second ≤ 255
  pub third_u8 : ip.third ≤ 255
  pub fourth_u8 : ip.fourth ≤ 255

to_lowercase-dash : (s : Text) → to_lowercase (b'-' ∷ s) ≡ b'-' ∷ to_lowercase s
unfolding to_lowercase
to_lowercase-dash s = refl

to_lowercase-dot : (s : Text) → to_lowercase (b'.' ∷ s) ≡ b'.' ∷ to_lowercase s
unfolding to_lowercase
to_lowercase-dot s = refl

module _ (ip : Ipv4Addr) (octets : IsIpv4 ip) where
  split-dashed :
      split b'-' (dashed ip)
      ≡ decimal ip.first ∷ decimal ip.second ∷ decimal ip.third ∷ decimal ip.fourth ∷ []
  split-dashed = simp (
    split-append,
    split-Lacks b'-' (decimal ip.first) (decimal-Lacks ip.first octets.first_u8),
    split-Lacks b'-' (decimal ip.second) (decimal-Lacks ip.second octets.second_u8),
    split-Lacks b'-' (decimal ip.third) (decimal-Lacks ip.third octets.third_u8),
    split-Lacks b'-' (decimal ip.fourth) (decimal-Lacks ip.fourth octets.fourth_u8),
  )

  parse_octets-dashed :
      parse_octets
        (decimal ip.first ∷ decimal ip.second ∷ decimal ip.third ∷ decimal ip.fourth ∷ [])
      ≡ some ip
  unfolding parse_octets fill_octets
  parse_octets-dashed = ground (
    arith,
    parse_octet-decimal ip.first octets.first_u8,
    parse_octet-decimal ip.second octets.second_u8,
    parse_octet-decimal ip.third octets.third_u8,
    parse_octet-decimal ip.fourth octets.fourth_u8,
  )

  to_lowercase-dashed : to_lowercase (dashed ip) ≡ dashed ip
  to_lowercase-dashed = simp (
    to_lowercase-append,
    to_lowercase-dash,
    to_lowercase-decimal ip.first octets.first_u8,
    to_lowercase-decimal ip.second octets.second_u8,
    to_lowercase-decimal ip.third octets.third_u8,
    to_lowercase-decimal ip.fourth octets.fourth_u8,
  )

  to_lowercase_name :
      (domain : Text)
      → to_lowercase (dashed ip ++ b'.' ∷ domain) ≡ dashed ip ++ b'.' ∷ to_lowercase domain
  to_lowercase_name domain =
      to_lowercase-append (dashed ip) (b'.' ∷ domain)
      ∙ ap (λ t. t ++ to_lowercase (b'.' ∷ domain)) to_lowercase-dashed
      ∙ ap (λ t. dashed ip ++ t) (to_lowercase-dot domain)

  scan_windows-dashed :
      (parts : List Text)
      → scan_windows
          (parts
            ++ decimal ip.first ∷ decimal ip.second ∷ decimal ip.third ∷ decimal ip.fourth ∷ [])
          (suc (length parts))
        ≡ some ip
  unfolding scan_windows
  scan_windows-dashed parts =
      let four = decimal ip.first ∷ decimal ip.second ∷ decimal ip.third ∷ decimal ip.fourth ∷ [] in
      ground (
        arith,
        ap (λ (ps : List Text). parse_octets (take 4 ps)) (drop-append_length parts four),
        parse_octets-dashed,
      )

  -- the part of the name before the zone
  parse_prefix :
      (parts : List Text) (prefix : Text)
      → split b'-' prefix
        ≡ parts ++ decimal ip.first ∷ decimal ip.second ∷ decimal ip.third ∷ decimal ip.fourth ∷ []
      → (if ltb (length (split b'-' prefix)) 4
          then none
          else scan_windows (split b'-' prefix) (length (split b'-' prefix) - 4 + 1))
        ≡ some ip
  parse_prefix parts prefix e = rw e (
      let four = decimal ip.first ∷ decimal ip.second ∷ decimal ip.third ∷ decimal ip.fourth ∷ [] in
      ground (arith, scan_windows-dashed parts, length-append parts four))

parse_xip_ip_of_prefix :
    (hostname domain prefix : Text) (parts : List Text) (ip : Ipv4Addr)
    → IsIpv4 ip
    → to_lowercase hostname ≡ prefix ++ b'.' ∷ to_lowercase domain
    → split b'-' prefix
      ≡ parts ++ decimal ip.first ∷ decimal ip.second ∷ decimal ip.third ∷ decimal ip.fourth ∷ []
    → parse_xip_ip hostname domain ≡ some ip
unfolding parse_xip_ip
parse_xip_ip_of_prefix hostname domain prefix parts ip octets e cut =
    let found : (strip_suffix (to_lowercase hostname) (b'.' ∷ to_lowercase domain) ≡ some prefix) =
      ap (λ (t : Text). strip_suffix t (b'.' ∷ to_lowercase domain)) e
      ∙ strip_suffix-append prefix (b'.' ∷ to_lowercase domain) in
    rw (found, parse_xip_ip) (parse_prefix ip octets parts prefix cut)

-- Four octets joined by dashes and put in front of the zone, alone or behind any text and a dash,
-- are read back as their address, in any case of letters.
pub parse_xip_ip-dashed :
    (hostname domain lead : Text) (ip : Ipv4Addr)
    → IsIpv4 ip
    → (to_lowercase hostname ≡ to_lowercase (dashed ip ++ b'.' ∷ domain))
      ⊎ (to_lowercase hostname ≡ to_lowercase (lead ++ b'-' ∷ (dashed ip ++ b'.' ∷ domain)))
    → parse_xip_ip hostname domain ≡ some ip
parse_xip_ip-dashed hostname domain lead ip octets (inl e) =
    parse_xip_ip_of_prefix hostname domain (dashed ip) [] ip octets
      (e ∙ to_lowercase_name ip octets domain) (split-dashed ip octets)
parse_xip_ip-dashed hostname domain lead ip octets (inr e) =
    parse_xip_ip_of_prefix hostname domain (to_lowercase lead ++ b'-' ∷ dashed ip)
      (split b'-' (to_lowercase lead)) ip octets
      (e
        ∙ to_lowercase-append lead (b'-' ∷ (dashed ip ++ b'.' ∷ domain))
        ∙ ap (λ t. to_lowercase lead ++ t)
            (to_lowercase-dash (dashed ip ++ b'.' ∷ domain)
              ∙ ap (λ t. b'-' ∷ t) (to_lowercase_name ip octets domain))
        ∙ (simp append_assoc))
      (split-append b'-' (to_lowercase lead) (dashed ip)
        ∙ ap (λ ps. split b'-' (to_lowercase lead) ++ ps) (split-dashed ip octets))

set-All : (b : List ℕ) (i v : ℕ) → All (λ n. n ≤ 255) b → v ≤ 255 → All (λ n. n ≤ 255) (set b i v)
set-All [] i v h hv = tt
set-All (x ∷ b) zero v (hx, h) hv = (hv, h)
set-All (x ∷ b) (suc i) v (hx, h) hv = (hx, set-All b i v h hv)

fill_octets-All :
    (ws : List Text) (i : ℕ) (b b' : List ℕ)
    → All (λ n. n ≤ 255) b
    → fill_octets ws i b ≡ some b'
    → All (λ n. n ≤ 255) b'
unfolding fill_octets
fill_octets-All [] i b b' h e = ground arith
fill_octets-All (w ∷ ws) i b b' h e = elim (Option-cases (parse_octet w)) [
  | inl x ↦ ground arith
  | inr (val, x) ↦
      fill_octets-All ws (i + 1) (set b i val) b' (set-All b i val h (parse_octet-le w val x))
        (ground arith)
]

from_array-IsIpv4 :
    (b : List ℕ) (ip : Ipv4Addr) → All (λ n. n ≤ 255) b → from_array b ≡ some ip → IsIpv4 ip
unfolding from_array
from_array-IsIpv4 (a ∷ b ∷ c ∷ d ∷ []) ip h e = ground arith
from_array-IsIpv4 b ip h e = ground arith

pub parse_octets-IsIpv4 : (ws : List Text) (ip : Ipv4Addr) → parse_octets ws ≡ some ip → IsIpv4 ip
unfolding parse_octets
parse_octets-IsIpv4 ws ip e = elim (Option-cases (fill_octets ws 0 (0 ∷ 0 ∷ 0 ∷ 0 ∷ []))) [
  | inl x ↦ ground arith
  | inr (b, x) ↦
      from_array-IsIpv4 b ip (fill_octets-All ws 0 (0 ∷ 0 ∷ 0 ∷ 0 ∷ []) b (omega arith) x)
        (ground arith)
]
