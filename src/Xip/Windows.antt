-- ===== src/Xip/Windows.antt =====
-- src/xip.rs, `parse_xip_ip`: which names have an address.
use safexip.Prelude.{
  ℕ, zero, suc, ◌+◌, ◌-◌, ◌≤◌, ◌<◌, none, some, List, [], ◌∷◌, ◌++◌, ◌≡◌, refl, ap, ◌∙◌, arith,
  length, Option-cases, inl, inr, ◌⊎◌, ◌↔◌,
}
use safexip.Text.{Text, to_lowercase, strip_suffix, split, parse_unsigned}
use safexip.Text.Laws.{strip_suffix-append, strip_suffix_sound}
use safexip.Config.{Ipv4Addr}
use safexip.Xip.{
  parse_octet, fill_octets, parse_octets, window, scan_windows, parse_xip_ip, from_array,
}

-- The text is a number, as `parse::<u16>` reads it, and the number is an octet.
abbrev pub IsOctet : Text → ℕ → Type 0
IsOctet s n = (parse_unsigned 65535 s ≡ some n) × (n ≤ 255)

-- The parts are the four octets of the address, in their order.
abbrev pub Spells : List Text → Ipv4Addr → Type 0
Spells (a ∷ b ∷ c ∷ d ∷ []) ip =
    IsOctet a ip.first × IsOctet b ip.second × IsOctet c ip.third × IsOctet d ip.fourth
Spells other ip = ⊥

parse_octet-IsOctet : (s : Text) (n : ℕ) → (parse_octet s ≡ some n) ↔ IsOctet s n
unfolding parse_octet
parse_octet-IsOctet s n = (λ e. ground arith, λ (e, le). ground arith)

window-four :
    (parts : List Text) (i : ℕ)
    → i + 4 ≤ length parts
    → (a b c d : Text) × (window parts i ≡ a ∷ b ∷ c ∷ d ∷ [])
window-four (a ∷ b ∷ c ∷ d ∷ parts) zero room = (a, b, c, d, refl)
window-four (a ∷ parts) (suc i) room = window-four parts i (omega arith)
window-four parts i room = absurd (omega arith)

four_octets :
    (a b c d : Text) (ip : Ipv4Addr)
    → parse_octets (a ∷ b ∷ c ∷ d ∷ []) ≡ some ip
    → (parse_octet a ≡ some ip.first)
      × (parse_octet b ≡ some ip.second)
      × (parse_octet c ≡ some ip.third)
      × (parse_octet d ≡ some ip.fourth)
unfolding parse_octets fill_octets from_array
four_octets a b c d ip e = elim (Option-cases (parse_octet a)) [
  | inl x ↦ absurd (ground arith)
  | inr (oa, x) ↦ elim (Option-cases (parse_octet b)) [
    | inl y ↦ absurd (ground arith)
    | inr (ob, y) ↦ elim (Option-cases (parse_octet c)) [
      | inl z ↦ absurd (ground arith)
      | inr (oc, z) ↦ elim (Option-cases (parse_octet d)) [
        | inl w ↦ absurd (ground arith)
        | inr (od, w) ↦ (ground arith, ground arith, ground arith, ground arith)
      ]
    ]
  ]
]

four-Spells :
    (a b c d : Text) (ip : Ipv4Addr)
    → (parse_octets (a ∷ b ∷ c ∷ d ∷ []) ≡ some ip) ↔ Spells (a ∷ b ∷ c ∷ d ∷ []) ip
unfolding parse_octets fill_octets from_array
four-Spells a b c d ip = (
  λ e.
      let (oa, ob, oc, od) = four_octets a b c d ip e in
      (
        (parse_octet-IsOctet a ip.first).0 oa,
        (parse_octet-IsOctet b ip.second).0 ob,
        (parse_octet-IsOctet c ip.third).0 oc,
        (parse_octet-IsOctet d ip.fourth).0 od,
      ),
  λ (oa, ob, oc, od). ground (
    arith,
    (parse_octet-IsOctet a ip.first).1 oa,
    (parse_octet-IsOctet b ip.second).1 ob,
    (parse_octet-IsOctet c ip.third).1 oc,
    (parse_octet-IsOctet d ip.fourth).1 od,
  ),
)

window-Spells :
    (parts : List Text) (i : ℕ) (ip : Ipv4Addr)
    → i + 4 ≤ length parts
    → (parse_octets (window parts i) ≡ some ip) ↔ Spells (window parts i) ip
window-Spells parts i ip room =
    let (a, b, c, d, e) = window-four parts i room in rw e (four-Spells a b c d ip)

scan_windows_sound :
    (parts : List Text) (n : ℕ) (ip : Ipv4Addr)
    → scan_windows parts n ≡ some ip
    → (i : ℕ) × (i < n)
      × (parse_octets (window parts i) ≡ some ip)
      × ((j : ℕ) → i < j → j < n → parse_octets (window parts j) ≡ none)
unfolding scan_windows
scan_windows_sound parts zero ip e = cc
scan_windows_sound parts (suc n) ip e = elim (Option-cases (parse_octets (window parts n))) [
  | inl x ↦
      let (i, below, found, later) = scan_windows_sound parts n ip (ground arith) in
      (i, omega arith, found, λ j above under. ground (arith, later j above))
  | inr (q, x) ↦ (n, omega arith, ground arith, λ j a b. absurd (omega arith))
]

lt_or_eq : (i n : ℕ) → i < suc n → (i < n) ⊎ (i ≡ n)
lt_or_eq i n h = omega arith

scan_windows_complete :
    (parts : List Text) (n i : ℕ) (ip : Ipv4Addr)
    → i < n
    → parse_octets (window parts i) ≡ some ip
    → ((j : ℕ) → i < j → j < n → parse_octets (window parts j) ≡ none)
    → scan_windows parts n ≡ some ip
unfolding scan_windows
scan_windows_complete parts zero i ip below found later = absurd (omega arith)
scan_windows_complete parts (suc n) i ip below found later = elim (lt_or_eq i n below) [
  | inl under ↦
      let rest =
        scan_windows_complete parts n i ip under found
          (λ j above le. later j above (omega arith)) in
      rw (later n under (omega arith), scan_windows) rest
  | inr same ↦ rw (← same, found, scan_windows) refl
]

module _ (hostname domain : Text) (ip : Ipv4Addr) where
  -- The name is a prefix, a dot and the zone, in any case of letters, and of the parts of the prefix
  -- between dashes, four in a row are the octets of the address; none further right are octets.
  pub record IsRead : Type 0 where
    pub prefix : Text
    pub i : ℕ
    pub named : to_lowercase hostname ≡ prefix ++ b'.' ∷ to_lowercase domain
    pub room : i + 4 ≤ length (split b'-' prefix)
    pub spelled : Spells (window (split b'-' prefix) i) ip
    pub rightmost :
        (j : ℕ) (other : Ipv4Addr)
        → i < j
        → j + 4 ≤ length (split b'-' prefix)
        → ¬ Spells (window (split b'-' prefix) j) other

  read_sound : parse_xip_ip hostname domain ≡ some ip → IsRead
  unfolding parse_xip_ip
  read_sound e =
      let zone = b'.' ∷ to_lowercase domain in
      elim (Option-cases (strip_suffix (to_lowercase hostname) zone)) [
        | inl x ↦ absurd (ground arith)
        | inr (prefix, x) ↦
            let parts = split b'-' prefix in
            let room : (4 ≤ length parts) = ground arith in
            let scanned : (scan_windows parts (length parts - 4 + 1) ≡ some ip) = ground arith in
            let (i, below, found, later) =
              scan_windows_sound parts (length parts - 4 + 1) ip scanned in
            record {
              prefix = prefix;
              i = i;
              named = strip_suffix_sound (to_lowercase hostname) zone prefix x;
              room = omega arith;
              spelled = (window-Spells parts i ip (omega arith)).0 found;
              rightmost = λ j other above under spelled.
                  let missing = later j above (omega arith) in
                  let there = (window-Spells parts j other under).1 spelled in ground arith;
            }
      ]

  read_complete : IsRead → parse_xip_ip hostname domain ≡ some ip
  unfolding parse_xip_ip
  read_complete r =
      let zone = b'.' ∷ to_lowercase domain in
      let parts = split b'-' r.prefix in
      let stripped : (strip_suffix (to_lowercase hostname) zone ≡ some r.prefix) =
        ap (λ (t : Text). strip_suffix t zone) r.named ∙ strip_suffix-append r.prefix zone in
      let room = r.room in
      let scanned =
        scan_windows_complete parts (length parts - 4 + 1) r.i ip (omega arith)
          ((window-Spells parts r.i ip r.room).1 r.spelled)
          (λ j above under. elim (Option-cases (parse_octets (window parts j))) [
            | inl x ↦ x
            | inr (other, x) ↦ absurd (
                r.rightmost j other above (omega arith)
                  ((window-Spells parts j other (omega arith)).0 x))
          ]) in
      ground arith

-- An address is read from a name exactly if it stands in it: the name is a prefix, a dot and the
-- zone, in any case of letters; of the parts of the prefix between dashes, four in a row read as
-- the octets of the address, each as an unsigned 16-bit number that is at most 255; and no four
-- parts further right read as such octets.
pub parse_xip_ip_iff :
    (hostname domain : Text) (ip : Ipv4Addr)
    → (parse_xip_ip hostname domain ≡ some ip) ↔ IsRead hostname domain ip
parse_xip_ip_iff hostname domain ip =
    (read_sound hostname domain ip, read_complete hostname domain ip)
