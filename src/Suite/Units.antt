-- ===== src/Suite/Units.antt =====
-- src/xip.rs, src/config.rs and src/wire.rs: the unit tests.
use safexip.Prelude.{
  ℕ, zero, suc, ◌+◌, Bool, true, false, Option, some, none, List, [], ◌∷◌, ◌++◌, ◌&&◌, not, ◌==◌,
  is_ok, Result, ok, err,
}
use safexip.Text.{Text, codes, text_eq}
use safexip.Config.{Ipv4Addr}
use safexip.Config.Values.{parse_dns_name, parse_api_key, min_api_key_len}
use safexip.Config.Validate.{ConfigError, validate, token_limit}
use safexip.Xip.{is_our_domain, parse_xip_ip}
use safexip.Hickory.{Hickory}
use safexip.Wire.{◌>>=◌, from_config, maximum_token_count, fits, AcmeWireCapacity}
use safexip.Suite.Fixtures.{passes, make_config, four_digits, xs}

unfoldable pub domain_matching_respects_label_boundaries_and_case : Bool
domain_matching_respects_label_boundaries_and_case =
    is_our_domain (codes "XIP.TEST") (codes "xip.test")
    && is_our_domain (codes "host.XIP.TEST") (codes "xip.test")
    && not (is_our_domain (codes "notxip.test") (codes "xip.test"))
    && not (is_our_domain (codes "xip.test.example") (codes "xip.test"))

-- `Some(Ipv4Addr::new(a, b, c, d))`
abbrev is_address : ℕ → ℕ → ℕ → ℕ → Option Ipv4Addr → Bool
is_address a b c d none = false
is_address a b c d (some ip) = ip.first == a && ip.second == b && ip.third == c && ip.fourth == d

abbrev is_absent : Option Ipv4Addr → Bool
is_absent none = true
is_absent (some ip) = false

unfoldable pub parses_valid_ipv4_octets : Bool
parses_valid_ipv4_octets =
    is_address 192 0 2 10 (parse_xip_ip (codes "service-192-0-2-10.xip.test") (codes "xip.test"))

unfoldable pub rejects_invalid_or_out_of_zone_octets : Bool
rejects_invalid_or_out_of_zone_octets =
    is_absent (parse_xip_ip (codes "256-0-0-1.xip.test") (codes "xip.test"))
    && is_absent (parse_xip_ip (codes "127-0-0.xip.test") (codes "xip.test"))
    && is_absent (parse_xip_ip (codes "127-0-0-1.other.test") (codes "xip.test"))

-- The loop that pushes values while they fit: the values, with the one that does not. More rounds
-- than the fuel count as a panic.
abbrev push_while_fits :
    (h : Hickory) → AcmeWireCapacity h.Name → ℕ → ℕ → List Text → Option (List Text)
push_while_fits h capacity zero n values = none
push_while_fits h capacity (suc fuel) n values = elim (fits h capacity values) [
  | none ↦ none
  | some false ↦ some values
  | some true ↦ push_while_fits h capacity fuel (n + 1) (values ++ four_digits n (xs 251) ∷ [])
]

-- `values.pop()`: what stands before the last value.
abbrev without_last : List Text → Option (List Text)
without_last [] = none
without_last (t ∷ []) = some []
without_last (s ∷ t ∷ ts) = do rest ← without_last (t ∷ ts); some (s ∷ rest)

abbrev equals_text : {E : Type 0} → Result E Text → Text → Bool
equals_text (ok s) t = text_eq s t
equals_text (err e) t = false

-- The error of a token limit above the maximum.
abbrev reports_limit : {E : Type 0} → ℕ → Result (ConfigError E) (Unit {0}) → Bool
reports_limit n (err (token_limit wire_max)) = wire_max == n
reports_limit n other = false

module _ (h : Hickory) where
  unfoldable pub normalizes_dns_names : Bool
  normalizes_dns_names =
      equals_text (parse_dns_name h (codes "XIP.Example.COM.")) (codes "xip.example.com")

  unfoldable pub rejects_invalid_dns_names : Bool
  rejects_invalid_dns_names =
      not (is_ok (parse_dns_name h [])) && not (is_ok (parse_dns_name h (codes "bad name.example")))

  unfoldable pub rejects_empty_and_short_api_keys : Bool
  rejects_empty_and_short_api_keys =
      not (is_ok (parse_api_key {E = h.NameError} []))
      && not (is_ok (parse_api_key {E = h.NameError} (codes "too-short")))
      && is_ok (parse_api_key {E = h.NameError} (xs min_api_key_len))

  unfoldable pub requires_distinct_in_zone_nameservers : Bool
  requires_distinct_in_zone_nameservers = passes (do
    same ← validate h (record make_config { ns_hostname2 = make_config.ns_hostname })
    outside ← validate h (record make_config { ns_hostname2 = codes "ns.other.test" })
    some (not (is_ok same) && not (is_ok outside)))

  unfoldable pub rejects_token_limit_above_the_zone_wire_maximum : Bool
  rejects_token_limit_above_the_zone_wire_maximum = passes (do
    capacity ← from_config h make_config
    wire_max ← maximum_token_count h capacity
    at_maximum ← validate h (record make_config { max_tokens = wire_max })
    above ← validate h (record make_config { max_tokens = wire_max + 1 })
    some (is_ok at_maximum && reports_limit wire_max above))

  unfoldable pub includes_record_and_message_overhead_at_the_boundary : Bool
  includes_record_and_message_overhead_at_the_boundary = passes (do
    capacity ← from_config h make_config
    values ← push_while_fits h capacity 65536 0 []
    kept ← without_last values
    accepted ← fits h capacity kept
    rejected ← fits h capacity values
    some (accepted && not rejected))
