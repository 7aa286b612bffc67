-- ===== src/Dns/Zone.antt =====
-- src/dns.rs: what the zone has, and what one query reads of it.
use safexip.Prelude.{
  ℕ, Bool, true, false, not, ◌&&◌, ◌||◌, Option, some, List, [], ◌∷◌, map, if◌then◌else◌, is_some,
  ok, err,
}
use safexip.Text.{Text, text_eq}
use safexip.Config.{Config, Ipv4Addr, acme_name}
use safexip.Xip.{parse_xip_ip}
use safexip.State.{ZoneState, get_with_serial, serial}
use safexip.Hickory.{Hickory, Record, from_rdata, a_data, ns_data, RecordType, txt_type}
use safexip.Wire.{◌>>=◌, expect, txt_record, soa_record}

unfoldable pub resolve_a : Config → Text → Option Ipv4Addr
resolve_a config qname =
    if text_eq qname config.ns_hostname
      || text_eq qname config.ns_hostname2
      || text_eq qname config.domain
    then some config.ns_ip
    else parse_xip_ip qname config.domain

unfoldable pub name_exists : Config → Text → Bool
name_exists config qname =
    if text_eq qname config.domain
      || text_eq qname config.ns_hostname
      || text_eq qname config.ns_hostname2
    then true
    else if text_eq qname (acme_name config)
    then true
    else is_some (parse_xip_ip qname config.domain)

abbrev pub is_txt : RecordType → Bool
is_txt txt_type = true
is_txt _ = false

-- The serial and the values that one query reads, and the state after it.
unfoldable pub read_zone : Config → ℕ → RecordType → Text → ZoneState → (List Text × ℕ) × ZoneState
read_zone config now qtype qname s =
    let at_challenge = get_with_serial now qname s in
    let (current, s') = serial now s in
    if is_txt qtype && text_eq qname (acme_name config) then at_challenge else (([], current), s')

module _ (h : Hickory) where
  open h use {Name, from_ascii}

  unfoldable pub txt_records : Config → Text → List Text → List (Record Name)
  txt_records config qname values =
      if not (text_eq qname (acme_name config)) then [] else elim (from_ascii qname) [
        | err e ↦ []
        | ok name ↦ map (λ value. txt_record h name config.txt_ttl value) values
      ]

  unfoldable pub a_record : Config → Name → Ipv4Addr → Record Name
  a_record config name ip =
      from_rdata name config.default_ttl (a_data ip.first ip.second ip.third ip.fourth)

  unfoldable pub ns_glue : Config → Option (List (Record Name))
  unfolding a_record
  ns_glue config = do
    first ← expect (from_ascii config.ns_hostname)
    second ← expect (from_ascii config.ns_hostname2)
    some (a_record config first config.ns_ip ∷ a_record config second config.ns_ip ∷ [])

  unfoldable pub soa : Config → ℕ → Option (Record Name)
  soa config n = do
    zone ← expect (from_ascii config.domain)
    ns ← expect (from_ascii config.ns_hostname)
    soa_record h zone ns n

  -- The records of the loop over the two nameservers.
  unfoldable pub ns_records : Config → Option (List (Record Name))
  ns_records config = do
    zone ← expect (from_ascii config.domain)
    first ← expect (from_ascii config.ns_hostname)
    second ← expect (from_ascii config.ns_hostname2)
    some (
        from_rdata zone config.default_ttl (ns_data first)
        ∷ from_rdata zone config.default_ttl (ns_data second)
        ∷ [])
