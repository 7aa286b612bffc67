-- ===== src/Suite/DnsAnswers.antt =====
-- src/dns.rs: the unit tests on the sections of a response, its size, and the serial.
use safexip.Prelude.{
  ℕ, zero, suc, ◌+◌, Bool, false, Option, some, ◌&&◌, ◌||◌, not, ◌==◌, length, leb,
}
use safexip.Text.{codes, text_eq}
use safexip.Hickory.{
  Hickory, Message, Record, from_rdata, txt_data, txt_type, a_type, soa_type, ns_type, RecordType,
  nx_domain, no_error, refused,
}
use safexip.State.{AcmeRecords, ZoneState, remove}
use safexip.Wire.{◌>>=◌}
use safexip.Api.{is_empty}
use safexip.Suite.Fixtures.{
  passes, add_ok, all_pass, two_digits, xs, records_with_serial, from_secs,
}
use safexip.Suite.Handler.{
  acme, run, has_code, query_msg, respond_to, respond_to_udp, has_type, owner, soa_serial,
}

abbrev has_one_text : {Name : Type 0} → Record Name → Bool
has_one_text (from_rdata name ttl (txt_data texts)) = length texts == 1
has_one_text (from_rdata name ttl other) = false

-- The loop over `0..20`: the values are two digits and 198 bytes.
abbrev add_large : AcmeRecords → ℕ → ℕ → ZoneState → Option ZoneState
add_large records zero index s = some s
add_large records (suc left) index s = do
  filled ← add_ok records 0 (codes "_acme-challenge.xip.test") (two_digits index (xs 198)) s
  add_large records left (index + 1) filled

module _ (h : Hickory) where
  unfoldable pub concurrent_tokens_are_separate_txt_records : Bool
  concurrent_tokens_are_separate_txt_records = passes (do
    (records, zone) ← acme h
    one ← add_ok records 0 (codes "_acme-challenge.xip.test") (codes "token-one") zone
    two ← add_ok records 0 (codes "_acme-challenge.xip.test") (codes "token-two") one
    (resp, later) ← run h 0 (codes "_acme-challenge.xip.test") txt_type two
    some (length resp.answers == 2 && all_pass has_one_text resp.answers))

  unfoldable pub oversized_udp_response_is_truncated : Bool
  oversized_udp_response_is_truncated = passes (do
    (records, zone) ← acme h
    filled ← add_large records 20 0 zone
    raw ← query_msg h (codes "_acme-challenge.xip.test") txt_type
    response ← respond_to_udp h 0 raw filled
    encoded ← h.to_vec response
    some (
        response.truncation
        && is_empty response.answers
        && length response.queries == 1
        && leb (length encoded) 512))

  unfoldable pub large_rrset_is_complete_without_udp_limit : Bool
  large_rrset_is_complete_without_udp_limit = passes (do
    (records, zone) ← acme h
    filled ← add_large records 20 0 zone
    raw ← query_msg h (codes "_acme-challenge.xip.test") txt_type
    (response, later) ← respond_to h 0 raw filled
    some (
        not response.truncation
        && length response.answers == 20
        && all_pass
            (λ (r : Record h.Name).
              text_eq (h.to_ascii (owner r)) (codes "_acme-challenge.xip.test.")
              && has_type txt_type r)
            response.answers))

  abbrev is_apex : Record h.Name → Bool
  is_apex r = text_eq (h.to_ascii (owner r)) (codes "xip.test.")

  abbrev is_glue : Record h.Name → Bool
  is_glue r =
      has_type a_type r
      && (text_eq (h.to_ascii (owner r)) (codes "ns1.xip.test.")
          || text_eq (h.to_ascii (owner r)) (codes "ns2.xip.test."))

  -- The authority section is the SOA of the zone, with serial 123.
  abbrev has_authority : Message h.Name h.Edns → Option Bool
  has_authority m = do
    serial ← soa_serial m.authorities
    some (length m.authorities == 1 && all_pass is_apex m.authorities && serial == 123)

  abbrev soa_at_apex : Message h.Name h.Edns → Option Bool
  soa_at_apex apex = do
    serial ← soa_serial apex.answers
    some (length apex.answers == 1 && serial == 123 && is_empty apex.additionals)

  abbrev ns_at_apex : Message h.Name h.Edns → Option Bool
  ns_at_apex apex = some (
      length apex.answers == 2 && length apex.additionals == 2 && all_pass is_glue apex.additionals)

  -- One round of the loop over the types; the last argument is its branch on the type.
  abbrev owner_semantics :
      RecordType → (Message h.Name h.Edns → Option Bool) → ZoneState → Option (Bool × ZoneState)
  owner_semantics qtype at_apex s = do
    (apex, s1) ← run h 0 (codes "XiP.TeSt") qtype s
    apex_authority ← has_authority apex
    apex_sections ← at_apex apex
    (existing, s2) ← run h 0 (codes "127-0-0-1.xIp.TeSt") qtype s1
    existing_authority ← has_authority existing
    (nonexistent, s3) ← run h 0 (codes "missing.xip.test") qtype s2
    nonexistent_authority ← has_authority nonexistent
    (outside, s4) ← run h 0 (codes "example.com") qtype s3
    some (
      has_code no_error apex
          && apex.authoritative
          && not (is_empty apex.answers)
          && all_pass is_apex apex.answers
          && all_pass (has_type qtype) apex.answers
          && apex_authority
          && apex_sections
          && has_code no_error existing
          && existing.authoritative
          && is_empty existing.answers
          && existing_authority
          && is_empty existing.additionals
          && has_code nx_domain nonexistent
          && nonexistent.authoritative
          && is_empty nonexistent.answers
          && nonexistent_authority
          && is_empty nonexistent.additionals
          && has_code refused outside
          && not outside.authoritative
          && is_empty outside.answers
          && is_empty outside.authorities
          && is_empty outside.additionals,
      s4,
    )

  unfoldable pub soa_and_ns_follow_authoritative_owner_semantics : Bool
  soa_and_ns_follow_authoritative_owner_semantics = passes (do
    (records, zone) ← records_with_serial h (from_secs 60) 100 123
    (soa_passes, later) ← owner_semantics soa_type soa_at_apex zone
    (ns_passes, last) ← owner_semantics ns_type ns_at_apex later
    some (soa_passes && ns_passes))

  -- The serial of the SOA in the answer and in the authority section.
  abbrev both_serials : ℕ → Message h.Name h.Edns → Option Bool
  both_serials serial m = do
    answered ← soa_serial m.answers
    claimed ← soa_serial m.authorities
    some (answered == serial && claimed == serial)

  unfoldable pub soa_serial_is_stable_and_tracks_dynamic_zone_changes : Bool
  soa_serial_is_stable_and_tracks_dynamic_zone_changes = passes (do
    (records, s) ← records_with_serial h (from_secs 60) 100 500
    (first, s1) ← run h 0 (codes "xip.test") soa_type s
    stable ← both_serials 500 first
    (second, s2) ← run h 0 (codes "xip.test") soa_type s1
    still_stable ← both_serials 500 second
    s3 ← add_ok records 0 (codes "_acme-challenge.xip.test") (codes "token") s2
    (txt, s4) ← run h 0 (codes "_acme-challenge.xip.test") txt_type s3
    claimed ← soa_serial txt.authorities
    (response, s5) ←
        run h 0 (codes "xip.test") soa_type
          (remove 0 (codes "_acme-challenge.xip.test") (codes "token") s4)
    tracked ← both_serials 502 response
    some (stable && still_stable && length txt.answers == 1 && claimed == 501 && tracked))
