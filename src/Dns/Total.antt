-- ===== src/Dns/Total.antt =====
-- src/dns.rs: the calls of `unwrap` and `expect` in the handler, with a validated configuration.
use safexip.Prelude.{ℕ, true, some, List, ◌≡◌, inl, inr, refl, arith, Option-cases, is_some, is_ok}
use safexip.Text.{Text, to_lowercase, trim_end}
use safexip.Config.{Config}
use safexip.Config.Validate.{IsValidated}
use safexip.State.{ZoneState}
use safexip.Hickory.{
  Hickory, Message, Record, Query, RecordType, soa_type, ns_type, a_type, txt_type, other_type,
  Bytes,
}
use safexip.Wire.{
  AcmeWireCapacity, from_config, soa_record, maximum_token_count, fits_count, response,
}
use safexip.Dns.{
  blank, response_edns, soa, ns_records, ns_glue, answer, answer_query, respond, build_response,
  only_query, handle, handle_udp, read_zone,
}

-- The names of the configuration parse, also the responsible name of the zone.
pub record Parses (h : Hickory) (config : Config) : Type 0 where
  pub soa_total : (serial : ℕ) → is_some (soa h config serial) ≡ true
  pub ns_records_total : is_some (ns_records h config) ≡ true
  pub ns_glue_total : is_some (ns_glue h config) ≡ true

module _ (h : Hickory) where
  soa_record-total :
      (zone ns : h.Name) (a b : ℕ)
      → is_some (soa_record h zone ns a) ≡ true
      → is_some (soa_record h zone ns b) ≡ true
  unfolding soa_record
  soa_record-total zone ns a b e = ground arith

  capacity-soa_record :
      (c : AcmeWireCapacity h.Name) (n : ℕ)
      → maximum_token_count h c ≡ some n
      → is_some (soa_record h c.zone c.ns_hostname 0) ≡ true
  unfolding maximum_token_count fits_count response
  capacity-soa_record c n e = ground arith

  from_config-soa :
      (config : Config) (c : AcmeWireCapacity h.Name) (serial : ℕ)
      → from_config h config ≡ some c
      → is_some (soa_record h c.zone c.ns_hostname serial) ≡ true
      → is_some (soa h config serial) ≡ true
  unfolding from_config soa
  from_config-soa config c serial e f = ground arith

  validated-Parses :
      (config : Config)
      → IsValidated h config
      → is_ok (h.from_ascii config.ns_hostname2) ≡ true
      → Parses h config
  unfolding from_config ns_records ns_glue
  validated-Parses config v second =
      let c = v.capacity in
      let found = v.has_capacity in
      record {
        soa_total = λ serial. from_config-soa config c serial found (
            soa_record-total c.zone c.ns_hostname 0 serial
              (capacity-soa_record c v.wire_max v.has_maximum));
        ns_records_total = ground arith;
        ns_glue_total = ground arith;
      }

  answer-total :
      (config : Config) (qtype : RecordType) (owner : h.Name) (qname : Text) (values : List Text)
      (soa_rr : Record h.Name) (m : Message h.Name h.Edns)
      → Parses h config
      → is_some (answer h config qtype owner qname values soa_rr m) ≡ true
  unfolding answer
  answer-total config soa_type owner qname values soa_rr m p = ground arith
  answer-total config ns_type owner qname values soa_rr m p =
      ground (arith, p.ns_records_total, p.ns_glue_total)
  answer-total config a_type owner qname values soa_rr m p = ground arith
  answer-total config txt_type owner qname values soa_rr m p = ground arith
  answer-total config (other_type n) owner qname values soa_rr m p = refl

  answer_query-total :
      (config : Config) (now : ℕ) (q : Query h.Name) (m : Message h.Name h.Edns) (s : ZoneState)
      → Parses h config
      → is_some (answer_query h config now q m s).0 ≡ true
  unfolding answer_query
  answer_query-total config now q m s p =
      let qname = to_lowercase (trim_end b'.' (h.to_ascii q.name)) in
      let ((values, current), s') = read_zone config now q.query_type qname s in
      elim (Option-cases (soa h config current)) [
        | inl x ↦ absurd (ground (arith, p.soa_total current))
        | inr (soa_rr, x) ↦ ground (
          arith,
          answer-total config q.query_type q.name qname values soa_rr (h.add_authority soa_rr m) p,
        )
      ]

  respond-total :
      (config : Config) (now : ℕ) (request m : Message h.Name h.Edns) (s : ZoneState)
      → Parses h config
      → is_some (respond h config now request m s).0 ≡ true
  unfolding respond
  respond-total config now request m s p = elim (Option-cases (only_query request.queries)) [
    | inl x ↦ ground arith
    | inr (q, x) ↦ ground (arith, answer_query-total config now q (h.add_query q m) s p)
  ]

  -- With a validated configuration and a second nameserver that parses, `build_response` returns.
  pub build_response-total :
      (config : Config) (now : ℕ) (request : Message h.Name h.Edns) (s : ZoneState)
      → IsValidated h config
      → is_ok (h.from_ascii config.ns_hostname2) ≡ true
      → is_some (build_response h config now request s).0 ≡ true
  unfolding build_response
  build_response-total config now request s v second =
      let p = validated-Parses config v second in
      elim (Option-cases request.edns) [
        | inl x ↦ ground (arith, respond-total config now request (blank h request) s p)
        | inr (edns, x) ↦
            let m = h.set_edns (response_edns h edns) (blank h request) in
            ground (arith, respond-total config now request m s p)
      ]

  -- With a validated configuration, and a second nameserver that parses: whatever bytes arrive, the
  -- handler does not panic, over TCP or UDP.
  pub handlers_total :
      (config : Config) (now : ℕ) (raw : Bytes) (s : ZoneState)
      → IsValidated h config
      → is_ok (h.from_ascii config.ns_hostname2) ≡ true
      → (is_some (handle h config now raw s).0 ≡ true)
        × (is_some (handle_udp h config now raw s).0 ≡ true)
  unfolding handle handle_udp
  handlers_total config now raw s v second = elim (Option-cases (h.from_vec raw)) [
    | inl x ↦ (ground arith, ground arith)
    | inr (request, x) ↦
        let built = build_response-total config now request s v second in
        (ground arith, ground arith)
  ]
