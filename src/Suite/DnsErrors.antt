-- ===== src/Suite/DnsErrors.antt =====
-- src/dns.rs: the unit tests on requests that are refused, on EDNS, and on responses that cannot be
-- sent as they are.
use safexip.Prelude.{
  ℕ, zero, suc, ◌+◌, Bool, true, false, Option, some, none, List, [], ◌∷◌, ◌&&◌, not, ◌==◌, length,
  leb, ok, err, ◌^◌, ◌-◌,
}
use safexip.Text.{Text, codes}
use safexip.Hickory.{
  Hickory, Message, Query, OpCode, query_code, other_code, query_message, response_message,
  DnsClass, in_class, any_class, other_class, txt_type, soa_type, not_imp, form_err, serv_fail,
  no_error,
}
use safexip.State.{AcmeRecords, ZoneState, dns_wire_capacity_reached, token_limit_reached, add}
use safexip.Wire.{◌>>=◌, expect, txt_record}
use safexip.Dns.{encode_complete_or_servfail, max_udp_payload}
use safexip.Api.{is_empty}
use safexip.Suite.Fixtures.{passes, new_records, from_secs, four_digits, xs}
use safexip.Suite.Encoding.{code_number}
use safexip.Suite.Handler.{
  acme, has_code, new_message, query_msg, respond_to, respond_to_udp, handled, handled_udp,
}

-- `queries[0].query_class() == DNSClass::CH`, which has the number 3.
abbrev asks_chaos : {Name : Type 0} → List (Query Name) → Bool
asks_chaos [] = false
asks_chaos (q ∷ qs) = elim q.query_class [
  | in_class ↦ false
  | any_class ↦ false
  | other_class n ↦ n == 3
]

-- `queries[0]`
abbrev first_query : {Name : Type 0} → List (Query Name) → Option (Query Name)
first_query [] = none
first_query (query ∷ queries) = some query

-- The loop of additions until the capacity is reached: how many are accepted. More rounds than the
-- fuel count as a panic.
abbrev fill : AcmeRecords → ℕ → ℕ → ZoneState → Option (ℕ × ZoneState)
fill records zero accepted s = none
fill records (suc fuel) accepted s =
    let (result, s') =
      add records 0 0 (codes "_acme-challenge.xip.test") (four_digits accepted (xs 251)) s in
    elim result [
      | ok _ ↦ fill records fuel (accepted + 1) s'
      | err dns_wire_capacity_reached ↦ some (accepted, s')
      | err token_limit_reached ↦ none
    ]

module _ (h : Hickory) where
  abbrev soa_query : ℕ → OpCode → DnsClass → Option (Message h.Name h.Edns)
  soa_query id op_code class = do
    name ← expect (h.from_ascii (codes "xip.test"))
    some (
        h.add_query (record (h.new_query name soa_type) { query_class = class })
          (new_message h id query_message op_code))

  -- The response to an encoded message.
  abbrev answered : Message h.Name h.Edns → Option (Message h.Name h.Edns)
  answered m = do
    (records, zone) ← acme h
    raw ← h.to_vec m
    (response, later) ← respond_to h 0 raw zone
    some response

  unfoldable pub unsupported_query_class_never_receives_in_records : Bool
  unsupported_query_class_never_receives_in_records = passes (do
    message ← soa_query 7 query_code (other_class 3)
    response ← answered message
    some (
        has_code not_imp response
        && not response.authoritative
        && is_empty response.answers
        && asks_chaos response.queries))

  unfoldable pub semantically_malformed_messages_return_formerr : Bool
  semantically_malformed_messages_return_formerr = passes (do
    (records, zone) ← acme h
    response ← answered (new_message h 8 query_message query_code)
    raw ← h.to_vec (new_message h 9 response_message query_code)
    ignored ← handled h 0 raw zone
    undecoded ← handled_udp h 0 (0 ∷ 1 ∷ 2 ∷ []) zone
    some (
        has_code form_err response
        && not response.authoritative
        && is_empty ignored
        && is_empty undecoded))

  unfoldable pub edns_payload_is_echoed_and_capped : Bool
  edns_payload_is_echoed_and_capped = passes (do
    (records, zone) ← acme h
    message ← soa_query 10 query_code in_class
    raw ← h.to_vec (h.set_edns (h.set_dnssec_ok true (h.set_max_payload 4096 h.new_edns)) message)
    response ← respond_to_udp h 0 raw zone
    edns ← response.edns
    some (h.edns_max_payload edns == max_udp_payload && h.edns_dnssec_ok edns))

  unfoldable pub udp_truncation_falls_back_to_a_complete_tcp_answer_at_capacity : Bool
  udp_truncation_falls_back_to_a_complete_tcp_answer_at_capacity = passes (do
    (records, zone) ← new_records h (from_secs 60) (2 ^ 64 - 1)
    (accepted, filled) ← fill records 65536 0 zone
    raw ← query_msg h (codes "_acme-challenge.xip.test") txt_type
    udp ← respond_to_udp h 0 raw filled
    tcp_bytes ← handled h 0 raw filled
    tcp ← h.from_vec tcp_bytes
    some (
        udp.truncation
        && leb (length tcp_bytes) 65535
        && not tcp.truncation
        && has_code no_error tcp
        && length tcp.answers == accepted))

  abbrev add_copies : ℕ → h.Name → Text → Message h.Name h.Edns → Message h.Name h.Edns
  add_copies zero name value m = m
  add_copies (suc n) name value m =
      add_copies n name value (h.add_answer (txt_record h name 60 value) m)

  -- The decoded SERVFAIL for a response with so many answers of the value.
  abbrev encoded_servfail : ℕ → Text → Option Bool
  encoded_servfail n value = do
    raw ← query_msg h (codes "_acme-challenge.xip.test") txt_type
    request ← h.from_vec raw
    query ← first_query request.queries
    name ← expect (h.from_ascii (codes "_acme-challenge.xip.test"))
    response ← h.from_vec (
        encode_complete_or_servfail h request
          (add_copies n name value (h.add_query query (h.response request.id query_code))))
    some (has_code serv_fail response && not response.truncation && is_empty response.answers)

  unfoldable pub unexpected_serialization_truncation_returns_servfail : Bool
  unexpected_serialization_truncation_returns_servfail = passes (encoded_servfail 400 (xs 255))

  unfoldable pub serialization_error_returns_servfail : Bool
  serialization_error_returns_servfail = passes (encoded_servfail 1 (xs 256))

  -- UPDATE has the number 5.
  unfoldable pub unsupported_opcode_is_not_implemented : Bool
  unsupported_opcode_is_not_implemented = passes (do
    message ← soa_query 1 (other_code 5) in_class
    response ← answered message
    some (has_code not_imp response && not response.authoritative))

  -- `versioned` is `set_version`, which the program itself does not call.
  unfoldable pub unsupported_edns_version_returns_badvers : (ℕ → h.Edns → h.Edns) → Bool
  unsupported_edns_version_returns_badvers versioned = passes (do
    message ← soa_query 1 query_code in_class
    response ← answered (h.set_edns (versioned 1 h.new_edns) message)
    edns ← response.edns
    some (
        code_number response.response_code == 16
        && h.edns_version edns == 0
        && not response.authoritative))
