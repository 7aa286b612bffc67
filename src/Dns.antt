-- ===== src/Dns.antt =====
-- src/dns.rs: the DNS handler. A response is `none` where `unwrap` or `expect` panics; what a query
-- did to the zone's state before that stays.
mod Zone
unfoldable pub use Zone.*
pub mod Names
pub mod Answer
pub mod Response
pub mod Refine
pub mod Encode
pub mod Total
use safexip.Prelude.{
  ℕ, Bool, true, false, not, ◌&&◌, ◌||◌, Option, none, some, List, [], ◌∷◌, map, min, leb, ◌==◌,
  if◌then◌else◌, length, is_some, ok, err,
}
use safexip.Text.{Text, text_eq, to_lowercase, trim_end}
use safexip.Config.{Config, Ipv4Addr, acme_name}
use safexip.Xip.{is_our_domain, parse_xip_ip}
use safexip.State.{ZoneState, get_with_serial, serial}
use safexip.Hickory.{
  Hickory, Message, Record, Query, from_rdata, a_data, ns_data, RecordType, soa_type, ns_type,
  a_type, txt_type, other_type, DnsClass, in_class, any_class, other_class, OpCode, query_code,
  other_code, MessageType, query_message, response_message, ResponseCode, serv_fail, form_err,
  nx_domain, not_imp, refused, bad_vers, Bytes,
}
use safexip.Wire.{◌>>=◌, expect, txt_record, soa_record}

abbrev pub max_udp_payload : ℕ
max_udp_payload = 1232

abbrev pub serves_class : DnsClass → Bool
serves_class in_class = true
serves_class any_class = true
serves_class (other_class n) = false

abbrev pub is_query_code : OpCode → Bool
is_query_code query_code = true
is_query_code (other_code n) = false

abbrev pub is_query_message : MessageType → Bool
is_query_message query_message = true
is_query_message response_message = false

-- `request.queries[0]`, if it is the only query.
abbrev pub only_query {ℓ} : {A : Type ℓ} → List A → Option A
only_query [] = none
only_query (q ∷ []) = some q
only_query (q ∷ r ∷ qs) = none

module _ (h : Hickory) where
  open h use {
    Name, Edns, from_ascii, to_ascii, response, add_query, add_queries, add_answer, add_authority,
    add_additional, set_edns, new_edns, set_max_payload, set_dnssec_ok, edns_max_payload,
    edns_version, edns_dnssec_ok, max_payload, truncate, to_vec, from_vec,
  }

  -- `response.metadata.authoritative = false; response.metadata.response_code = code;`
  abbrev pub refuse : ResponseCode → Message Name Edns → Message Name Edns
  refuse code m = record m { authoritative = false; response_code = code }

  abbrev pub nx_domain_unless : Bool → Message Name Edns → Message Name Edns
  nx_domain_unless found m = if found then m else record m { response_code = nx_domain }

  abbrev pub add_answers : List (Record Name) → Message Name Edns → Message Name Edns
  add_answers [] m = m
  add_answers (r ∷ rs) m = add_answers rs (add_answer r m)

  abbrev pub add_additionals : List (Record Name) → Message Name Edns → Message Name Edns
  add_additionals [] m = m
  add_additionals (r ∷ rs) m = add_additionals rs (add_additional r m)

  -- `match qtype` of `build_response`, for the response that has the SOA in its authority section.
  unfoldable pub answer :
      Config
      → RecordType
      → Name
      → Text
      → List Text
      → Record Name
      → Message Name Edns
      → Option (Message Name Edns)
  answer config soa_type qname qname_str values soa_rr m =
      if text_eq qname_str config.domain
      then some (add_answer soa_rr m)
      else some (nx_domain_unless (name_exists config qname_str) m)
  answer config ns_type qname qname_str values soa_rr m =
      if text_eq qname_str config.domain
      then (do
        nss ← ns_records h config
        glue ← ns_glue h config
        some (add_additionals glue (add_answers nss m)))
      else some (nx_domain_unless (name_exists config qname_str) m)
  answer config a_type qname qname_str values soa_rr m = elim (resolve_a config qname_str) [
    | some ip ↦ some (add_answer (a_record h config qname ip) m)
    | none ↦ some (nx_domain_unless (name_exists config qname_str) m)
  ]
  answer config txt_type qname qname_str values soa_rr m =
      elim (txt_records h config qname_str values) [
        | [] ↦ some (nx_domain_unless (name_exists config qname_str) m)
        | r ∷ rs ↦ some (add_answers (r ∷ rs) m)
      ]
  answer config (other_type n) qname qname_str values soa_rr m =
      some (nx_domain_unless (name_exists config qname_str) m)

  -- `build_response` from the test of the query's class on; `m` holds the query.
  unfoldable pub answer_query :
      Config
      → ℕ
      → Query Name
      → Message Name Edns
      → ZoneState
      → Option (Message Name Edns) × ZoneState
  answer_query config now query m s =
      let qname_str = to_lowercase (trim_end b'.' (to_ascii query.name)) in
      let ((values, current), s') = read_zone config now query.query_type qname_str s in
      if not (serves_class query.query_class)
      then (some (refuse not_imp m), s)
      else if not (is_our_domain qname_str config.domain)
      then (some (refuse refused m), s)
      else (
        (do
          soa_rr ← soa h config current
          answer config query.query_type query.name qname_str values soa_rr
              (add_authority soa_rr m)),
        s',
      )

  -- `build_response` after the EDNS part.
  unfoldable pub respond :
      Config
      → ℕ
      → Message Name Edns
      → Message Name Edns
      → ZoneState
      → Option (Message Name Edns) × ZoneState
  respond config now request m s =
      if not (is_query_code request.op_code)
      then (some (refuse not_imp m), s)
      else elim (only_query request.queries) [
        | none ↦ (some (refuse form_err m), s)
        | some query ↦ answer_query config now query (add_query query m) s
      ]

  -- The response before the EDNS part.
  abbrev pub blank : Message Name Edns → Message Name Edns
  blank request = record (response request.id request.op_code) {
    authoritative = true;
    recursion_desired = request.recursion_desired;
    recursion_available = false;
  }

  abbrev pub response_edns : Edns → Edns
  response_edns request_edns =
      set_dnssec_ok (edns_dnssec_ok request_edns)
        (set_max_payload (min (edns_max_payload request_edns) max_udp_payload) new_edns)

  unfoldable pub build_response :
      Config → ℕ → Message Name Edns → ZoneState → Option (Message Name Edns) × ZoneState
  build_response config now request s = elim request.edns [
    | none ↦ respond config now request (blank request) s
    | some request_edns ↦
        let m = set_edns (response_edns request_edns) (blank request) in
        let later = respond config now request m s in
        if not (edns_version request_edns == 0) then (some (refuse bad_vers m), s) else later
  ]

  unfoldable pub servfail : Message Name Edns → Bytes
  servfail request =
      let m = record (response request.id request.op_code) {
        response_code = serv_fail;
        recursion_desired = request.recursion_desired;
      } in
      elim (to_vec (add_queries request.queries m)) [ none ↦ [] | some encoded ↦ encoded ]

  unfoldable pub encode_complete_or_servfail : Message Name Edns → Message Name Edns → Bytes
  encode_complete_or_servfail request m = elim (to_vec m) [
    | none ↦ servfail request
    | some encoded ↦ elim (from_vec encoded) [
      | none ↦ servfail request
      | some decoded ↦ if not decoded.truncation then encoded else servfail request
    ]
  ]

  -- The handler for TCP. An empty output means that nothing is sent.
  unfoldable pub handle : Config → ℕ → Bytes → ZoneState → Option Bytes × ZoneState
  handle config now raw s = elim (from_vec raw) [
    | none ↦ (some [], s)
    | some request ↦
        let (m, s') = build_response config now request s in
        if not (is_query_message request.message_type)
        then (some [], s)
        else (elim m [ none ↦ none | some r ↦ some (encode_complete_or_servfail request r) ], s')
  ]

  -- What `handle_udp` sends for a response.
  unfoldable pub encode_udp : Message Name Edns → Message Name Edns → Bytes
  encode_udp request m =
      let encoded = encode_complete_or_servfail request m in
      if leb (length encoded) (min (max_payload request) max_udp_payload)
      then encoded
      else elim (to_vec (truncate m)) [ some short ↦ short | none ↦ servfail request ]

  unfoldable pub handle_udp : Config → ℕ → Bytes → ZoneState → Option Bytes × ZoneState
  handle_udp config now raw s = elim (from_vec raw) [
    | none ↦ (some [], s)
    | some request ↦
        let (m, s') = build_response config now request s in
        if not (is_query_message request.message_type)
        then (some [], s)
        else (elim m [ none ↦ none | some r ↦ some (encode_udp request r) ], s')
  ]
