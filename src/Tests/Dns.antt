-- ===== src/Tests/Dns.antt =====
-- The DNS handler at small inputs, with the small DNS library.
use safexip.Prelude.{
  ◌≤◌, true, false, none, some, [], ◌∷◌, ◌≡◌, ◌≢◌, ◌⊎◌, refl, arith, ap, length, min, map,
}
use safexip.Text.{Text, codes, text_eq, to_lowercase, trim_end, strip_suffix, split, ends_with}
use safexip.Map
use safexip.Config.{acme_name}
use safexip.State.{ZoneState, get_with_serial, serial, pruned, prune, token_count, advance_if}
use safexip.Xip.{is_our_domain, parse_xip_ip}
use safexip.Hickory.{
  Bytes, Record, txt_type, a_type, refused, no_error, response_message, query_code, in_class,
  from_rdata, soa_data, Query,
}
use safexip.Wire.{response, txt_record, soa_record}
use safexip.Wire.Maximum.{response-sections}
use safexip.Dns.{
  name_exists, resolve_a, answer, answer_query, respond, build_response, read_zone, soa,
  txt_records, a_record, handle, encode_udp, encode_complete_or_servfail, servfail, only_query,
  max_udp_payload,
}
use safexip.Dns.Answer.{record_sets, with_sets, answer-record_sets}
use safexip.Dns.Response.{refusal, name_of, IsRefusal, build_response-refusal}
use safexip.Dns.Refine.{answered, build_response-answered}
use safexip.Dns.Encode.{IsComplete, IsHandled, handle-IsComplete, encode_udp_fits}
use safexip.Tests.Fixtures.{
  small_config, small_hickory, small_hickory-HasBuilders, small_query, SmallMessage,
}
use safexip.Tests.WireFixtures.{small_wire}

abbrev zone_with_v : ZoneState
zone_with_v = record {
  records =
      (codes "_acme-challenge.x.io", record { value = codes "v"; expires_at = 100 } ∷ []) ∷ [];
  serial = 6;
}

abbrev challenge_query : SmallMessage
challenge_query = small_query txt_type (codes "_acme-challenge.X.io.")

-- The address query of a name that has only TXT data: no error and no answer.
abbrev address_query : SmallMessage
address_query = small_query a_type (codes "_acme-challenge.x.io")

abbrev foreign_query : SmallMessage
foreign_query = small_query a_type (codes "y.org")

foreign_refused : refusal small_hickory small_config foreign_query ≡ some refused
unfolding is_our_domain to_lowercase trim_end text_eq ends_with strip_suffix
foreign_refused = refl

challenge_served : refusal small_hickory small_config challenge_query ≡ none
unfolding is_our_domain to_lowercase trim_end text_eq ends_with strip_suffix
challenge_served = refl

build_response-refusal_example :
    (m : SmallMessage) × (build_response small_hickory small_config 50 foreign_query zone_with_v
      ≡ (some m, zone_with_v))
    × IsRefusal small_hickory foreign_query refused m
build_response-refusal_example =
    build_response-refusal small_hickory small_hickory-HasBuilders small_config 50 foreign_query
      refused zone_with_v foreign_refused

build_response-answered_example :
    (q : Query Text) × (only_query challenge_query.queries ≡ some q)
    × (build_response small_hickory small_config 50 challenge_query zone_with_v ≡ (
      answered small_hickory small_config challenge_query q
          (read_zone small_config 50 q.query_type (name_of small_hickory q) zone_with_v).0,
      (read_zone small_config 50 q.query_type (name_of small_hickory q) zone_with_v).1,
    ))
build_response-answered_example =
    build_response-answered small_hickory small_hickory-HasBuilders small_config 50 challenge_query
      zone_with_v challenge_served

abbrev some_soa : Record Text
some_soa =
    from_rdata (codes "x.io") 10
      (soa_data (codes "ns1.x.io") (codes "admin.x.io") 0 3600 900 86400 10)

answer-record_sets_example :
    answer small_hickory small_config a_type (codes "x.io") (codes "x.io") [] some_soa address_query
    ≡ some (
        with_sets small_hickory
          (name_exists small_config (codes "x.io"))
          address_query
          (a_record small_hickory small_config (codes "x.io") small_config.ns_ip ∷ [], []))
unfolding record_sets resolve_a text_eq
answer-record_sets_example =
    answer-record_sets small_hickory small_hickory-HasBuilders small_config a_type (codes "x.io")
      (codes "x.io") [] some_soa address_query

-- No address is at the challenge name, and it exists.
no_address :
    answer small_hickory small_config a_type
      (codes "_acme-challenge.x.io")
      (codes "_acme-challenge.x.io")
      []
      some_soa
      address_query
    ≡ some address_query
unfolding answer resolve_a name_exists parse_xip_ip acme_name text_eq to_lowercase strip_suffix
    split
no_address = refl

abbrev raw_query : Bytes
raw_query = 0 ∷ codes "_acme-challenge.x.io"

abbrev reply : Bytes
reply = 2 ∷ []

handled : handle small_hickory small_config 50 raw_query zone_with_v ≡ (some reply, zone_with_v)
unfolding handle build_response respond answer_query read_zone get_with_serial serial pruned prune
    token_count advance_if Map.retain_entries Map.get soa soa_record txt_records txt_record answer
    name_exists acme_name is_our_domain encode_complete_or_servfail text_eq to_lowercase trim_end
    ends_with strip_suffix
handled = refl

reply-ne-nil : reply ≢ []
reply-ne-nil e = omega (arith, ap (λ (s : Bytes). length s) e)

handle-IsComplete_example :
    (request m : SmallMessage) × IsHandled small_hickory small_config 50 raw_query zone_with_v
      zone_with_v request m
    × (IsComplete small_hickory m reply ⊎ (reply ≡ servfail small_hickory request))
handle-IsComplete_example =
    handle-IsComplete small_hickory small_config 50 raw_query reply zone_with_v zone_with_v handled
      reply-ne-nil

encode_udp_fits_example :
    ((length (encode_udp small_hickory challenge_query challenge_query)
        ≤ min (small_hickory.max_payload challenge_query) max_udp_payload)
      × (IsComplete small_hickory challenge_query
            (encode_udp small_hickory challenge_query challenge_query)
          ⊎ (encode_udp small_hickory challenge_query challenge_query
              ≡ servfail small_hickory challenge_query)))
    ⊎ (small_hickory.to_vec (small_hickory.truncate challenge_query)
        ≡ some (encode_udp small_hickory challenge_query challenge_query))
    ⊎ (encode_udp small_hickory challenge_query challenge_query
        ≡ servfail small_hickory challenge_query)
encode_udp_fits_example = encode_udp_fits small_hickory challenge_query challenge_query

response-sections_example :
    response small_hickory small_wire (codes "v" ∷ [])
    ≡ some (record {
      id = 0;
      message_type = response_message;
      op_code = query_code;
      authoritative = true;
      truncation = false;
      recursion_desired = false;
      recursion_available = false;
      response_code = no_error;
      queries =
          record {
            name = codes "_acme-challenge.x.io";
            query_type = txt_type;
            query_class = in_class;
          }
          ∷ [];
      answers = map (txt_record small_hickory (codes "_acme-challenge.x.io") 60) (codes "v" ∷ []);
      authorities = some_soa ∷ [];
      additionals = [];
      edns = some (record { payload = 1232; version = 0; dnssec_ok = false });
    })
unfolding soa_record
response-sections_example =
    response-sections small_hickory small_hickory-HasBuilders small_wire (codes "v" ∷ []) some_soa
      refl
