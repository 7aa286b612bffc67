-- ===== src/Tests/Challenge.antt =====
-- From `/present` to the answer of the DNS handler, at small inputs.
use safexip.Prelude.{true, some, none, List, [], ◌∷◌, ◌≡◌, refl, arith, map}
use safexip.Text.{Text, codes, text_eq, to_lowercase, trim_end, strip_suffix, ends_with}
use safexip.Map
use safexip.Config.{acme_name}
use safexip.State.{
  AcmeRecords, ZoneState, add, add_new, prune, refresh_token, token_count, all_values,
  advance_serial, advance_if, get_with_serial, serial, pruned,
}
use safexip.State.History.{asking, apply, run, nil-IsValid}
use safexip.State.Served.{contains}
use safexip.Hickory.{from_rdata, soa_data, Query, txt_type, in_class, query_code}
use safexip.Wire.{txt_record, soa_record}
use safexip.Xip.{is_our_domain}
use safexip.Dns.{build_response, respond, answer_query, read_zone, answer, txt_records, soa}
use safexip.Dns.Response.{refusal}
use safexip.Api.{PresentRequest, present, validate_request}
use safexip.Main.Challenge.{present-answered}
use safexip.Tests.Fixtures.{
  small_config, small_hickory, small_hickory-HasBuilders, small_query, small_message, SmallMessage,
}

abbrev two_tokens : AcmeRecords
two_tokens = record { lifetime = 100; max_tokens = 2; wire_fits = λ values. true }

abbrev empty_zone : ZoneState
empty_zone = record { records = []; serial = 5 }

abbrev request : PresentRequest
request = record { fqdn = codes "_acme-challenge.x.io."; value = codes "v" }

abbrev pub challenge : Text
challenge = codes "_acme-challenge.X.io."

abbrev pub query : Query Text
query = record { name = challenge; query_type = txt_type; query_class = in_class }

abbrev final_zone : ZoneState
final_zone = record {
  records =
      (codes "_acme-challenge.x.io", record { value = codes "v"; expires_at = 100 } ∷ []) ∷ [];
  serial = 6;
}

abbrev final_message : SmallMessage
final_message = record (small_message 7 query_code) {
  authoritative = true;
  queries = query ∷ [];
  answers = txt_record small_hickory (codes "_acme-challenge.x.io") 60 (codes "v") ∷ [];
  authorities =
      from_rdata (codes "x.io") 10
        (soa_data (codes "ns1.x.io") (codes "admin.x.io") 6 3600 900 86400 10)
      ∷ [];
}

accepted : (present small_config two_tokens 0 0 request empty_zone).0.status ≡ 200
unfolding present validate_request acme_name to_lowercase trim_end text_eq add add_new prune
    refresh_token token_count all_values Map.retain_entries Map.get Map.insert
accepted = refl

final_answer :
    build_response small_hickory small_config 99
      (small_query txt_type challenge)
      (run two_tokens (asking 40 ∷ []) (present small_config two_tokens 0 0 request empty_zone).1)
    ≡ (some final_message, final_zone)
unfolding present validate_request acme_name to_lowercase trim_end text_eq add add_new prune
    refresh_token token_count all_values advance_serial advance_if Map.retain_entries Map.get
    Map.insert run apply get_with_serial serial pruned build_response respond answer_query read_zone
    answer txt_records soa soa_record is_our_domain ends_with strip_suffix
final_answer = refl

pub served : refusal small_hickory small_config (small_query txt_type challenge) ≡ none
unfolding is_our_domain to_lowercase trim_end text_eq ends_with strip_suffix
served = refl

present-answered_example :
    (values : List Text) × (contains (codes "v") values ≡ true)
    × (final_message.answers
        ≡ map (txt_record small_hickory (codes "_acme-challenge.x.io") 60) values)
unfolding acme_name to_lowercase trim_end
present-answered_example =
    present-answered small_hickory small_config two_tokens 0 0 request empty_zone (asking 40 ∷ [])
      99 (small_query txt_type challenge) final_message query final_zone
      (codes "_acme-challenge.x.io") small_hickory-HasBuilders nil-IsValid accepted
      (omega arith, tt) (omega arith) served refl refl refl refl final_answer
