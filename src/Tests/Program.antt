-- ===== src/Tests/Program.antt =====
-- The whole program at small inputs: its arguments, its start, and one request between two queries.
use safexip.Prelude.{ℕ, ◌+◌, some, none, ◌∷◌, ◌≡◌, ◌⊎◌, refl, arith, is_some, true}
use safexip.Text.{codes, text_eq, to_lowercase}
use safexip.State.History.{nil-IsValid}
use safexip.Config.Configured.{IsConfigured, from_args-IsConfigured}
use safexip.Dns.{handle, handle_udp}
use safexip.Dns.Total.{handlers_total}
use safexip.Api.{
  PresentRequest, present, cleanup, check_basic_auth, check_password, split_once, skip_spaces,
  has_space, check_rate, refill, router_gate, new_gate, RequestGate,
}
use safexip.Api.Utf8.{is_utf8}
use safexip.Api.Admission.{admit, release, count_admitted}
use safexip.Api.Router.{
  HttpRequest, endpoint, dispatch, with_body, present_endpoint, cleanup_endpoint,
}
use safexip.Api.Allowed.{IsAllowed, dispatch-IsAllowed}
use safexip.Main.Program.{Program, Reach, opened, here, next, udp, tcp, arrive, run_present, leave}
use safexip.Main.Program.Outsiders.{IsPart, outsiders_add_nothing}
use safexip.Main.Program.Changes.{view_after}
use safexip.Main.Program.View.{Reach-view_after}
use safexip.State.Valid.{expiry}
use safexip.State.Tokens.{expiry_of}
use safexip.Map
use safexip.Text.{trim_end, ends_with, strip_suffix}
use safexip.State.{
  add, add_new, prune, refresh_token, token_count, all_values, pruned, serial, get_with_serial,
}
use safexip.Api.{validate_request}
use safexip.Dns.{build_response, respond, answer_query, read_zone}
use safexip.Xip.{is_our_domain}
use safexip.Wire.{fits, response, add_values, txt_record, soa_record, is_complete}
use safexip.State.History.{nil-IsValid}
use safexip.Config.{acme_name}
use safexip.Main.Program.Launch.{IsHealthy, launched-IsHealthy}
use safexip.Tests.Fixtures.{small_config, small_hickory}
use safexip.Tests.WireFixtures.{small_wire-IsMonotone}
use safexip.Tests.Outside.{
  small_clap, small_clap-HasRanges, small_args, configured, small_axum, small_axum-HasLimit,
}
use safexip.Tests.Config.{valid}
use safexip.Tests.Gate.{numbers, plain, header, plain-IsExact, credential}
use safexip.Api.Window.{exact}
use safexip.Api.Client.{dispatch_served}
use safexip.Tests.Main.{started, start_state, starts}

from_args-IsConfigured_example : IsConfigured small_hickory small_clap small_config
from_args-IsConfigured_example =
    from_args-IsConfigured small_hickory small_clap small_clap-HasRanges small_args small_config
      configured

handlers_total_example :
    (is_some (handle small_hickory small_config 9 (0 ∷ codes "x.io") start_state).0 ≡ true)
    × (is_some (handle_udp small_hickory small_config 9 (0 ∷ codes "x.io") start_state).0 ≡ true)
handlers_total_example =
    handlers_total small_hickory small_config 9 (0 ∷ codes "x.io") start_state valid refl

abbrev pub challenge : PresentRequest
challenge = record { fqdn = codes "_acme-challenge.x.io"; value = codes "v" }

abbrev pub at_start : Program ℕ
at_start = opened numbers small_config 5 start_state

-- A request arrives, a query is answered, the request reaches its handler and leaves, and another
-- query is answered.
abbrev pub arrived : Program ℕ
arrived = record at_start {
  gate = (admit numbers plain small_config (some header) 5 at_start.gate).1;
  waiting =
      0
      + count_admitted numbers plain
          (admit numbers plain small_config (some header) 5 at_start.gate).0;
}

abbrev asked : Program ℕ
asked = record arrived {
  zone = (handle_udp small_hickory small_config 6 (0 ∷ codes "x.io") arrived.zone).1;
}

abbrev presented : Program ℕ
presented = record asked {
  zone =
      (with_body numbers plain small_axum (present small_config started 7 8) (20, challenge)
        asked.zone).1;
  waiting = 0;
  answered = 1;
}

abbrev left : Program ℕ
left = record presented { gate = release numbers plain presented.gate; answered = 0 }

abbrev at_end : Program ℕ
at_end = record left {
  zone = (handle small_hickory small_config 9 (0 ∷ codes "_acme-challenge.x.io") left.zone).1;
}

one_waits : asked.waiting ≡ 1
unfolding admit check_rate refill router_gate new_gate check_basic_auth check_password split_once
    skip_spaces has_space is_utf8 to_lowercase text_eq
one_waits = refl

abbrev some_steps :
    Reach small_hickory numbers plain small_axum small_config started at_start at_end
some_steps =
    next
      (next
        (next (next (next here (arrive (some header) 5)) (udp 6 (0 ∷ codes "x.io")))
          (run_present 7 8 (20, challenge) one_waits))
        (leave refl))
      (tcp 9 (0 ∷ codes "_acme-challenge.x.io"))

Reach-view_after_example :
    expiry at_end.zone.records
    ≡ view_after small_hickory numbers plain small_axum small_config started some_steps
        (expiry start_state.records)
Reach-view_after_example =
    Reach-view_after small_hickory numbers plain small_axum small_config started at_start at_end
      some_steps nil-IsValid

-- The value that was presented, and an expiry of 100 after 8.
presented_value :
    view_after small_hickory numbers plain small_axum small_config started some_steps
      (expiry start_state.records)
      (acme_name small_config)
      (codes "v")
    ≡ some (8 + started.lifetime)
unfolding expiry expiry_of text_eq to_lowercase trim_end acme_name present validate_request
    with_body add add_new prune refresh_token token_count all_values Map.get Map.insert
    Map.retain_entries handle_udp build_response respond answer_query read_zone pruned serial
    get_with_serial is_our_domain ends_with strip_suffix fits response add_values txt_record
    soa_record is_complete
presented_value = refl

launched-IsHealthy_example :
    IsHealthy small_hickory numbers plain small_axum small_config started at_end
launched-IsHealthy_example =
    launched-IsHealthy small_hickory numbers plain small_axum small_clap small_clap-HasRanges
      small_args small_config 7 5 started start_state at_end configured starts small_wire-IsMonotone
      some_steps

abbrev post : HttpRequest (ℕ × PresentRequest)
post = record {
  method = codes "POST";
  path = codes "/present";
  authorization = some header;
  body = (20, challenge);
}

dispatch-IsAllowed_example :
    let gate = router_gate numbers small_config 5 in
    let result =
      dispatch numbers plain small_axum small_config started 5 6 7 post gate start_state in
    (result.1.0.concurrency ≡ gate.concurrency)
    × ((result.1.1 ≡ start_state)
        ⊎ ((body : PresentRequest) × IsAllowed numbers plain small_axum small_config 5 post gate
              body
            × (((endpoint post.method post.path ≡ present_endpoint)
                  × (result.0 ≡ (present small_config started 6 7 body start_state).0)
                  × (result.1.1 ≡ (present small_config started 6 7 body start_state).1))
                ⊎ ((endpoint post.method post.path ≡ cleanup_endpoint)
                    × (result.0 ≡ (cleanup small_config 6 body start_state).0)
                    × (result.1.1 ≡ (cleanup small_config 6 body start_state).1)))))
dispatch-IsAllowed_example =
    dispatch-IsAllowed numbers plain small_axum small_axum-HasLimit small_config started 5 6 7 post
      (router_gate numbers small_config 5) start_state

abbrev fresh : RequestGate ℕ
fresh = router_gate exact small_config 0

dispatch_served_example :
    let result =
      dispatch exact plain small_axum small_config started 50_000_000 6 7 post fresh start_state in
    (endpoint post.method post.path ≡ present_endpoint
      → (result.0 ≡ (present small_config started 6 7 challenge start_state).0)
        × (result.1.1 ≡ (present small_config started 6 7 challenge start_state).1)
        × (result.1.0.concurrency ≡ fresh.concurrency))
    × (endpoint post.method post.path ≡ cleanup_endpoint
        → (result.0 ≡ (cleanup small_config 6 challenge start_state).0)
          × (result.1.1 ≡ (cleanup small_config 6 challenge start_state).1)
          × (result.1.0.concurrency ≡ fresh.concurrency))
unfolding router_gate new_gate
dispatch_served_example =
    dispatch_served plain small_axum plain-IsExact small_config started 50_000_000 6 7 post fresh
      start_state header challenge refl credential refl (omega arith) (omega arith) (omega arith)
      refl

-- The request goes to `/present`.
post_endpoint : endpoint post.method post.path ≡ present_endpoint
unfolding endpoint text_eq
post_endpoint = refl

-- A request without credentials, and a query.
abbrev unanswered : Program ℕ
unanswered = record at_start {
  gate = (admit numbers plain small_config none 5 at_start.gate).1;
  waiting =
      0 + count_admitted numbers plain (admit numbers plain small_config none 5 at_start.gate).0;
}

abbrev queried : Program ℕ
queried = record unanswered {
  zone = (handle small_hickory small_config 9 (0 ∷ codes "x.io") unanswered.zone).1;
}

abbrev outsider_steps :
    Reach small_hickory numbers plain small_axum small_config started at_start queried
outsider_steps = next (next here (arrive none 5)) (tcp 9 (0 ∷ codes "x.io"))

outsiders_add_nothing_example :
    (queried.waiting ≡ 0)
    × (queried.gate.rate ≡ at_start.gate.rate)
    × IsPart at_start.zone queried.zone
unfolding check_basic_auth
outsiders_add_nothing_example =
    outsiders_add_nothing small_hickory numbers plain small_axum small_config started at_start
      queried outsider_steps nil-IsValid refl ((tt, refl), tt)
