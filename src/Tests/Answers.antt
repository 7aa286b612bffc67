-- ===== src/Tests/Answers.antt =====
-- A challenge that is presented to the small program, and a query for it.
use safexip.Prelude.{ℕ, true, some, List, ◌∷◌, ◌≡◌, refl, arith, map}
use safexip.Text.{Text, codes, text_eq, to_lowercase, trim_end}
use safexip.Map
use safexip.Config.{acme_name}
use safexip.State.{add, add_new, prune, refresh_token, token_count, all_values}
use safexip.State.Served.{contains}
use safexip.Hickory.{txt_type}
use safexip.Wire.{txt_record, soa_record, response, add_values, fits, is_complete}
use safexip.Dns.{build_response, handle}
use safexip.Api.Admission.{release}
use safexip.Api.{present, validate_request}
use safexip.Api.Router.{with_body}
use safexip.Main.Program.{Program, Reach, here, next, arrive, leave, tcp}
use safexip.Main.Program.Answers.{presented_answers}
use safexip.Tests.Fixtures.{
  small_config, small_hickory, small_hickory-HasBuilders, small_query, SmallMessage,
}
use safexip.Tests.Outside.{small_clap, small_clap-HasRanges, small_args, configured, small_axum}
use safexip.Tests.Gate.{numbers, plain, header}
use safexip.Tests.Main.{started, start_state, starts}
use safexip.Tests.Program.{challenge, arrived}
use safexip.Tests.Challenge.{query, challenge as challenge_name, served}

abbrev presented : Program ℕ
presented = record arrived {
  zone =
      (with_body numbers plain small_axum (present small_config started 7 8) (20, challenge)
        arrived.zone).1;
  waiting = 0;
  answered = 1;
}

abbrev left : Program ℕ
left = record presented { gate = release numbers plain presented.gate; answered = 0 }

abbrev at_end : Program ℕ
at_end = record left { zone = (handle small_hickory small_config 9 (0 ∷ codes "x.io") left.zone).1 }

accepted :
    (with_body numbers plain small_axum
      (present small_config started 7 8)
      (20, challenge)
      start_state).0.status
    ≡ 200
unfolding with_body present validate_request acme_name to_lowercase trim_end text_eq add add_new
    prune refresh_token token_count all_values Map.retain_entries Map.get Map.insert fits response
    add_values txt_record soa_record is_complete
accepted = refl

abbrev some_steps :
    Reach small_hickory numbers plain small_axum small_config started presented at_end
some_steps = next (next here (leave refl)) (tcp 9 (0 ∷ codes "x.io"))

presented_answers_example :
    (m : SmallMessage) × (values : List Text) × ((build_response small_hickory small_config 20
        (small_query txt_type challenge_name)
        at_end.zone).0
      ≡ some m)
    × (contains (codes "v") values ≡ true)
    × (m.answers ≡ map (txt_record small_hickory (codes "_acme-challenge.x.io") 60) values)
unfolding acme_name to_lowercase trim_end
presented_answers_example =
    presented_answers small_hickory numbers plain small_axum small_clap small_clap-HasRanges
      small_hickory-HasBuilders small_args small_config 7 5 started start_state arrived presented
      at_end 7 8 (20, challenge) challenge 20 (small_query txt_type challenge_name) query
      (codes "_acme-challenge.x.io") configured starts (next here (arrive (some header) 5)) refl
      accepted refl some_steps ((tt, tt), omega arith) (omega arith) served refl refl refl refl
