-- ===== src/Tests/Api.antt =====
-- The HTTP API at small inputs, with small codecs and numbers in place of floats.
use safexip.Prelude.{
  ℕ, true, false, some, List, [], ◌∷◌, ◌≡◌, ◌≢◌, ◌⊎◌, refl, arith, ap, inl, is_ok,
}
use safexip.Text.{Text, codes, text_eq, to_lowercase, trim_end}
use safexip.Map
use safexip.Config.{acme_name}
use safexip.State.{
  AcmeRecords, ZoneState, add, add_new, prune, refresh_token, token_count, all_values,
  get_with_serial,
}
use safexip.State.Valid.{IsValid, expiry}
use safexip.State.Tokens.{expiry_of}
use safexip.State.Refine.{add-IsValid, write, expire}
use safexip.State.History.{Event, adding, reading, asking, run, nil-IsValid}
use safexip.State.Served.{contains}
use safexip.Api.{PresentRequest, present, cleanup, validate_request}
use safexip.Api.Promises.{present_statuses, cleanup-gone}
use safexip.Api.Holds.{HoldsChallenges}
use safexip.Tests.Fixtures.{small_config}

abbrev pub two_tokens : AcmeRecords
two_tokens = record { lifetime = 100; max_tokens = 2; wire_fits = λ values. true }

abbrev pub empty_zone : ZoneState
empty_zone = record { records = []; serial = 5 }

abbrev pub request : PresentRequest
request = record { fqdn = codes "_ACME-challenge.X.io."; value = codes "v" }

abbrev other_events : List Event
other_events =
    adding 10 11 (codes "b") (codes "v") ∷ reading 20 (acme_name small_config) ∷ asking 40 ∷ []

accepted : (present small_config two_tokens 0 0 request empty_zone).0.status ≡ 200
unfolding present validate_request acme_name to_lowercase trim_end text_eq add add_new prune
    refresh_token token_count all_values Map.retain_entries Map.get Map.insert
accepted = refl

abbrev first : Text → ℕ
first [] = 0
first (c ∷ s) = c

other_name : acme_name small_config ≢ codes "b"
unfolding acme_name
other_name e = omega (arith, ap (λ (s : Text). first s) e)

-- The value at the challenge name.
abbrev zone_with_v : ZoneState
zone_with_v = (add two_tokens 0 0 (acme_name small_config) (codes "v") empty_zone).1

zone_with_v-IsValid : IsValid zone_with_v.records
zone_with_v-IsValid =
    add-IsValid two_tokens 0 0 (acme_name small_config) (codes "v") empty_zone nil-IsValid

cleanup-gone_example :
    contains
      (codes "v")
      (get_with_serial 50
        (acme_name small_config)
        (run two_tokens other_events (cleanup small_config 5 request zone_with_v).1)).0.0
    ≡ false
unfolding cleanup validate_request acme_name to_lowercase trim_end text_eq
cleanup-gone_example =
    cleanup-gone small_config two_tokens 5 request zone_with_v other_events 50 zone_with_v-IsValid
      refl (inl other_name, (tt, (tt, tt)))

present_statuses_example :
    (((present small_config two_tokens 3 4 request zone_with_v).0.status ≡ 400)
      × ((present small_config two_tokens 3 4 request zone_with_v).1 ≡ zone_with_v)
      × (is_ok (validate_request request small_config) ≡ false))
    ⊎ (((present small_config two_tokens 3 4 request zone_with_v).0.status ≡ 200)
        × ((n v : Text)
            → expiry (present small_config two_tokens 3 4 request zone_with_v).1.records n v
              ≡ write
                  (acme_name small_config)
                  (codes "v")
                  (some 104)
                  (expire 3 (expiry zone_with_v.records))
                  n
                  v))
    ⊎ (((present small_config two_tokens 3 4 request zone_with_v).0.status ≡ 503)
        × ((n v : Text)
            → expiry (present small_config two_tokens 3 4 request zone_with_v).1.records n v
              ≡ expire 3 (expiry zone_with_v.records) n v))
present_statuses_example =
    present_statuses small_config two_tokens 3 4 request zone_with_v zone_with_v-IsValid

none_held : HoldsChallenges small_config []
unfolding expiry expiry_of Map.get
none_held n v e h = cc
