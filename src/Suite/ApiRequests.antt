-- ===== src/Suite/ApiRequests.antt =====
-- src/api.rs: the unit tests of the authorization and of what is in a request.
use safexip.Prelude.{
  ℕ, ◌+◌, Bool, false, Option, none, some, List, [], ◌∷◌, ◌++◌, ◌&&◌, ◌||◌, ◌==◌, drop, String,
}
use safexip.Text.{Text, codes, text_eq}
use safexip.Hickory.{Bytes}
use safexip.Wire.{◌>>=◌}
use safexip.Api.{Response, max_txt_value_len}
use safexip.Api.Router.{max_request_body_len}
use safexip.Suite.Fixtures.{passes, xs, all_pass}
use safexip.Suite.ApiFixtures.{
  Libraries, App, key, json, token, has_header, app, request, auth, oneshot, presents,
}

abbrev some_body : Text
some_body = token (codes "token")

-- `headers().contains_key`
abbrev has_key : String → Response → Bool
has_key name response = is_there response.headers
  where
    is_there : List (String × String) → Bool
    is_there [] = false
    is_there ((n, v) ∷ headers) = text_eq (codes n) (codes name) || is_there headers

module _ (l : Libraries) where
  open l use {encode, float, axum, from_stream}

  -- The status of the answer to a request to `/present`.
  abbrev status_for : Option Bytes → Text → App float.F64 → ℕ
  status_for authorization body a =
      (oneshot l (request l (codes "/present") authorization body) a).0.status

  unfoldable pub rejects_missing_and_incorrect_authentication : Bool
  rejects_missing_and_incorrect_authentication = passes (do
    a ← app l
    missing ← some (oneshot l (request l (codes "/present") none some_body) a).0
    some (
        missing.status == 401
        && has_header "www-authenticate" "Basic realm=\"safexip\", charset=\"UTF-8\"" missing
        && status_for (some (auth l (codes "wrong"))) some_body a == 401))

  unfoldable pub rejects_malformed_basic_authentication : Bool
  rejects_malformed_basic_authentication = passes (do
    a ← app l
    some (
        all_pass
          (λ authorization.
            let response =
              (oneshot l (request l (codes "/present") (some authorization) some_body) a).0 in
            response.status == 401 && has_key "www-authenticate" response)
          (codes "Bearer token"
            ∷ codes "Basic !!!"
            ∷ (codes "Basic " ++ encode key)
            ∷ (codes "Basic " ++ encode (255 ∷ b':' ∷ key))
            ∷ [])))

  unfoldable pub accepts_basic_scheme_case_insensitively : Bool
  accepts_basic_scheme_case_insensitively = passes (do
    a ← app l
    some (status_for (some (codes "bAsIc" ++ drop 5 (auth l key))) some_body a == 200))

  unfoldable pub rejects_authentication_before_parsing_the_body : Bool
  rejects_authentication_before_parsing_the_body = passes (do
    a ← app l
    some (
        status_for none (codes "not json") a == 401
        && status_for (some (auth l key)) (codes "not json") a == 400))

  unfoldable pub rejects_oversized_bodies_with_and_without_a_known_length : Bool
  rejects_oversized_bodies_with_and_without_a_known_length = passes (do
    a ← app l
    oversized ← some (xs (max_request_body_len + 1))
    unknown ← some (record (request l (codes "/present") (some (auth l key)) []) {
      body = from_stream oversized;
    })
    some (
        status_for (some (auth l key)) oversized a == 413 && (oneshot l unknown a).0.status == 413))

  unfoldable pub accepts_the_configured_challenge_name_case_insensitively : Bool
  accepts_the_configured_challenge_name_case_insensitively = passes (do
    a ← app l
    some
        ((presents l (json (codes "_AcMe-Challenge.XIP.TEST.") (codes "token")) a).0.status == 200))

  unfoldable pub rejects_names_that_the_dns_server_cannot_answer : Bool
  rejects_names_that_the_dns_server_cannot_answer = passes (do
    a ← app l
    some (
        (presents l (json (codes "_acme-challenge.other.test.") (codes "token")) a).0.status
        == 400))

  unfoldable pub rejects_empty_and_oversized_tokens : Bool
  rejects_empty_and_oversized_tokens = passes (do
    a ← app l
    some (
        all_pass (λ value. (presents l (token value) a).0.status == 400)
          ([] ∷ xs (max_txt_value_len + 1) ∷ [])))
