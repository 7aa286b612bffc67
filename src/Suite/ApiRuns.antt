-- ===== src/Suite/ApiRuns.antt =====
-- The unit tests of the HTTP API pass with the stand-ins for its libraries.
use safexip.Prelude.{true, ◌≡◌, refl}
use safexip.Api.{
  new_gate, router_gate, refill, check_rate, error_response, bad_request, service_unavailable,
  unauthorized, rate_limited, validate_request, add_error_response, present, cleanup, split_once,
  skip_spaces, has_space, check_password, check_basic_auth,
}
use safexip.Api.Utf8.{is_utf8}
use safexip.Api.Admission.{admit, authorize_and_admit}
use safexip.Api.Router.{endpoint, with_body, route, dispatch}
use safexip.Suite.ApiLibrary.{libraries, from_json}
use safexip.Suite.ApiRequests
use safexip.Suite.ApiLimits
use safexip.Suite.Program.{library, small_library, program}

api_program : Unit {0}
unfolding new_gate router_gate refill check_rate error_response bad_request service_unavailable
    unauthorized rate_limited validate_request add_error_response present cleanup split_once
    skip_spaces has_space check_password check_basic_auth is_utf8 admit authorize_and_admit endpoint
    with_body route dispatch from_json
api_program = tt

rejects_missing_and_incorrect_authentication_passes :
    ApiRequests.rejects_missing_and_incorrect_authentication (libraries library) ≡ true
unfolding program api_program ApiRequests.rejects_missing_and_incorrect_authentication
rejects_missing_and_incorrect_authentication_passes = refl

rejects_malformed_basic_authentication_passes :
    ApiRequests.rejects_malformed_basic_authentication (libraries library) ≡ true
unfolding program api_program ApiRequests.rejects_malformed_basic_authentication
rejects_malformed_basic_authentication_passes = refl

accepts_basic_scheme_case_insensitively_passes :
    ApiRequests.accepts_basic_scheme_case_insensitively (libraries library) ≡ true
unfolding program api_program ApiRequests.accepts_basic_scheme_case_insensitively
accepts_basic_scheme_case_insensitively_passes = refl

rejects_authentication_before_parsing_the_body_passes :
    ApiRequests.rejects_authentication_before_parsing_the_body (libraries library) ≡ true
unfolding program api_program ApiRequests.rejects_authentication_before_parsing_the_body
rejects_authentication_before_parsing_the_body_passes = refl

rejects_oversized_bodies_with_and_without_a_known_length_passes :
    ApiRequests.rejects_oversized_bodies_with_and_without_a_known_length (libraries library) ≡ true
unfolding program api_program ApiRequests.rejects_oversized_bodies_with_and_without_a_known_length
rejects_oversized_bodies_with_and_without_a_known_length_passes = refl

accepts_the_configured_challenge_name_case_insensitively_passes :
    ApiRequests.accepts_the_configured_challenge_name_case_insensitively (libraries library) ≡ true
unfolding program api_program ApiRequests.accepts_the_configured_challenge_name_case_insensitively
accepts_the_configured_challenge_name_case_insensitively_passes = refl

rejects_names_that_the_dns_server_cannot_answer_passes :
    ApiRequests.rejects_names_that_the_dns_server_cannot_answer (libraries library) ≡ true
unfolding program api_program ApiRequests.rejects_names_that_the_dns_server_cannot_answer
rejects_names_that_the_dns_server_cannot_answer_passes = refl

rejects_empty_and_oversized_tokens_passes :
    ApiRequests.rejects_empty_and_oversized_tokens (libraries library) ≡ true
unfolding program api_program ApiRequests.rejects_empty_and_oversized_tokens
rejects_empty_and_oversized_tokens_passes = refl

allows_a_normal_concurrent_lego_burst_passes :
    ApiLimits.allows_a_normal_concurrent_lego_burst (libraries library) ≡ true
unfolding program api_program ApiLimits.allows_a_normal_concurrent_lego_burst
allows_a_normal_concurrent_lego_burst_passes = refl

rate_limit_has_a_burst_and_retry_header_passes :
    ApiLimits.rate_limit_has_a_burst_and_retry_header (libraries library) ≡ true
unfolding program api_program ApiLimits.rate_limit_has_a_burst_and_retry_header
rate_limit_has_a_burst_and_retry_header_passes = refl

rejects_and_recovers_from_concurrency_exhaustion_passes :
    ApiLimits.rejects_and_recovers_from_concurrency_exhaustion (libraries library) ≡ true
unfolding program api_program ApiLimits.rejects_and_recovers_from_concurrency_exhaustion
rejects_and_recovers_from_concurrency_exhaustion_passes = refl

cleanup_removes_only_the_requested_token_passes :
    ApiLimits.cleanup_removes_only_the_requested_token (libraries library) ≡ true
unfolding program api_program ApiLimits.cleanup_removes_only_the_requested_token
cleanup_removes_only_the_requested_token_passes = refl

reports_capacity_exhaustion_passes :
    ApiLimits.reports_capacity_exhaustion (libraries library) ≡ true
unfolding program api_program ApiLimits.reports_capacity_exhaustion
reports_capacity_exhaustion_passes = refl

reports_dns_wire_capacity_without_changing_existing_records_passes :
    ApiLimits.reports_dns_wire_capacity_without_changing_existing_records (libraries small_library)
    ≡ true
unfolding program api_program ApiLimits.reports_dns_wire_capacity_without_changing_existing_records
reports_dns_wire_capacity_without_changing_existing_records_passes = refl

times_out_an_incomplete_authenticated_body_passes :
    ApiLimits.times_out_an_incomplete_authenticated_body (libraries library) ≡ true
unfolding program api_program ApiLimits.times_out_an_incomplete_authenticated_body
times_out_an_incomplete_authenticated_body_passes = refl
