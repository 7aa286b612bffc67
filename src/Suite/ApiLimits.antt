-- ===== src/Suite/ApiLimits.antt =====
-- src/api.rs: the unit tests of the limits, and of what the requests leave in the records. Requests of
-- tasks come in the order of the tasks.
use safexip.Prelude.{
  ℕ, zero, suc, ◌+◌, ◌-◌, ◌^◌, Bool, true, false, Option, none, some, List, [], ◌∷◌, ◌++◌, ◌&&◌,
  ◌==◌, length,
}
use safexip.Text.{Text, codes, text_eq}
use safexip.Wire.{◌>>=◌}
use safexip.Api.{Response, ResponseBody, error_body, present, max_concurrent_requests}
use safexip.Api.Admission.{Admission, admitted, rejected, admit, release, authorize_and_admit}
use safexip.Api.Router.{with_timeout}
use safexip.Suite.Fixtures.{passes, xs, four_digits, texts_eq, from_millis, all_pass}
use safexip.Suite.ApiFixtures.{
  Libraries, App, config, key, token, token_number, has_header, limited_app, app_of, request, auth,
  oneshot, presents, values_of,
}

-- The error of a body.
abbrev has_error : Text → ResponseBody → Bool
has_error message (error_body text) = text_eq (codes text) message
has_error message other = false

abbrev is_admitted : Admission → Bool
is_admitted admitted = true
is_admitted (rejected response) = false

module _ (l : Libraries) where
  open l use {float, codecs, axum, pending}

  -- Presentations of numbered tokens from `index` on: the statuses and what is left.
  abbrev present_numbers : ℕ → ℕ → App float.F64 → List ℕ × App float.F64
  present_numbers zero index a = ([], a)
  present_numbers (suc n) index a =
      let (response, a1) = presents l (token (token_number index)) a in
      let (statuses, a2) = present_numbers n (index + 1) a1 in (response.status ∷ statuses, a2)

  unfoldable pub allows_a_normal_concurrent_lego_burst : Bool
  allows_a_normal_concurrent_lego_burst = passes (do
    a ← app_of l 20
    (statuses, left) ← some (present_numbers 12 0 a)
    some (
        all_pass (λ status. status == 200) statuses
        && length statuses == 12
        && length (values_of l left) == 12))

  unfoldable pub rate_limit_has_a_burst_and_retry_header : Bool
  rate_limit_has_a_burst_and_retry_header = passes (do
    a ← limited_app l 10 2 0 2
    (first, a1) ← some (presents l (token (token_number 0)) a)
    (second, a2) ← some (presents l (token (token_number 1)) a1)
    (third, a3) ← some (presents l (token (token_number 2)) a2)
    some (
        first.status == 200
        && second.status == 200
        && third.status == 429
        && has_header "retry-after" "1" third))

  -- The layers of `/present` with the timeout of this test.
  unfoldable pub times_out_an_incomplete_authenticated_body : Bool
  times_out_an_incomplete_authenticated_body = passes (do
    a ← limited_app l 10 1 100 10
    (response, left) ← some (
        authorize_and_admit float codecs config (some (auth l key)) 0
          (with_timeout float codecs axum (from_millis 20) (present config a.records 0 0) pending)
          a.gate a.zone)
    some (response.status == 408))

  -- The body of the request that is held never comes: it stands behind the middleware, with its
  -- permit, until it is dropped.
  unfoldable pub rejects_and_recovers_from_concurrency_exhaustion : Bool
  rejects_and_recovers_from_concurrency_exhaustion = passes (do
    a ← limited_app l 10 1 100 10
    (admission, gate) ← some (admit float codecs config (some (auth l key)) 0 a.gate)
    (exhausted, a1) ← some (presents l (token (codes "token")) (record a { gate = gate }))
    (recovered, a2) ←
        some
          (presents l (token (codes "token")) (record a1 { gate = release float codecs a1.gate }))
    some (is_admitted admission && exhausted.status == 503 && recovered.status == 200))

  unfoldable pub cleanup_removes_only_the_requested_token : Bool
  cleanup_removes_only_the_requested_token = passes (do
    a ← app_of l 10
    (one, a1) ← some (presents l (token (codes "token-one")) a)
    (two, a2) ← some (presents l (token (codes "token-two")) a1)
    (cleaned, a3) ← some (
        oneshot l (request l (codes "/cleanup") (some (auth l key)) (token (codes "token-one"))) a2)
    some (
        one.status == 200
        && two.status == 200
        && cleaned.status == 200
        && texts_eq (values_of l a3) (codes "token-two" ∷ [])))

  unfoldable pub reports_capacity_exhaustion : Bool
  reports_capacity_exhaustion = passes (do
    a ← app_of l 1
    (first, a1) ← some (presents l (token (token_number 1)) a)
    (second, a2) ← some (presents l (token (token_number 2)) a1)
    some (first.status == 200 && second.status == 503))

  -- The loop of presentations until one is refused: the accepted values, the refusal and what is
  -- left. More rounds than the fuel count as a panic.
  abbrev present_until_refused :
      ℕ → List Text → App float.F64 → Option (List Text × Response × App float.F64)
  present_until_refused zero accepted a = none
  present_until_refused (suc fuel) accepted a =
      let value = four_digits (length accepted) (xs 251) in
      let (response, a') = presents l (token value) a in
      elim (response.status == 200) [
        | true ↦ present_until_refused fuel (accepted ++ value ∷ []) a'
        | false ↦ some (accepted, response, a')
      ]

  unfoldable pub reports_dns_wire_capacity_without_changing_existing_records : Bool
  reports_dns_wire_capacity_without_changing_existing_records = passes (do
    a ← limited_app l (2 ^ 64 - 1) max_concurrent_requests 20 1_000
    (accepted, refusal, left) ← present_until_refused 65536 [] a
    some (
        refusal.status == 503
        && has_error (codes "active TXT records have reached DNS TCP capacity") refusal.body
        && texts_eq (values_of l left) accepted))
