-- ===== src/Api/Client.antt =====
-- src/api.rs from a client's view: a request that passes every test, from its credentials on.
use safexip.Prelude.{ℕ, ◌+◌, ◌*◌, ◌≤◌, ◌<◌, true, Option, some, ◌≡◌, refl, sym, arith, ok, is_ok}
use safexip.Config.{Config}
use safexip.State.{AcmeRecords, ZoneState}
use safexip.Hickory.{Bytes}
use safexip.Api.{
  Float, Codecs, RequestGate, Response, PresentRequest, present, cleanup, check_rate,
  check_basic_auth,
}
use safexip.Api.Auth.{IsExact, IsCredential, check_basic_auth_complete}
use safexip.Api.Admission.{authorize_and_admit, admit}
use safexip.Api.Router.{
  Axum, HttpRequest, endpoint, present_endpoint, cleanup_endpoint, with_body, with_body_ok, route,
  dispatch, max_request_body_len, request_timeout,
}
use safexip.Api.Window.{exact, billion, request_rate, idle_admits}

module _ (f : Float) (k : Codecs) where
  authorize_and_admit_allowed :
      {S : Type 0} (config : Config) (authorization : Option Bytes) (now : ℕ)
      (next : S → Response × S) (gate : RequestGate f.F64) (s : S)
      → is_ok (check_basic_auth k authorization config) ≡ true
      → (check_rate f now gate.rate).0 ≡ true
      → 0 < gate.concurrency
      → let result = authorize_and_admit f k config authorization now next gate s in
        (result.0 ≡ (next s).0)
        × (result.1.1 ≡ (next s).1)
        × (result.1.0.concurrency ≡ gate.concurrency)
  unfolding authorize_and_admit admit
  authorize_and_admit_allowed config authorization now next gate s a w p = ground arith

module _ (k : Codecs) (ax : Axum) (same_bytes : IsExact k) (config : Config) (acme : AcmeRecords)
    (arrival now later : ℕ) (request : HttpRequest ax.Body) (gate : RequestGate ℕ) (s : ZoneState)
    (raw : Bytes) (body : PresentRequest) where
  handled :
      (handler : PresentRequest → ZoneState → Response × ZoneState)
      → is_ok (check_basic_auth k request.authorization config) ≡ true
      → (check_rate exact arrival gate.rate).0 ≡ true
      → 0 < gate.concurrency
      → ax.extract max_request_body_len request_timeout request.body ≡ ok body
      → let result =
          authorize_and_admit exact k config request.authorization arrival
            (with_body exact k ax handler request.body)
            gate
            s in
        (result.0 ≡ (handler body s).0)
        × (result.1.1 ≡ (handler body s).1)
        × (result.1.0.concurrency ≡ gate.concurrency)
  handled handler authorized within_rate permit extracted =
      let next = with_body exact k ax handler request.body in
      let same = with_body_ok exact k ax handler request.body s body extracted in
      rw (sym same) (
        authorize_and_admit_allowed exact k config request.authorization arrival next gate s
          authorized within_rate permit)

  -- If the constant-time comparison is equality, and with exact numbers, the rate of the router and
  -- a burst of one token or more: a request with a header that has the credentials, which arrives
  -- 50 milliseconds after the last request that was authorized, or later, which finds a permit, and
  -- whose body is extracted, gets what the handler of `/present` or `/cleanup` answers, if it goes
  -- to that endpoint; the zone is what the handler leaves, and all the permits are back.
  pub dispatch_served :
      request.authorization ≡ some raw
      → IsCredential k config raw
      → gate.rate.rate_per_second ≡ request_rate * billion
      → billion ≤ gate.rate.burst
      → gate.rate.last_refill + 50_000_000 ≤ arrival
      → 0 < gate.concurrency
      → ax.extract max_request_body_len request_timeout request.body ≡ ok body
      → let result = dispatch exact k ax config acme arrival now later request gate s in
        (endpoint request.method request.path ≡ present_endpoint
          → (result.0 ≡ (present config acme now later body s).0)
            × (result.1.1 ≡ (present config acme now later body s).1)
            × (result.1.0.concurrency ≡ gate.concurrency))
        × (endpoint request.method request.path ≡ cleanup_endpoint
            → (result.0 ≡ (cleanup config now body s).0)
              × (result.1.1 ≡ (cleanup config now body s).1)
              × (result.1.0.concurrency ≡ gate.concurrency))
  unfolding dispatch route
  dispatch_served sent credential rated some_burst idle permit extracted =
      let authorized : (is_ok (check_basic_auth k request.authorization config) ≡ true) =
        rw (sent, check_basic_auth_complete k config raw same_bytes credential) refl in
      let within_rate = idle_admits arrival gate.rate rated some_burst idle in
      (
        λ e. rw e (handled (present config acme now later) authorized within_rate permit extracted),
        λ e. rw e (handled (cleanup config now) authorized within_rate permit extracted),
      )
