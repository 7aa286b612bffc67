-- ===== src/Api/Allowed.antt =====
-- src/api.rs: what a request has passed where a handler is reached.
use safexip.Prelude.{
  Result-cases, ℕ, ◌≤◌, ◌<◌, true, Option, ◌≡◌, ◌⊎◌, inl, inr, refl, arith, ok, is_ok,
}
use safexip.Config.{Config}
use safexip.State.{AcmeRecords, ZoneState}
use safexip.Hickory.{Bytes}
use safexip.Api.{
  Float, Codecs, RequestGate, Response, PresentRequest, present, cleanup, check_rate,
  check_basic_auth,
}
use safexip.Api.Admission.{authorize_and_admit, admit}
use safexip.Api.Router.{
  Axum, HasLimit, HttpRequest, Endpoint, health_endpoint, present_endpoint, cleanup_endpoint,
  other_method, no_endpoint, endpoint, with_body, route, dispatch, max_request_body_len,
  request_timeout,
}

module _ (f : Float) (k : Codecs) (ax : Axum) where
  -- All the tests that a request passes before a handler.
  pub record IsAllowed (config : Config) (arrival : ℕ) (request : HttpRequest ax.Body)
      (gate : RequestGate f.F64) (body : PresentRequest) : Type 0 where
    pub authorized : is_ok (check_basic_auth k request.authorization config) ≡ true
    pub within_rate : (check_rate f arrival gate.rate).0 ≡ true
    pub permit_left : 0 < gate.concurrency
    pub extracts : ax.extract max_request_body_len request_timeout request.body ≡ ok body
    pub short_body : ax.body_length request.body ≤ max_request_body_len

module _ (f : Float) (k : Codecs) where
  -- The middleware stops a request and leaves the state, or the request has passed its tests.
  authorize_and_admit-cases :
      {S : Type 0} (config : Config) (authorization : Option Bytes) (now : ℕ)
      (next : S → Response × S) (gate : RequestGate f.F64) (s : S)
      → let result = authorize_and_admit f k config authorization now next gate s in
        (result.1.0.concurrency ≡ gate.concurrency)
        × ((result.1.1 ≡ s)
            ⊎ ((is_ok (check_basic_auth k authorization config) ≡ true)
                × ((check_rate f now gate.rate).0 ≡ true)
                × (0 < gate.concurrency)
                × (result.0 ≡ (next s).0)
                × (result.1.1 ≡ (next s).1)))
  unfolding authorize_and_admit admit
  authorize_and_admit-cases config authorization now next gate s = ground arith

module _ (f : Float) (k : Codecs) (ax : Axum) (limit : HasLimit ax) where
  protected :
      (handler : PresentRequest → ZoneState → Response × ZoneState) (config : Config) (arrival : ℕ)
      (request : HttpRequest ax.Body) (gate : RequestGate f.F64) (s : ZoneState)
      → let result =
          authorize_and_admit f k config request.authorization arrival
            (with_body f k ax handler request.body)
            gate
            s in
        (result.1.0.concurrency ≡ gate.concurrency)
        × ((result.1.1 ≡ s)
            ⊎ ((body : PresentRequest) × IsAllowed f k ax config arrival request gate body
                × (result.0 ≡ (handler body s).0)
                × (result.1.1 ≡ (handler body s).1)))
  unfolding with_body
  protected handler config arrival request gate s =
      let next = with_body f k ax handler request.body in
      let (kept, cases) =
        authorize_and_admit-cases f k config request.authorization arrival next gate s in
      (
        kept,
        elim cases [
          | inl same ↦ inl same
          | inr (authorized, within_rate, permit_left, response, state) ↦
              elim (Result-cases (ax.extract max_request_body_len request_timeout request.body)) [
                | inl (r, x) ↦ inl (ground arith)
                | inr (body, x) ↦ inr (
                  body,
                  record {
                    authorized = authorized;
                    within_rate = within_rate;
                    permit_left = permit_left;
                    extracts = x;
                    short_body = limit max_request_body_len request_timeout request.body body x;
                  },
                  ground arith,
                  ground arith,
                )
              ]
        ],
      )

  route-IsAllowed :
      (config : Config) (acme : AcmeRecords) (arrival now later : ℕ) (request : HttpRequest ax.Body)
      (gate : RequestGate f.F64) (s : ZoneState) (e : Endpoint)
      → let result = route f k ax config acme arrival now later request gate s e in
        (result.1.0.concurrency ≡ gate.concurrency)
        × ((result.1.1 ≡ s)
            ⊎ ((body : PresentRequest) × IsAllowed f k ax config arrival request gate body
                × (((e ≡ present_endpoint)
                      × (result.0 ≡ (present config acme now later body s).0)
                      × (result.1.1 ≡ (present config acme now later body s).1))
                    ⊎ ((e ≡ cleanup_endpoint)
                        × (result.0 ≡ (cleanup config now body s).0)
                        × (result.1.1 ≡ (cleanup config now body s).1)))))
  unfolding route
  route-IsAllowed config acme arrival now later request gate s health_endpoint = (refl, inl refl)
  route-IsAllowed config acme arrival now later request gate s no_endpoint = (refl, inl refl)
  route-IsAllowed config acme arrival now later request gate s other_method =
      let answer : (ZoneState → Response × ZoneState) =
        λ t. (ax.unmatched request.method request.path request.body, t) in
      let (kept, cases) =
        authorize_and_admit-cases f k config request.authorization arrival answer gate s in
      (kept, elim cases [ inl same ↦ inl same | inr (a, w, p, response, state) ↦ inl state ])
  route-IsAllowed config acme arrival now later request gate s present_endpoint =
      let (kept, cases) = protected (present config acme now later) config arrival request gate s in
      (
        kept,
        elim cases [
          | inl same ↦ inl same
          | inr (body, allowed, response, state) ↦ inr (body, allowed, inl (refl, response, state))
        ],
      )
  route-IsAllowed config acme arrival now later request gate s cleanup_endpoint =
      let (kept, cases) = protected (cleanup config now) config arrival request gate s in
      (
        kept,
        elim cases [
          | inl same ↦ inl same
          | inr (body, allowed, response, state) ↦ inr (body, allowed, inr (refl, response, state))
        ],
      )

  -- With a body limit that lets no longer body through: a request to the router leaves as many
  -- permits as it found; it leaves the zone, or it has valid credentials, is within the rate, finds
  -- a permit, has a body of at most 1024 bytes that is extracted, goes to the endpoint of
  -- `/present` or `/cleanup`, and its response and the new zone are those of that handler.
  pub dispatch-IsAllowed :
      (config : Config) (acme : AcmeRecords) (arrival now later : ℕ) (request : HttpRequest ax.Body)
      (gate : RequestGate f.F64) (s : ZoneState)
      → let result = dispatch f k ax config acme arrival now later request gate s in
        (result.1.0.concurrency ≡ gate.concurrency)
        × ((result.1.1 ≡ s)
            ⊎ ((body : PresentRequest) × IsAllowed f k ax config arrival request gate body
                × (((endpoint request.method request.path ≡ present_endpoint)
                      × (result.0 ≡ (present config acme now later body s).0)
                      × (result.1.1 ≡ (present config acme now later body s).1))
                    ⊎ ((endpoint request.method request.path ≡ cleanup_endpoint)
                        × (result.0 ≡ (cleanup config now body s).0)
                        × (result.1.1 ≡ (cleanup config now body s).1)))))
  unfolding dispatch
  dispatch-IsAllowed config acme arrival now later request gate s =
      route-IsAllowed config acme arrival now later request gate s
        (endpoint request.method request.path)
