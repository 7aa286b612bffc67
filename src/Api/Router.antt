-- ===== src/Api/Router.antt =====
-- src/api.rs, `router`: which request goes to which handler, through which layers. The layer that is
-- added last is the outermost: `authorize_and_admit`, then the timeout, the body limit, the handler.
use safexip.Prelude.{ℕ, ◌*◌, ◌^◌, ◌≤◌, ◌||◌, Option, ◌≡◌, refl, if◌then◌else◌, Result, ok, err}
use safexip.Text.{Text, codes, text_eq}
use safexip.Config.{Config}
use safexip.State.{AcmeRecords, ZoneState}
use safexip.Hickory.{Bytes}
use safexip.Api.{Float, Codecs, RequestGate, Response, PresentRequest, health, present, cleanup}
use safexip.Api.Admission.{authorize_and_admit}

abbrev pub max_request_body_len : ℕ
max_request_body_len = 1024

-- `REQUEST_TIMEOUT`, in nanoseconds.
abbrev pub request_timeout : ℕ
request_timeout = 10 * 10 ^ 9

-- What the program takes from axum and tower_http. `extract` is the outcome of the body limit, the
-- timeout and the extractor `Json`: a response of theirs, or the request that the handler gets. A
-- body comes with the way it arrives. `unmatched` answers where no route has the path, or the path
-- has no route with the method.
pub record Axum : Type 1 where
  pub Body : Type 0
  pub body_length : Body → ℕ
  pub extract : ℕ → ℕ → Body → Result Response PresentRequest
  pub unmatched : Text → Text → Body → Response

-- Documented: no handler gets a body that is longer than the limit.
abbrev pub HasLimit : Axum → Type 0
HasLimit ax =
    (limit timeout : ℕ) (body : ax.Body) (r : PresentRequest)
    → ax.extract limit timeout body ≡ ok r
    → ax.body_length body ≤ limit

pub record HttpRequest (Body : Type 0) : Type 0 where
  pub method : Text
  pub path : Text
  pub authorization : Option Bytes
  pub body : Body

pub data Endpoint : Type 0 where
  health_endpoint present_endpoint cleanup_endpoint other_method no_endpoint : Endpoint

-- `get` serves HEAD requests too. The layers are those of a path, so they are around the answer to
-- another method, too.
unfoldable pub endpoint : Text → Text → Endpoint
endpoint method path =
    if text_eq path (codes "/health")
    then (if text_eq method (codes "GET") || text_eq method (codes "HEAD")
        then health_endpoint
        else no_endpoint)
    else if text_eq path (codes "/present")
    then (if text_eq method (codes "POST") then present_endpoint else other_method)
    else if text_eq path (codes "/cleanup")
    then (if text_eq method (codes "POST") then cleanup_endpoint else other_method)
    else no_endpoint

module _ (f : Float) (k : Codecs) (ax : Axum) where
  -- The layers inside the middleware with a given timeout, and a handler.
  abbrev pub with_timeout :
      ℕ
      → (PresentRequest → ZoneState → Response × ZoneState)
      → ax.Body
      → ZoneState
      → Response × ZoneState
  with_timeout timeout handler body s = elim (ax.extract max_request_body_len timeout body) [
    | err response ↦ (response, s)
    | ok request ↦ handler request s
  ]

  -- As `router` makes them.
  unfoldable pub with_body :
      (PresentRequest → ZoneState → Response × ZoneState)
      → ax.Body
      → ZoneState
      → Response × ZoneState
  with_body handler body s = with_timeout request_timeout handler body s

  pub with_body_ok :
      (handler : PresentRequest → ZoneState → Response × ZoneState) (body : ax.Body) (s : ZoneState)
      (r : PresentRequest)
      → ax.extract max_request_body_len request_timeout body ≡ ok r
      → with_body handler body s ≡ handler r s
  unfolding with_body
  with_body_ok handler body s r x = rw (x, with_timeout) refl

  pub with_body_err :
      (handler : PresentRequest → ZoneState → Response × ZoneState) (body : ax.Body) (s : ZoneState)
      (response : Response)
      → ax.extract max_request_body_len request_timeout body ≡ err response
      → with_body handler body s ≡ (response, s)
  unfolding with_body
  with_body_err handler body s response x = rw (x, with_timeout) refl

  -- The routes. `arrival` is the time that `check_rate` reads, `now` and `later` are those of `add`
  -- and `remove`.
  unfoldable pub route :
      Config
      → AcmeRecords
      → ℕ
      → ℕ
      → ℕ
      → HttpRequest ax.Body
      → RequestGate f.F64
      → ZoneState
      → Endpoint
      → Response × (RequestGate f.F64 × ZoneState)
  route config acme arrival now later request gate s health_endpoint = (health config, (gate, s))
  route config acme arrival now later request gate s present_endpoint =
      authorize_and_admit f k config request.authorization arrival
        (with_body (present config acme now later) request.body) gate s
  route config acme arrival now later request gate s cleanup_endpoint =
      authorize_and_admit f k config request.authorization arrival
        (with_body (cleanup config now) request.body) gate s
  route config acme arrival now later request gate s other_method =
      authorize_and_admit f k config request.authorization arrival
        (λ t. (ax.unmatched request.method request.path request.body, t)) gate s
  route config acme arrival now later request gate s no_endpoint =
      (ax.unmatched request.method request.path request.body, (gate, s))

  unfoldable pub dispatch :
      Config
      → AcmeRecords
      → ℕ
      → ℕ
      → ℕ
      → HttpRequest ax.Body
      → RequestGate f.F64
      → ZoneState
      → Response × (RequestGate f.F64 × ZoneState)
  unfolding route
  dispatch config acme arrival now later request gate s =
      route config acme arrival now later request gate s (endpoint request.method request.path)
