-- ===== src/Api.antt =====
-- src/api.rs: the HTTP API, from the router's middleware on. A request comes with what the axum router
-- and extractors make of it; JSON, base64 and the constant-time comparison are parameters.
pub mod Utf8
pub mod Auth
pub mod Gate
pub mod Handlers
pub mod Window
pub mod Client
pub mod Promises
pub mod Holds
pub mod Admission
pub mod Router
pub mod Allowed
use safexip.Prelude.{
  ℕ, zero, suc, ◌-◌, ◌*◌, ◌^◌, max, min, Bool, true, false, not, ◌||◌, Option, none, some, List, [],
  ◌∷◌, String, ltb, ◌==◌, if◌then◌else◌, length, Result, ok, err,
}
use safexip.Text.{Text, codes, text_eq, to_lowercase, trim_end}
use safexip.Config.{Config, acme_name}
use safexip.State.{
  AcmeRecords, ZoneState, AddError, token_limit_reached, dns_wire_capacity_reached, add, remove,
}
use safexip.Hickory.{Bytes}
use Utf8.{is_utf8}

abbrev pub max_txt_value_len : ℕ
max_txt_value_len = 255

abbrev pub max_concurrent_requests : ℕ
max_concurrent_requests = 64

abbrev pub request_rate_burst : ℕ
request_rate_burst = 100

-- `f64`, with the operations that the token bucket uses. `as_secs_f64` converts a duration.
pub record Float : Type 1 where
  pub F64 : Type 0
  pub of_usize : ℕ → F64
  pub as_secs_f64 : ℕ → F64
  pub add : F64 → F64 → F64
  pub sub : F64 → F64 → F64
  pub mul : F64 → F64 → F64
  pub minimum : F64 → F64 → F64
  pub lt : F64 → F64 → Bool

pub record TokenBucket (F64 : Type 0) : Type 0 where
  pub tokens : F64
  pub last_refill : ℕ
  pub rate_per_second : F64
  pub burst : F64

-- `concurrency` is the number of permits that the semaphore has left.
pub record RequestGate (F64 : Type 0) : Type 0 where
  pub concurrency : ℕ
  pub rate : TokenBucket F64

module _ (f : Float) where
  open f use {F64, of_usize, as_secs_f64, add as addf, sub as subf, mul as mulf, minimum, lt}

  -- `RequestGate::new`; `now` is the `Instant::now()` in it.
  unfoldable pub new_gate : ℕ → F64 → ℕ → ℕ → RequestGate F64
  new_gate max_concurrent rate_per_second burst now = record {
    concurrency = max_concurrent;
    rate = record {
      tokens = of_usize burst;
      last_refill = now;
      rate_per_second = rate_per_second;
      burst = of_usize burst;
    };
  }

  -- What `router` takes: 20 requests per second, and a burst of 100, or of two requests for each
  -- token if these are more (`saturating_mul`).
  unfoldable pub router_gate : Config → ℕ → RequestGate F64
  unfolding new_gate
  router_gate config now =
      new_gate max_concurrent_requests (of_usize 20)
        (max request_rate_burst (min (config.max_tokens * 2) (2 ^ 64 - 1))) now

  -- `duration_since` is zero for an instant that is not in the past.
  unfoldable pub refill : ℕ → TokenBucket F64 → TokenBucket F64
  refill now bucket =
      let elapsed = as_secs_f64 (now - bucket.last_refill) in
      record bucket {
        tokens = minimum (addf bucket.tokens (mulf elapsed bucket.rate_per_second)) bucket.burst;
        last_refill = now;
      }

  unfoldable pub check_rate : ℕ → TokenBucket F64 → Bool × TokenBucket F64
  check_rate now bucket =
      let b = refill now bucket in
      if lt b.tokens (of_usize 1)
      then (false, b)
      else (true, record b { tokens = subf b.tokens (of_usize 1) })

-- `try_acquire_owned`: a permit, if one is left.
abbrev pub try_acquire : ℕ → Option ℕ
try_acquire zero = none
try_acquire (suc permits) = some permits

pub data ResponseBody : Type 0 where
  -- `{}`
  empty_object : ResponseBody
  -- `StatusResponse`
  status_body : String → Text → ResponseBody
  -- `ErrorResponse`
  error_body : String → ResponseBody

pub record Response : Type 0 where
  pub status : ℕ
  pub headers : List (String × String)
  pub body : ResponseBody

pub record PresentRequest : Type 0 where
  pub fqdn : Text
  pub value : Text

abbrev pub json_ok : ResponseBody → Response
json_ok body = record { status = 200; headers = []; body = body }

unfoldable pub error_response : ℕ → String → Response
error_response status msg = record { status = status; headers = []; body = error_body msg }

unfoldable pub bad_request : String → Response
unfolding error_response
bad_request msg = error_response 400 msg

unfoldable pub service_unavailable : String → Response
unfolding error_response
service_unavailable msg = error_response 503 msg

unfoldable pub unauthorized : String → Response
unfolding error_response
unauthorized msg = record (error_response 401 msg) {
  headers = ("www-authenticate", "Basic realm=\"safexip\", charset=\"UTF-8\"") ∷ [];
}

unfoldable pub rate_limited : Response
unfolding error_response
rate_limited = record (error_response 429 "request rate limit reached") {
  headers = ("retry-after", "1") ∷ [];
}

unfoldable pub health : Config → Response
health config = json_ok (status_body "ok" config.domain)

abbrev pub is_empty {ℓ} : {A : Type ℓ} → List A → Bool
is_empty [] = true
is_empty (x ∷ xs) = false

unfoldable pub validate_request : PresentRequest → Config → Result Response Text
validate_request body config =
    let name = to_lowercase (trim_end b'.' body.fqdn) in
    if not (text_eq name (acme_name config))
    then err (bad_request "fqdn is not this zone's ACME challenge name")
    else if is_empty body.value
    then err (bad_request "token must not be empty")
    else if ltb max_txt_value_len (length body.value)
    then err (bad_request "token exceeds the DNS TXT string limit")
    else ok name

unfoldable pub add_error_response : AddError → Response
add_error_response token_limit_reached = service_unavailable "active token limit reached"
add_error_response dns_wire_capacity_reached =
    service_unavailable "active TXT records have reached DNS TCP capacity"

abbrev pub respond_to_add : Result AddError (Unit {0}) → Response
respond_to_add (ok _) = json_ok empty_object
respond_to_add (err error) = add_error_response error

-- The times are those that `add` reads.
unfoldable pub present :
    Config → AcmeRecords → ℕ → ℕ → PresentRequest → ZoneState → Response × ZoneState
present config acme now later body s = elim (validate_request body config) [
  | err response ↦ (response, s)
  | ok name ↦ let (result, s') = add acme now later name body.value s in (respond_to_add result, s')
]

unfoldable pub cleanup : Config → ℕ → PresentRequest → ZoneState → Response × ZoneState
cleanup config now body s = elim (validate_request body config) [
  | err response ↦ (response, s)
  | ok name ↦ (json_ok empty_object, remove now name body.value s)
]

-- What the program takes from the crates base64 and subtle.
pub record Codecs : Type 0 where
  pub decode : Bytes → Option Bytes
  pub ct_eq : Bytes → Bytes → Bool

-- `s.split_once(d)`, and the split at the first byte `d`, without that byte.
unfoldable pub split_once : ℕ → Bytes → Option (Bytes × Bytes)
split_once d [] = none
split_once d (c ∷ s) =
    let rest = split_once d s in
    if c == d
    then some ([], s)
    else elim rest [ none ↦ none | some (before, after) ↦ some (c ∷ before, after) ]

unfoldable pub skip_spaces : Bytes → Bytes
skip_spaces [] = []
skip_spaces (c ∷ s) = if c == b' ' then skip_spaces s else c ∷ s

unfoldable pub has_space : Bytes → Bool
has_space [] = false
has_space (c ∷ s) = if c == b' ' then true else has_space s

module _ (k : Codecs) where
  -- From the decoded credentials on.
  unfoldable pub check_password : Config → Option Bytes → Result String (Unit {0})
  check_password config none = err "malformed Basic auth"
  check_password config (some decoded) =
      if not (is_utf8 decoded) then err "malformed Basic auth" else elim (split_once b':' decoded) [
        | none ↦ err "malformed Basic auth"
        | some (user, pass) ↦
            if k.ct_eq pass config.api_key then ok tt else err "invalid credentials"
      ]

  -- The first argument is the value of the header `Authorization`, if there is one.
  unfoldable pub check_basic_auth : Option Bytes → Config → Result String (Unit {0})
  check_basic_auth none config = err "missing Basic auth"
  check_basic_auth (some raw) config = elim (split_once b' ' raw) [
    | none ↦ err "malformed Basic auth"
    | some (scheme, rest) ↦
        let encoded = skip_spaces rest in
        if not (text_eq (to_lowercase scheme) (codes "basic"))
        then err "missing Basic auth"
        else if is_empty encoded || has_space encoded
        then err "malformed Basic auth"
        else check_password config (k.decode encoded)
  ]
