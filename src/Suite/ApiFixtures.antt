-- ===== src/Suite/ApiFixtures.antt =====
-- src/api.rs: the helpers of the unit tests. A router is the records and the state behind it; every
-- request arrives at the start of the test. The header `content-type` is in no request of the
-- model, for only the extractor reads it.
use safexip.Prelude.{
  ℕ, Bool, Option, some, List, [], ◌∷◌, ◌++◌, ◌&&◌, ◌||◌, String, ltb, ◌+◌, if◌then◌else◌, false,
}
use safexip.Text.{Text, codes, text_eq}
use safexip.Config.{Config, v4}
use safexip.Hickory.{Hickory, Bytes}
use safexip.State.{AcmeRecords, ZoneState, get}
use safexip.Wire.{◌>>=◌}
use safexip.Api.{Float, Codecs, RequestGate, Response, new_gate, router_gate}
use safexip.Api.Router.{Axum, HttpRequest, dispatch}
use safexip.Suite.Fixtures.{make_config, new_records, from_secs, two_digits}

-- The libraries of the program, and what the tests alone use of them: the encoding of base64, and
-- how a body is made from a text, or from a stream of one part, or from one that never
-- gives a part.
pub record Libraries : Type 1 where
  pub hickory : Hickory
  pub float : Float
  pub codecs : Codecs
  pub axum : Axum
  pub encode : Bytes → Bytes
  pub from_text : Text → axum.Body
  pub from_stream : Text → axum.Body
  pub pending : axum.Body

pub record App (F64 : Type 0) : Type 0 where
  pub records : AcmeRecords
  pub gate : RequestGate F64
  pub zone : ZoneState

abbrev pub key : Text
key = codes "0123456789abcdef0123456789abcdef"

abbrev pub config : Config
config = record make_config {
  dns_bind = v4 127 0 0 1;
  dns_port = 5353;
  api_key = key;
  max_tokens = 10;
}

abbrev pub json : Text → Text → Text
json fqdn value = codes "{\"fqdn\":\"" ++ fqdn ++ codes "\",\"value\":\"" ++ value ++ codes "\"}"

abbrev pub token : Text → Text
token value = json (codes "_acme-challenge.xip.test.") value

-- `format!("token-{index}")`, below 100.
abbrev pub token_number : ℕ → Text
token_number index =
    codes "token-" ++ (if ltb index 10 then (b'0' + index) ∷ [] else two_digits index [])

abbrev pub has_header : String → String → Response → Bool
has_header name value response = is_there response.headers
  where
    is_there : List (String × String) → Bool
    is_there [] = false
    is_there ((n, v) ∷ headers) =
        (text_eq (codes n) (codes name) && text_eq (codes v) (codes value)) || is_there headers

module _ (l : Libraries) where
  open l use {hickory, float, codecs, axum, encode, from_text}

  -- `router_with_limits`, with the records of a limit.
  abbrev pub limited_app : ℕ → ℕ → ℕ → ℕ → Option (App float.F64)
  limited_app max_tokens max_concurrent rate burst = do
    (records, zone) ← new_records hickory (from_secs 60) max_tokens
    some (record {
      records = records;
      gate = new_gate float max_concurrent (float.of_usize rate) burst 0;
      zone = zone;
    })

  -- `router`, with the records of a limit.
  abbrev pub app_of : ℕ → Option (App float.F64)
  app_of max_tokens = do
    (records, zone) ← new_records hickory (from_secs 60) max_tokens
    some (record { records = records; gate = router_gate float config 0; zone = zone })

  abbrev pub app : Option (App float.F64)
  app = app_of 10

  abbrev pub request : Text → Option Bytes → Text → HttpRequest axum.Body
  request path authorization body = record {
    method = codes "POST";
    path = path;
    authorization = authorization;
    body = from_text body;
  }

  abbrev pub auth : Text → Bytes
  auth password = codes "Basic " ++ encode (codes "user:" ++ password)

  abbrev pub oneshot : HttpRequest axum.Body → App float.F64 → Response × App float.F64
  oneshot req a =
      let (response, (gate, zone)) =
        dispatch float codecs axum config a.records 0 0 0 req a.gate a.zone in
      (response, record a { gate = gate; zone = zone })

  -- A request to `/present` with the key.
  abbrev pub presents : Text → App float.F64 → Response × App float.F64
  presents body a = oneshot (request (codes "/present") (some (auth key)) body) a

  -- `records.get("_acme-challenge.xip.test")`
  abbrev pub values_of : App float.F64 → List Text
  values_of a = (get 0 (codes "_acme-challenge.xip.test") a.zone).0
