-- ===== src/Suite/ApiLibrary.antt =====
-- Stand-ins for the libraries of the HTTP API that its unit tests run with.
use safexip.Prelude.{
  ℕ, ◌+◌, ◌-◌, ◌*◌, ◌/◌, ◌%◌, Bool, Option, none, some, [], ◌∷◌, ◌&&◌, ◌==◌, ok, err, Result, ltb,
  leb, if◌then◌else◌, length,
}
use safexip.Text.{Text, codes, text_eq}
use safexip.Hickory.{Hickory, Bytes}
use safexip.Wire.{◌>>=◌}
use safexip.Api.{PresentRequest, Response, split_once, empty_object}
use safexip.Api.Router.{Axum}
use safexip.Suite.ApiFixtures.{Libraries}
use safexip.Tests.Gate.{numbers}

-- In the place of base64, a byte is two letters from a to p.
abbrev pub encode : Bytes → Bytes
encode [] = []
encode (c ∷ s) = (b'a' + c / 16) ∷ (b'a' + c % 16) ∷ encode s

abbrev is_letter : ℕ → Bool
is_letter c = leb b'a' c && leb c b'p'

abbrev pub decode : Bytes → Option Bytes
decode [] = some []
decode (c ∷ []) = none
decode (c ∷ d ∷ s) = do
  rest ← decode s
  if is_letter c && is_letter d then some (((c - b'a') * 16 + (d - b'a')) ∷ rest) else none

abbrev strip_prefix : Text → Text → Option Text
strip_prefix [] s = some s
strip_prefix (c ∷ prefix) [] = none
strip_prefix (c ∷ prefix) (d ∷ s) =
    let rest = strip_prefix prefix s in if c == d then rest else none

-- The object with the two fields in their order, and no escapes.
unfoldable pub from_json : Text → Option PresentRequest
unfolding split_once text_eq
from_json s = do
  from_fqdn ← strip_prefix (codes "{\"fqdn\":\"") s
  (fqdn, after_fqdn) ← split_once b'"' from_fqdn
  from_value ← strip_prefix (codes ",\"value\":\"") after_fqdn
  (value, after_value) ← split_once b'"' from_value
  if text_eq after_value (codes "}") then some (record { fqdn = fqdn; value = value }) else none

abbrev pub status_only : ℕ → Response
status_only status = record { status = status; headers = []; body = empty_object }

abbrev pub json_or_reject : Option PresentRequest → Result Response PresentRequest
json_or_reject none = err (status_only 400)
json_or_reject (some r) = ok r

-- A body is its text, or it never comes.
abbrev pub text_length : Option Text → ℕ
text_length none = 0
text_length (some body) = length body

abbrev pub extracted : ℕ → Option Text → Result Response PresentRequest
extracted limit none = err (status_only 408)
extracted limit (some body) =
    if ltb limit (length body) then err (status_only 413) else json_or_reject (from_json body)

abbrev pub suite_axum : Axum
suite_axum = record {
  Body = Option Text;
  body_length = text_length;
  extract = λ limit timeout body. extracted limit body;
  unmatched = λ method path body. status_only 404;
}

abbrev pub libraries : Hickory → Libraries
libraries h = record {
  hickory = h;
  float = numbers;
  codecs = record { decode = decode; ct_eq = text_eq };
  axum = suite_axum;
  encode = encode;
  from_text = λ body. some body;
  from_stream = λ body. some body;
  pending = none;
}
