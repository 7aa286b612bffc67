-- ===== src/Suite/Fixtures.antt =====
-- What the unit tests share: the configuration, the records, and small tests on values.
use safexip.Prelude.{
  ℕ, ◌+◌, ◌*◌, ◌/◌, ◌%◌, ◌^◌, replicate, Bool, true, false, Option, none, some, List, [], ◌∷◌, ◌&&◌,
  ok, err, Result,
}
use safexip.Text.{Text, codes, text_eq}
use safexip.Config.{Config, v4}
use safexip.Hickory.{Hickory}
use safexip.State.{AcmeRecords, ZoneState, AddError, new, with_serial, add}
use safexip.Wire.{from_config, ◌>>=◌}
use safexip.Main.Startup.{wire_test}

-- `Config` as the tests make it.
abbrev pub make_config : Config
make_config = record {
  domain = codes "xip.test";
  ns_hostname = codes "ns1.xip.test";
  ns_hostname2 = codes "ns2.xip.test";
  dns_bind = v4 0 0 0 0;
  dns_port = 53;
  api_bind = v4 127 0 0 1;
  api_port = 8080;
  ns_ip = record { first = 127; second = 0; third = 0; fourth = 1 };
  api_key = codes "0123456789abcdef0123456789abcdef";
  txt_ttl = 60;
  default_ttl = 60;
  token_lifetime = 600;
  max_tokens = 100;
}

-- `Duration::from_secs` and `Duration::from_millis`
abbrev pub from_secs : ℕ → ℕ
from_secs n = n * 10 ^ 9

abbrev pub from_millis : ℕ → ℕ
from_millis n = n * 10 ^ 6

-- A test passes if it comes to its end, with all its assertions.
abbrev pub passes : Option Bool → Bool
passes none = false
passes (some b) = b

-- `AcmeRecords::new` with the capacity of the configuration.
abbrev pub new_records : Hickory → ℕ → ℕ → Option (AcmeRecords × ZoneState)
new_records h lifetime max_tokens = do
  capacity ← from_config h make_config
  some (new lifetime max_tokens (wire_test h capacity) 1_700_000_000)

abbrev pub records_with_serial : Hickory → ℕ → ℕ → ℕ → Option (AcmeRecords × ZoneState)
records_with_serial h lifetime max_tokens serial = do
  capacity ← from_config h make_config
  some (with_serial lifetime max_tokens (wire_test h capacity) serial)

abbrev unwrapped : Result AddError (Unit {0}) × ZoneState → Option ZoneState
unwrapped (ok _, s) = some s
unwrapped (err e, s) = none

-- `acme.add(name, value).await.unwrap()`
abbrev pub add_ok : AcmeRecords → ℕ → Text → Text → ZoneState → Option ZoneState
add_ok acme now name value s = unwrapped (add acme now now name value s)

abbrev pub texts_eq : List Text → List Text → Bool
texts_eq [] [] = true
texts_eq [] (t ∷ ts) = false
texts_eq (s ∷ ss) [] = false
texts_eq (s ∷ ss) (t ∷ ts) = let rest = texts_eq ss ts in text_eq s t && rest

abbrev pub all_pass : {A : Type 0} → (A → Bool) → List A → Bool
all_pass p [] = true
all_pass p (x ∷ xs) = let rest = all_pass p xs in p x && rest

-- `format!("{n:02}…")` and `format!("{n:04}…")`, with `rest` behind the digits.
abbrev pub two_digits : ℕ → Text → Text
two_digits n rest = (48 + n / 10 % 10) ∷ (48 + n % 10) ∷ rest

abbrev pub four_digits : ℕ → Text → Text
four_digits n rest = (48 + n / 1000 % 10) ∷ (48 + n / 100 % 10) ∷ two_digits n rest

-- `"x".repeat(n)`
abbrev pub xs : ℕ → Text
xs n = replicate n b'x'
