-- ===== src/Config/Args.antt =====
-- src/config.rs: the attributes of `Config`, that is, how the configuration comes from the texts of
-- the command line and the environment.
use safexip.Prelude.{ℕ, ◌≤◌, Option, none, some, ◌≡◌, Result, ok, err, String}
use safexip.Text.{Text, codes}
use safexip.Config.{Config, IpAddr, Ipv4Addr}
use safexip.Config.Values.{ValueError, parse_dns_name, parse_api_key, parse_max_tokens}
use safexip.Hickory.{Hickory}
use safexip.Xip.Parse.{IsIpv4}

-- What the program takes from clap and the standard library: `value_parser!(…).range(low..=high)`,
-- and the parsers of addresses.
pub record Clap : Type 0 where
  pub ranged : ℕ → ℕ → Text → Option ℕ
  pub parse_ip : Text → Option IpAddr
  pub parse_ipv4 : Text → Option Ipv4Addr

-- Documented: a number that is accepted is in the range, and an address has four octets.
pub record HasRanges (c : Clap) : Type 0 where
  pub in_range :
      (low high : ℕ) (raw : Text) (n : ℕ) → c.ranged low high raw ≡ some n → (low ≤ n) × (n ≤ high)
  pub octets : (raw : Text) (ip : Ipv4Addr) → c.parse_ipv4 raw ≡ some ip → IsIpv4 ip

-- The value of each argument, from its flag or its environment variable.
pub record Args : Type 0 where
  pub domain : Option Text
  pub ns_hostname : Option Text
  pub ns_hostname2 : Option Text
  pub dns_bind : Option Text
  pub dns_port : Option Text
  pub api_bind : Option Text
  pub api_port : Option Text
  pub ns_ip : Option Text
  pub api_key : Option Text
  pub txt_ttl : Option Text
  pub default_ttl : Option Text
  pub token_lifetime : Option Text
  pub max_tokens : Option Text

pub data ArgError (E : Type 0) : Type 0 where
  missing_value : String → ArgError E
  invalid_value : String → ArgError E
  rejected_value : String → ValueError E → ArgError E

infixl 5 ◌>>=◌
unfoldable pub ◌>>=◌ {ℓ κ μ} :
    {E : Type ℓ} {A : Type κ} {B : Type μ} → Result E A → (A → Result E B) → Result E B
ok a >>= f = f a
err e >>= f = err e

abbrev pub value_or : Option Text → String → Text
value_or none default_value = codes default_value
value_or (some raw) default_value = raw

abbrev pub or_invalid {ℓ} : {E : Type 0} {A : Type ℓ} → String → Option A → Result (ArgError E) A
or_invalid flag none = err (invalid_value flag)
or_invalid flag (some a) = ok a

abbrev pub or_rejected {ℓ} :
    {E : Type 0} {A : Type ℓ} → String → Result (ValueError E) A → Result (ArgError E) A
or_rejected flag (err e) = err (rejected_value flag e)
or_rejected flag (ok a) = ok a

abbrev required : {E : Type 0} → String → Option Text → Result (ArgError E) Text
required flag none = err (missing_value flag)
required flag (some raw) = ok raw

module _ (h : Hickory) (c : Clap) where
  abbrev pub name_arg : String → Option Text → String → Result (ArgError h.NameError) Text
  name_arg flag raw default_value = or_rejected flag (parse_dns_name h (value_or raw default_value))

  abbrev pub number_arg : String → ℕ → ℕ → Option Text → String → Result (ArgError h.NameError) ℕ
  number_arg flag low high raw default_value =
      or_invalid flag (c.ranged low high (value_or raw default_value))

  unfoldable pub from_args : Args → Result (ArgError h.NameError) Config
  from_args args = do
    domain ← name_arg "domain" args.domain "xip.example.com"
    ns_hostname ← name_arg "ns-hostname" args.ns_hostname "ns1.xip.example.com"
    ns_hostname2 ← name_arg "ns-hostname2" args.ns_hostname2 "ns2.xip.example.com"
    dns_bind ← or_invalid "dns-bind" (c.parse_ip (value_or args.dns_bind "0.0.0.0"))
    dns_port ← number_arg "dns-port" 1 65535 args.dns_port "53"
    api_bind ← or_invalid "api-bind" (c.parse_ip (value_or args.api_bind "127.0.0.1"))
    api_port ← number_arg "api-port" 1 65535 args.api_port "8080"
    ns_ip ← or_invalid "ns-ip" (c.parse_ipv4 (value_or args.ns_ip "127.0.0.1"))
    raw_key ← required "api-key" args.api_key
    api_key ← or_rejected "api-key" (parse_api_key raw_key)
    txt_ttl ← number_arg "txt-ttl" 1 86400 args.txt_ttl "60"
    default_ttl ← number_arg "default-ttl" 1 86400 args.default_ttl "60"
    token_lifetime ← number_arg "token-lifetime" 1 86400 args.token_lifetime "600"
    max_tokens ← or_rejected "max-tokens" (parse_max_tokens (value_or args.max_tokens "100"))
    ok (record {
      domain = domain;
      ns_hostname = ns_hostname;
      ns_hostname2 = ns_hostname2;
      dns_bind = dns_bind;
      dns_port = dns_port;
      api_bind = api_bind;
      api_port = api_port;
      ns_ip = ns_ip;
      api_key = api_key;
      txt_ttl = txt_ttl;
      default_ttl = default_ttl;
      token_lifetime = token_lifetime;
      max_tokens = max_tokens;
    })
