-- ===== src/Tests/Outside.antt =====
-- Stand-ins for clap and axum that satisfy their laws, and arguments that give the configuration.
use safexip.Prelude.{
  ℕ, ◌≤◌, ◌&&◌, none, some, ◌≡◌, refl, arith, if◌then◌else◌, Option, ok, err, leb,
}
use safexip.Text.{Text, codes, text_eq, to_lowercase, trim_end, parse_unsigned, parse_digits}
use safexip.Config.{v4, Ipv4Addr}
use safexip.Config.Args.{Clap, HasRanges, Args, from_args, ◌>>=◌}
use safexip.Config.Values.{usize_max, parse_dns_name, parse_api_key, parse_max_tokens}
use safexip.Xip.Parse.{IsIpv4}
use safexip.Api.{PresentRequest, bad_request}
use safexip.Api.Router.{Axum, HasLimit}
use safexip.Tests.Fixtures.{small_config, small_hickory}

abbrev in_range : ℕ → ℕ → Option ℕ → Option ℕ
in_range low high none = none
in_range low high (some n) = if leb low n && leb n high then some n else none

-- Of the addresses, it knows one.
abbrev pub small_clap : Clap
small_clap = record {
  ranged = λ low high raw. in_range low high (parse_unsigned usize_max raw);
  parse_ip = λ raw.
      if text_eq raw (codes "0.0.0.0")
      then some (v4 0 0 0 0)
      else if text_eq raw (codes "127.0.0.1")
      then some (v4 127 0 0 1)
      else none;
  parse_ipv4 = λ raw. if text_eq raw (codes "203.0.113.1") then some small_config.ns_ip else none;
}

in_range_bounds :
    (low high n : ℕ) (o : Option ℕ) → in_range low high o ≡ some n → (low ≤ n) × (n ≤ high)
in_range_bounds low high n none e = absurd (ground arith)
in_range_bounds low high n (some m) e = ground arith

small_octets : IsIpv4 small_config.ns_ip
small_octets = record {
  first_u8 = omega arith;
  second_u8 = omega arith;
  third_u8 = omega arith;
  fourth_u8 = omega arith;
}

small_ipv4 :
    (raw : Text) (ip : Ipv4Addr) → small_clap.parse_ipv4 raw ≡ some ip → ip ≡ small_config.ns_ip
small_ipv4 raw ip e = ground arith

pub small_clap-HasRanges : HasRanges small_clap
small_clap-HasRanges = record {
  in_range = λ low high raw n e. in_range_bounds low high n (parse_unsigned usize_max raw) e;
  octets = λ raw ip e. rw (small_ipv4 raw ip e) small_octets;
}

-- Some flags are given, and the others have their default.
abbrev pub small_args : Args
small_args = record {
  domain = some (codes "X.io.");
  ns_hostname = some (codes "ns1.x.io");
  ns_hostname2 = some (codes "ns2.x.io.");
  dns_bind = none;
  dns_port = none;
  api_bind = none;
  api_port = none;
  ns_ip = some (codes "203.0.113.1");
  api_key = some small_config.api_key;
  txt_ttl = none;
  default_ttl = some (codes "3600");
  token_lifetime = some (codes "100");
  max_tokens = some (codes "1");
}

pub configured : from_args small_hickory small_clap small_args ≡ ok small_config
unfolding from_args ◌>>=◌ parse_dns_name parse_api_key parse_max_tokens to_lowercase trim_end
    text_eq parse_unsigned parse_digits
configured = refl

-- A body is a length and a request, and it is refused where it is too long.
abbrev pub small_axum : Axum
small_axum = record {
  Body = ℕ × PresentRequest;
  body_length = λ body. body.0;
  extract = λ limit timeout body. if leb body.0 limit then ok body.1 else err (bad_request "");
  unmatched = λ method path body. bad_request "";
}

pub small_axum-HasLimit : HasLimit small_axum
small_axum-HasLimit limit timeout body r e = ground arith
