-- ===== src/Config.antt =====
-- src/config.rs: the configuration.
pub mod Values
pub mod Validate
pub mod Args
pub mod Configured
use safexip.Prelude.{◌*◌, ◌^◌, ℕ, ◌++◌}
use safexip.Text.{Text, codes}

pub data IpAddr : Type 0 where
  v4 : ℕ → ℕ → ℕ → ℕ → IpAddr
  -- the eight groups of an IPv6 address
  v6 : ℕ → ℕ → ℕ → ℕ → ℕ → ℕ → ℕ → ℕ → IpAddr

pub record Ipv4Addr : Type 0 where
  pub first : ℕ
  pub second : ℕ
  pub third : ℕ
  pub fourth : ℕ

pub record Config : Type 0 where
  pub domain : Text
  pub ns_hostname : Text
  pub ns_hostname2 : Text
  pub dns_bind : IpAddr
  pub dns_port : ℕ
  pub api_bind : IpAddr
  pub api_port : ℕ
  pub ns_ip : Ipv4Addr
  pub api_key : Text
  pub txt_ttl : ℕ
  pub default_ttl : ℕ
  pub token_lifetime : ℕ
  pub max_tokens : ℕ

-- `format!("_acme-challenge.{}", self.domain)`
unfoldable pub acme_name : Config → Text
acme_name config = codes "_acme-challenge." ++ config.domain

-- `Duration::from_secs(self.token_lifetime)`, in nanoseconds, the unit of all times.
unfoldable pub token_lifetime : Config → ℕ
token_lifetime config = config.token_lifetime * 10 ^ 9
