-- ===== src/Config/Configured.antt =====
-- src/config.rs: what holds of a configuration that comes from the arguments.
use safexip.Prelude.{ℕ, ◌≤◌, ◌<◌, Option, none, some, ◌≡◌, refl, length, Result, ok, err, String}
use mathlib.Core.Path.{subst}
use safexip.Text.{Text}
use safexip.Config.{Config}
use safexip.Config.Values.{
  ValueError, parse_dns_name, parse_api_key, parse_max_tokens, IsNormalized,
  parse_dns_name-IsNormalized, parse_limits, min_api_key_len,
}
use safexip.Hickory.{Hickory}
use safexip.Xip.Parse.{IsIpv4}
use safexip.Config.Args.{
  Clap, HasRanges, Args, ◌>>=◌, value_or, or_invalid, or_rejected, name_arg, number_arg, from_args,
}

module _ (h : Hickory) (c : Clap) where
  -- What the rest of the program can rely on.
  pub record IsConfigured (config : Config) : Type 0 where
    pub domain_normalized : IsNormalized h config.domain
    pub ns_hostname_normalized : IsNormalized h config.ns_hostname
    pub ns_hostname2_normalized : IsNormalized h config.ns_hostname2
    pub ports_u16 : (config.dns_port ≤ 65535) × (config.api_port ≤ 65535)
    pub ports_positive : (0 < config.dns_port) × (0 < config.api_port)
    pub ns_ip_octets : IsIpv4 config.ns_ip
    pub key_length : min_api_key_len ≤ length config.api_key
    pub txt_ttl_range : (0 < config.txt_ttl) × (config.txt_ttl ≤ 86400)
    pub default_ttl_range : (0 < config.default_ttl) × (config.default_ttl ≤ 86400)
    pub lifetime_range : (0 < config.token_lifetime) × (config.token_lifetime ≤ 86400)
    pub some_token : 0 < config.max_tokens

-- The value of a result, if it has one, satisfies the predicate.
AllOk {ℓ κ μ} : {E : Type ℓ} {A : Type κ} → (A → Type μ) → Result E A → Type μ
AllOk P (err e) = Unit
AllOk P (ok a) = P a

bind-AllOk {ℓ κ μ ν ξ} :
    {E : Type ℓ} {A : Type κ} {B : Type μ} {P : A → Type ν} (Q : B → Type ξ) (x : Result E A)
    (f : A → Result E B)
    → AllOk P x
    → ((a : A) → P a → AllOk Q (f a))
    → AllOk Q (x >>= f)
unfolding AllOk ◌>>=◌
bind-AllOk Q (err e) f all h = tt
bind-AllOk Q (ok a) f all h = h a all

AllOk-ok {ℓ κ μ} :
    {E : Type ℓ} {A : Type κ} (P : A → Type μ) (r : Result E A) (a : A) → AllOk P r → r ≡ ok a → P a
unfolding AllOk
AllOk-ok {E} P r a all e = subst (AllOk {E = E} P) e all

or_rejected-AllOk {ℓ κ} :
    {E : Type 0} {A : Type ℓ} {P : A → Type κ} (flag : String) (r : Result (ValueError E) A)
    → ((a : A) → r ≡ ok a → P a)
    → AllOk P (or_rejected flag r)
unfolding AllOk
or_rejected-AllOk flag (err e) h = tt
or_rejected-AllOk flag (ok a) h = h a refl

or_invalid-AllOk {ℓ κ} :
    (E : Type 0) {A : Type ℓ} {P : A → Type κ} (flag : String) (o : Option A)
    → ((a : A) → o ≡ some a → P a)
    → AllOk P (or_invalid {E = E} flag o)
unfolding AllOk
or_invalid-AllOk E flag none h = tt
or_invalid-AllOk E flag (some a) h = h a refl

-- Where nothing is asked of the value.
any-AllOk {ℓ κ} : {E : Type ℓ} {A : Type κ} (r : Result E A) → AllOk (λ a. Unit {0}) r
unfolding AllOk
any-AllOk (err e) = tt
any-AllOk (ok a) = tt

module _ (h : Hickory) (c : Clap) (ranges : HasRanges c) where
  name_arg-AllOk :
      (flag : String) (raw : Option Text) (default_value : String)
      → AllOk (IsNormalized h) (name_arg h c flag raw default_value)
  name_arg-AllOk flag raw default_value =
      let value = value_or raw default_value in
      or_rejected-AllOk flag (parse_dns_name h value)
        (λ name e. (parse_dns_name-IsNormalized h value name e).0)

  number_arg-AllOk :
      (flag : String) (low high : ℕ) (raw : Option Text) (default_value : String)
      → AllOk (λ n. (low ≤ n) × (n ≤ high)) (number_arg h c flag low high raw default_value)
  number_arg-AllOk flag low high raw default_value =
      let value = value_or raw default_value in
      or_invalid-AllOk h.NameError flag (c.ranged low high value) (ranges.in_range low high value)

  api_key-AllOk :
      (raw : Text)
      → AllOk
          (λ key. min_api_key_len ≤ length key)
          (or_rejected "api-key" (parse_api_key {E = h.NameError} raw))
  api_key-AllOk raw =
      or_rejected-AllOk "api-key" (parse_api_key raw)
        (λ key e. ((parse_limits {E = h.NameError} raw key 0).0 e).1)

  max_tokens-AllOk :
      (raw : Text)
      → AllOk (λ n. 0 < n) (or_rejected "max-tokens" (parse_max_tokens {E = h.NameError} raw))
  max_tokens-AllOk raw =
      or_rejected-AllOk "max-tokens" (parse_max_tokens raw)
        (λ n e. ((parse_limits {E = h.NameError} raw raw n).1 e).0)

  from_args-AllOk : (args : Args) → AllOk (IsConfigured h c) (from_args h c args)
  unfolding from_args AllOk
  from_args-AllOk args =
      let Q = IsConfigured h c in
      bind-AllOk Q _ _ (name_arg-AllOk "domain" args.domain "xip.example.com") λ domain d.
        bind-AllOk Q _ _ (name_arg-AllOk "ns-hostname" args.ns_hostname "ns1.xip.example.com")
          λ ns1 n1.
            bind-AllOk Q _ _ (name_arg-AllOk "ns-hostname2" args.ns_hostname2 "ns2.xip.example.com")
              λ ns2 n2. bind-AllOk Q _ _ (any-AllOk _) λ dns_bind p.
                bind-AllOk Q _ _ (number_arg-AllOk "dns-port" 1 65535 args.dns_port "53")
                  λ dns_port (dp1, dp2). bind-AllOk Q _ _ (any-AllOk _) λ api_bind q.
                    bind-AllOk Q _ _ (number_arg-AllOk "api-port" 1 65535 args.api_port "8080")
                      λ api_port (ap1, ap2).
                        bind-AllOk Q _ _
                          (or_invalid-AllOk h.NameError "ns-ip" _
                            (ranges.octets (value_or args.ns_ip "127.0.0.1")))
                          λ ns_ip ip. bind-AllOk Q _ _ (any-AllOk _) λ raw_key r.
                            bind-AllOk Q _ _ (api_key-AllOk raw_key) λ api_key key.
                              bind-AllOk Q _ _
                                (number_arg-AllOk "txt-ttl" 1 86400 args.txt_ttl "60")
                                λ txt_ttl xt.
                                  bind-AllOk Q _ _
                                    (number_arg-AllOk "default-ttl" 1 86400 args.default_ttl "60")
                                    λ default_ttl dt.
                                      bind-AllOk Q _ _
                                        (number_arg-AllOk "token-lifetime" 1 86400
                                          args.token_lifetime "600")
                                        λ lifetime tl.
                                          bind-AllOk Q _ _
                                            (max_tokens-AllOk (value_or args.max_tokens "100"))
                                            λ max_tokens mt. record {
                                              domain_normalized = d;
                                              ns_hostname_normalized = n1;
                                              ns_hostname2_normalized = n2;
                                              ports_u16 = (dp2, ap2);
                                              ports_positive = (dp1, ap1);
                                              ns_ip_octets = ip;
                                              key_length = key;
                                              txt_ttl_range = xt;
                                              default_ttl_range = dt;
                                              lifetime_range = tl;
                                              some_token = mt;
                                            }

  -- If what clap accepts is in the stated range and an address has four octets: a configuration
  -- that comes from the arguments has three normalized names, ports from 1 to 65535, an address of
  -- four octets, a key of at least 32 bytes, times to live and a token lifetime from 1 to 86400,
  -- and a token limit that is not 0.
  pub from_args-IsConfigured :
      (args : Args) (config : Config) → from_args h c args ≡ ok config → IsConfigured h c config
  from_args-IsConfigured args config e =
      AllOk-ok (IsConfigured h c) (from_args h c args) config (from_args-AllOk args) e
