-- ===== src/Config/Validate.antt =====
-- `Config::validate`. `none` is a panic.
use safexip.Prelude.{
  ℕ, ◌≤◌, ◌<◌, Bool, true, false, not, ◌&&◌, Option, none, some, ◌∷◌, ◌++◌, ◌≡◌, ◌≢◌, refl, ap, ◌∙◌,
  arith, if◌then◌else◌, ltb, Result, ok, err, is_ok, Option-cases, Bool-cases, inl, inr,
}
use safexip.Text.{Text, codes, text_eq, ends_with, to_lowercase}
use safexip.Text.Laws.{text_eq_iff, ends_with_sound, to_lowercase-append, ends_with-append}
use safexip.Config.{Config, acme_name}
use safexip.Hickory.{Hickory}
use safexip.Wire.{from_config, maximum_token_count, AcmeWireCapacity, fits_count, or_panic}
use safexip.Wire.Search
use safexip.Wire.Maximum.{maximum_token_count_lem}
use safexip.Xip.{is_our_domain}

pub data ConfigError (E : Type 0) : Type 0 where
  same_nameservers : ConfigError E
  nameserver_outside : Text → Text → ConfigError E
  invalid_derived_name : Text → E → ConfigError E
  token_limit : ℕ → ConfigError E

-- The test of the loop over the nameservers.
unfoldable pub is_outside : Config → Text → Bool
is_outside config ns =
    not (text_eq ns config.domain) && not (ends_with ns (codes "." ++ config.domain))

module _ (h : Hickory) where
  abbrev check_limit :
      Config
      → Option (AcmeWireCapacity h.Name)
      → Option (Result (ConfigError h.NameError) (Unit {0}))
  check_limit config none = none
  check_limit config (some capacity) = elim (maximum_token_count h capacity) [
    | none ↦ none
    | some wire_max ↦
        if ltb wire_max config.max_tokens then some (err (token_limit wire_max)) else some (ok tt)
  ]

  unfoldable pub validate : Config → Option (Result (ConfigError h.NameError) (Unit {0}))
  validate config =
      let admin = codes "admin." ++ config.domain in
      if text_eq config.ns_hostname config.ns_hostname2
      then some (err same_nameservers)
      else if is_outside config config.ns_hostname
      then some (err (nameserver_outside config.ns_hostname config.domain))
      else if is_outside config config.ns_hostname2
      then some (err (nameserver_outside config.ns_hostname2 config.domain))
      else elim (h.from_ascii (acme_name config)) [
        | err e ↦ some (err (invalid_derived_name (acme_name config) e))
        | ok _ ↦ elim (h.from_ascii admin) [
          | err e ↦ some (err (invalid_derived_name admin e))
          | ok _ ↦ check_limit config (from_config h config)
        ]
      ]

  -- What a valid configuration promises to the rest of the program.
  pub record IsValidated (config : Config) : Type 0 where
    pub capacity : AcmeWireCapacity h.Name
    pub wire_max : ℕ
    pub distinct_nameservers : config.ns_hostname ≢ config.ns_hostname2
    pub first_in_zone : is_our_domain config.ns_hostname config.domain ≡ true
    pub second_in_zone : is_our_domain config.ns_hostname2 config.domain ≡ true
    pub acme_name_parses : is_ok (h.from_ascii (acme_name config)) ≡ true
    pub admin_name_parses : is_ok (h.from_ascii (codes "admin." ++ config.domain)) ≡ true
    pub has_capacity : from_config h config ≡ some capacity
    pub has_maximum : maximum_token_count h capacity ≡ some wire_max
    pub within_capacity : config.max_tokens ≤ wire_max

to_lowercase-dot_cons : (s : Text) → to_lowercase (codes "." ++ s) ≡ b'.' ∷ to_lowercase s
unfolding to_lowercase
to_lowercase-dot_cons s = refl

-- A nameserver that `validate` takes for inside is in the zone that the DNS handler serves.
not_outside-is_our_domain :
    (config : Config) (ns : Text)
    → is_outside config ns ≡ false
    → is_our_domain ns config.domain ≡ true
unfolding is_outside is_our_domain
not_outside-is_our_domain config ns e = elim (Bool-cases (text_eq ns config.domain)) [
  | inl same ↦ ground (
    arith,
    text_eq_iff (to_lowercase ns) (to_lowercase config.domain),
    ap to_lowercase ((text_eq_iff ns config.domain).0 same),
  )
  | inr other ↦
      let (p, e') = ends_with_sound ns (codes "." ++ config.domain) (ground arith) in
      let zone = b'.' ∷ to_lowercase config.domain in
      let suffix =
        ap to_lowercase e'
        ∙ to_lowercase-append p (codes "." ++ config.domain)
        ∙ ap (λ t. to_lowercase p ++ t) (to_lowercase-dot_cons config.domain) in
      let found : (ends_with (to_lowercase ns) zone ≡ true) =
        ap (λ (t : Text). ends_with t zone) suffix ∙ ends_with-append (to_lowercase p) zone in
      ground arith
]

or_panic-true : (x : Option Bool) → or_panic x ≡ true → x ≡ some true
or_panic-true none e = absurd (ground arith)
or_panic-true (some b) e = ap some e

module _ (h : Hickory) where
  -- What `validate` accepts has two nameservers that differ and lie in the zone that the DNS
  -- handler serves, derived names that parse, a wire capacity, and a token limit within the
  -- calculated maximum.
  pub validate-IsValidated :
      (config : Config) → validate h config ≡ some (ok tt) → IsValidated h config
  unfolding validate
  validate-IsValidated config e = elim (Option-cases (from_config h config)) [
    | inl x ↦ absurd (ground arith)
    | inr (capacity, x) ↦ elim (Option-cases (maximum_token_count h capacity)) [
      | inl y ↦ absurd (ground arith)
      | inr (wire_max, y) ↦ record {
        capacity = capacity;
        wire_max = wire_max;
        distinct_nameservers = ground (arith, text_eq_iff config.ns_hostname config.ns_hostname2);
        first_in_zone = not_outside-is_our_domain config config.ns_hostname (ground arith);
        second_in_zone = not_outside-is_our_domain config config.ns_hostname2 (ground arith);
        acme_name_parses = ground arith;
        admin_name_parses = ground arith;
        has_capacity = x;
        has_maximum = y;
        within_capacity = ground arith;
      }
    ]
  ]

  -- With a validated configuration, every count of one-byte tokens from 1 to the token limit fits
  -- into one response, without a panic. It is assumed that a smaller count of such tokens fits
  -- wherever a larger one does.
  pub validated_tokens_fit :
      (config : Config) (valid : IsValidated h config) (n : ℕ)
      → ((a b : ℕ)
          → a ≤ b
          → or_panic (fits_count h valid.capacity b) ≡ true
          → or_panic (fits_count h valid.capacity a) ≡ true)
      → 0 < n
      → n ≤ config.max_tokens
      → fits_count h valid.capacity n ≡ some true
  validated_tokens_fit config valid n monotone positive small =
      let test = λ (n : ℕ). or_panic (fits_count h valid.capacity n) in
      let within = valid.within_capacity in
      let found = maximum_token_count_lem h valid.capacity valid.wire_max valid.has_maximum in
      let (bounded, _, _) = Search.maximum_boundary test in
      let exact = Search.maximum_exact test monotone n positive in
      or_panic-true (fits_count h valid.capacity n) (ground (arith, exact))
