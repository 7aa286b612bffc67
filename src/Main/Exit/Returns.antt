-- ===== src/Main/Exit/Returns.antt =====
-- src/main.rs, `main`: it returns, and what it needs to return without an error.
use safexip.Prelude.{
  List, String, ℕ, true, false, ◌&&◌, some, ◌≡◌, ◌⊎◌, ◌↔◌, inl, inr, refl, ap, ◌∙◌, arith, Result,
  ok, err, is_some, is_ok, is_some-value, is_ok-value, Result-cases, Bool-cases, ◌++◌, [], ◌≢◌,
}
use safexip.Text.{Text, codes}
use safexip.Config.{Config, acme_name}
use safexip.Config.Args.{Clap, HasRanges, Args, ArgError, from_args}
use safexip.Config.Configured.{from_args-IsConfigured}
use safexip.Config.Validate.{ConfigError, validate, validate-IsValidated}
use safexip.State.{AcmeRecords, ZoneState}
use safexip.Hickory.{Hickory}
use safexip.Wire.{
  from_config, soa_record, maximum_token_count, fits_count, response, AcmeWireCapacity,
}
use safexip.Main.Startup.{start}
use safexip.Main.Exit.{
  Finished, udp_finished, tcp_finished, shut_down, api_finished, Sockets, bind_all, select_result,
  main,
}

-- Documented: the ASCII form of a parsed name is a text of that name, so that a label that can stand
-- in front of the text can stand in front of the form.
abbrev pub HasAscii : Hickory → Type 0
HasAscii h =
    (s : Text) (name : h.Name)
    → s ≢ []
    → h.from_ascii s ≡ ok name
    → is_ok (h.from_ascii (codes "admin." ++ s)) ≡ true
    → is_ok (h.from_ascii (codes "admin." ++ h.to_ascii name)) ≡ true

module _ (h : Hickory) where
  capacity-total :
      (config : Config)
      → is_ok (h.from_ascii (acme_name config)) ≡ true
      → is_ok (h.from_ascii config.domain) ≡ true
      → is_ok (h.from_ascii config.ns_hostname) ≡ true
      → (w : AcmeWireCapacity h.Name) × (from_config h config ≡ some w)
        × (h.from_ascii config.domain ≡ ok w.zone)
  unfolding from_config
  capacity-total config parses domain_parses ns_parses =
      let (acme, x) = is_ok-value (h.from_ascii (acme_name config)) parses in
      let (zone, y) = is_ok-value (h.from_ascii config.domain) domain_parses in
      let (ns, z) = is_ok-value (h.from_ascii config.ns_hostname) ns_parses in
      (
        record { acme_name = acme; zone = zone; ns_hostname = ns; txt_ttl = config.txt_ttl },
        ground arith,
        y,
      )

checked-total :
    (h : Hickory) (config : Config) (timestamp : ℕ)
    (checked : Result (ConfigError h.NameError) (Unit {0}))
    → validate h config ≡ some checked
    → is_some (start h config timestamp) ≡ true
unfolding start
checked-total h config timestamp (err e) x = ground arith
checked-total h config timestamp (ok _) x =
    let v = validate-IsValidated h config x in let has = v.has_capacity in ground arith

module _ (h : Hickory) (ascii : HasAscii h) where
  maximum-total :
      (w : AcmeWireCapacity h.Name) (s : Text)
      → s ≢ []
      → h.from_ascii s ≡ ok w.zone
      → is_ok (h.from_ascii (codes "admin." ++ s)) ≡ true
      → is_some (maximum_token_count h w) ≡ true
  unfolding maximum_token_count fits_count response soa_record
  maximum-total w s some_text zone admin = ground (arith, ascii s w.zone some_text zone admin)

  -- The checks of a configuration with names that parse do not panic.
  validate-total :
      (config : Config)
      → config.domain ≢ []
      → is_ok (h.from_ascii config.domain) ≡ true
      → is_ok (h.from_ascii config.ns_hostname) ≡ true
      → is_some (validate h config) ≡ true
  unfolding validate
  validate-total config some_domain domain_parses ns_parses =
      elim (Bool-cases (is_ok (h.from_ascii (acme_name config)))) [
        | inl parses ↦
            let (w, found, zone) = capacity-total h config parses domain_parses ns_parses in
            elim (Bool-cases (is_ok (h.from_ascii (codes "admin." ++ config.domain)))) [
              | inl admin ↦
                  let (n, most) =
                    is_some-value (maximum_token_count h w)
                      (maximum-total w config.domain some_domain zone admin) in
                  ground arith
              | inr no_admin ↦ ground arith
            ]
        | inr no_name ↦ ground arith
      ]

  start-total :
      (config : Config) (timestamp : ℕ)
      → config.domain ≢ []
      → is_ok (h.from_ascii config.domain) ≡ true
      → is_ok (h.from_ascii config.ns_hostname) ≡ true
      → is_some (start h config timestamp) ≡ true
  start-total config timestamp some_domain domain_parses ns_parses =
      let (checked, x) =
        is_some-value (validate h config)
          (validate-total config some_domain domain_parses ns_parses) in
      checked-total h config timestamp checked x

bind_all_ok :
    {E : Type 0} (sockets : Sockets) (finished : Finished)
    → (bind_all {E = E} sockets finished ≡ ok tt) ↔ (
        (sockets.udp && sockets.tcp && sockets.api ≡ true)
        × (((errors : List String) × (finished ≡ shut_down errors))
            ⊎ (finished ≡ api_finished true)))
unfolding bind_all select_result
bind_all_ok sockets udp_finished = (λ e. absurd (ground arith), λ (_, e). absurd (ground arith))
bind_all_ok sockets tcp_finished = (λ e. absurd (ground arith), λ (_, e). absurd (ground arith))
bind_all_ok sockets (api_finished false) =
    (λ e. absurd (ground arith), λ (_, e). absurd (ground arith))
bind_all_ok sockets (api_finished true) = (λ e. (ground arith, inr refl), λ (b, _). ground arith)
bind_all_ok sockets (shut_down errors) =
    (λ e. (ground arith, inl (errors, refl)), λ (b, _). ground arith)

module _ (h : Hickory) (c : Clap) (args : Args) (timestamp : ℕ) (sockets : Sockets)
    (finished : Finished) where
  -- The start succeeds, the sockets are bound, and what ends the program is no failure.
  pub record Succeeds : Type 0 where
    pub config : Config
    pub parts : AcmeRecords × ZoneState
    pub parsed : from_args h c args ≡ ok config
    pub started : start h config timestamp ≡ some (ok parts)
    pub bound : sockets.udp && sockets.tcp && sockets.api ≡ true
    pub no_failure :
        ((errors : List String) × (finished ≡ shut_down errors)) ⊎ (finished ≡ api_finished true)

  abbrev Exits : Type 0
  Exits =
      (is_some (main h c args timestamp sockets finished) ≡ true)
      × ((main h c args timestamp sockets finished ≡ some (ok tt)) ↔ Succeeds)

  refused-Exits : (e : ArgError h.NameError) → from_args h c args ≡ err e → Exits
  unfolding main
  refused-Exits e x =
      (ground arith, (λ y. absurd (ground arith), λ s. absurd (ground (arith, s.parsed))))

  invalid-Exits :
      (config : Config) (e : ConfigError h.NameError)
      → from_args h c args ≡ ok config
      → start h config timestamp ≡ some (err e)
      → Exits
  unfolding main
  invalid-Exits config e x y = (
    ground arith,
    (λ z. absurd (ground arith), λ s. absurd (ground (arith, s.parsed, s.started))),
  )

  started-Exits :
      (config : Config) (parts : AcmeRecords × ZoneState)
      → from_args h c args ≡ ok config
      → start h config timestamp ≡ some (ok parts)
      → Exits
  unfolding main
  started-Exits config parts x y =
      let (only, enough) = bind_all_ok {E = h.NameError} sockets finished in
      (
        ground arith,
        (
          λ z.
              let (bound, no_failure) = only (ground arith) in
              record {
                config = config;
                parts = parts;
                parsed = x;
                started = y;
                bound = bound;
                no_failure = no_failure;
              },
          λ s. ground (arith, enough (s.bound, s.no_failure)),
        ),
      )

module _ (h : Hickory) (c : Clap) (ranges : HasRanges c) (ascii : HasAscii h) where
  -- With arguments that clap accepts in the stated range, an address of four octets, and names
  -- whose ASCII form takes a label where the name's text does: `main` does not panic, and it
  -- returns without an error exactly if the arguments are accepted, the start succeeds, the three
  -- sockets can be bound, and what ends the program is the return of `shutdown_signal`, whatever
  -- errors it has logged, or the end of the HTTP API's task without an error.
  pub main_exits :
      (args : Args) (timestamp : ℕ) (sockets : Sockets) (finished : Finished)
      → (is_some (main h c args timestamp sockets finished) ≡ true)
        × ((main h c args timestamp sockets finished ≡ some (ok tt))
            ↔ Succeeds h c args timestamp sockets finished)
  main_exits args timestamp sockets finished = elim (Result-cases (from_args h c args)) [
    | inl (e, x) ↦ refused-Exits h c args timestamp sockets finished e x
    | inr (config, x) ↦
        let v = from_args-IsConfigured h c ranges args config x in
        let (started, y) = is_some-value (start h config timestamp) (
          start-total h ascii config timestamp v.domain_normalized.not_empty
            v.domain_normalized.dns_name v.ns_hostname_normalized.dns_name) in
        elim (Result-cases started) [
          | inl (e, z) ↦
              invalid-Exits h c args timestamp sockets finished config e x (y ∙ ap some z)
          | inr (parts, z) ↦
              started-Exits h c args timestamp sockets finished config parts x (y ∙ ap some z)
        ]
  ]
