-- ===== src/Main/Startup.antt =====
-- src/main.rs: the start of the program, up to the listeners: the configuration is checked, and the
-- records are made with its limits and its wire capacity. `none` is a panic.
use safexip.Prelude.{
  ℕ, ◌%◌, ◌^◌, ◌<◌, Bool, true, Option, none, some, List, [], ◌≡◌, refl, ap, ◌∙◌, arith, Result, ok,
  err, Option-cases, inl, inr, replicate, length-replicate,
}
use safexip.Text.{Text, codes}
use safexip.Config.{Config, token_lifetime}
use safexip.Config.Validate.{ConfigError, validate, IsValidated, validate-IsValidated}
use safexip.Hickory.{Hickory}
use safexip.Wire.{from_config, fits, fits_count, or_panic, AcmeWireCapacity}
use safexip.Wire.Search
use safexip.Wire.Maximum.{maximum_token_count_lem}
use mathlib.Core.Path.{subst}
use safexip.State.{AcmeRecords, ZoneState, new}
use safexip.State.Capacity.{IsMonotone}
use safexip.State.History.{Event, run, IsSound, run-IsSound}

module _ (h : Hickory) where
  abbrev pub wire_test : AcmeWireCapacity h.Name → List Text → Bool
  wire_test wire values = or_panic (fits h wire values)

  abbrev make_records :
      Config
      → ℕ
      → Option (AcmeWireCapacity h.Name)
      → Option (Result (ConfigError h.NameError) (AcmeRecords × ZoneState))
  make_records config timestamp none = none
  make_records config timestamp (some wire) =
      some (ok (new (token_lifetime config) config.max_tokens (wire_test wire) timestamp))

  unfoldable pub start :
      Config → ℕ → Option (Result (ConfigError h.NameError) (AcmeRecords × ZoneState))
  start config timestamp = elim (validate h config) [
    | none ↦ none
    | some (err e) ↦ some (err e)
    | some (ok _) ↦ make_records config timestamp (from_config h config)
  ]

  -- A start that succeeds is one with a valid configuration.
  pub start_ok :
      (config : Config) (timestamp : ℕ) (p : AcmeRecords × ZoneState)
      → start config timestamp ≡ some (ok p)
      → (valid : IsValidated h config) × (new
            (token_lifetime config)
            config.max_tokens
            (wire_test valid.capacity)
            timestamp
          ≡ p)
  unfolding start
  start_ok config timestamp p e = elim (Option-cases (validate h config)) [
    | inl x ↦ absurd (ground arith)
    | inr (err error, x) ↦ absurd (ground arith)
    | inr (ok _, x) ↦
        let valid = validate-IsValidated h config x in
        let has = valid.has_capacity in (valid, ground arith)
  ]

  pub fits-replicate :
      (c : AcmeWireCapacity h.Name) (n : ℕ) → fits h c (replicate n (codes "x")) ≡ fits_count h c n
  unfolding fits fits_count
  fits-replicate c n = rw (length-replicate n (codes "x")) refl

  -- Some count of one-byte values fits, so no values fit.
  none_fit :
      (config : Config) (valid : IsValidated h config)
      → IsMonotone (wire_test valid.capacity)
      → 0 < config.max_tokens
      → wire_test valid.capacity [] ≡ true
  none_fit config valid monotone positive =
      let n = valid.wire_max in
      let found = maximum_token_count_lem h valid.capacity valid.wire_max valid.has_maximum in
      let within = valid.within_capacity in
      let (_, low, _) =
        Search.maximum_boundary (λ (n : ℕ). or_panic (fits_count h valid.capacity n)) in
      monotone [] (replicate n (codes "x")) (λ v. omega arith)
        (ap or_panic (fits-replicate valid.capacity n) ∙ ground arith)

  -- After a start that succeeds, with a token limit that is not 0, every history of operations
  -- keeps the records sound, as `IsSound` says. It is assumed that the wire test depends on the
  -- values alone and not on their order, and that it passes for fewer values if it passes for more.
  pub start-IsSound :
      (config : Config) (timestamp : ℕ) (acme : AcmeRecords) (s : ZoneState) (events : List Event)
      → start config timestamp ≡ some (ok (acme, s))
      → IsMonotone acme.wire_fits
      → 0 < config.max_tokens
      → IsSound acme (run acme events s)
  start-IsSound config timestamp acme s events e monotone positive =
      let (valid, same) = start_ok config timestamp (acme, s) e in
      subst
        (λ (p : AcmeRecords × ZoneState).
          IsMonotone p.0.wire_fits → IsSound p.0 (run p.0 events p.1))
        same
        (λ monotone.
          unfold new in
          run-IsSound (token_lifetime config) config.max_tokens (wire_test valid.capacity)
            (timestamp % 2 ^ 32) events monotone (none_fit config valid monotone positive)
            (omega arith))
        monotone
