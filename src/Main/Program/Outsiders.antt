-- ===== src/Main/Program/Outsiders.antt =====
-- What clients without the API key can do to the program.
use safexip.Prelude.{ℕ, false, Option, some, ◌≡◌, ◌⊎◌, inl, inr, refl, ap, ◌∙◌, arith, is_ok}
use safexip.Text.{Text}
use safexip.Config.{Config}
use safexip.State.{AcmeRecords, ZoneState, pruned}
use safexip.State.Valid.{IsValid, expiry, expiry-prune}
use safexip.Hickory.{Hickory, Bytes}
use safexip.Api.{Float, Codecs, RequestGate, check_basic_auth}
use safexip.Api.Router.{Axum}
use safexip.Api.Admission.{admit, count_admitted}
use safexip.Main.Program.{
  Program, Step, udp, tcp, arrive, run_present, run_cleanup, give_up, leave, Reach, here, next,
}
use safexip.Main.Program.Sound.{handlers-zone}
use safexip.Main.Program.Answers.{Reach-IsValid}

module _ (f : Float) (k : Codecs) where
  refused_kept :
      (config : Config) (authorization : Option Bytes) (now : ℕ) (gate : RequestGate f.F64)
      → is_ok (check_basic_auth k authorization config) ≡ false
      → ((admit f k config authorization now gate).1 ≡ gate)
        × (count_admitted f k (admit f k config authorization now gate).0 ≡ 0)
  unfolding admit
  refused_kept config authorization now gate e = ground arith

-- Every value of the second state is in the first one, with the same expiry.
abbrev pub IsPart : ZoneState → ZoneState → Type 0
IsPart s t = (n v : Text) (e : ℕ) → expiry t.records n v ≡ some e → expiry s.records n v ≡ some e

asked-IsPart :
    (now : ℕ) (s t : ZoneState) → IsValid s.records → (t ≡ s) ⊎ (t ≡ pruned now s) → IsPart s t
unfolding pruned
asked-IsPart now s t valid (inl same) = rw same λ n v e h. h
asked-IsPart now s t valid (inr same) =
    rw same λ n v e h. ground (arith, expiry-prune now s.records n v valid)

module _ (h : Hickory) (f : Float) (k : Codecs) (ax : Axum) (config : Config)
    (acme : AcmeRecords) where
  -- A request that arrives has no accepted credentials.
  abbrev pub IsRefused : {s t : Program f.F64} → Step h f k ax config acme s t → Type 0
  IsRefused (arrive authorization now) = is_ok (check_basic_auth k authorization config) ≡ false
  IsRefused (udp now raw) = Unit
  IsRefused (tcp now raw) = Unit
  IsRefused (run_present now later body e) = Unit
  IsRefused (run_cleanup now body e) = Unit
  IsRefused (give_up e) = Unit
  IsRefused (leave e) = Unit

  abbrev pub AllRefused : {s t : Program f.F64} → Reach h f k ax config acme s t → Type 0
  AllRefused here = Unit
  AllRefused (next r step) = AllRefused r × IsRefused step

  Step-IsPart :
      (s t : Program f.F64) (step : Step h f k ax config acme s t)
      → IsValid s.zone.records
      → s.waiting ≡ 0
      → IsRefused step
      → (t.waiting ≡ 0) × (t.gate.rate ≡ s.gate.rate) × IsPart s.zone t.zone
  Step-IsPart s t (udp now raw) valid none refused =
      (none, refl, asked-IsPart now s.zone _ valid (handlers-zone h config now raw s.zone).1)
  Step-IsPart s t (tcp now raw) valid none refused =
      (none, refl, asked-IsPart now s.zone _ valid (handlers-zone h config now raw s.zone).0)
  Step-IsPart s t (arrive authorization now) valid none refused =
      let (same, zero_more) = refused_kept f k config authorization now s.gate refused in
      (omega (arith, none, zero_more), ap (λ (g : RequestGate f.F64). g.rate) same, λ n v e x. x)
  Step-IsPart s t (run_present now later body e) valid none refused =
      absurd (omega (arith, none, e))
  Step-IsPart s t (run_cleanup now body e) valid none refused = absurd (omega (arith, none, e))
  Step-IsPart s t (give_up e) valid none refused = absurd (omega (arith, none, e))
  Step-IsPart s t (leave e) valid none refused = (none, refl, λ n v e' x. x)

  -- From valid records, and with no request past the middleware: if no request that arrives has
  -- accepted credentials, then whatever the tasks do, in any order, no request gets past the
  -- middleware, the token bucket is as it was, and every value that is in the zone then was in it
  -- before, with the same expiry.
  pub outsiders_add_nothing :
      (s t : Program f.F64) (r : Reach h f k ax config acme s t)
      → IsValid s.zone.records
      → s.waiting ≡ 0
      → AllRefused r
      → (t.waiting ≡ 0) × (t.gate.rate ≡ s.gate.rate) × IsPart s.zone t.zone
  outsiders_add_nothing s t here valid none refused = (none, refl, λ n v e x. x)
  outsiders_add_nothing s t (next {t = u} r step) valid none (refused, last) =
      let (none', rate, part) = outsiders_add_nothing s u r valid none refused in
      let valid' = Reach-IsValid h f k ax config acme s u valid r in
      let (none'', rate', part') = Step-IsPart u t step valid' none' last in
      (none'', rate' ∙ rate, λ n v e x. part n v e (part' n v e x))
