-- ===== src/Main/Program/Launch.antt =====
-- The program from its arguments on: what holds whenever its tasks have run for a while.
use safexip.Prelude.{
  Result-cases, ℕ, ◌+◌, true, some, List, [], ◌≡◌, refl, sym, ap, ◌∙◌, arith, inl, inr, ◌⊎◌, ok,
  is_some,
}
use safexip.Map
use safexip.Config.{Config}
use safexip.Config.Args.{Clap, HasRanges, Args, from_args}
use safexip.Config.Configured.{from_args-IsConfigured}
use safexip.State.{AcmeRecords, ZoneState, pruned, new, with_serial}
use safexip.State.Tokens.{expiry_of}
use safexip.State.Valid.{IsValid, expiry, expiry-prune}
use safexip.State.Capacity.{IsMonotone}
use safexip.State.History.{Event, run, IsSound}
use safexip.Hickory.{Hickory, Bytes}
use safexip.Dns.{handle, handle_udp}
use safexip.Dns.Total.{handlers_total}
use safexip.Api.{
  Float, Codecs, PresentRequest, Response, present, cleanup, router_gate, new_gate,
  max_concurrent_requests,
}
use safexip.Api.Holds.{HoldsChallenges, handlers-HoldsChallenges}
use safexip.Api.Router.{
  Axum, with_body, with_body_ok, with_body_err, max_request_body_len, request_timeout,
}
use safexip.Api.Admission.{admit_permits}
use safexip.Main.Startup.{start, start_ok, start-IsSound}
use safexip.Main.Program.{
  Program, Step, udp, tcp, arrive, run_present, run_cleanup, give_up, leave, Reach, here, next,
  opened,
}
use safexip.Main.Program.Sound.{handlers-zone, Reach-IsRun}

asked-HoldsChallenges :
    (config : Config) (now : ℕ) (s t : ZoneState)
    → IsValid s.records
    → HoldsChallenges config s.records
    → (t ≡ s) ⊎ (t ≡ pruned now s)
    → HoldsChallenges config t.records
unfolding pruned
asked-HoldsChallenges config now s t valid holds (inl e) = rw e holds
asked-HoldsChallenges config now s t valid holds (inr e) =
    rw e λ n v x h. holds n v x (ground (arith, expiry-prune now s.records n v valid))

module _ (h : Hickory) (f : Float) (k : Codecs) (ax : Axum) where
  with_body-HoldsChallenges :
      (handler : PresentRequest → ZoneState → Response × ZoneState) (config : Config)
      (body : ax.Body) (s : ZoneState)
      → HoldsChallenges config s.records
      → ((r : PresentRequest) → HoldsChallenges config (handler r s).1.records)
      → HoldsChallenges config (with_body f k ax handler body s).1.records
  with_body-HoldsChallenges handler config body s holds each =
      elim (Result-cases (ax.extract max_request_body_len request_timeout body)) [
        | inl (r, x) ↦ rw (with_body_err f k ax handler body s r x) holds
        | inr (r, x) ↦ rw (with_body_ok f k ax handler body s r x) (each r)
      ]

  Step-HoldsChallenges :
      (config : Config) (acme : AcmeRecords) (s t : Program f.F64)
      → IsValid s.zone.records
      → HoldsChallenges config s.zone.records
      → Step h f k ax config acme s t
      → HoldsChallenges config t.zone.records
  Step-HoldsChallenges config acme s t valid holds (udp now raw) =
      asked-HoldsChallenges config now s.zone _ valid holds
        (handlers-zone h config now raw s.zone).1
  Step-HoldsChallenges config acme s t valid holds (tcp now raw) =
      asked-HoldsChallenges config now s.zone _ valid holds
        (handlers-zone h config now raw s.zone).0
  Step-HoldsChallenges config acme s t valid holds (arrive authorization now) = holds
  Step-HoldsChallenges config acme s t valid holds (run_present now later body e) =
      with_body-HoldsChallenges (present config acme now later) config body s.zone holds
        (λ r. (handlers-HoldsChallenges config acme now later r s.zone valid holds).0)
  Step-HoldsChallenges config acme s t valid holds (run_cleanup now body e) =
      with_body-HoldsChallenges (cleanup config now) config body s.zone holds
        (λ r. (handlers-HoldsChallenges config acme now now r s.zone valid holds).1)
  Step-HoldsChallenges config acme s t valid holds (give_up e) = holds
  Step-HoldsChallenges config acme s t valid holds (leave e) = holds

  abbrev permits : Program f.F64 → ℕ
  permits s = s.gate.concurrency + (s.waiting + s.answered)

  Step-permits :
      (config : Config) (acme : AcmeRecords) (s t : Program f.F64)
      → Step h f k ax config acme s t
      → permits t ≡ permits s
  Step-permits config acme s t (udp now raw) = refl
  Step-permits config acme s t (tcp now raw) = refl
  Step-permits config acme s t (arrive authorization now) =
      omega (arith, admit_permits f k config authorization now s.gate)
  Step-permits config acme s t (run_present now later body e) = omega (arith, e)
  Step-permits config acme s t (run_cleanup now body e) = omega (arith, e)
  Step-permits config acme s t (give_up e) = omega (arith, e)
  Step-permits config acme s t (leave e) = omega (arith, e)

  -- What holds of the program at any time: the records are sound, the zone has challenge values alone,
  -- no permit is lost, and no query makes the DNS handler panic.
  pub record IsHealthy (config : Config) (acme : AcmeRecords) (t : Program f.F64) : Type 0 where
    pub sound : IsSound acme t.zone
    pub challenges : HoldsChallenges config t.zone.records
    pub all_permits : permits t ≡ max_concurrent_requests
    pub answers :
        (now : ℕ) (raw : Bytes)
        → (is_some (handle h config now raw t.zone).0 ≡ true)
          × (is_some (handle_udp h config now raw t.zone).0 ≡ true)

  Reach-HoldsChallenges :
      (config : Config) (acme : AcmeRecords) (s t : Program f.F64)
      → ((events : List Event) → IsSound acme (run acme events s.zone))
      → HoldsChallenges config s.zone.records
      → Reach h f k ax config acme s t
      → HoldsChallenges config t.zone.records × (permits t ≡ permits s)
  Reach-HoldsChallenges config acme s t sound holds here = (holds, refl)
  Reach-HoldsChallenges config acme s t sound holds (next {t = u} r step) =
      let (before, same) = Reach-HoldsChallenges config acme s u sound holds r in
      let (events, e) = Reach-IsRun h f k ax config acme s u r in
      let valid : IsSound acme u.zone = rw e (sound events) in
      (
        Step-HoldsChallenges config acme u t valid.valid before step,
        Step-permits config acme u t step ∙ same,
      )

none-HoldsChallenges : (config : Config) → HoldsChallenges config []
unfolding expiry expiry_of Map.get
none-HoldsChallenges config n v e h = cc

module _ (h : Hickory) (f : Float) (k : Codecs) (ax : Axum) (c : Clap) (ranges : HasRanges c) where
  pub start-records :
      (config : Config) (timestamp : ℕ) (acme : AcmeRecords) (zone : ZoneState)
      → start h config timestamp ≡ some (ok (acme, zone))
      → zone.records ≡ []
  unfolding new with_serial
  start-records config timestamp acme zone e =
      let (valid, same) = start_ok h config timestamp (acme, zone) e in
      ap (λ (p : AcmeRecords × ZoneState). p.1.records) (sym same)

  -- If the arguments are accepted and the start succeeds, then whatever the UDP and TCP tasks and
  -- the requests of the HTTP API do from there on, in any order: the records are sound, as
  -- `IsSound` says, every value in the zone stands at the challenge name, is not empty and has at
  -- most 255 bytes, the permits of the API that are left and those of its requests are 64 together,
  -- and no bytes that arrive make the DNS handler panic, over UDP or TCP. It is assumed that what
  -- clap accepts is in the stated range and that an address has four octets, that the wire test
  -- depends on the values alone and not on their order, and that it passes for fewer values if it
  -- passes for more.
  pub launched-IsHealthy :
      (args : Args) (config : Config) (timestamp now : ℕ) (acme : AcmeRecords) (zone : ZoneState)
      (t : Program f.F64)
      → from_args h c args ≡ ok config
      → start h config timestamp ≡ some (ok (acme, zone))
      → IsMonotone acme.wire_fits
      → Reach h f k ax config acme (opened f config now zone) t
      → IsHealthy h f k ax config acme t
  unfolding router_gate new_gate
  launched-IsHealthy args config timestamp now acme zone t parsed started monotone r =
      let configured = from_args-IsConfigured h c ranges args config parsed in
      let sound = λ (events : List Event).
        start-IsSound h config timestamp acme zone events started monotone configured.some_token in
      let none_held : HoldsChallenges config zone.records =
        rw (start-records config timestamp acme zone started) (none-HoldsChallenges config) in
      let (holds, same) =
        Reach-HoldsChallenges h f k ax config acme (opened f config now zone) t sound none_held r in
      let (events, e) = Reach-IsRun h f k ax config acme (opened f config now zone) t r in
      let (valid, _) = start_ok h config timestamp (acme, zone) started in
      record {
        sound = rw e (sound events);
        challenges = holds;
        all_permits = same;
        answers = λ now raw.
            handlers_total h config now raw t.zone valid
              configured.ns_hostname2_normalized.dns_name;
      }
