-- ===== src/Main/Program.antt =====
-- The whole program after its start: the DNS handler, over UDP and TCP, and the HTTP API work on one
-- zone, in any order. A step is what one task does under one lock; an HTTP request arrives, reaches
-- its handler if it was admitted, and leaves, and other steps come between.
pub mod Sound
pub mod Launch
pub mod Answers
pub mod Outsiders
pub mod Changes
pub mod View
use safexip.Prelude.{◌≡◌, ℕ, suc, ◌+◌, Option, some, none, List, [], ◌∷◌}
use safexip.Config.{Config}
use safexip.State.{AcmeRecords, ZoneState}
use safexip.Hickory.{Hickory, Bytes}
use safexip.Dns.{handle, handle_udp}
use safexip.Api.{Float, Codecs, RequestGate, PresentRequest, present, cleanup, router_gate}
use safexip.Api.Router.{Axum, with_body}
use safexip.Api.Admission.{admit, release, count_admitted}

-- `waiting` counts the requests that are past the middleware and not yet in their handler, `answered`
-- those whose handler has returned and whose permit is still held.
pub record Program (F64 : Type 0) : Type 0 where
  pub zone : ZoneState
  pub gate : RequestGate F64
  pub waiting : ℕ
  pub answered : ℕ

module _ (h : Hickory) (f : Float) (k : Codecs) (ax : Axum) where
  pub data Step (config : Config) (acme : AcmeRecords) (s : Program f.F64)
      : Program f.F64 → Type 0 where
    udp :
        (now : ℕ) (raw : Bytes)
        → Step config acme s (record s { zone = (handle_udp h config now raw s.zone).1 })
    tcp :
        (now : ℕ) (raw : Bytes)
        → Step config acme s (record s { zone = (handle h config now raw s.zone).1 })
    arrive :
        (authorization : Option Bytes) (now : ℕ)
        → Step config acme s (record s {
          gate = (admit f k config authorization now s.gate).1;
          waiting = s.waiting + count_admitted f k (admit f k config authorization now s.gate).0;
        })
    run_present :
        {others : ℕ} (now later : ℕ) (body : ax.Body)
        → s.waiting ≡ suc others
        → Step config acme s (record s {
          zone = (with_body f k ax (present config acme now later) body s.zone).1;
          waiting = others;
          answered = suc s.answered;
        })
    run_cleanup :
        {others : ℕ} (now : ℕ) (body : ax.Body)
        → s.waiting ≡ suc others
        → Step config acme s (record s {
          zone = (with_body f k ax (cleanup config now) body s.zone).1;
          waiting = others;
          answered = suc s.answered;
        })
    -- A request with a method that the path does not serve, or whose client has gone.
    give_up :
        {others : ℕ}
        → s.waiting ≡ suc others
        → Step config acme s (record s { gate = release f k s.gate; waiting = others })
    leave :
        {others : ℕ}
        → s.answered ≡ suc others
        → Step config acme s (record s { gate = release f k s.gate; answered = others })

  pub data Reach (config : Config) (acme : AcmeRecords) (s : Program f.F64)
      : Program f.F64 → Type 0 where
    here : Reach config acme s s
    next :
        {t u : Program f.F64} → Reach config acme s t → Step config acme t u → Reach config acme s u

-- The program when its listeners are open.
abbrev pub opened : (f : Float) → Config → ℕ → ZoneState → Program f.F64
opened f config now zone = record {
  zone = zone;
  gate = router_gate f config now;
  waiting = 0;
  answered = 0;
}
