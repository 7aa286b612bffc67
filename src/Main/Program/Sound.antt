-- ===== src/Main/Program/Sound.antt =====
-- What every step of the program keeps.
use safexip.Prelude.{
  Result-cases, ℕ, List, [], ◌∷◌, ◌++◌, ◌≡◌, ◌⊎◌, inl, inr, refl, sym, ap, ◌∙◌, arith, Option-cases,
  All, All-append, ok,
}
use safexip.Text.{Text, to_lowercase, trim_end}
use safexip.Config.{Config, acme_name}
use safexip.State.{AcmeRecords, ZoneState, pruned, get_with_serial, serial}
use safexip.State.History.{Event, adding, removing, asking, apply, run}
use safexip.Hickory.{Hickory, Message, Query, Bytes, RecordType}
use safexip.Dns.{
  handle, handle_udp, build_response, respond, answer_query, read_zone, only_query, blank,
  response_edns,
}
use safexip.Api.{Float, Codecs, PresentRequest, Response, present, cleanup, validate_request}
use safexip.Api.Handlers.{
  validates_acme_name, present_invalid, present_valid, cleanup_invalid, cleanup_valid,
}
use safexip.Api.Router.{Axum, with_body, max_request_body_len, request_timeout}
use safexip.Main.Program.{
  Program, Step, udp, tcp, arrive, run_present, run_cleanup, give_up, leave, Reach, here, next,
}

-- The zone after an operation is the zone after some history, of events of one kind.
abbrev IsRun : (Event → Type 0) → AcmeRecords → ZoneState → ZoneState → Type 0
IsRun P acme s t = (events : List Event) × All P events × (t ≡ run acme events s)

no_event : (P : Event → Type 0) (acme : AcmeRecords) (s t : ZoneState) → t ≡ s → IsRun P acme s t
unfolding run
no_event P acme s t e = ([], tt, e)

one_event :
    (P : Event → Type 0) (acme : AcmeRecords) (event : Event) (s t : ZoneState)
    → P event
    → t ≡ apply acme event s
    → IsRun P acme s t
unfolding run
one_event P acme event s t p e = (event ∷ [], (p, tt), e)

run-append :
    (acme : AcmeRecords) (xs ys : List Event) (s : ZoneState)
    → run acme (xs ++ ys) s ≡ run acme ys (run acme xs s)
unfolding run
run-append acme [] ys s = refl
run-append acme (x ∷ xs) ys s = run-append acme xs ys (apply acme x s)

pub read_zone-asking :
    (config : Config) (now : ℕ) (asked_type : RecordType) (qname : Text) (s : ZoneState)
    → (read_zone config now asked_type qname s).1 ≡ pruned now s
unfolding read_zone get_with_serial serial
read_zone-asking config now asked_type qname s = ground arith

module _ (h : Hickory) where
  answer_query-zone :
      (config : Config) (now : ℕ) (q : Query h.Name) (m : Message h.Name h.Edns) (s : ZoneState)
      → ((answer_query h config now q m s).1 ≡ s)
        ⊎ ((answer_query h config now q m s).1 ≡ pruned now s)
  unfolding answer_query
  answer_query-zone config now q m s =
      let qname = to_lowercase (trim_end b'.' (h.to_ascii q.name)) in
      ground (arith, read_zone-asking config now q.query_type qname s)

  respond-zone :
      (config : Config) (now : ℕ) (request m : Message h.Name h.Edns) (s : ZoneState)
      → ((respond h config now request m s).1 ≡ s)
        ⊎ ((respond h config now request m s).1 ≡ pruned now s)
  unfolding respond
  respond-zone config now request m s = elim (Option-cases (only_query request.queries)) [
    | inl x ↦ ground arith
    | inr (q, x) ↦ ground (arith, answer_query-zone config now q (h.add_query q m) s)
  ]

  build_response-zone :
      (config : Config) (now : ℕ) (request : Message h.Name h.Edns) (s : ZoneState)
      → ((build_response h config now request s).1 ≡ s)
        ⊎ ((build_response h config now request s).1 ≡ pruned now s)
  unfolding build_response
  build_response-zone config now request s = elim (Option-cases request.edns) [
    | inl x ↦ ground (arith, respond-zone config now request (blank h request) s)
    | inr (edns, x) ↦ ground (
      arith,
      respond-zone config now request (h.set_edns (response_edns h edns) (blank h request)) s,
    )
  ]

  -- A query reads the zone once, or not at all.
  pub handlers-zone :
      (config : Config) (now : ℕ) (raw : Bytes) (s : ZoneState)
      → (((handle h config now raw s).1 ≡ s) ⊎ ((handle h config now raw s).1 ≡ pruned now s))
        × (((handle_udp h config now raw s).1 ≡ s)
            ⊎ ((handle_udp h config now raw s).1 ≡ pruned now s))
  unfolding handle handle_udp
  handlers-zone config now raw s = elim (Option-cases (h.from_vec raw)) [
    | inl x ↦ (ground arith, ground arith)
    | inr (request, x) ↦
        let built = build_response-zone config now request s in (ground arith, ground arith)
  ]

module _ (P : Event → Type 0) where
  asked :
      (acme : AcmeRecords) (now : ℕ) (s t : ZoneState)
      → P (asking now)
      → (t ≡ s) ⊎ (t ≡ pruned now s)
      → IsRun P acme s t
  unfolding apply serial
  asked acme now s t p (inl e) = no_event P acme s t e
  asked acme now s t p (inr e) = one_event P acme (asking now) s t p e

  present-IsRun :
      (config : Config) (acme : AcmeRecords) (now later : ℕ) (body : PresentRequest) (s : ZoneState)
      → P (adding now later (acme_name config) body.value)
      → IsRun P acme s (present config acme now later body s).1
  unfolding apply
  present-IsRun config acme now later body s p =
      elim (Result-cases (validate_request body config)) [
        | inl (r, x) ↦ no_event P acme s (present config acme now later body s).1 (
            ap (λ (q : Response × ZoneState). q.1)
              (present_invalid config acme now later body s r x))
        | inr (name, x) ↦
            one_event P acme (adding now later (acme_name config) body.value) s
              (present config acme now later body s).1 p
              (ap (λ (q : Response × ZoneState). q.1)
                (present_valid config acme now later body s
                  (validates_acme_name config body name x)))
      ]

  cleanup-IsRun :
      (config : Config) (acme : AcmeRecords) (now : ℕ) (body : PresentRequest) (s : ZoneState)
      → P (removing now (acme_name config) body.value)
      → IsRun P acme s (cleanup config now body s).1
  unfolding apply
  cleanup-IsRun config acme now body s p = elim (Result-cases (validate_request body config)) [
    | inl (r, x) ↦
        no_event P acme s (cleanup config now body s).1
          (ap (λ (q : Response × ZoneState). q.1) (cleanup_invalid config now body s r x))
    | inr (name, x) ↦
        one_event P acme (removing now (acme_name config) body.value) s
          (cleanup config now body s).1 p
          (ap (λ (q : Response × ZoneState). q.1)
            (cleanup_valid config now body s (validates_acme_name config body name x)))
  ]

  module _ (f : Float) (k : Codecs) (ax : Axum) where
    with_body-IsRun :
        (handler : PresentRequest → ZoneState → Response × ZoneState) (acme : AcmeRecords)
        (body : ax.Body) (s : ZoneState)
        → ((r : PresentRequest)
            → ax.extract max_request_body_len request_timeout body ≡ ok r
            → IsRun P acme s (handler r s).1)
        → IsRun P acme s (with_body f k ax handler body s).1
    unfolding with_body
    with_body-IsRun handler acme body s each =
        elim (Result-cases (ax.extract max_request_body_len request_timeout body)) [
          | inl (r, x) ↦ no_event P acme s (with_body f k ax handler body s).1 (ground arith)
          | inr (r, x) ↦ let (events, all, e) = each r x in (events, all, ground (arith, e))
        ]

module _ (h : Hickory) (f : Float) (k : Codecs) (ax : Axum) (config : Config)
    (acme : AcmeRecords) where
  -- The event of a step, if it has one, is of the kind.
  abbrev pub Emits :
      (Event → Type 0) → {s t : Program f.F64} → Step h f k ax config acme s t → Type 0
  Emits P (udp now raw) = P (asking now)
  Emits P (tcp now raw) = P (asking now)
  Emits P (arrive authorization now) = Unit
  Emits P (run_present now later body e) =
      (r : PresentRequest)
      → ax.extract max_request_body_len request_timeout body ≡ ok r
      → P (adding now later (acme_name config) r.value)
  Emits P (run_cleanup now body e) =
      (r : PresentRequest)
      → ax.extract max_request_body_len request_timeout body ≡ ok r
      → P (removing now (acme_name config) r.value)
  Emits P (give_up e) = Unit
  Emits P (leave e) = Unit

  abbrev pub AllEmit :
      (Event → Type 0) → {s t : Program f.F64} → Reach h f k ax config acme s t → Type 0
  AllEmit P here = Unit
  AllEmit P (next r step) = AllEmit P r × Emits P step

  Step-IsRun :
      (P : Event → Type 0) (s t : Program f.F64) (step : Step h f k ax config acme s t)
      → Emits P step
      → IsRun P acme s.zone t.zone
  Step-IsRun P s t (udp now raw) p =
      asked P acme now s.zone _ p (handlers-zone h config now raw s.zone).1
  Step-IsRun P s t (tcp now raw) p =
      asked P acme now s.zone _ p (handlers-zone h config now raw s.zone).0
  Step-IsRun P s t (arrive authorization now) p = no_event P acme s.zone s.zone refl
  Step-IsRun P s t (run_present now later body e) p =
      with_body-IsRun P f k ax (present config acme now later) acme body s.zone
        (λ r x. present-IsRun P config acme now later r s.zone (p r x))
  Step-IsRun P s t (run_cleanup now body e) p =
      with_body-IsRun P f k ax (cleanup config now) acme body s.zone
        (λ r x. cleanup-IsRun P config acme now r s.zone (p r x))
  Step-IsRun P s t (give_up e) p = no_event P acme s.zone s.zone refl
  Step-IsRun P s t (leave e) p = no_event P acme s.zone s.zone refl

  -- Steps whose events are of a kind leave the zone of a history of that kind.
  pub Reach-All :
      (P : Event → Type 0) (s t : Program f.F64) (r : Reach h f k ax config acme s t)
      → AllEmit P r
      → (events : List Event) × All P events × (t.zone ≡ run acme events s.zone)
  Reach-All P s t here all = no_event P acme s.zone s.zone refl
  Reach-All P s t (next {t = u} r step) (all, p) =
      let (before, all_before, e) = Reach-All P s u r all in
      let (after, all_after, e') = Step-IsRun P u t step p in
      (
        before ++ after,
        All-append P before after all_before all_after,
        e' ∙ ap (run acme after) e ∙ sym (run-append acme before after s.zone),
      )

  Step-Emits :
      {s t : Program f.F64} (step : Step h f k ax config acme s t) → Emits (λ event. Unit) step
  Step-Emits (udp now raw) = tt
  Step-Emits (tcp now raw) = tt
  Step-Emits (arrive authorization now) = tt
  Step-Emits (run_present now later body e) = λ r x. tt
  Step-Emits (run_cleanup now body e) = λ r x. tt
  Step-Emits (give_up e) = tt
  Step-Emits (leave e) = tt

  Reach-AllEmit :
      {s t : Program f.F64} (r : Reach h f k ax config acme s t) → AllEmit (λ event. Unit) r
  Reach-AllEmit here = tt
  Reach-AllEmit (next r step) = (Reach-AllEmit r, Step-Emits step)

module _ (h : Hickory) (f : Float) (k : Codecs) (ax : Axum) where
  -- The zone that the tasks leave is that of some history of the operations of the challenge state,
  -- so that what holds of every history holds of it.
  pub Reach-IsRun :
      (config : Config) (acme : AcmeRecords) (s t : Program f.F64)
      → Reach h f k ax config acme s t
      → (events : List Event) × (t.zone ≡ run acme events s.zone)
  Reach-IsRun config acme s t r =
      let (events, all, e) =
        Reach-All h f k ax config acme (λ event. Unit) s t r
          (Reach-AllEmit h f k ax config acme r) in
      (events, e)
