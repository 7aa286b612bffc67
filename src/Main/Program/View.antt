-- ===== src/Main/Program/View.antt =====
-- The zone over a run of the program, as a partial map from names and values to expiry times.
use safexip.Prelude.{
  not, ltb, length, [], ◌∷◌, true, is_ok, ℕ, ◌+◌, false, Option, some, none, ◌≡◌, refl, ap, ◌∙◌,
  fun_ext, arith, ◌==◌, Option-cases, Result-cases, Bool-cases, inl, inr,
}
use safexip.Text.{Text}
use safexip.Config.{Config, acme_name}
use safexip.State.{AcmeRecords, ZoneState, pruned}
use safexip.State.Valid.{IsValid, expiry, expiry-prune}
use safexip.State.Refine.{expiry-remove_value}
use safexip.Hickory.{Hickory, Message, Query, Bytes, ResponseCode}
use safexip.Dns.{
  handle, handle_udp, build_response, respond, answer_query, only_query, blank, response_edns,
}
use safexip.Dns.Response.{name_of, has_bad_version, refusal, refusal_of_query}
use safexip.Api.{
  is_empty, Float, Codecs, PresentRequest, Response, present, cleanup, validate_request,
}
use safexip.Api.Handlers.{present_invalid, validates_acme_name, cleanup_invalid, cleanup_valid}
use safexip.Api.Promises.{present_statuses}
use safexip.Api.Router.{
  Axum, with_body, with_body_ok, with_body_err, max_request_body_len, request_timeout,
}
use safexip.Main.Program.{
  Program, Step, udp, tcp, arrive, run_present, run_cleanup, give_up, leave, Reach, here, next,
}
use safexip.Main.Program.Sound.{read_zone-asking}
use safexip.Main.Program.Answers.{Reach-IsValid}
use safexip.Main.Program.Changes.{
  Change, nothing, looking, effect, query_change, present_change, cleanup_change, is_challenge,
  body_change, change_of, view_after,
}

-- The zone after a request that is refused with a code, or not.
abbrev if_read : Option ResponseCode → ℕ → ZoneState → ZoneState
if_read (some code) now s = s
if_read none now s = pruned now s

module _ (h : Hickory) (config : Config) (now : ℕ) where
  answer_query-if_read :
      (q : Query h.Name) (m : Message h.Name h.Edns) (s : ZoneState)
      → (answer_query h config now q m s).1 ≡ if_read (refusal_of_query h config q) now s
  unfolding answer_query
  answer_query-if_read q m s =
      ground (arith, read_zone-asking config now q.query_type (name_of h q) s)

  respond-if_read :
      (request m : Message h.Name h.Edns) (s : ZoneState)
      → has_bad_version h request.edns ≡ false
      → (respond h config now request m s).1 ≡ if_read (refusal h config request) now s
  unfolding respond
  respond-if_read request m s v = elim (Option-cases (only_query request.queries)) [
    | inl x ↦ ground arith
    | inr (q, x) ↦ ground (arith, answer_query-if_read q (h.add_query q m) s)
  ]

  build_response-if_read :
      (request : Message h.Name h.Edns) (s : ZoneState)
      → (build_response h config now request s).1 ≡ if_read (refusal h config request) now s
  unfolding build_response
  build_response-if_read request s = elim (Option-cases request.edns) [
    | inl x ↦ ground (arith, respond-if_read request (blank h request) s (ground arith))
    | inr (edns, x) ↦ elim (Bool-cases (h.edns_version edns == 0)) [
      | inl v ↦ ground (
        arith,
        respond-if_read request (h.set_edns (response_edns h edns) (blank h request)) s
            (ground arith),
      )
      | inr v ↦ ground arith
    ]
  ]

  if_read-view :
      (refused : Option ResponseCode) (s : ZoneState) (n v : Text)
      → IsValid s.records
      → expiry (if_read refused now s).records n v
        ≡ effect config
            (elim refused [ some code ↦ nothing | none ↦ looking now ])
            (expiry s.records)
            n
            v
  unfolding pruned
  if_read-view (some code) s n v valid = refl
  if_read-view none s n v valid = expiry-prune now s.records n v valid

  handlers-view :
      (raw : Bytes) (s : ZoneState) (n v : Text)
      → IsValid s.records
      → (expiry (handle h config now raw s).1.records n v
          ≡ effect config (query_change h config now raw) (expiry s.records) n v)
        × (expiry (handle_udp h config now raw s).1.records n v
            ≡ effect config (query_change h config now raw) (expiry s.records) n v)
  unfolding handle handle_udp
  handlers-view raw s n v valid = elim (Option-cases (h.from_vec raw)) [
    | inl x ↦ (ground arith, ground arith)
    | inr (request, x) ↦
        let built = build_response-if_read request s in
        let seen = if_read-view (refusal h config request) s n v valid in
        (ground arith, ground arith)
  ]

is_empty-ltb : (s : Text) → is_empty s ≡ not (ltb 0 (length s))
is_empty-ltb [] = refl
is_empty-ltb (c ∷ s) = ground arith

is_challenge-is_ok :
    (config : Config) (body : PresentRequest)
    → is_ok (validate_request body config) ≡ is_challenge config body
unfolding validate_request
is_challenge-is_ok config body = ground (arith, is_empty-ltb body.value)

module _ (config : Config) (acme : AcmeRecords) (now : ℕ) (body : PresentRequest) (s : ZoneState)
    (valid : IsValid s.records) (n v : Text) where
  present-view :
      (later : ℕ)
      → expiry (present config acme now later body s).1.records n v
        ≡ effect config
            (present_change config now
              (later + acme.lifetime)
              body
              (present config acme now later body s).0.status)
            (expiry s.records)
            n
            v
  present-view later =
      let known = is_challenge-is_ok config body in
      elim (Result-cases (validate_request body config)) [
        | inl (r, x) ↦
            let is_bad : (is_challenge config body ≡ false) = ground arith in
            rw (is_bad, present_invalid config acme now later body s r x) refl
        | inr (name, x) ↦
            let is_good : (is_challenge config body ≡ true) = ground arith in
            elim (present_statuses config acme now later body s valid) [
              | inl (e, same, invalid) ↦ absurd (ground arith)
              | inr (inl (e, written)) ↦ rw (is_good, e) (written n v)
              | inr (inr (e, kept)) ↦ rw (is_good, e) (kept n v)
            ]
      ]

  cleanup-view :
      expiry (cleanup config now body s).1.records n v
      ≡ effect config (cleanup_change config now body) (expiry s.records) n v
  cleanup-view =
      let known = is_challenge-is_ok config body in
      elim (Result-cases (validate_request body config)) [
        | inl (r, x) ↦
            let is_bad : (is_challenge config body ≡ false) = ground arith in
            rw (is_bad, cleanup_invalid config now body s r x) refl
        | inr (name, x) ↦
            let is_good : (is_challenge config body ≡ true) = ground arith in
            rw (is_good, cleanup_valid config now body s (validates_acme_name config body name x))
              (expiry-remove_value now (acme_name config) body.value s valid n v)
      ]

module _ (h : Hickory) (f : Float) (k : Codecs) (ax : Axum) (config : Config)
    (acme : AcmeRecords) where
  with_body-view :
      (handler : PresentRequest → ZoneState → Response × ZoneState) (each : PresentRequest → Change)
      (body : ax.Body) (s : ZoneState) (n v : Text)
      → ((r : PresentRequest)
          → expiry (handler r s).1.records n v ≡ effect config (each r) (expiry s.records) n v)
      → expiry (with_body f k ax handler body s).1.records n v
        ≡ effect config
            (body_change each (ax.extract max_request_body_len request_timeout body))
            (expiry s.records)
            n
            v
  with_body-view handler each body s n v same =
      elim (Result-cases (ax.extract max_request_body_len request_timeout body)) [
        | inl (r, x) ↦ rw (x, with_body_err f k ax handler body s r x) refl
        | inr (r, x) ↦ rw (x, with_body_ok f k ax handler body s r x) (same r)
      ]

  Step-view :
      (s t : Program f.F64) (step : Step h f k ax config acme s t) (n v : Text)
      → IsValid s.zone.records
      → expiry t.zone.records n v
        ≡ effect config (change_of h f k ax config acme step) (expiry s.zone.records) n v
  Step-view s t (udp now raw) n v valid = (handlers-view h config now raw s.zone n v valid).1
  Step-view s t (tcp now raw) n v valid = (handlers-view h config now raw s.zone n v valid).0
  Step-view s t (arrive authorization now) n v valid = refl
  Step-view s t (run_present now later body e) n v valid =
      with_body-view (present config acme now later)
        (λ r.
          present_change config now (later + acme.lifetime) r
            (present config acme now later r s.zone).0.status)
        body s.zone n v (λ r. present-view config acme now r s.zone valid n v later)
  Step-view s t (run_cleanup now body e) n v valid =
      with_body-view (cleanup config now) (cleanup_change config now) body s.zone n v
        (λ r. cleanup-view config acme now r s.zone valid n v)
  Step-view s t (give_up e) n v valid = refl
  Step-view s t (leave e) n v valid = refl

  -- From valid records: over any steps of the tasks of the program, in any order, the zone as a
  -- partial map from names and values to expiry times is what the changes of the steps make of it,
  -- one after the other. Bytes for the DNS handler drop what has expired at the time of the call if
  -- they decode to a query that no test refuses, and change nothing otherwise. A request to
  -- `/present` or `/cleanup` changes nothing if its body is not extracted, its name is not the
  -- challenge name (in any case of letters, with or without final dots), or its value is empty or
  -- above 255 bytes. Any other drops what has expired; then `/present` lets the value at the
  -- challenge name expire one lifetime later if it answers with status 200, and does no more with
  -- another status, and `/cleanup` removes that value. The arrival and the end of a request change
  -- nothing.
  pub Reach-view_after :
      (s t : Program f.F64) (r : Reach h f k ax config acme s t)
      → IsValid s.zone.records
      → expiry t.zone.records ≡ view_after h f k ax config acme r (expiry s.zone.records)
  Reach-view_after s t here valid = refl
  Reach-view_after s t (next {t = u} r step) valid =
      fun_ext (λ n.
        fun_ext (λ v. Step-view u t step n v (Reach-IsValid h f k ax config acme s u valid r)))
      ∙ ap (effect config (change_of h f k ax config acme step)) (Reach-view_after s u r valid)
