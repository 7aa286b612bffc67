-- ===== src/Api/Promises.antt =====
-- src/api.rs: the status codes of `/present` and `/cleanup`, and later answers.
use safexip.Prelude.{
  Result-cases, ℕ, ◌+◌, ◌<◌, true, false, some, List, ◌≡◌, ◌⊎◌, refl, ap, arith, Bool-cases, inl,
  inr, All, is_ok,
}
use safexip.Text.{Text}
use safexip.Config.{Config, acme_name}
use safexip.State.{AcmeRecords, ZoneState, add, get_with_serial}
use safexip.State.Valid.{IsValid, expiry}
use safexip.State.Refine.{write, expire, expiry-add}
use safexip.State.History.{Event, run}
use safexip.State.Served.{contains, Spares, Withholds, served_until_expiry, gone_after_remove}
use safexip.Api.{Response, PresentRequest, validate_request, present, cleanup}
use safexip.Api.Handlers.{
  validate_request-error, validates_acme_name, present_invalid, present_valid, status_of_add,
  present_ok, cleanup_invalid, cleanup_valid,
}

-- From valid records: if `/present` answers with status 200, the value is in every answer for the
-- challenge name at a time before its expiry, whatever other operations come between, if each of
-- them happens before the expiry and neither presents nor removes that value at the challenge name.
pub present-served :
    (config : Config) (acme : AcmeRecords) (now later : ℕ) (body : PresentRequest) (s : ZoneState)
    (events : List Event) (query : ℕ)
    → IsValid s.records
    → (present config acme now later body s).0.status ≡ 200
    → All (Spares (later + acme.lifetime) (acme_name config) body.value) events
    → query < later + acme.lifetime
    → contains body.value
        (get_with_serial query
          (acme_name config)
          (run acme events (present config acme now later body s).1)).0.0
      ≡ true
present-served config acme now later body s events query valid e spared early =
    let (accepted, same) = present_ok config acme now later body s e in
    rw same (
      served_until_expiry acme s now later (acme_name config) body.value events query valid accepted
        spared early)

-- From valid records, the status of `/present` says what happened: 400, and then the request is not
-- valid and the state is left; 200, and then the value at the challenge name expires one lifetime
-- later and the rest is what had not expired; or 503, and then the zone is what had not expired.
pub present_statuses :
    (config : Config) (acme : AcmeRecords) (now later : ℕ) (body : PresentRequest) (s : ZoneState)
    → IsValid s.records
    → (((present config acme now later body s).0.status ≡ 400)
        × ((present config acme now later body s).1 ≡ s)
        × (is_ok (validate_request body config) ≡ false))
      ⊎ (((present config acme now later body s).0.status ≡ 200)
          × ((n v : Text)
              → expiry (present config acme now later body s).1.records n v
                ≡ write
                    (acme_name config)
                    body.value
                    (some (later + acme.lifetime))
                    (expire now (expiry s.records))
                    n
                    v))
      ⊎ (((present config acme now later body s).0.status ≡ 503)
          × ((n v : Text)
              → expiry (present config acme now later body s).1.records n v
                ≡ expire now (expiry s.records) n v))
present_statuses config acme now later body s valid =
    elim (Result-cases (validate_request body config)) [
      | inl (r, x) ↦ inl (
        rw (present_invalid config acme now later body s r x)
            (validate_request-error config body r x),
        rw (present_invalid config acme now later body s r x) refl,
        rw x refl,
      )
      | inr (name, x) ↦
          let c = acme_name config in
          let added = add acme now later c body.value s in
          rw (present_valid config acme now later body s (validates_acme_name config body name x))
            (elim (Bool-cases (is_ok added.0)) [
              | inl success ↦ inr (
                  inl (
                    ground (arith, status_of_add added.0),
                    λ n v. ground (arith, expiry-add acme now later c body.value s valid n v),
                  ))
              | inr failure ↦ inr (
                  inr (
                    ground (arith, status_of_add added.0),
                    λ n v. ground (arith, expiry-add acme now later c body.value s valid n v),
                  ))
            ])
    ]

-- From valid records: if `/cleanup` answers with status 200, the value is in no later answer for
-- the challenge name, if no operation between presents that value at the challenge name.
pub cleanup-gone :
    (config : Config) (acme : AcmeRecords) (now : ℕ) (body : PresentRequest) (s : ZoneState)
    (events : List Event) (query : ℕ)
    → IsValid s.records
    → (cleanup config now body s).0.status ≡ 200
    → All (Withholds (acme_name config) body.value) events
    → contains body.value
        (get_with_serial query
          (acme_name config)
          (run acme events (cleanup config now body s).1)).0.0
      ≡ false
cleanup-gone config acme now body s events query valid e withheld =
    elim (Result-cases (validate_request body config)) [
      | inl (r, x) ↦ absurd (
          ground (
            arith,
            validate_request-error config body r x,
            ap (λ (p : Response × ZoneState). p.0.status) (cleanup_invalid config now body s r x),
          ))
      | inr (name, x) ↦
          rw (cleanup_valid config now body s (validates_acme_name config body name x))
            (gone_after_remove acme s now (acme_name config) body.value events query valid withheld)
    ]
