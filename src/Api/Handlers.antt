-- ===== src/Api/Handlers.antt =====
-- src/api.rs, `/present` and `/cleanup`: what they let through, and which operation it becomes.
use safexip.Prelude.{
  Result-cases, ℕ, ◌≤◌, true, [], ◌≡◌, ◌≢◌, refl, ap, ◌∙◌, arith, if◌then◌else◌, inl, inr, length,
  Result, ok, err, is_ok,
}
use safexip.Text.{Text, to_lowercase, trim_end}
use safexip.Text.Laws.{text_eq_iff}
use safexip.Config.{Config, acme_name}
use safexip.State.{
  AcmeRecords, AddError, ZoneState, add, remove, token_limit_reached, dns_wire_capacity_reached,
}
use safexip.Api.{
  Response, PresentRequest, validate_request, present, cleanup, json_ok, empty_object,
  respond_to_add, add_error_response, bad_request, service_unavailable, max_txt_value_len,
}

-- What `validate_request` lets through.
pub record IsChallenge (config : Config) (name value : Text) : Type 0 where
  pub is_acme_name : name ≡ acme_name config
  pub not_empty : value ≢ []
  pub fits_txt : length value ≤ max_txt_value_len

pub validate_request-IsChallenge :
    (config : Config) (body : PresentRequest) (name : Text)
    → validate_request body config ≡ ok name
    → IsChallenge config name body.value
unfolding validate_request
validate_request-IsChallenge config body name e =
    let n = to_lowercase (trim_end b'.' body.fqdn) in
    record {
      is_acme_name = ground (arith, text_eq_iff n (acme_name config));
      not_empty = ground arith;
      fits_txt = ground arith;
    }

pub validate_request-error :
    (config : Config) (body : PresentRequest) (r : Response)
    → validate_request body config ≡ err r
    → r.status ≡ 400
unfolding validate_request bad_request
validate_request-error config body r e = ground arith

-- A request that is let through acts on the challenge name.
pub validates_acme_name :
    (config : Config) (body : PresentRequest) (name : Text)
    → validate_request body config ≡ ok name
    → validate_request body config ≡ ok (acme_name config)
validates_acme_name config body name x =
    x ∙ ap ok (validate_request-IsChallenge config body name x).is_acme_name

pub present_invalid :
    (config : Config) (acme : AcmeRecords) (now later : ℕ) (body : PresentRequest) (s : ZoneState)
    (r : Response)
    → validate_request body config ≡ err r
    → present config acme now later body s ≡ (r, s)
unfolding present
present_invalid config acme now later body s r x = rw (x, present)

pub present_valid :
    (config : Config) (acme : AcmeRecords) (now later : ℕ) (body : PresentRequest) (s : ZoneState)
    → validate_request body config ≡ ok (acme_name config)
    → present config acme now later body s ≡ (
      respond_to_add (add acme now later (acme_name config) body.value s).0,
      (add acme now later (acme_name config) body.value s).1,
    )
unfolding present
present_valid config acme now later body s x = rw (x, present)

pub status_of_add :
    (r : Result AddError (Unit {0})) → (respond_to_add r).status ≡ (if is_ok r then 200 else 503)
unfolding add_error_response service_unavailable
status_of_add (ok _) = refl
status_of_add (err token_limit_reached) = refl
status_of_add (err dns_wire_capacity_reached) = refl

-- `present` succeeds only by a successful `add` under the challenge name.
pub present_ok :
    (config : Config) (acme : AcmeRecords) (now later : ℕ) (body : PresentRequest) (s : ZoneState)
    → (present config acme now later body s).0.status ≡ 200
    → (is_ok (add acme now later (acme_name config) body.value s).0 ≡ true)
      × ((present config acme now later body s).1
          ≡ (add acme now later (acme_name config) body.value s).1)
present_ok config acme now later body s e = elim (Result-cases (validate_request body config)) [
  | inl (r, x) ↦ absurd (
      ground (
        arith,
        validate_request-error config body r x,
        ap (λ (p : Response × ZoneState). p.0.status)
            (present_invalid config acme now later body s r x),
      ))
  | inr (name, x) ↦
      let same =
        present_valid config acme now later body s (validates_acme_name config body name x) in
      (
        ground (
          arith,
          ap (λ (p : Response × ZoneState). p.0.status) same,
          status_of_add (add acme now later (acme_name config) body.value s).0,
        ),
        ap (λ (p : Response × ZoneState). p.1) same,
      )
]

pub cleanup_invalid :
    (config : Config) (now : ℕ) (body : PresentRequest) (s : ZoneState) (r : Response)
    → validate_request body config ≡ err r
    → cleanup config now body s ≡ (r, s)
unfolding cleanup
cleanup_invalid config now body s r x = rw (x, cleanup)

pub cleanup_valid :
    (config : Config) (now : ℕ) (body : PresentRequest) (s : ZoneState)
    → validate_request body config ≡ ok (acme_name config)
    → cleanup config now body s ≡ (json_ok empty_object, remove now (acme_name config) body.value s)
unfolding cleanup
cleanup_valid config now body s x = rw (x, cleanup)
