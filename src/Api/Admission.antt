-- ===== src/Api/Admission.antt =====
-- src/api.rs, `authorize_and_admit`: the middleware in front of `/present` and `/cleanup`, and the limit on the
-- requests that are past it at one time.
use safexip.Prelude.{
  ℕ, suc, ◌+◌, ◌≤◌, true, false, not, Option, none, some, ◌≡◌, ◌⊎◌, refl, ap, ◌∙◌, arith,
  if◌then◌else◌, ok, err, is_ok,
}
use safexip.Config.{Config}
use safexip.Hickory.{Bytes}
use safexip.Api.{
  Float, RequestGate, Codecs, Response, check_rate, try_acquire, check_basic_auth, unauthorized,
  rate_limited, service_unavailable, error_response, max_concurrent_requests, new_gate, router_gate,
}

-- The middleware up to `next.run`: a response at once, or a permit.
pub data Admission : Type 0 where
  rejected : Response → Admission
  admitted : Admission

module _ (f : Float) (k : Codecs) where
  abbrev acquire_or_reject : RequestGate f.F64 → Admission × RequestGate f.F64
  acquire_or_reject gate = elim (try_acquire gate.concurrency) [
    | none ↦ (rejected (service_unavailable "concurrent request limit reached"), gate)
    | some left ↦ (admitted, record gate { concurrency = left })
  ]

  abbrev rate_or_reject : ℕ → RequestGate f.F64 → Admission × RequestGate f.F64
  rate_or_reject now gate =
      let (allowed, bucket) = check_rate f now gate.rate in
      if not allowed
      then (rejected rate_limited, record gate { rate = bucket })
      else acquire_or_reject (record gate { rate = bucket })

  unfoldable pub admit :
      Config → Option Bytes → ℕ → RequestGate f.F64 → Admission × RequestGate f.F64
  admit config authorization now gate = elim (check_basic_auth k authorization config) [
    | err message ↦ (rejected (unauthorized message), gate)
    | ok _ ↦ rate_or_reject now gate
  ]

  -- The permit is dropped when the response is there.
  abbrev pub release : RequestGate f.F64 → RequestGate f.F64
  release gate = record gate { concurrency = suc gate.concurrency }

  -- The whole middleware for one request at a time; `next` is the rest of the router.
  unfoldable pub authorize_and_admit :
      {S : Type 0}
      → Config
      → Option Bytes
      → ℕ
      → (S → Response × S)
      → RequestGate f.F64
      → S
      → Response × (RequestGate f.F64 × S)
  authorize_and_admit config authorization now next gate s =
      let (admission, gate') = admit config authorization now gate in
      elim admission [
        | rejected response ↦ (response, (gate', s))
        | admitted ↦ let (response, s') = next s in (response, (release gate', s'))
      ]

  -- A request whose authorization is not accepted is answered by 401, and neither the gate nor the
  -- state behind it is changed, whatever the rest of the router would do.
  pub unauthorized_untouched :
      {S : Type 0} (config : Config) (authorization : Option Bytes) (now : ℕ)
      (next : S → Response × S) (gate : RequestGate f.F64) (s : S)
      → is_ok (check_basic_auth k authorization config) ≡ false
      → ((authorize_and_admit config authorization now next gate s).0.status ≡ 401)
        × ((authorize_and_admit config authorization now next gate s).1 ≡ (gate, s))
  unfolding authorize_and_admit admit unauthorized error_response
  unauthorized_untouched config authorization now next gate s e = ground arith

  -- The middleware leaves as many permits as it found, and either leaves the state, with a status
  -- of 401, 429 or 503, or the authorization is accepted and the response and the state are those
  -- of the rest of the router.
  pub authorize_and_admit_permits :
      {S : Type 0} (config : Config) (authorization : Option Bytes) (now : ℕ)
      (next : S → Response × S) (gate : RequestGate f.F64) (s : S)
      → let (response, (gate', s')) = authorize_and_admit config authorization now next gate s in
        (gate'.concurrency ≡ gate.concurrency)
        × ((((response.status ≡ 401) ⊎ (response.status ≡ 429) ⊎ (response.status ≡ 503))
              × (s' ≡ s))
            ⊎ ((is_ok (check_basic_auth k authorization config) ≡ true)
                × (response ≡ (next s).0)
                × (s' ≡ (next s).1)))
  unfolding authorize_and_admit admit unauthorized error_response rate_limited service_unavailable
  authorize_and_admit_permits config authorization now next gate s = ground arith

  -- Requests overlap: each arrives, is admitted or not, and if it is admitted it leaves later.
  pub record Server : Type 0 where
    pub gate : RequestGate f.F64
    pub in_flight : ℕ

  abbrev pub count_admitted : Admission → ℕ
  count_admitted (rejected r) = 0
  count_admitted admitted = 1

  pub data Step (config : Config) (s t : Server) : Type 0 where
    arrive :
        (authorization : Option Bytes) (now : ℕ)
        → t.gate ≡ (admit config authorization now s.gate).1
        → t.in_flight ≡ s.in_flight + count_admitted (admit config authorization now s.gate).0
        → Step config s t
    leave : suc t.in_flight ≡ s.in_flight → t.gate ≡ release s.gate → Step config s t

  pub data Reach (config : Config) (s : Server) : Server → Type 0 where
    here : Reach config s s
    next : {t u : Server} → Reach config s t → Step config t u → Reach config s u

  pub admit_permits :
      (config : Config) (authorization : Option Bytes) (now : ℕ) (gate : RequestGate f.F64)
      → (admit config authorization now gate).1.concurrency
          + count_admitted (admit config authorization now gate).0
        ≡ gate.concurrency
  unfolding admit
  admit_permits config authorization now gate = ground arith

  Step-permits :
      (config : Config) (s t : Server)
      → Step config s t
      → t.gate.concurrency + t.in_flight ≡ s.gate.concurrency + s.in_flight
  Step-permits config s t (arrive authorization now g e) = omega (
    arith,
    admit_permits config authorization now s.gate,
    ap (λ (x : RequestGate f.F64). x.concurrency) g,
  )
  Step-permits config s t (leave e g) =
      omega (arith, ap (λ (x : RequestGate f.F64). x.concurrency) g)

  Reach-permits :
      (config : Config) (s t : Server)
      → Reach config s t
      → t.gate.concurrency + t.in_flight ≡ s.gate.concurrency + s.in_flight
  Reach-permits config s t here = refl
  Reach-permits config s t (next {t = u} r step) =
      Step-permits config u t step ∙ Reach-permits config s u r

  abbrev pub opened : Config → ℕ → Server
  opened config now = record { gate = router_gate f config now; in_flight = 0 }

  -- From the start of the router, however requests arrive and leave: at most 64 are past the
  -- middleware at one time, and as many permits are left as are missing to 64.
  pub in_flight_bound :
      (config : Config) (now : ℕ) (t : Server)
      → Reach config (opened config now) t
      → (t.in_flight ≤ max_concurrent_requests)
        × (t.gate.concurrency + t.in_flight ≡ max_concurrent_requests)
  unfolding router_gate new_gate
  in_flight_bound config now t r =
      let same = Reach-permits config (opened config now) t r in
      (omega (arith, same), omega (arith, same))
