-- ===== src/Dns/Encode.antt =====
-- src/dns.rs: the bytes that are sent.
use safexip.Prelude.{
  ℕ, ◌≤◌, true, false, some, [], ◌≡◌, ◌≢◌, ◌⊎◌, inl, inr, arith, if◌then◌else◌, Option-cases,
  Bool-cases, length, min, leb, leb_iff,
}
use safexip.Config.{Config}
use safexip.State.{ZoneState}
use safexip.Hickory.{Hickory, Message, Bytes}
use safexip.Dns.{
  is_query_message, build_response, servfail, encode_complete_or_servfail, encode_udp, handle,
  max_udp_payload,
}

module _ (h : Hickory) where
  -- The bytes encode the message, and decode to a message that is not truncated.
  pub record IsComplete (m : Message h.Name h.Edns) (bytes : Bytes) : Type 0 where
    pub decoded : Message h.Name h.Edns
    pub encodes : h.to_vec m ≡ some bytes
    pub decodes : h.from_vec bytes ≡ some decoded
    pub not_truncated : decoded.truncation ≡ false

  pub encode_complete_or_servfail_lem :
      (request m : Message h.Name h.Edns)
      → IsComplete m (encode_complete_or_servfail h request m)
        ⊎ (encode_complete_or_servfail h request m ≡ servfail h request)
  unfolding encode_complete_or_servfail
  encode_complete_or_servfail_lem request m = elim (Option-cases (h.to_vec m)) [
    | inl e ↦ inr (ground arith)
    | inr (bytes, e) ↦ elim (Option-cases (h.from_vec bytes)) [
      | inl d ↦ inr (ground arith)
      | inr (decoded, d) ↦ elim (Bool-cases decoded.truncation) [
        | inl t ↦ inr (ground arith)
        | inr t ↦ inl (record {
          decoded = decoded;
          encodes = ground arith;
          decodes = ground arith;
          not_truncated = t;
        })
      ]
    ]
  ]

  -- The request is a query, and the response to it was built.
  pub record IsHandled (config : Config) (now : ℕ) (raw : Bytes) (s s' : ZoneState)
      (request m : Message h.Name h.Edns) : Type 0 where
    pub decodes : h.from_vec raw ≡ some request
    pub is_query : is_query_message request.message_type ≡ true
    pub responds : build_response h config now request s ≡ (some m, s')

  -- Where the handler for TCP sends something, the request decodes to a query, a response to it was
  -- built, and what is sent is the encoding of that response, which decodes to a message that is
  -- not truncated, or it is the SERVFAIL for the request.
  pub handle-IsComplete :
      (config : Config) (now : ℕ) (raw bytes : Bytes) (s s' : ZoneState)
      → handle h config now raw s ≡ (some bytes, s')
      → bytes ≢ []
      → (request m : Message h.Name h.Edns) × IsHandled config now raw s s' request m
        × (IsComplete m bytes ⊎ (bytes ≡ servfail h request))
  unfolding handle
  handle-IsComplete config now raw bytes s s' e sent = elim (Option-cases (h.from_vec raw)) [
    | inl x ↦ absurd (ground arith)
    | inr (request, x) ↦ elim (Option-cases (build_response h config now request s).0) [
      | inl y ↦ absurd (ground arith)
      | inr (m, y) ↦
          let same : (bytes ≡ encode_complete_or_servfail h request m) = ground arith in
          (
            request,
            m,
            record { decodes = x; is_query = ground arith; responds = ground arith },
            rw same (encode_complete_or_servfail_lem request m),
          )
    ]
  ]

  -- What is sent over UDP for a response is at most as long as the requester and the server allow,
  -- and is then complete or a SERVFAIL; or it is the encoding of the truncated response; or it is a
  -- SERVFAIL.
  pub encode_udp_fits :
      (request m : Message h.Name h.Edns)
      → ((length (encode_udp h request m) ≤ min (h.max_payload request) max_udp_payload)
          × (IsComplete m (encode_udp h request m) ⊎ (encode_udp h request m ≡ servfail h request)))
        ⊎ (h.to_vec (h.truncate m) ≡ some (encode_udp h request m))
        ⊎ (encode_udp h request m ≡ servfail h request)
  unfolding encode_udp
  encode_udp_fits request m =
      let whole = encode_complete_or_servfail h request m in
      elim (Bool-cases (leb (length whole) (min (h.max_payload request) max_udp_payload))) [
        | inl fits ↦ inl (
            rw (fits, if◌then◌else◌)
              ((leb_iff _ _).0 fits, encode_complete_or_servfail_lem request m))
        | inr long ↦ elim (Option-cases (h.to_vec (h.truncate m))) [
          | inl e ↦ inr (inr (ground arith))
          | inr (short, e) ↦ inr (inl (ground arith))
        ]
      ]
