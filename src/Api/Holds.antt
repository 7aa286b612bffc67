-- ===== src/Api/Holds.antt =====
-- src/api.rs: what the requests can put into the zone.
use safexip.Prelude.{
  Result-cases, ℕ, ◌+◌, ◌&&◌, &&_split, Option, none, some, ◌≡◌, arith, Bool-cases, inl, inr, is_ok,
}
use mathlib.Core.Path.{subst₂}
use safexip.Text.{Text, text_eq}
use safexip.Text.Laws.{text_eq_iff}
use safexip.Config.{Config, acme_name}
use safexip.State.{AcmeRecords, ZoneState, Records, add}
use safexip.State.Valid.{IsValid, expiry}
use safexip.State.Refine.{write, expire, expiry-add, expiry-remove_value}
use safexip.Api.{PresentRequest, validate_request, present, cleanup}
use safexip.Api.Handlers.{
  IsChallenge, validate_request-IsChallenge, validates_acme_name, present_invalid, present_valid,
  cleanup_invalid, cleanup_valid,
}

-- All that the zone holds are challenge values: at the challenge name, not empty, and short enough for
-- a TXT string.
abbrev pub HoldsChallenges : Config → Records → Type 0
HoldsChallenges config r = (n v : Text) (e : ℕ) → expiry r n v ≡ some e → IsChallenge config n v

write-HoldsChallenges :
    (config : Config) (now : ℕ) (value : Text) (o : Option ℕ) (r : Records)
    → IsChallenge config (acme_name config) value
    → HoldsChallenges config r
    → (n v : Text) (e : ℕ) → write (acme_name config) value o (expire now (expiry r)) n v ≡ some e
    → IsChallenge config n v
write-HoldsChallenges config now value o r challenge holds n v e h =
    elim (Bool-cases (text_eq (acme_name config) n && text_eq value v)) [
      | inl same ↦
          let (same_name, same_value) =
            &&_split (text_eq (acme_name config) n) (text_eq value v) same in
          subst₂ (IsChallenge config) ((text_eq_iff (acme_name config) n).0 same_name)
            ((text_eq_iff value v).0 same_value) challenge
      | inr other ↦ holds n v e (ground arith)
    ]

expire-HoldsChallenges :
    (config : Config) (now : ℕ) (r : Records)
    → HoldsChallenges config r
    → (n v : Text) (e : ℕ) → expire now (expiry r) n v ≡ some e
    → IsChallenge config n v
expire-HoldsChallenges config now r holds n v e h = holds n v e (ground arith)

present-HoldsChallenges :
    (config : Config) (acme : AcmeRecords) (now later : ℕ) (body : PresentRequest) (s : ZoneState)
    → IsValid s.records
    → HoldsChallenges config s.records
    → HoldsChallenges config (present config acme now later body s).1.records
present-HoldsChallenges config acme now later body s valid holds =
    elim (Result-cases (validate_request body config)) [
      | inl (r, x) ↦ rw (present_invalid config acme now later body s r x) holds
      | inr (name, x) ↦
          let c = acme_name config in
          let named = validates_acme_name config body name x in
          rw (present_valid config acme now later body s named) λ n v e h.
            elim (Bool-cases (is_ok (add acme now later c body.value s).0)) [
              | inl success ↦
                  write-HoldsChallenges config now body.value (some (later + acme.lifetime))
                    s.records (validate_request-IsChallenge config body c named) holds n v e
                    (ground (arith, expiry-add acme now later c body.value s valid n v))
              | inr failure ↦
                  expire-HoldsChallenges config now s.records holds n v e
                    (ground (arith, expiry-add acme now later c body.value s valid n v))
            ]
    ]

cleanup-HoldsChallenges :
    (config : Config) (now : ℕ) (body : PresentRequest) (s : ZoneState)
    → IsValid s.records
    → HoldsChallenges config s.records
    → HoldsChallenges config (cleanup config now body s).1.records
cleanup-HoldsChallenges config now body s valid holds =
    elim (Result-cases (validate_request body config)) [
      | inl (r, x) ↦ rw (cleanup_invalid config now body s r x) holds
      | inr (name, x) ↦
          let c = acme_name config in
          let named = validates_acme_name config body name x in
          rw (cleanup_valid config now body s named) λ n v e h.
            write-HoldsChallenges config now body.value none s.records
              (validate_request-IsChallenge config body c named) holds n v e
              (ground (arith, expiry-remove_value now c body.value s valid n v))
    ]

-- From valid records: `/present` and `/cleanup` keep the zone to values at the challenge name that
-- are not empty and have at most 255 bytes, whatever the request.
pub handlers-HoldsChallenges :
    (config : Config) (acme : AcmeRecords) (now later : ℕ) (body : PresentRequest) (s : ZoneState)
    → IsValid s.records
    → HoldsChallenges config s.records
    → HoldsChallenges config (present config acme now later body s).1.records
      × HoldsChallenges config (cleanup config now body s).1.records
handlers-HoldsChallenges config acme now later body s valid holds = (
  present-HoldsChallenges config acme now later body s valid holds,
  cleanup-HoldsChallenges config now body s valid holds,
)
