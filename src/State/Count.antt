-- ===== src/State/Count.antt =====
-- The number of tokens, and the limit on it.
use safexip.Prelude.{
  ℕ, ◌+◌, ◌≤◌, Bool, not, some, List, [], ◌∷◌, ◌++◌, ◌≡◌, sym, ap, ◌∙◌, arith, retain, Option-cases,
  inl, inr, length, length-append, length-map, length-retain,
}
use safexip.Text.{Text, text_eq}
use safexip.Map
use safexip.State.{
  Token, Records, AcmeRecords, ZoneState, prune, or_empty, tokens_at, refresh_token, add_new, add,
  remove, write_back, token_count,
}
use safexip.State.Tokens.{values-refresh_token}
use safexip.State.Serial.{token_count-prune-le}
use safexip.State.Refine.{add_known, add_unknown, remove_absent, remove_present}

pub token_count-insert :
    (name : Text) (ts : List Token) (r : Records)
    → token_count (Map.insert name ts r) + length (tokens_at name r) ≡ token_count r + length ts
unfolding token_count Map.insert Map.get
token_count-insert name ts [] = omega arith
token_count-insert name ts ((n, us) ∷ r) = ground (arith, token_count-insert name ts r)

token_count-remove :
    (name : Text) (r : Records)
    → token_count (Map.remove name r) + length (tokens_at name r) ≤ token_count r
unfolding token_count Map.remove Map.get
token_count-remove name [] = omega arith
token_count-remove name ((n, us) ∷ r) = ground (arith, token_count-remove name r)

token_count-write_back :
    (name : Text) (ts : List Token) (r : Records)
    → length ts ≤ length (tokens_at name r)
    → token_count (write_back name ts r) ≤ token_count r
unfolding write_back
token_count-write_back name [] r h = omega (arith, token_count-remove name r)
token_count-write_back name (t ∷ ts) r h = omega (arith, token_count-insert name (t ∷ ts) r)

length-refresh_token :
    (v : Text) (e : ℕ) (ts us : List Token) → refresh_token v e ts ≡ some us → length us ≡ length ts
length-refresh_token v e ts us h =
    sym (length-map (λ (t : Token). t.value) us)
    ∙ ap length (values-refresh_token v e ts us h)
    ∙ length-map (λ (t : Token). t.value) ts

token_count-add_new :
    (acme : AcmeRecords) (later : ℕ) (name value : Text) (changed : Bool) (s : ZoneState)
    → token_count s.records ≤ acme.max_tokens
    → token_count (add_new acme later name value changed s).1.records ≤ acme.max_tokens
unfolding add_new
token_count-add_new acme later name value changed s h =
    let t : Token = record { value = value; expires_at = later + acme.lifetime } in
    ground (
      arith,
      token_count-insert name (tokens_at name s.records ++ t ∷ []) s.records,
      length-append (tokens_at name s.records) (t ∷ []),
    )

-- `add` keeps the number of tokens within the limit.
pub token_count-add :
    (acme : AcmeRecords) (now later : ℕ) (name value : Text) (s : ZoneState)
    → token_count s.records ≤ acme.max_tokens
    → token_count (add acme now later name value s).1.records ≤ acme.max_tokens
token_count-add acme now later name value s h =
    let r = (prune now s.records).0 in
    elim (Option-cases (refresh_token value (later + acme.lifetime) (tokens_at name r))) [
      | inl e ↦ rw (add_unknown acme now later name value s e) (
          token_count-add_new acme later name value (prune now s.records).1
            (record { records = r; serial = s.serial })
            (omega (arith, token_count-prune-le now s.records)))
      | inr (ts, e) ↦ rw (add_known acme now later name value s ts e) (
          omega (
            arith,
            token_count-prune-le now s.records,
            token_count-insert name ts r,
            length-refresh_token value (later + acme.lifetime) (tokens_at name r) ts e,
          ))
    ]

-- `remove` adds no token.
pub token_count-remove_value :
    (now : ℕ) (name value : Text) (s : ZoneState)
    → token_count (remove now name value s).records ≤ token_count s.records
token_count-remove_value now name value s =
    let r = (prune now s.records).0 in
    elim (Option-cases (Map.get name r)) [
      | inl e ↦ rw (remove_absent now name value s e) (token_count-prune-le now s.records)
      | inr (ts, e) ↦
          let kept = retain (λ (t : Token). not (text_eq t.value value)) ts in
          rw (remove_present now name value s ts e) (
            omega (
              arith,
              token_count-prune-le now s.records,
              token_count-write_back name kept r,
              length-retain (λ (t : Token). not (text_eq t.value value)) ts,
              ap (λ o. length (or_empty o)) e,
            ))
    ]
