-- ===== src/Wire.antt =====
-- src/wire.rs: how many TXT values fit into one response. `none` is a panic (`expect`).
pub mod Search
pub mod Rounds
pub mod Maximum
use safexip.Prelude.{
  ℕ, Bool, true, false, not, ◌&&◌, Option, none, some, List, [], ◌∷◌, ◌++◌, ◌==◌, if◌then◌else◌,
  length, replicate, Result, ok, err,
}
use safexip.Text.{Text, codes}
use safexip.Config.{Config, acme_name}
use safexip.Hickory.{Hickory, Message, Record, from_rdata, txt_data, soa_data, txt_type, query_code}
use Search

infixl 5 ◌>>=◌
abbrev pub ◌>>=◌ {ℓ κ} : {A : Type ℓ} {B : Type κ} → Option A → (A → Option B) → Option B
none >>= f = none
some a >>= f = f a

-- `result.expect(…)`: an error is a panic.
abbrev pub expect {ℓ κ} : {E : Type ℓ} {A : Type κ} → Result E A → Option A
expect (ok a) = some a
expect (err e) = none

-- The answer of a test that does not panic.
abbrev pub or_panic : Option Bool → Bool
or_panic none = false
or_panic (some b) = b

pub record AcmeWireCapacity (Name : Type 0) : Type 0 where
  pub acme_name : Name
  pub zone : Name
  pub ns_hostname : Name
  pub txt_ttl : ℕ

module _ (h : Hickory) where
  open h use {
    Name, Edns, from_ascii, to_ascii, new_query, response as new_response, add_query, add_answer,
    add_authority, set_edns, new_edns, set_max_payload, to_vec, from_vec,
  }

  unfoldable pub from_config : Config → Option (AcmeWireCapacity Name)
  unfolding acme_name
  from_config config = do
    acme ← expect (from_ascii (acme_name config))
    zone ← expect (from_ascii config.domain)
    ns ← expect (from_ascii config.ns_hostname)
    some (record { acme_name = acme; zone = zone; ns_hostname = ns; txt_ttl = config.txt_ttl })

  unfoldable pub txt_record : Name → ℕ → Text → Record Name
  txt_record name ttl value = from_rdata name ttl (txt_data (value ∷ []))

  unfoldable pub soa_record : Name → Name → ℕ → Option (Record Name)
  soa_record zone ns_hostname serial = do
    rname ← expect (from_ascii (codes "admin." ++ to_ascii zone))
    some (from_rdata zone 10 (soa_data ns_hostname rname serial 3600 900 86400 10))

  -- `for value in values { response.add_answer(…) }`
  unfoldable pub add_values :
      AcmeWireCapacity Name → List Text → Message Name Edns → Message Name Edns
  unfolding txt_record
  add_values c [] m = m
  add_values c (value ∷ values) m =
      add_values c values (add_answer (txt_record c.acme_name c.txt_ttl value) m)

  unfoldable pub response : AcmeWireCapacity Name → List Text → Option (Message Name Edns)
  unfolding add_values
  response c values =
      let start = record (new_response 0 query_code) { authoritative = true } in
      let filled = add_values c values (add_query (new_query c.acme_name txt_type) start) in
      do
        soa ← soa_record c.zone c.ns_hostname 0
        some (set_edns (set_max_payload 1232 new_edns) (add_authority soa filled))

  -- The message survives a round trip through the wire with all its answers.
  unfoldable pub is_complete : Message Name Edns → ℕ → Bool
  is_complete message expected_answers = elim (to_vec message) [
    | none ↦ false
    | some encoded ↦ elim (from_vec encoded) [
      | none ↦ false
      | some decoded ↦ not decoded.truncation && length decoded.answers == expected_answers
    ]
  ]

  unfoldable pub fits : AcmeWireCapacity Name → List Text → Option Bool
  unfolding response is_complete
  fits c values = do m ← response c values; some (is_complete m (length values))

  unfoldable pub fits_count : AcmeWireCapacity Name → ℕ → Option Bool
  unfolding response is_complete
  fits_count c count = do m ← response c (replicate count (codes "x")); some (is_complete m count)

  -- The search tests the count 1 first, so a panic that comes at every count comes there.
  unfoldable pub maximum_token_count : AcmeWireCapacity Name → Option ℕ
  unfolding fits_count
  maximum_token_count c = do
    tested ← fits_count c 1
    some (Search.maximum (λ n. or_panic (fits_count c n)))
