-- ===== src/Wire/Maximum.antt =====
-- src/wire.rs: what `response` is made of, and when its `expect` cannot fail.
use safexip.Prelude.{
  true, false, some, List, [], ◌∷◌, ◌++◌, ◌≡◌, sym, ap, ◌∙◌, arith, map, is_some, ℕ, Option-cases,
  inl, inr, append-nil, append_assoc,
}
use safexip.Text.{Text}
use safexip.Hickory.{
  Hickory, HasBuilders, Message, Record, response_message, query_code, no_error, txt_type,
}
use safexip.Wire
use safexip.Wire.Search

module _ (h : Hickory) (laws : HasBuilders h) where
  add_values_lem :
      (c : Wire.AcmeWireCapacity h.Name) (values : List Text) (m : Message h.Name h.Edns)
      → Wire.add_values h c values m
        ≡ record m { answers = m.answers ++ map (Wire.txt_record h c.acme_name c.txt_ttl) values }
  unfolding Wire.add_values
  add_values_lem c [] m = ap (λ xs. record m { answers = xs }) (sym (append-nil m.answers))
  add_values_lem c (value ∷ values) m =
      let r = Wire.txt_record h c.acme_name c.txt_ttl value in
      let tail = map (Wire.txt_record h c.acme_name c.txt_ttl) values in
      add_values_lem c values (h.add_answer r m)
      ∙ ap (λ (m' : Message h.Name h.Edns). record m' { answers = m'.answers ++ tail })
          (laws.add_answer_lem r m)
      ∙ ap (λ xs. record m { answers = xs }) (append_assoc m.answers (r ∷ []) tail)

  -- With builders that do what their documentation says, and where the SOA record of the zone can
  -- be made: the response that the capacity is measured with is an authoritative answer to the TXT
  -- query of the challenge name, with one TXT record for each value, in order, the SOA record as
  -- its only authority, and an EDNS payload of 1232.
  pub response-sections :
      (c : Wire.AcmeWireCapacity h.Name) (values : List Text) (authority : Record h.Name)
      → Wire.soa_record h c.zone c.ns_hostname 0 ≡ some authority
      → Wire.response h c values
        ≡ some (record {
          id = 0;
          message_type = response_message;
          op_code = query_code;
          authoritative = true;
          truncation = false;
          recursion_desired = false;
          recursion_available = false;
          response_code = no_error;
          queries = h.new_query c.acme_name txt_type ∷ [];
          answers = map (Wire.txt_record h c.acme_name c.txt_ttl) values;
          authorities = authority ∷ [];
          additionals = [];
          edns = some (h.set_max_payload 1232 h.new_edns);
        })
  unfolding Wire.response
  response-sections c values authority e =
      let start = record (h.response 0 query_code) { authoritative = true } in
      let asked = h.add_query (h.new_query c.acme_name txt_type) start in
      let filled = Wire.add_values h c values asked in
      rw (
        e,
        laws.set_edns_lem (h.set_max_payload 1232 h.new_edns) (h.add_authority authority filled),
        laws.add_authority_lem authority filled,
        add_values_lem c values asked,
        laws.add_query_lem (h.new_query c.acme_name txt_type) start,
        laws.response_lem 0 query_code,
      )

module _ (h : Hickory) where
  -- What the search finds, where it does not panic.
  pub maximum_token_count_lem :
      (c : Wire.AcmeWireCapacity h.Name) (n : ℕ)
      → Wire.maximum_token_count h c ≡ some n
      → Search.maximum (λ k. Wire.or_panic (Wire.fits_count h c k)) ≡ n
  unfolding Wire.maximum_token_count
  maximum_token_count_lem c n e = elim (Option-cases (Wire.fits_count h c 1)) [
    | inl x ↦ absurd (ground arith)
    | inr (b, x) ↦ ground arith
  ]

  -- Where the search for the maximum does not panic, no test of values and no test of a count does.
  pub fits_total :
      (c : Wire.AcmeWireCapacity h.Name) (n : ℕ) (values : List Text) (count : ℕ)
      → Wire.maximum_token_count h c ≡ some n
      → (is_some (Wire.fits h c values) ≡ true) × (is_some (Wire.fits_count h c count) ≡ true)
  unfolding Wire.maximum_token_count Wire.fits Wire.fits_count Wire.response
  fits_total c n values count e = elim (Option-cases (Wire.soa_record h c.zone c.ns_hostname 0)) [
    | inl x ↦ absurd (ground arith)
    | inr (soa, x) ↦ (ground arith, ground arith)
  ]
