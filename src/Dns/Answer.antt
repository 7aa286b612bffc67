-- ===== src/Dns/Answer.antt =====
-- src/dns.rs: the answer to a query for a name of the zone, against a table of record sets.
use safexip.Prelude.{
  Bool, true, false, Option, none, some, List, [], ◌∷◌, ◌++◌, append-nil, append_assoc, ◌≡◌, ◌≢◌,
  inl, inr, refl, ap, arith, if◌then◌else◌, Option-cases,
}
use safexip.Text.{Text, text_eq}
use safexip.Config.{Config}
use safexip.Hickory.{
  Hickory, HasBuilders, Message, Record, RecordType, soa_type, ns_type, a_type, txt_type,
  other_type, nx_domain,
}
use safexip.Wire.{◌>>=◌}
use safexip.Dns.{
  resolve_a, name_exists, txt_records, a_record, ns_glue, ns_records, answer, add_answers,
  add_additionals, nx_domain_unless,
}
use safexip.Dns.Names.{resolve_a-exists, apex_exists, txt_records-exists}

module _ (h : Hickory) where
  -- The records of a name and a type, and the additional records that go with them; `values` are the
  -- live values of the challenge name.
  unfoldable pub record_sets :
      Config
      → RecordType
      → h.Name
      → Text
      → List Text
      → Record h.Name
      → Option (List (Record h.Name) × List (Record h.Name))
  record_sets config soa_type owner qname values soa_rr =
      some (if text_eq qname config.domain then soa_rr ∷ [] else [], [])
  record_sets config ns_type owner qname values soa_rr =
      if text_eq qname config.domain
      then (do nss ← ns_records h config; glue ← ns_glue h config; some (nss, glue))
      else some ([], [])
  record_sets config a_type owner qname values soa_rr =
      some (
        elim (resolve_a config qname) [ none ↦ [] | some ip ↦ a_record h config owner ip ∷ [] ],
        [],
      )
  record_sets config txt_type owner qname values soa_rr =
      some (txt_records h config qname values, [])
  record_sets config (other_type n) owner qname values soa_rr = some ([], [])

  -- A message with two sections extended, and the code for names that do not exist.
  abbrev pub with_sets :
      Bool
      → Message h.Name h.Edns
      → List (Record h.Name) × List (Record h.Name)
      → Message h.Name h.Edns
  with_sets found m (answers, additionals) = record m {
    answers = m.answers ++ answers;
    additionals = m.additionals ++ additionals;
    response_code = if found then m.response_code else nx_domain;
  }

module _ (h : Hickory) (builders : HasBuilders h) where
  pub add_answers_lem :
      (rs : List (Record h.Name)) (m : Message h.Name h.Edns)
      → add_answers h rs m ≡ record m { answers = m.answers ++ rs }
  add_answers_lem [] m = simp append-nil
  add_answers_lem (r ∷ rs) m =
      rw (builders.add_answer_lem r m, add_answers_lem rs) (simp append_assoc)

  pub add_additionals_lem :
      (rs : List (Record h.Name)) (m : Message h.Name h.Edns)
      → add_additionals h rs m ≡ record m { additionals = m.additionals ++ rs }
  add_additionals_lem [] m = simp append-nil
  add_additionals_lem (r ∷ rs) m =
      rw (builders.add_additional_lem r m, add_additionals_lem rs) (simp append_assoc)

  no_sets :
      (found : Bool) (m : Message h.Name h.Edns)
      → nx_domain_unless h found m ≡ with_sets h found m ([], [])
  no_sets true m = simp append-nil
  no_sets false m = simp append-nil

  some_sets :
      (rs : List (Record h.Name)) (gs : List (Record h.Name)) (m : Message h.Name h.Edns)
      → add_additionals h gs (add_answers h rs m) ≡ with_sets h true m (rs, gs)
  some_sets rs gs m = rw (add_answers_lem rs m, add_additionals_lem gs) refl

  txt_sets :
      (found : Bool) (rs : List (Record h.Name)) (m : Message h.Name h.Edns)
      → (rs ≢ [] → found ≡ true)
      → (elim rs [
        | [] ↦ some (nx_domain_unless h found m)
        | r ∷ rest ↦ some (add_answers h (r ∷ rest) m)
      ])
        ≡ some (with_sets h found m (rs, []))
  txt_sets found [] m e = ap some (no_sets found m)
  txt_sets found (r ∷ rest) m e = rw (e cc) (ap some (some_sets (r ∷ rest) [] m))

  -- With builders that do what their documentation says: `answer` adds the record sets of the name
  -- and the type to the answer and additional sections, or panics where they cannot be made, and
  -- sets the code to NXDOMAIN exactly if the name does not exist. The branches that test no name's
  -- existence agree with that.
  pub answer-record_sets :
      (config : Config) (qtype : RecordType) (owner : h.Name) (qname : Text) (values : List Text)
      (soa_rr : Record h.Name) (m : Message h.Name h.Edns)
      → answer h config qtype owner qname values soa_rr m ≡ (do
        sets ← record_sets h config qtype owner qname values soa_rr
        some (with_sets h (name_exists config qname) m sets))
  unfolding answer record_sets
  answer-record_sets config soa_type owner qname values soa_rr m = ground (
    arith,
    apex_exists config qname,
    no_sets (name_exists config qname) m,
    some_sets (soa_rr ∷ []) [] m,
  )
  answer-record_sets config ns_type owner qname values soa_rr m =
      elim (Option-cases (ns_records h config)) [
        | inl e ↦ ground (arith, no_sets (name_exists config qname) m)
        | inr (nss, e) ↦ elim (Option-cases (ns_glue h config)) [
          | inl g ↦ ground (arith, no_sets (name_exists config qname) m)
          | inr (glue, g) ↦ ground (
            arith,
            apex_exists config qname,
            no_sets (name_exists config qname) m,
            some_sets nss glue m,
          )
        ]
      ]
  answer-record_sets config a_type owner qname values soa_rr m =
      elim (Option-cases (resolve_a config qname)) [
        | inl e ↦ ground (arith, no_sets (name_exists config qname) m)
        | inr (ip, e) ↦ ground (
          arith,
          resolve_a-exists config qname ip e,
          some_sets (a_record h config owner ip ∷ []) [] m,
        )
      ]
  answer-record_sets config txt_type owner qname values soa_rr m =
      txt_sets (name_exists config qname) (txt_records h config qname values) m
        (txt_records-exists h config qname values)
  answer-record_sets config (other_type n) owner qname values soa_rr m =
      ap some (no_sets (name_exists config qname) m)
