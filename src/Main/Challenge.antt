-- ===== src/Main/Challenge.antt =====
-- src/api.rs and src/dns.rs together: a presented value and the answers of the DNS handler.
use safexip.Prelude.{
  ℕ, ◌+◌, ◌<◌, true, Option, some, none, List, ◌≡◌, sym, ap, ◌∙◌, arith, map, All, ok, Option-cases,
  inl, inr,
}
use mathlib.Core.Path.{subst}
use safexip.Text.{Text}
use safexip.Text.Laws.{text_eq_iff}
use safexip.Config.{Config, acme_name}
use safexip.State.{AcmeRecords, ZoneState, get_with_serial}
use safexip.State.Valid.{IsValid}
use safexip.State.History.{Event, run}
use safexip.State.Served.{contains, Spares}
use safexip.Hickory.{Hickory, HasBuilders, Message, Query, txt_type}
use safexip.Wire.{txt_record}
use safexip.Dns.{build_response, read_zone, only_query, txt_records, soa}
use safexip.Dns.Answer.{record_sets}
use safexip.Dns.Response.{name_of, refusal}
use safexip.Dns.Refine.{answered, build_response-answered}
use safexip.Api.{PresentRequest, present}
use safexip.Api.Promises.{present-served}

-- The TXT query of the challenge name reads its values.
read_zone-acme_name :
    (config : Config) (now : ℕ) (qname : Text) (s : ZoneState)
    → qname ≡ acme_name config
    → read_zone config now txt_type qname s ≡ get_with_serial now qname s
unfolding read_zone
read_zone-acme_name config now qname s e = ground (arith, text_eq_iff qname (acme_name config))

module _ (h : Hickory) where
  txt_records-acme_name :
      (config : Config) (qname : Text) (values : List Text) (name : h.Name)
      → qname ≡ acme_name config
      → h.from_ascii qname ≡ ok name
      → txt_records h config qname values ≡ map (txt_record h name config.txt_ttl) values
  unfolding txt_records
  txt_records-acme_name config qname values name e parses =
      ground (arith, text_eq_iff qname (acme_name config))

  answered-txt :
      (config : Config) (request m : Message h.Name h.Edns) (q : Query h.Name) (values : List Text)
      (current : ℕ)
      → q.query_type ≡ txt_type
      → answered h config request q (values, current) ≡ some m
      → m.answers ≡ txt_records h config (name_of h q) values
  unfolding answered record_sets
  answered-txt config request m q values current is_txt e =
      elim (Option-cases (soa h config current)) [
        | inl x ↦ absurd (ground arith)
        | inr (soa_rr, x) ↦ ground arith
      ]

module _ (h : Hickory) (config : Config) (query : ℕ) (request m : Message h.Name h.Edns)
    (q : Query h.Name) (s s' : ZoneState) (name : h.Name) (is_txt : q.query_type ≡ txt_type)
    (at_challenge : name_of h q ≡ acme_name config)
    (parses : h.from_ascii (acme_name config) ≡ ok name) where
  read_at_challenge :
      read_zone config query q.query_type (name_of h q) s
      ≡ get_with_serial query (acme_name config) s
  read_at_challenge =
      ap (λ t. read_zone config query t (name_of h q) s) is_txt
      ∙ read_zone-acme_name config query (name_of h q) s at_challenge
      ∙ ap (λ n. get_with_serial query n s) at_challenge

  challenge_answers :
      build_response h config query request s ≡ (
        answered h config request q (read_zone config query q.query_type (name_of h q) s).0,
        (read_zone config query q.query_type (name_of h q) s).1,
      )
      → build_response h config query request s ≡ (some m, s')
      → m.answers
        ≡ map (txt_record h name config.txt_ttl) (get_with_serial query (acme_name config) s).0.0
  challenge_answers same e =
      let (values, current) = (get_with_serial query (acme_name config) s).0 in
      let whole : (answered h config request q (values, current) ≡ some m) =
        ap (λ (p : (List Text × ℕ) × ZoneState). answered h config request q p.0)
          (sym read_at_challenge)
        ∙ ap (λ (p : Option (Message h.Name h.Edns) × ZoneState). p.0) (sym same ∙ e) in
      answered-txt h config request m q values current is_txt whole
      ∙ txt_records-acme_name h config (name_of h q) values name at_challenge
          (ap h.from_ascii at_challenge ∙ parses)

  only_query-eq :
      (p : Query h.Name)
      → only_query request.queries ≡ some q
      → only_query request.queries ≡ some p
      → p ≡ q
  only_query-eq p e f = ground arith

-- From valid records, with builders that do what their documentation says: if `/present` answers
-- with status 200, and later, before the value's expiry, the handler answers a request that no test
-- refuses and whose one query asks for the TXT records of the challenge name, then the answer
-- section of the response is one TXT record for each value of a list that has the presented one.
-- Between the two there may be any operations, if each of them happens before the expiry and
-- neither presents nor removes that value at the challenge name. The challenge name parses, and the
-- handler does not panic.
pub present-answered :
    (h : Hickory) (config : Config) (acme : AcmeRecords) (now later : ℕ) (body : PresentRequest)
    (s : ZoneState) (events : List Event) (query : ℕ) (request m : Message h.Name h.Edns)
    (q : Query h.Name) (s' : ZoneState) (name : h.Name)
    → HasBuilders h
    → IsValid s.records
    → (present config acme now later body s).0.status ≡ 200
    → All (Spares (later + acme.lifetime) (acme_name config) body.value) events
    → query < later + acme.lifetime
    → refusal h config request ≡ none
    → only_query request.queries ≡ some q
    → q.query_type ≡ txt_type
    → name_of h q ≡ acme_name config
    → h.from_ascii (acme_name config) ≡ ok name
    → build_response h config query request
        (run acme events (present config acme now later body s).1)
      ≡ (some m, s')
    → (values : List Text) × (contains body.value values ≡ true)
      × (m.answers ≡ map (txt_record h name config.txt_ttl) values)
present-answered h config acme now later body s events query request m q s' name builders valid
      accepted spared early served only is_txt at_challenge parses e =
    let after = run acme events (present config acme now later body s).1 in
    let (p, only', same) = build_response-answered h builders config query request after served in
    let same_query : (p ≡ q) =
      only_query-eq h config query request m q after s' name is_txt at_challenge parses p only
        only' in
    (
      (get_with_serial query (acme_name config) after).0.0,
      present-served config acme now later body s events query valid accepted spared early,
      challenge_answers h config query request m q after s' name is_txt at_challenge parses
          (subst
            (λ (r : Query h.Name). build_response h config query request after ≡ (
              answered h config request r
                  (read_zone config query r.query_type (name_of h r) after).0,
              (read_zone config query r.query_type (name_of h r) after).1,
            ))
            same_query same)
          e,
    )
