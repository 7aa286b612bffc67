-- ===== src/Dns/Refine.antt =====
-- src/dns.rs: `build_response` for the requests that are not refused, against the table of record sets.
use safexip.Prelude.{
  ℕ, true, false, not, Option, none, some, List, [], ◌∷◌, ◌≡◌, ap, fun_ext, ◌∙◌, arith,
  if◌then◌else◌, Option-cases, inl, inr,
}
use safexip.Text.{Text}
use safexip.Config.{Config}
use safexip.State.{ZoneState}
use safexip.Hickory.{
  Hickory, HasBuilders, Message, Record, Query, response_message, no_error, nx_domain, not_imp,
  form_err,
}
use safexip.Wire.{◌>>=◌}
use safexip.Dns.{
  name_exists, answer, soa, read_zone, answer_query, respond, build_response, only_query,
  is_query_code, blank, response_edns,
}
use safexip.Dns.Answer.{record_sets, with_sets, answer-record_sets}
use safexip.Dns.Response.{name_of, refusal_of_query, has_bad_version, refusal}

module _ (h : Hickory) where
  abbrev pub reply_edns : Option h.Edns → Option h.Edns
  reply_edns none = none
  reply_edns (some e) = some (response_edns h e)

  -- The whole response to a query, from the values and the serial that were read.
  unfoldable pub answered :
      Config → Message h.Name h.Edns → Query h.Name → List Text × ℕ → Option (Message h.Name h.Edns)
  answered config request query (values, current) = do
    soa_rr ← soa h config current
    sets ← record_sets h config query.query_type query.name (name_of h query) values soa_rr
    some (record {
      id = request.id;
      message_type = response_message;
      op_code = request.op_code;
      authoritative = true;
      truncation = false;
      recursion_desired = request.recursion_desired;
      recursion_available = false;
      response_code = if name_exists config (name_of h query) then no_error else nx_domain;
      queries = query ∷ [];
      answers = sets.0;
      authorities = soa_rr ∷ [];
      additionals = sets.1;
      edns = reply_edns request.edns;
    })

module _ (h : Hickory) (builders : HasBuilders h) where
  -- The response with its EDNS part and no section.
  abbrev start : Message h.Name h.Edns → Option h.Edns → Message h.Name h.Edns
  start request edns = record {
    id = request.id;
    message_type = response_message;
    op_code = request.op_code;
    authoritative = true;
    truncation = false;
    recursion_desired = request.recursion_desired;
    recursion_available = false;
    response_code = no_error;
    queries = [];
    answers = [];
    authorities = [];
    additionals = [];
    edns = edns;
  }

  blank-start : (request : Message h.Name h.Edns) → blank h request ≡ start request none
  blank-start request = rw (builders.response_lem request.id request.op_code)

  set_edns-start :
      (request : Message h.Name h.Edns) (e : h.Edns)
      → h.set_edns e (blank h request) ≡ start request (some e)
  set_edns-start request e =
      rw (
        builders.set_edns_lem e (blank h request),
        builders.response_lem request.id request.op_code,
      )

  build_response-start :
      (config : Config) (now : ℕ) (request : Message h.Name h.Edns) (s : ZoneState)
      → has_bad_version h request.edns ≡ false
      → build_response h config now request s
        ≡ respond h config now request (start request (reply_edns h request.edns)) s
  unfolding build_response
  build_response-start config now request s e = elim (Option-cases request.edns) [
    | inl x ↦ ground (arith, blank-start request)
    | inr (edns, x) ↦ ground (arith, set_edns-start request (response_edns h edns))
  ]

  answer_query_in_zone :
      (config : Config) (now : ℕ) (m : Message h.Name h.Edns) (q : Query h.Name) (s : ZoneState)
      → refusal_of_query h config q ≡ none
      → answer_query h config now q m s ≡ (
          let ((values, current), s') = read_zone config now q.query_type (name_of h q) s in
          (
            (do
              soa_rr ← soa h config current
              answer h config q.query_type q.name
                  (name_of h q)
                  values
                  soa_rr
                  (h.add_authority soa_rr m)),
            s',
          ))
  unfolding answer_query
  answer_query_in_zone config now m q s e = ground arith

  -- The message to which `answer` adds.
  answer-start :
      (config : Config) (request : Message h.Name h.Edns) (edns : Option h.Edns) (q : Query h.Name)
      (values : List Text) (soa_rr : Record h.Name)
      → answer h config q.query_type q.name
          (name_of h q)
          values
          soa_rr
          (h.add_authority soa_rr (h.add_query q (start request edns)))
        ≡ (do
          sets ← record_sets h config q.query_type q.name (name_of h q) values soa_rr
          some (
              with_sets h
                (name_exists config (name_of h q))
                (record (start request edns) { queries = q ∷ []; authorities = soa_rr ∷ [] })
                sets))
  answer-start config request edns q values soa_rr =
      rw (builders.add_query_lem q (start request edns), builders.add_authority_lem soa_rr)
        (answer-record_sets h builders config q.query_type q.name (name_of h q) values soa_rr
          (record (start request edns) { queries = q ∷ []; authorities = soa_rr ∷ [] }))

  answer_query-answered :
      (config : Config) (now : ℕ) (request : Message h.Name h.Edns) (q : Query h.Name)
      (s : ZoneState)
      → refusal_of_query h config q ≡ none
      → answer_query h config now q (h.add_query q (start request (reply_edns h request.edns))) s
        ≡ (
          answered h config request q (read_zone config now q.query_type (name_of h q) s).0,
          (read_zone config now q.query_type (name_of h q) s).1,
        )
  unfolding answered
  answer_query-answered config now request q s e =
      let m = h.add_query q (start request (reply_edns h request.edns)) in
      let ((values, current), s') = read_zone config now q.query_type (name_of h q) s in
      answer_query_in_zone config now m q s e
      ∙ ap
          (λ (f : Record h.Name → Option (Message h.Name h.Edns)). (soa h config current >>= f, s'))
          (fun_ext (answer-start config request (reply_edns h request.edns) q values))

  respond-answered :
      (config : Config) (now : ℕ) (request : Message h.Name h.Edns) (s : ZoneState)
      → (if not (is_query_code request.op_code)
          then some not_imp
          else elim (only_query request.queries) [
            | none ↦ some form_err
            | some query ↦ refusal_of_query h config query
          ])
        ≡ none
      → (q : Query h.Name) × (only_query request.queries ≡ some q)
        × (respond h config now request (start request (reply_edns h request.edns)) s ≡ (
          answered h config request q (read_zone config now q.query_type (name_of h q) s).0,
          (read_zone config now q.query_type (name_of h q) s).1,
        ))
  unfolding respond
  respond-answered config now request s e = elim (Option-cases (only_query request.queries)) [
    | inl x ↦ absurd (ground arith)
    | inr (q, x) ↦
        let in_zone : (refusal_of_query h config q ≡ none) = ground arith in
        (q, x, ground (arith, answer_query-answered config now request q s in_zone))
  ]

  -- With builders that do what their documentation says: a request that no test refuses has one
  -- query, and the response is the specified one. It is authoritative and repeats the query, its
  -- answers are the record set of the name and the type, its authority section is the SOA with the
  -- serial that was read together with the values, and its code is NXDOMAIN exactly if the name
  -- does not exist. The state is changed by that reading alone.
  pub build_response-answered :
      (config : Config) (now : ℕ) (request : Message h.Name h.Edns) (s : ZoneState)
      → refusal h config request ≡ none
      → (q : Query h.Name) × (only_query request.queries ≡ some q)
        × (build_response h config now request s ≡ (
          answered h config request q (read_zone config now q.query_type (name_of h q) s).0,
          (read_zone config now q.query_type (name_of h q) s).1,
        ))
  build_response-answered config now request s e =
      let (q, only, same) = respond-answered config now request s (ground arith) in
      (q, only, build_response-start config now request s (ground arith) ∙ same)
