-- ===== src/Dns/Response.antt =====
-- src/dns.rs: `build_response`: which requests are refused, and what the others get.
use safexip.Prelude.{
  ℕ, Bool, false, not, Option, none, some, [], ◌≡◌, inl, inr, refl, arith, if◌then◌else◌,
  Option-cases, Bool-cases, ◌==◌,
}
use safexip.Text.{Text, to_lowercase, trim_end}
use safexip.Config.{Config}
use safexip.Xip.{is_our_domain}
use safexip.State.{ZoneState}
use safexip.Hickory.{
  Hickory, HasBuilders, Message, Query, ResponseCode, not_imp, bad_vers, form_err, refused,
  response_message,
}
use safexip.Dns.{
  answer_query, respond, build_response, only_query, is_query_code, serves_class, refuse, blank,
  response_edns,
}

module _ (h : Hickory) where
  -- The name of a query as the program compares it.
  abbrev pub name_of : Query h.Name → Text
  name_of query = to_lowercase (trim_end b'.' (h.to_ascii query.name))

  abbrev pub refusal_of_query : Config → Query h.Name → Option ResponseCode
  refusal_of_query config query =
      if not (serves_class query.query_class)
      then some not_imp
      else if not (is_our_domain (name_of query) config.domain)
      then some refused
      else none

  abbrev pub has_bad_version : Option h.Edns → Bool
  has_bad_version none = false
  has_bad_version (some e) = not (h.edns_version e == 0)

  -- The code with which a request is refused, if it is: a bad EDNS version, then the opcode, the
  -- number of queries, the class, and the zone.
  abbrev pub refusal : Config → Message h.Name h.Edns → Option ResponseCode
  refusal config request =
      if has_bad_version request.edns
      then some bad_vers
      else if not (is_query_code request.op_code)
      then some not_imp
      else elim (only_query request.queries) [
        | none ↦ some form_err
        | some query ↦ refusal_of_query config query
      ]

  -- The header that every response has, and the sections of a refusal.
  pub record IsRefusal (request : Message h.Name h.Edns) (code : ResponseCode)
      (m : Message h.Name h.Edns) : Type 0 where
    pub same_id : m.id ≡ request.id
    pub same_op_code : m.op_code ≡ request.op_code
    pub is_response : m.message_type ≡ response_message
    pub same_recursion : m.recursion_desired ≡ request.recursion_desired
    pub not_authoritative : m.authoritative ≡ false
    pub has_code : m.response_code ≡ code
    pub no_answers : m.answers ≡ []
    pub no_authorities : m.authorities ≡ []
    pub no_additionals : m.additionals ≡ []

module _ (h : Hickory) (builders : HasBuilders h) where
  -- What holds of the response that the tests of `respond` start from.
  record IsBlank (request m : Message h.Name h.Edns) : Type 0 where
    same_id : m.id ≡ request.id
    same_op_code : m.op_code ≡ request.op_code
    is_response : m.message_type ≡ response_message
    same_recursion : m.recursion_desired ≡ request.recursion_desired
    no_answers : m.answers ≡ []
    no_authorities : m.authorities ≡ []
    no_additionals : m.additionals ≡ []

  blank-IsBlank : (request : Message h.Name h.Edns) → IsBlank request (blank h request)
  blank-IsBlank request = rw (builders.response_lem request.id request.op_code) (record {
    same_id = refl;
    same_op_code = refl;
    is_response = refl;
    same_recursion = refl;
    no_answers = refl;
    no_authorities = refl;
    no_additionals = refl;
  })

  set_edns-IsBlank :
      (request m : Message h.Name h.Edns) (e : h.Edns)
      → IsBlank request m
      → IsBlank request (h.set_edns e m)
  set_edns-IsBlank request m e b = rw (builders.set_edns_lem e m) (record {
    same_id = b.same_id;
    same_op_code = b.same_op_code;
    is_response = b.is_response;
    same_recursion = b.same_recursion;
    no_answers = b.no_answers;
    no_authorities = b.no_authorities;
    no_additionals = b.no_additionals;
  })

  add_query-IsBlank :
      (request m : Message h.Name h.Edns) (q : Query h.Name)
      → IsBlank request m
      → IsBlank request (h.add_query q m)
  add_query-IsBlank request m q b = rw (builders.add_query_lem q m) (record {
    same_id = b.same_id;
    same_op_code = b.same_op_code;
    is_response = b.is_response;
    same_recursion = b.same_recursion;
    no_answers = b.no_answers;
    no_authorities = b.no_authorities;
    no_additionals = b.no_additionals;
  })

  refuse-IsRefusal :
      (request m : Message h.Name h.Edns) (code : ResponseCode)
      → IsBlank request m
      → IsRefusal h request code (refuse h code m)
  refuse-IsRefusal request m code b = record {
    same_id = b.same_id;
    same_op_code = b.same_op_code;
    is_response = b.is_response;
    same_recursion = b.same_recursion;
    not_authoritative = refl;
    has_code = refl;
    no_answers = b.no_answers;
    no_authorities = b.no_authorities;
    no_additionals = b.no_additionals;
  }

  -- The result is a refusal with this code, and leaves the state.
  abbrev Refuses :
      Message h.Name h.Edns
      → ResponseCode
      → ZoneState
      → Option (Message h.Name h.Edns) × ZoneState
      → Type 0
  Refuses request code s result =
      (m : Message h.Name h.Edns) × (result ≡ (some m, s)) × IsRefusal h request code m

  answer_query-Refuses :
      (config : Config) (now : ℕ) (request m : Message h.Name h.Edns) (q : Query h.Name)
      (code : ResponseCode) (s : ZoneState)
      → IsBlank request m
      → refusal_of_query h config q ≡ some code
      → Refuses request code s (answer_query h config now q m s)
  unfolding answer_query
  answer_query-Refuses config now request m q code s b e =
      (refuse h code m, ground arith, refuse-IsRefusal request m code b)

  respond-Refuses :
      (config : Config) (now : ℕ) (request m : Message h.Name h.Edns) (code : ResponseCode)
      (s : ZoneState)
      → IsBlank request m
      → (if not (is_query_code request.op_code)
          then some not_imp
          else elim (only_query request.queries) [
            | none ↦ some form_err
            | some query ↦ refusal_of_query h config query
          ])
        ≡ some code
      → Refuses request code s (respond h config now request m s)
  unfolding respond
  respond-Refuses config now request m code s b e =
      elim (Bool-cases (is_query_code request.op_code)) [
        | inl is_query ↦ elim (Option-cases (only_query request.queries)) [
          | inl x ↦ (refuse h code m, ground arith, refuse-IsRefusal request m code b)
          | inr (q, x) ↦
              let (r, same, is_refusal) =
                answer_query-Refuses config now request (h.add_query q m) q code s
                  (add_query-IsBlank request m q b) (ground arith) in
              (r, ground (arith, same), is_refusal)
        ]
        | inr not_query ↦ (refuse h code m, ground arith, refuse-IsRefusal request m code b)
      ]

  -- With builders that do what their documentation says: a request that the tests refuse (a bad
  -- EDNS version, then the opcode, the number of queries, the class, the zone) gets a response with
  -- their code, not authoritative and with empty answer, authority and additional sections, that
  -- repeats the request's identifier, opcode and recursion flag, and the state is left as it is.
  pub build_response-refusal :
      (config : Config) (now : ℕ) (request : Message h.Name h.Edns) (code : ResponseCode)
      (s : ZoneState)
      → refusal h config request ≡ some code
      → (m : Message h.Name h.Edns) × (build_response h config now request s ≡ (some m, s))
        × IsRefusal h request code m
  unfolding build_response
  build_response-refusal config now request code s e = elim (Option-cases request.edns) [
    | inl x ↦
        let (r, same, is_refusal) =
          respond-Refuses config now request (blank h request) code s (blank-IsBlank request)
            (ground arith) in
        (r, ground (arith, same), is_refusal)
    | inr (edns, x) ↦
        let m = h.set_edns (response_edns h edns) (blank h request) in
        let b =
          set_edns-IsBlank request (blank h request) (response_edns h edns)
            (blank-IsBlank request) in
        elim (Bool-cases (h.edns_version edns == 0)) [
          | inl v ↦
              let (r, same, is_refusal) =
                respond-Refuses config now request m code s b (ground arith) in
              (r, ground (arith, same), is_refusal)
          | inr v ↦ (refuse h code m, ground arith, refuse-IsRefusal request m code b)
        ]
  ]
