-- ===== src/Suite/Decoding.antt =====
-- The other direction of the small wire format: reading a message back.
use safexip.Prelude.{
  ℕ, zero, suc, Bool, Option, none, some, List, [], ◌∷◌, ◌++◌, ltb, ◌==◌, if◌then◌else◌, length,
  take, drop,
}
use safexip.Text.{Text, codes}
use safexip.Hickory.{
  Record, Query, from_rdata, RData, a_data, ns_data, txt_data, soa_data, RecordType, soa_type,
  ns_type, a_type, txt_type, other_type, DnsClass, in_class, any_class, other_class, OpCode,
  query_code, other_code, MessageType, query_message, response_message, ResponseCode, no_error,
  form_err, serv_fail, nx_domain, not_imp, refused, other_response, Bytes,
}
use safexip.Suite.Encoding.{SuiteEdns, SuiteMessage}

abbrev Get : Type 0 → Type 0
Get A = Bytes → Option (A × Bytes)

abbrev pure : {A : Type 0} → A → Get A
pure a input = some (a, input)

infixl 5 ◌>>=◌
abbrev ◌>>=◌ : {A B : Type 0} → Get A → (A → Get B) → Get B
◌>>=◌ m f input = elim (m input) [ none ↦ none | some (a, rest) ↦ f a rest ]

abbrev get_number : Get ℕ
get_number [] = none
get_number (n ∷ rest) = some (n, rest)

abbrev get_bytes : ℕ → Get Bytes
get_bytes n input = if ltb (length input) n then none else some (take n input, drop n input)

abbrev get_text : Get Text
get_text = do n ← get_number; get_bytes n

abbrev get_name : Get Text
get_name = do s ← get_text; pure (s ++ codes ".")

abbrev get_flag : Get Bool
get_flag = do n ← get_number; pure (n == 1)

abbrev get_all : {A : Type 0} → Get A → ℕ → Get (List A)
get_all get zero = pure []
get_all get (suc n) = do x ← get; xs ← get_all get n; pure (x ∷ xs)

abbrev to_type : ℕ → RecordType
to_type n =
    if n == 1
    then a_type
    else if n == 2
    then ns_type
    else if n == 6
    then soa_type
    else if n == 16
    then txt_type
    else other_type n

abbrev to_class : ℕ → DnsClass
to_class n = if n == 1 then in_class else if n == 255 then any_class else other_class n

abbrev to_op_code : ℕ → OpCode
to_op_code n = if n == 0 then query_code else other_code n

abbrev to_message_type : ℕ → MessageType
to_message_type n = if n == 0 then query_message else response_message

abbrev to_response_code : ℕ → ResponseCode
to_response_code n =
    if n == 0
    then no_error
    else if n == 1
    then form_err
    else if n == 2
    then serv_fail
    else if n == 3
    then nx_domain
    else if n == 4
    then not_imp
    else if n == 5
    then refused
    else other_response n

abbrev get_query : Get (Query Text)
get_query = do
  name ← get_name
  qtype ← get_number
  class ← get_number
  pure (record { name = name; query_type = to_type qtype; query_class = to_class class })

abbrev get_a : Get (RData Text)
get_a = do a ← get_number; b ← get_number; c ← get_number; d ← get_number; pure (a_data a b c d)

abbrev get_soa : Get (RData Text)
get_soa = do
  m ← get_name
  r ← get_name
  a ← get_number
  b ← get_number
  c ← get_number
  d ← get_number
  e ← get_number
  pure (soa_data m r a b c d e)

abbrev get_ns : Get (RData Text)
get_ns = do name ← get_name; pure (ns_data name)

abbrev get_txt : Get (RData Text)
get_txt = do n ← get_number; texts ← get_all get_text n; pure (txt_data texts)

abbrev get_data : ℕ → Get (RData Text)
get_data n =
    if n == 1 then get_a else if n == 2 then get_ns else if n == 6 then get_soa else get_txt

abbrev get_record : Get (Record Text)
get_record = do
  name ← get_name
  ttl ← get_number
  kind ← get_number
  data_ ← get_data kind
  pure (from_rdata name ttl data_)

abbrev get_some_edns : Get (Option SuiteEdns)
get_some_edns = do
  payload ← get_number
  version ← get_number
  dnssec_ok ← get_flag
  pure (some (record { payload = payload; version = version; dnssec_ok = dnssec_ok }))

abbrev get_edns : Get (Option SuiteEdns)
get_edns = do present ← get_flag; if present then get_some_edns else pure none

abbrev pub get_message : Get SuiteMessage
get_message = do
  id ← get_number
  message_type ← get_number
  op_code ← get_number
  authoritative ← get_flag
  truncation ← get_flag
  recursion_desired ← get_flag
  recursion_available ← get_flag
  response_code ← get_number
  questions ← get_number
  answer_count ← get_number
  authority_count ← get_number
  additional_count ← get_number
  queries ← get_all get_query questions
  answers ← get_all get_record answer_count
  authorities ← get_all get_record authority_count
  additionals ← get_all get_record additional_count
  edns ← get_edns
  pure (record {
    id = id;
    message_type = to_message_type message_type;
    op_code = to_op_code op_code;
    authoritative = authoritative;
    truncation = truncation;
    recursion_desired = recursion_desired;
    recursion_available = recursion_available;
    response_code = to_response_code response_code;
    queries = queries;
    answers = answers;
    authorities = authorities;
    additionals = additionals;
    edns = edns;
  })
