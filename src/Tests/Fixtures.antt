-- ===== src/Tests/Fixtures.antt =====
-- Concrete inputs: a configuration, states, and stand-ins for the libraries that satisfy their laws.
use safexip.Prelude.{
  ℕ, zero, suc, Bool, true, false, Option, none, some, [], ◌∷◌, ◌++◌, refl, leb, if◌then◌else◌, map,
  length, replicate, ok,
}
use safexip.Text.{Text, codes}
use safexip.Config.{Config, v4}
use safexip.Hickory.{
  Hickory, HasBuilders, Message, Record, from_rdata, txt_data, txt_type, in_class, query_code,
  query_message, response_message, no_error, OpCode, Bytes, RecordType,
}
use safexip.State.Capacity.{count}

abbrev pub small_config : Config
small_config = record {
  domain = codes "x.io";
  ns_hostname = codes "ns1.x.io";
  ns_hostname2 = codes "ns2.x.io";
  dns_bind = v4 0 0 0 0;
  dns_port = 53;
  api_bind = v4 127 0 0 1;
  api_port = 8080;
  ns_ip = record { first = 203; second = 0; third = 113; fourth = 1 };
  api_key = codes "0123456789abcdef0123456789abcdef";
  txt_ttl = 60;
  default_ttl = 3600;
  token_lifetime = 100;
  max_tokens = 1;
}

-- The EDNS part of a message: the payload, the version and the flag.
pub record SmallEdns : Type 0 where
  pub payload : ℕ
  pub version : ℕ
  pub dnssec_ok : Bool

abbrev pub SmallMessage : Type 0
SmallMessage = Message Text SmallEdns

abbrev pub small_message : ℕ → OpCode → SmallMessage
small_message id op_code = record {
  id = id;
  message_type = response_message;
  op_code = op_code;
  authoritative = false;
  truncation = false;
  recursion_desired = false;
  recursion_available = false;
  response_code = no_error;
  queries = [];
  answers = [];
  authorities = [];
  additionals = [];
  edns = none;
}

abbrev pub value_of : Record Text → Text
value_of (from_rdata name ttl (txt_data (value ∷ values))) = value
value_of (from_rdata name ttl other) = []

abbrev pub no_record : Record Text
no_record = from_rdata [] 0 (txt_data [])

-- A query for the name, with the byte 0 in front.
abbrev pub small_query : RecordType → Text → SmallMessage
small_query qtype name = record (small_message 7 query_code) {
  message_type = query_message;
  queries = record { name = name; query_type = qtype; query_class = in_class } ∷ [];
}

-- A message is encoded if it has the value `x` once at most; of it, the number of answers is kept.
abbrev small_to_vec : SmallMessage → Option Bytes
small_to_vec m =
    if leb (count (codes "x") (map value_of m.answers)) 1
    then some (suc (length m.answers) ∷ [])
    else none

abbrev small_from_vec : Bytes → Option SmallMessage
small_from_vec [] = none
small_from_vec (zero ∷ name) = some (small_query txt_type name)
small_from_vec (suc n ∷ rest) =
    some (record (small_message 7 query_code) { answers = replicate n no_record })

abbrev small_payload : SmallMessage → ℕ
small_payload m = elim m.edns [ none ↦ 512 | some e ↦ e.payload ]

abbrev pub small_hickory : Hickory
small_hickory = record {
  Name = Text;
  NameError = Unit {0};
  Edns = SmallEdns;
  from_ascii = λ s. ok s;
  to_ascii = λ s. s;
  new_query = λ name qtype. record { name = name; query_type = qtype; query_class = in_class };
  response = small_message;
  add_query = λ q m. record m { queries = m.queries ++ q ∷ [] };
  add_queries = λ qs m. record m { queries = m.queries ++ qs };
  add_answer = λ r m. record m { answers = m.answers ++ r ∷ [] };
  add_authority = λ r m. record m { authorities = m.authorities ++ r ∷ [] };
  add_additional = λ r m. record m { additionals = m.additionals ++ r ∷ [] };
  set_edns = λ e m. record m { edns = some e };
  new_edns = record { payload = 512; version = 0; dnssec_ok = false };
  set_max_payload = λ n e. record e { payload = n };
  set_dnssec_ok = λ b e. record e { dnssec_ok = b };
  edns_max_payload = λ e. e.payload;
  edns_version = λ e. e.version;
  edns_dnssec_ok = λ e. e.dnssec_ok;
  max_payload = small_payload;
  truncate = λ m. record m { answers = []; truncation = true };
  to_vec = small_to_vec;
  from_vec = small_from_vec;
}

pub small_hickory-HasBuilders : HasBuilders small_hickory
small_hickory-HasBuilders = record {
  response_lem = λ id op_code. refl;
  add_query_lem = λ q m. refl;
  add_queries_lem = λ qs m. refl;
  add_answer_lem = λ r m. refl;
  add_authority_lem = λ r m. refl;
  add_additional_lem = λ r m. refl;
  set_edns_lem = λ e m. refl;
}
