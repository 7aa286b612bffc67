-- ===== src/Suite/Library.antt =====
-- A stand-in for hickory_proto, with texts for names.
use safexip.Prelude.{
  ℕ, Bool, true, false, Option, none, some, List, [], ◌∷◌, ◌++◌, ltb, leb, ◌&&◌, not, if◌then◌else◌,
  length, ok, err, ◌==◌, Result,
}
use safexip.Text.{Text}
use safexip.Suite.Encoding.{SuiteEdns, SuiteMessage, put_message}
use safexip.Suite.Decoding.{get_message}
use safexip.Hickory.{
  Hickory, Record, from_rdata, txt_data, in_class, OpCode, response_message, no_error, Bytes,
}

abbrev pub response_message_of : ℕ → OpCode → SuiteMessage
response_message_of id op_code = record {
  id = id;
  message_type = response_message;
  op_code = op_code;
  authoritative = false;
  truncation = false;
  recursion_desired = false;
  recursion_available = false;
  response_code = no_error;
  queries = [];
  answers = [];
  authorities = [];
  additionals = [];
  edns = none;
}

abbrev has_space : Text → Bool
has_space [] = false
has_space (c ∷ s) = let rest = has_space s in if c == b' ' then true else rest

-- A name has no space.
abbrev parse_name : Text → Result (Unit {0}) Text
parse_name s = if has_space s then err tt else ok s

abbrev text_fits : List Text → Bool
text_fits [] = true
text_fits (t ∷ ts) = let rest = text_fits ts in leb (length t) 255 && rest

abbrev record_fits : Record Text → Bool
record_fits (from_rdata name ttl (txt_data texts)) = text_fits texts
record_fits (from_rdata name ttl other) = true

abbrev records_fit : List (Record Text) → Bool
records_fit [] = true
records_fit (r ∷ rs) = let rest = records_fit rs in record_fits r && rest

abbrev truncated : SuiteMessage → SuiteMessage
truncated m = record m { answers = []; authorities = []; additionals = []; truncation = true }

-- A text of more than 255 bytes is an error, and a message that is too long loses its records.
abbrev encode : ℕ → SuiteMessage → Option Bytes
encode limit m =
    if not (records_fit m.answers)
    then none
    else (let whole = put_message m in
        if ltb limit (length whole) then some (put_message (truncated m)) else some whole)

abbrev decode : Bytes → Option SuiteMessage
decode raw = elim (get_message raw) [ none ↦ none | some (m, rest) ↦ some m ]

abbrev payload_of : SuiteMessage → ℕ
payload_of m = elim m.edns [ none ↦ 512 | some e ↦ if ltb e.payload 512 then 512 else e.payload ]

-- `limit` is the length of the longest message.
abbrev pub suite_hickory : ℕ → Hickory
suite_hickory limit = record {
  Name = Text;
  NameError = Unit {0};
  Edns = SuiteEdns;
  from_ascii = parse_name;
  to_ascii = λ s. s;
  new_query = λ name qtype. record { name = name; query_type = qtype; query_class = in_class };
  response = response_message_of;
  add_query = λ q m. record m { queries = m.queries ++ q ∷ [] };
  add_queries = λ qs m. record m { queries = m.queries ++ qs };
  add_answer = λ r m. record m { answers = m.answers ++ r ∷ [] };
  add_authority = λ r m. record m { authorities = m.authorities ++ r ∷ [] };
  add_additional = λ r m. record m { additionals = m.additionals ++ r ∷ [] };
  set_edns = λ e m. record m { edns = some e };
  new_edns = record { payload = 512; version = 0; dnssec_ok = false };
  set_max_payload = λ n e. record e { payload = n };
  set_dnssec_ok = λ b e. record e { dnssec_ok = b };
  edns_max_payload = λ e. e.payload;
  edns_version = λ e. e.version;
  edns_dnssec_ok = λ e. e.dnssec_ok;
  max_payload = payload_of;
  truncate = truncated;
  to_vec = encode limit;
  from_vec = decode;
}
