-- ===== src/Suite/Encoding.antt =====
-- A small wire format: a message is a list of numbers, with texts and lists behind their lengths. A
-- name that comes from the wire ends in a dot.
use safexip.Prelude.{ℕ, Bool, true, false, Option, none, some, List, [], ◌∷◌, ◌++◌, length}
use safexip.Text.{Text, trim_end}
use safexip.Hickory.{
  Message, Record, Query, from_rdata, RData, a_data, ns_data, txt_data, soa_data, RecordType,
  soa_type, ns_type, a_type, txt_type, other_type, DnsClass, in_class, any_class, other_class,
  OpCode, query_code, other_code, MessageType, query_message, response_message, ResponseCode,
  no_error, form_err, serv_fail, nx_domain, not_imp, refused, bad_vers, other_response, Bytes,
}

pub record SuiteEdns : Type 0 where
  pub payload : ℕ
  pub version : ℕ
  pub dnssec_ok : Bool

abbrev pub SuiteMessage : Type 0
SuiteMessage = Message Text SuiteEdns

abbrev put_text : Text → Bytes
put_text s = length s ∷ s

abbrev put_name : Text → Bytes
put_name s = put_text (trim_end b'.' s)

abbrev put_flag : Bool → ℕ
put_flag true = 1
put_flag false = 0

abbrev pub put_type : RecordType → ℕ
put_type a_type = 1
put_type ns_type = 2
put_type soa_type = 6
put_type txt_type = 16
put_type (other_type n) = n

abbrev put_class : DnsClass → ℕ
put_class in_class = 1
put_class any_class = 255
put_class (other_class n) = n

abbrev put_op_code : OpCode → ℕ
put_op_code query_code = 0
put_op_code (other_code n) = n

abbrev put_message_type : MessageType → ℕ
put_message_type query_message = 0
put_message_type response_message = 1

-- `u16::from(response_code)`
abbrev pub code_number : ResponseCode → ℕ
code_number no_error = 0
code_number form_err = 1
code_number serv_fail = 2
code_number nx_domain = 3
code_number not_imp = 4
code_number refused = 5
code_number bad_vers = 16
code_number (other_response n) = n

abbrev put_all : {A : Type 0} → (A → Bytes) → List A → Bytes
put_all f [] = []
put_all f (x ∷ xs) = f x ++ put_all f xs

abbrev put_query : Query Text → Bytes
put_query q = put_name q.name ++ put_type q.query_type ∷ put_class q.query_class ∷ []

abbrev put_data : RData Text → Bytes
put_data (a_data a b c d) = 1 ∷ a ∷ b ∷ c ∷ d ∷ []
put_data (ns_data name) = 2 ∷ put_name name
put_data (soa_data m r a b c d e) = 6 ∷ put_name m ++ put_name r ++ a ∷ b ∷ c ∷ d ∷ e ∷ []
put_data (txt_data texts) = 16 ∷ length texts ∷ put_all put_text texts

abbrev put_record : Record Text → Bytes
put_record (from_rdata name ttl data_) = put_name name ++ ttl ∷ put_data data_

abbrev put_edns : Option SuiteEdns → Bytes
put_edns none = 0 ∷ []
put_edns (some e) = 1 ∷ e.payload ∷ e.version ∷ put_flag e.dnssec_ok ∷ []

abbrev pub put_message : SuiteMessage → Bytes
put_message m =
    m.id
      ∷ put_message_type m.message_type
      ∷ put_op_code m.op_code
      ∷ put_flag m.authoritative
      ∷ put_flag m.truncation
      ∷ put_flag m.recursion_desired
      ∷ put_flag m.recursion_available
      ∷ code_number m.response_code
      ∷ length m.queries
      ∷ length m.answers
      ∷ length m.authorities
      ∷ length m.additionals
      ∷ put_all put_query m.queries
    ++ put_all put_record m.answers
    ++ put_all put_record m.authorities
    ++ put_all put_record m.additionals
    ++ put_edns m.edns
