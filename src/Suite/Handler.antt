-- ===== src/Suite/Handler.antt =====
-- src/dns.rs: the helpers of the unit tests. `none` is a panic.
use safexip.Prelude.{ℕ, Bool, true, false, Option, none, some, List, [], ◌∷◌, ◌==◌}
use safexip.Text.{Text}
use safexip.Hickory.{
  Hickory, Message, Record, from_rdata, RData, soa_data, a_data, ns_data, txt_data, a_type, ns_type,
  txt_type, soa_type, Query, RecordType, OpCode, query_code, MessageType, query_message, no_error,
  ResponseCode, Bytes,
}
use safexip.State.{AcmeRecords, ZoneState}
use safexip.Wire.{◌>>=◌, expect}
use safexip.Dns.{handle, handle_udp}
use safexip.Suite.Fixtures.{make_config, new_records, from_secs}
use safexip.Suite.Encoding.{code_number, put_type}

module _ (h : Hickory) where
  abbrev pub acme : Option (AcmeRecords × ZoneState)
  acme = new_records h (from_secs 60) 100

  -- `Message::new`
  abbrev pub new_message : ℕ → MessageType → OpCode → Message h.Name h.Edns
  new_message id message_type op_code = record {
    id = id;
    message_type = message_type;
    op_code = op_code;
    authoritative = false;
    truncation = false;
    recursion_desired = false;
    recursion_available = false;
    response_code = no_error;
    queries = [];
    answers = [];
    authorities = [];
    additionals = [];
    edns = none;
  }

  abbrev asks : Query h.Name → Message h.Name h.Edns
  asks query =
      h.add_query query
        (record (new_message 1 query_message query_code) { recursion_desired = true })

  abbrev pub query_msg : Text → RecordType → Option Bytes
  query_msg name qtype = do
    qname ← expect (h.from_ascii name)
    h.to_vec (asks (h.new_query qname qtype))

  abbrev pub handled : ℕ → Bytes → ZoneState → Option Bytes
  handled now raw s = (handle h make_config now raw s).0

  abbrev pub handled_udp : ℕ → Bytes → ZoneState → Option Bytes
  handled_udp now raw s = (handle_udp h make_config now raw s).0

  -- The decoded response to the bytes, and the zone after it.
  abbrev pub respond_to : ℕ → Bytes → ZoneState → Option (Message h.Name h.Edns × ZoneState)
  respond_to now raw s = do
    response ← handled now raw s
    decoded ← h.from_vec response
    some (decoded, (handle h make_config now raw s).1)

  abbrev pub respond_to_udp : ℕ → Bytes → ZoneState → Option (Message h.Name h.Edns)
  respond_to_udp now raw s = do response ← handled_udp now raw s; h.from_vec response

  abbrev pub run : ℕ → Text → RecordType → ZoneState → Option (Message h.Name h.Edns × ZoneState)
  run now name qtype s = do raw ← query_msg name qtype; respond_to now raw s

abbrev pub has_code : {Name Edns : Type 0} → ResponseCode → Message Name Edns → Bool
has_code code m = code_number m.response_code == code_number code

-- `record_type()`. The class of a record is not in the model: the program makes no other than IN.
abbrev type_of : {Name : Type 0} → RData Name → ℕ
type_of (a_data a b c d) = put_type a_type
type_of (ns_data name) = put_type ns_type
type_of (txt_data texts) = put_type txt_type
type_of (soa_data m r serial refresh retry expire minimum) = put_type soa_type

abbrev pub has_type : {Name : Type 0} → RecordType → Record Name → Bool
has_type qtype (from_rdata name ttl data_) = type_of data_ == put_type qtype

abbrev pub owner : {Name : Type 0} → Record Name → Name
owner (from_rdata name ttl data_) = name

abbrev pub soa_serial : {Name : Type 0} → List (Record Name) → Option ℕ
soa_serial [] = none
soa_serial (from_rdata name ttl (soa_data m r serial refresh retry expire minimum) ∷ rest) =
    some serial
soa_serial (other ∷ rest) = soa_serial rest
