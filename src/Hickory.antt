-- ===== src/Hickory.antt =====
-- The crate hickory_proto, which the repository does not contain: DNS names and messages. Its enums
-- and structs have the variants and the public fields that the program names. Its functions are the
-- fields of the record `Hickory`, a parameter of all that calls them.
use safexip.Prelude.{ℕ, Bool, false, Option, none, List, [], ◌∷◌, ◌++◌, ◌≡◌, Result}
use safexip.Text.{Text}

pub data RecordType : Type 0 where
  soa_type ns_type a_type txt_type : RecordType
  other_type : ℕ → RecordType

pub data DnsClass : Type 0 where
  in_class any_class : DnsClass
  other_class : ℕ → DnsClass

pub data OpCode : Type 0 where
  query_code : OpCode
  other_code : ℕ → OpCode

pub data MessageType : Type 0 where
  query_message response_message : MessageType

pub data ResponseCode : Type 0 where
  no_error form_err serv_fail nx_domain not_imp refused bad_vers : ResponseCode
  other_response : ℕ → ResponseCode

pub data RData (Name : Type 0) : Type 0 where
  -- The four octets of `A::new`.
  a_data : ℕ → ℕ → ℕ → ℕ → RData Name
  ns_data : Name → RData Name
  txt_data : List Text → RData Name
  -- The arguments of `SOA::new`: mname, rname, serial, refresh, retry, expire, minimum.
  soa_data : Name → Name → ℕ → ℕ → ℕ → ℕ → ℕ → RData Name

-- A record of class IN, as `Record::from_rdata(name, ttl, rdata)` makes it.
pub data Record (Name : Type 0) : Type 0 where
  from_rdata : Name → ℕ → RData Name → Record Name

pub record Query (Name : Type 0) : Type 0 where
  pub name : Name
  pub query_type : RecordType
  pub query_class : DnsClass

pub record Message (Name Edns : Type 0) : Type 0 where
  pub id : ℕ
  pub message_type : MessageType
  pub op_code : OpCode
  pub authoritative : Bool
  pub truncation : Bool
  pub recursion_desired : Bool
  pub recursion_available : Bool
  pub response_code : ResponseCode
  pub queries : List (Query Name)
  pub answers : List (Record Name)
  pub authorities : List (Record Name)
  pub additionals : List (Record Name)
  pub edns : Option Edns

abbrev pub Bytes : Type 0
Bytes = List ℕ

-- `none` stands for an error whose text is only logged.
pub record Hickory : Type 1 where
  pub Name : Type 0
  pub NameError : Type 0
  pub Edns : Type 0
  pub from_ascii : Text → Result NameError Name
  pub to_ascii : Name → Text
  pub new_query : Name → RecordType → Query Name
  pub response : ℕ → OpCode → Message Name Edns
  pub add_query : Query Name → Message Name Edns → Message Name Edns
  pub add_queries : List (Query Name) → Message Name Edns → Message Name Edns
  pub add_answer : Record Name → Message Name Edns → Message Name Edns
  pub add_authority : Record Name → Message Name Edns → Message Name Edns
  pub add_additional : Record Name → Message Name Edns → Message Name Edns
  pub set_edns : Edns → Message Name Edns → Message Name Edns
  pub new_edns : Edns
  pub set_max_payload : ℕ → Edns → Edns
  pub set_dnssec_ok : Bool → Edns → Edns
  pub edns_max_payload : Edns → ℕ
  pub edns_version : Edns → ℕ
  pub edns_dnssec_ok : Edns → Bool
  -- `Message::max_payload`
  pub max_payload : Message Name Edns → ℕ
  pub truncate : Message Name Edns → Message Name Edns
  pub to_vec : Message Name Edns → Option Bytes
  pub from_vec : Bytes → Option (Message Name Edns)

-- What the documentation of hickory_proto says of the functions that build a message: a response
-- starts with no flag set, no error and empty sections, and a record or query that is added goes to
-- the end of its section.
pub record HasBuilders (h : Hickory) : Type 0 where
  pub response_lem :
      (id : ℕ) (op_code : OpCode)
      → h.response id op_code ≡ record {
        id = id;
        message_type = response_message;
        op_code = op_code;
        authoritative = false;
        truncation = false;
        recursion_desired = false;
        recursion_available = false;
        response_code = no_error;
        queries = [];
        answers = [];
        authorities = [];
        additionals = [];
        edns = none;
      }
  pub add_query_lem :
      (q : Query h.Name) (m : Message h.Name h.Edns)
      → h.add_query q m ≡ record m { queries = m.queries ++ q ∷ [] }
  pub add_queries_lem :
      (qs : List (Query h.Name)) (m : Message h.Name h.Edns)
      → h.add_queries qs m ≡ record m { queries = m.queries ++ qs }
  pub add_answer_lem :
      (r : Record h.Name) (m : Message h.Name h.Edns)
      → h.add_answer r m ≡ record m { answers = m.answers ++ r ∷ [] }
  pub add_authority_lem :
      (r : Record h.Name) (m : Message h.Name h.Edns)
      → h.add_authority r m ≡ record m { authorities = m.authorities ++ r ∷ [] }
  pub add_additional_lem :
      (r : Record h.Name) (m : Message h.Name h.Edns)
      → h.add_additional r m ≡ record m { additionals = m.additionals ++ r ∷ [] }
  pub set_edns_lem :
      (e : h.Edns) (m : Message h.Name h.Edns) → h.set_edns e m ≡ record m { edns = Option.some e }
