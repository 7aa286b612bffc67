-- ===== src/Dns/Names.antt =====
-- src/dns.rs: which names exist in the zone, and which have an address.
use safexip.Prelude.{true, some, List, [], ◌≡◌, ◌≢◌, ◌⊎◌, ◌↔◌, arith}
use safexip.Text.{Text, text_eq}
use safexip.Text.Laws.{text_eq_iff}
use safexip.Config.{Config, Ipv4Addr, acme_name}
use safexip.Xip.{parse_xip_ip}
use safexip.Hickory.{Hickory}
use safexip.Dns.{resolve_a, name_exists, txt_records}

-- The names that have data: the apex, the nameservers, the challenge name, and names with an address.
abbrev pub IsOwner : Config → Text → Type 0
IsOwner config qname =
    (qname ≡ config.domain)
    ⊎ (qname ≡ config.ns_hostname)
    ⊎ (qname ≡ config.ns_hostname2)
    ⊎ (qname ≡ acme_name config)
    ⊎ ((ip : Ipv4Addr) × (parse_xip_ip qname config.domain ≡ some ip))

pub name_exists_iff :
    (config : Config) (qname : Text) → (name_exists config qname ≡ true) ↔ IsOwner config qname
unfolding name_exists
name_exists_iff config qname = ground (
  arith,
  text_eq_iff qname config.domain,
  text_eq_iff qname config.ns_hostname,
  text_eq_iff qname config.ns_hostname2,
  text_eq_iff qname (acme_name config),
)

-- A name with an address exists.
pub resolve_a-exists :
    (config : Config) (qname : Text) (ip : Ipv4Addr)
    → resolve_a config qname ≡ some ip
    → name_exists config qname ≡ true
unfolding resolve_a name_exists
resolve_a-exists config qname ip h = ground arith

pub apex_exists :
    (config : Config) (qname : Text)
    → text_eq qname config.domain ≡ true
    → name_exists config qname ≡ true
unfolding name_exists
apex_exists config qname h = ground arith

pub txt_records-exists :
    (h : Hickory) (config : Config) (qname : Text) (values : List Text)
    → txt_records h config qname values ≢ []
    → name_exists config qname ≡ true
unfolding txt_records name_exists
txt_records-exists h config qname values some_record = ground arith
