-- ===== src/Suite/Program.antt =====
-- The stand-ins that the unit tests run with, and the definitions that a run computes.
use safexip.Hickory.{Hickory}
use safexip.Text.{
  text_eq, to_lowercase, strip_suffix, ends_with, trim_end, split, parse_digits, parse_unsigned,
}
use safexip.Map
use safexip.Xip.{is_our_domain, parse_octet, fill_octets, parse_octets, scan_windows, parse_xip_ip}
use safexip.Config.{acme_name}
use safexip.State.{
  with_serial, new, advance_serial, advance_if, token_count, all_values, prune, refresh_token,
  add_new, add, write_back, remove, pruned, get_with_serial, get, serial,
}
use safexip.Wire.{
  from_config, txt_record, soa_record, add_values, response, is_complete, fits, fits_count,
  maximum_token_count,
}
use safexip.Dns.{
  resolve_a, name_exists, read_zone, txt_records, a_record, ns_glue, soa, ns_records, answer,
  answer_query, respond, build_response, servfail, encode_complete_or_servfail, handle, encode_udp,
  handle_udp,
}
use safexip.Suite.Library.{suite_hickory}
use safexip.Config.Values.{parse_dns_name, parse_api_key}
use safexip.Config.Validate.{validate, is_outside}
use safexip.Wire.Search

abbrev pub library : Hickory
library = suite_hickory 65535

-- Messages of this library have a small limit, where a test goes up to the limit.
abbrev pub small_library : Hickory
small_library = suite_hickory 1500

unfoldable pub program : Unit {0}
unfolding text_eq to_lowercase strip_suffix ends_with trim_end split parse_digits parse_unsigned
    Map.get Map.insert Map.remove Map.retain_entries is_our_domain parse_octet fill_octets
    parse_octets scan_windows parse_xip_ip acme_name with_serial new advance_serial advance_if
    token_count all_values prune refresh_token add_new add write_back remove pruned get_with_serial
    get serial from_config txt_record soa_record add_values response is_complete fits resolve_a
    name_exists read_zone txt_records a_record ns_glue soa ns_records answer answer_query respond
    build_response servfail encode_complete_or_servfail handle encode_udp handle_udp parse_dns_name
    parse_api_key validate is_outside fits_count maximum_token_count Search.maximum Search.grow
    Search.bisect Search.settle
program = tt
