-- ===== src/Tests/Xip.antt =====
-- Addresses in names, at small inputs.
use safexip.Prelude.{false, none, some, ◌≡◌, ◌↔◌, refl, inr, arith}
use safexip.Text.{
  ends_with, Text, codes, to_lowercase, strip_suffix, split, text_eq, parse_digits, parse_unsigned,
}
use safexip.Config.{Ipv4Addr}
use safexip.Xip.{parse_xip_ip, parse_octets, is_our_domain, scan_windows, fill_octets, parse_octet}
use safexip.Xip.Octets.{decimal}
use safexip.Xip.Parse.{IsIpv4, parse_xip_ip-dashed}
use safexip.Xip.Windows.{IsRead, parse_xip_ip_iff}

abbrev some_ip : Ipv4Addr
some_ip = record { first = 10; second = 0; third = 200; fourth = 7 }

some_ip-IsIpv4 : IsIpv4 some_ip
some_ip-IsIpv4 = record {
  first_u8 = omega arith;
  second_u8 = omega arith;
  third_u8 = omega arith;
  fourth_u8 = omega arith;
}

abbrev leading_parts : Text
leading_parts = codes "Pod-10-0-200-7.X.io"

parsed : parse_xip_ip leading_parts (codes "x.io") ≡ some some_ip
unfolding parse_xip_ip parse_octets scan_windows fill_octets parse_octet parse_unsigned parse_digits
    to_lowercase strip_suffix split text_eq
parsed = refl

octet_too_large : parse_xip_ip (codes "10-0-256-7.x.io") (codes "x.io") ≡ none
unfolding parse_xip_ip parse_octets scan_windows fill_octets parse_octet parse_unsigned parse_digits
    to_lowercase strip_suffix split text_eq
octet_too_large = refl

parse_xip_ip-dashed_example : parse_xip_ip leading_parts (codes "x.io") ≡ some some_ip
unfolding to_lowercase decimal
parse_xip_ip-dashed_example =
    parse_xip_ip-dashed leading_parts (codes "x.io") (codes "pod") some_ip some_ip-IsIpv4 (inr refl)

-- The dot is part of what a name of the zone ends in.
other_zone : is_our_domain (codes "ax.io") (codes "x.io") ≡ false
unfolding is_our_domain to_lowercase text_eq ends_with strip_suffix
other_zone = refl

parse_xip_ip_iff_example :
    (parse_xip_ip leading_parts (codes "x.io") ≡ some some_ip)
    ↔ IsRead leading_parts (codes "x.io") some_ip
parse_xip_ip_iff_example = parse_xip_ip_iff leading_parts (codes "x.io") some_ip

read_parts : IsRead leading_parts (codes "x.io") some_ip
read_parts = (parse_xip_ip_iff leading_parts (codes "x.io") some_ip).0 parsed
