-- ===== src/Suite/DnsNames.antt =====
-- src/dns.rs: the unit tests on which names exist, and in which case of letters.
use safexip.Prelude.{Bool, some, ◌&&◌, not, ◌==◌, length}
use safexip.Text.{codes}
use safexip.Hickory.{Hickory, txt_type, a_type, other_type, nx_domain, no_error, refused}
use safexip.Wire.{◌>>=◌}
use safexip.Api.{is_empty}
use safexip.Suite.Fixtures.{passes, add_ok}
use safexip.Suite.Handler.{acme, run, has_code}

module _ (h : Hickory) where
  unfoldable pub acme_challenge_a_is_nodata_not_nxdomain : Bool
  acme_challenge_a_is_nodata_not_nxdomain = passes (do
    (records, zone) ← acme h
    (resp, later) ← run h 0 (codes "_acme-challenge.xip.test") a_type zone
    some (not (has_code nx_domain resp) && has_code no_error resp && is_empty resp.answers))

  unfoldable pub acme_challenge_txt_no_token_is_nodata_not_nxdomain : Bool
  acme_challenge_txt_no_token_is_nodata_not_nxdomain = passes (do
    (records, zone) ← acme h
    (resp, later) ← run h 0 (codes "_acme-challenge.xip.test") txt_type zone
    some (not (has_code nx_domain resp) && has_code no_error resp && is_empty resp.answers))

  unfoldable pub acme_challenge_txt_with_token_returns_answer : Bool
  acme_challenge_txt_with_token_returns_answer = passes (do
    (records, zone) ← acme h
    filled ← add_ok records 0 (codes "_acme-challenge.xip.test") (codes "token123") zone
    (resp, later) ← run h 0 (codes "_acme-challenge.xip.test") txt_type filled
    some (has_code no_error resp && length resp.answers == 1))

  unfoldable pub nonexistent_in_zone_name_is_nxdomain : Bool
  nonexistent_in_zone_name_is_nxdomain = passes (do
    (records, zone) ← acme h
    (resp, later) ← run h 0 (codes "totally-bogus.xip.test") a_type zone
    some (has_code nx_domain resp))

  -- The type CAA has the number 257.
  unfoldable pub nonexistent_name_is_nxdomain_for_unsupported_type : Bool
  nonexistent_name_is_nxdomain_for_unsupported_type = passes (do
    (records, zone) ← acme h
    (resp, later) ← run h 0 (codes "totally-bogus.xip.test") (other_type 257) zone
    some (has_code nx_domain resp))

  unfoldable pub out_of_zone_name_is_refused_without_authority_claim : Bool
  out_of_zone_name_is_refused_without_authority_claim = passes (do
    (records, zone) ← acme h
    (resp, later) ← run h 0 (codes "example.com") a_type zone
    some (has_code refused resp && not resp.authoritative && is_empty resp.authorities))

  unfoldable pub xip_ip_name_has_a_record : Bool
  xip_ip_name_has_a_record = passes (do
    (records, zone) ← acme h
    (resp, later) ← run h 0 (codes "127-0-0-1.xip.test") a_type zone
    some (has_code no_error resp && length resp.answers == 1))

  unfoldable pub acme_challenge_a_with_0x20_case_is_nodata_not_nxdomain : Bool
  acme_challenge_a_with_0x20_case_is_nodata_not_nxdomain = passes (do
    (records, zone) ← acme h
    (resp, later) ← run h 0 (codes "_aCMe-cHAlLeNGe.xIp.tEsT") a_type zone
    some (not (has_code nx_domain resp) && has_code no_error resp))

  unfoldable pub acme_challenge_txt_with_0x20_case_and_token_returns_answer : Bool
  acme_challenge_txt_with_0x20_case_and_token_returns_answer = passes (do
    (records, zone) ← acme h
    filled ← add_ok records 0 (codes "_acme-challenge.xip.test") (codes "tok") zone
    (resp, later) ← run h 0 (codes "_aCMe-cHAlLeNGe.xIp.tEsT") txt_type filled
    some (has_code no_error resp && length resp.answers == 1))

  unfoldable pub xip_ip_name_with_0x20_case_has_a_record : Bool
  xip_ip_name_with_0x20_case_has_a_record = passes (do
    (records, zone) ← acme h
    (resp, later) ← run h 0 (codes "127-0-0-1.xIp.TeSt") a_type zone
    some (has_code no_error resp && length resp.answers == 1))
