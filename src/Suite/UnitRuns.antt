-- ===== src/Suite/UnitRuns.antt =====
-- The unit tests of the names, the configuration, the capacity and the state pass.
use safexip.Prelude.{true, ◌≡◌, refl}
use safexip.Suite.Units
use safexip.Suite.Records
use safexip.Suite.Program.{library, small_library, program}

domain_matching_respects_label_boundaries_and_case_passes :
    Units.domain_matching_respects_label_boundaries_and_case ≡ true
unfolding program Units.domain_matching_respects_label_boundaries_and_case
domain_matching_respects_label_boundaries_and_case_passes = refl

parses_valid_ipv4_octets_passes : Units.parses_valid_ipv4_octets ≡ true
unfolding program Units.parses_valid_ipv4_octets
parses_valid_ipv4_octets_passes = refl

rejects_invalid_or_out_of_zone_octets_passes : Units.rejects_invalid_or_out_of_zone_octets ≡ true
unfolding program Units.rejects_invalid_or_out_of_zone_octets
rejects_invalid_or_out_of_zone_octets_passes = refl

normalizes_dns_names_passes : Units.normalizes_dns_names library ≡ true
unfolding program Units.normalizes_dns_names
normalizes_dns_names_passes = refl

rejects_invalid_dns_names_passes : Units.rejects_invalid_dns_names library ≡ true
unfolding program Units.rejects_invalid_dns_names
rejects_invalid_dns_names_passes = refl

rejects_empty_and_short_api_keys_passes : Units.rejects_empty_and_short_api_keys library ≡ true
unfolding program Units.rejects_empty_and_short_api_keys
rejects_empty_and_short_api_keys_passes = refl

requires_distinct_in_zone_nameservers_passes :
    Units.requires_distinct_in_zone_nameservers library ≡ true
unfolding program Units.requires_distinct_in_zone_nameservers
requires_distinct_in_zone_nameservers_passes = refl

rejects_token_limit_above_the_zone_wire_maximum_passes :
    Units.rejects_token_limit_above_the_zone_wire_maximum small_library ≡ true
unfolding program Units.rejects_token_limit_above_the_zone_wire_maximum
rejects_token_limit_above_the_zone_wire_maximum_passes = refl

includes_record_and_message_overhead_at_the_boundary_passes :
    Units.includes_record_and_message_overhead_at_the_boundary small_library ≡ true
unfolding program Units.includes_record_and_message_overhead_at_the_boundary
includes_record_and_message_overhead_at_the_boundary_passes = refl

deduplicates_and_refreshes_tokens_passes : Records.deduplicates_and_refreshes_tokens library ≡ true
unfolding program Records.deduplicates_and_refreshes_tokens
deduplicates_and_refreshes_tokens_passes = refl

enforces_capacity_passes : Records.enforces_capacity library ≡ true
unfolding program Records.enforces_capacity
enforces_capacity_passes = refl

expires_tokens_passes : Records.expires_tokens library ≡ true
unfolding program Records.expires_tokens
expires_tokens_passes = refl

rejects_wire_overflow_without_changing_existing_records_passes :
    Records.rejects_wire_overflow_without_changing_existing_records small_library ≡ true
unfolding program Records.rejects_wire_overflow_without_changing_existing_records
rejects_wire_overflow_without_changing_existing_records_passes = refl

concurrent_additions_cannot_exceed_wire_capacity_passes :
    Records.concurrent_additions_cannot_exceed_wire_capacity small_library ≡ true
unfolding program Records.concurrent_additions_cannot_exceed_wire_capacity
concurrent_additions_cannot_exceed_wire_capacity_passes = refl

serial_tracks_effective_rrset_changes_only_passes :
    Records.serial_tracks_effective_rrset_changes_only library ≡ true
unfolding program Records.serial_tracks_effective_rrset_changes_only
serial_tracks_effective_rrset_changes_only_passes = refl

serial_advances_once_when_expired_records_are_pruned_passes :
    Records.serial_advances_once_when_expired_records_are_pruned library ≡ true
unfolding program Records.serial_advances_once_when_expired_records_are_pruned
serial_advances_once_when_expired_records_are_pruned_passes = refl
