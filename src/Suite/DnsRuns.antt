-- ===== src/Suite/DnsRuns.antt =====
-- The unit tests of the DNS handler pass with the stand-in for the DNS library.
use safexip.Prelude.{true, ◌≡◌, refl}
use safexip.Suite.DnsNames
use safexip.Suite.DnsAnswers
use safexip.Suite.DnsErrors
use safexip.Suite.Encoding.{SuiteEdns}
use safexip.Suite.Program.{library, small_library, program}

acme_challenge_a_is_nodata_not_nxdomain_passes :
    DnsNames.acme_challenge_a_is_nodata_not_nxdomain library ≡ true
unfolding program DnsNames.acme_challenge_a_is_nodata_not_nxdomain
acme_challenge_a_is_nodata_not_nxdomain_passes = refl

acme_challenge_txt_no_token_is_nodata_not_nxdomain_passes :
    DnsNames.acme_challenge_txt_no_token_is_nodata_not_nxdomain library ≡ true
unfolding program DnsNames.acme_challenge_txt_no_token_is_nodata_not_nxdomain
acme_challenge_txt_no_token_is_nodata_not_nxdomain_passes = refl

acme_challenge_txt_with_token_returns_answer_passes :
    DnsNames.acme_challenge_txt_with_token_returns_answer library ≡ true
unfolding program DnsNames.acme_challenge_txt_with_token_returns_answer
acme_challenge_txt_with_token_returns_answer_passes = refl

nonexistent_in_zone_name_is_nxdomain_passes :
    DnsNames.nonexistent_in_zone_name_is_nxdomain library ≡ true
unfolding program DnsNames.nonexistent_in_zone_name_is_nxdomain
nonexistent_in_zone_name_is_nxdomain_passes = refl

nonexistent_name_is_nxdomain_for_unsupported_type_passes :
    DnsNames.nonexistent_name_is_nxdomain_for_unsupported_type library ≡ true
unfolding program DnsNames.nonexistent_name_is_nxdomain_for_unsupported_type
nonexistent_name_is_nxdomain_for_unsupported_type_passes = refl

out_of_zone_name_is_refused_without_authority_claim_passes :
    DnsNames.out_of_zone_name_is_refused_without_authority_claim library ≡ true
unfolding program DnsNames.out_of_zone_name_is_refused_without_authority_claim
out_of_zone_name_is_refused_without_authority_claim_passes = refl

xip_ip_name_has_a_record_passes : DnsNames.xip_ip_name_has_a_record library ≡ true
unfolding program DnsNames.xip_ip_name_has_a_record
xip_ip_name_has_a_record_passes = refl

acme_challenge_a_with_0x20_case_is_nodata_not_nxdomain_passes :
    DnsNames.acme_challenge_a_with_0x20_case_is_nodata_not_nxdomain library ≡ true
unfolding program DnsNames.acme_challenge_a_with_0x20_case_is_nodata_not_nxdomain
acme_challenge_a_with_0x20_case_is_nodata_not_nxdomain_passes = refl

acme_challenge_txt_with_0x20_case_and_token_returns_answer_passes :
    DnsNames.acme_challenge_txt_with_0x20_case_and_token_returns_answer library ≡ true
unfolding program DnsNames.acme_challenge_txt_with_0x20_case_and_token_returns_answer
acme_challenge_txt_with_0x20_case_and_token_returns_answer_passes = refl

xip_ip_name_with_0x20_case_has_a_record_passes :
    DnsNames.xip_ip_name_with_0x20_case_has_a_record library ≡ true
unfolding program DnsNames.xip_ip_name_with_0x20_case_has_a_record
xip_ip_name_with_0x20_case_has_a_record_passes = refl

concurrent_tokens_are_separate_txt_records_passes :
    DnsAnswers.concurrent_tokens_are_separate_txt_records library ≡ true
unfolding program DnsAnswers.concurrent_tokens_are_separate_txt_records
concurrent_tokens_are_separate_txt_records_passes = refl

oversized_udp_response_is_truncated_passes :
    DnsAnswers.oversized_udp_response_is_truncated library ≡ true
unfolding program DnsAnswers.oversized_udp_response_is_truncated
oversized_udp_response_is_truncated_passes = refl

large_rrset_is_complete_without_udp_limit_passes :
    DnsAnswers.large_rrset_is_complete_without_udp_limit library ≡ true
unfolding program DnsAnswers.large_rrset_is_complete_without_udp_limit
large_rrset_is_complete_without_udp_limit_passes = refl

soa_and_ns_follow_authoritative_owner_semantics_passes :
    DnsAnswers.soa_and_ns_follow_authoritative_owner_semantics library ≡ true
unfolding program DnsAnswers.soa_and_ns_follow_authoritative_owner_semantics
soa_and_ns_follow_authoritative_owner_semantics_passes = refl

soa_serial_is_stable_and_tracks_dynamic_zone_changes_passes :
    DnsAnswers.soa_serial_is_stable_and_tracks_dynamic_zone_changes library ≡ true
unfolding program DnsAnswers.soa_serial_is_stable_and_tracks_dynamic_zone_changes
soa_serial_is_stable_and_tracks_dynamic_zone_changes_passes = refl

unsupported_query_class_never_receives_in_records_passes :
    DnsErrors.unsupported_query_class_never_receives_in_records library ≡ true
unfolding program DnsErrors.unsupported_query_class_never_receives_in_records
unsupported_query_class_never_receives_in_records_passes = refl

semantically_malformed_messages_return_formerr_passes :
    DnsErrors.semantically_malformed_messages_return_formerr library ≡ true
unfolding program DnsErrors.semantically_malformed_messages_return_formerr
semantically_malformed_messages_return_formerr_passes = refl

edns_payload_is_echoed_and_capped_passes :
    DnsErrors.edns_payload_is_echoed_and_capped library ≡ true
unfolding program DnsErrors.edns_payload_is_echoed_and_capped
edns_payload_is_echoed_and_capped_passes = refl

udp_truncation_falls_back_to_a_complete_tcp_answer_at_capacity_passes :
    DnsErrors.udp_truncation_falls_back_to_a_complete_tcp_answer_at_capacity small_library ≡ true
unfolding program DnsErrors.udp_truncation_falls_back_to_a_complete_tcp_answer_at_capacity
udp_truncation_falls_back_to_a_complete_tcp_answer_at_capacity_passes = refl

unexpected_serialization_truncation_returns_servfail_passes :
    DnsErrors.unexpected_serialization_truncation_returns_servfail small_library ≡ true
unfolding program DnsErrors.unexpected_serialization_truncation_returns_servfail
unexpected_serialization_truncation_returns_servfail_passes = refl

serialization_error_returns_servfail_passes :
    DnsErrors.serialization_error_returns_servfail library ≡ true
unfolding program DnsErrors.serialization_error_returns_servfail
serialization_error_returns_servfail_passes = refl

unsupported_opcode_is_not_implemented_passes :
    DnsErrors.unsupported_opcode_is_not_implemented library ≡ true
unfolding program DnsErrors.unsupported_opcode_is_not_implemented
unsupported_opcode_is_not_implemented_passes = refl

unsupported_edns_version_returns_badvers_passes :
    DnsErrors.unsupported_edns_version_returns_badvers library
      (λ n (e : SuiteEdns). record e { version = n })
    ≡ true
unfolding program DnsErrors.unsupported_edns_version_returns_badvers
unsupported_edns_version_returns_badvers_passes = refl
