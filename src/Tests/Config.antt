-- ===== src/Tests/Config.antt =====
-- The checks of the configuration, with the small DNS library.
use safexip.Prelude.{
  ℕ, zero, suc, ◌≤◌, Bool, true, some, ◌≡◌, ◌↔◌, refl, sym, arith, ok, err, ap, ◌∙◌, replicate, leb,
}
use safexip.Text.{codes, text_eq, to_lowercase, trim_end, strip_suffix, ends_with}
use safexip.Config.{acme_name}
use safexip.Config.Values.{parse_dns_name, IsNormalized, parse_dns_name-IsNormalized}
use safexip.Config.Validate.{
  validate, is_outside, same_nameservers, IsValidated, validate-IsValidated, validated_tokens_fit,
}
use safexip.Wire.{
  maximum_token_count, from_config, fits_count, or_panic, response, add_values, txt_record,
  soa_record, is_complete,
}
use safexip.Wire.Search
use safexip.Wire.Search.{maximum_boundary, maximum_exact}
use safexip.State.Capacity.{count}
use safexip.Main.Startup.{fits-replicate}
use safexip.Tests.Fixtures.{small_config, small_hickory}
use safexip.Tests.WireFixtures.{small_wire, small_fits}

pub validated : validate small_hickory small_config ≡ some (ok tt)
unfolding validate is_outside maximum_token_count from_config fits_count response add_values
    txt_record soa_record is_complete acme_name text_eq ends_with strip_suffix Search.maximum
    Search.grow Search.bisect Search.settle
validated = refl

abbrev pub valid : IsValidated small_hickory small_config
unfolding maximum_token_count fits_count response add_values txt_record soa_record is_complete
    from_config acme_name text_eq Search.maximum Search.grow Search.bisect Search.settle
valid =
    let v = validate-IsValidated small_hickory small_config validated in
    record {
      capacity = small_wire;
      wire_max = 1;
      distinct_nameservers = v.distinct_nameservers;
      first_in_zone = v.first_in_zone;
      second_in_zone = v.second_in_zone;
      acme_name_parses = v.acme_name_parses;
      admin_name_parses = v.admin_name_parses;
      has_capacity = refl;
      has_maximum = refl;
      within_capacity = omega arith;
    }

validate-IsValidated_example : IsValidated small_hickory small_config
validate-IsValidated_example = validate-IsValidated small_hickory small_config validated

one_nameserver :
    validate small_hickory (record small_config { ns_hostname2 = codes "ns1.x.io" })
    ≡ some (err same_nameservers)
unfolding validate text_eq
one_nameserver = refl

count-replicate : (n : ℕ) → count (codes "x") (replicate n (codes "x")) ≡ n
unfolding text_eq
count-replicate zero = refl
count-replicate (suc n) = ap suc (count-replicate n)

fits_count_once : (n : ℕ) → or_panic (fits_count small_hickory small_wire n) ≡ leb n 1
fits_count_once n =
    ap or_panic (sym (fits-replicate small_hickory small_wire n))
    ∙ small_fits (replicate n (codes "x"))
    ∙ ap (λ m. leb m 1) (count-replicate n)

fits_once :
    (a b : ℕ)
    → a ≤ b
    → or_panic (fits_count small_hickory small_wire b) ≡ true
    → or_panic (fits_count small_hickory small_wire a) ≡ true
fits_once a b le e = fits_count_once a ∙ ground (arith, fits_count_once b)

validated_tokens_fit_example : fits_count small_hickory small_wire 1 ≡ some true
unfolding valid
validated_tokens_fit_example =
    validated_tokens_fit small_hickory small_config valid 1 fits_once (omega arith) (omega arith)

parse_dns_name-IsNormalized_example :
    IsNormalized small_hickory (codes "x.io")
    × (codes "x.io" ≡ to_lowercase (trim_end b'.' (codes "X.io.")))
    × (parse_dns_name small_hickory (codes "x.io") ≡ ok (codes "x.io"))
unfolding parse_dns_name to_lowercase trim_end text_eq
parse_dns_name-IsNormalized_example =
    parse_dns_name-IsNormalized small_hickory (codes "X.io.") (codes "x.io") refl

-- Five records fit.
abbrev up_to_five : ℕ → Bool
up_to_five n = leb n 5

five_found : Search.maximum up_to_five ≡ 5
unfolding Search.maximum Search.grow Search.bisect Search.settle
five_found = refl

up_to_five-le : (m n : ℕ) → m ≤ n → up_to_five n ≡ true → up_to_five m ≡ true
up_to_five-le m n le e = ground arith

maximum_exact_example : (up_to_five 3 ≡ true) ↔ (3 ≤ Search.maximum up_to_five)
maximum_exact_example = maximum_exact up_to_five up_to_five-le 3 (omega arith) (omega arith)
