-- ===== src/Tests/WireFixtures.antt =====
-- The wire test of the small DNS library is monotone.
use safexip.Prelude.{
  ℕ, ◌&&◌, some, List, [], ◌∷◌, ◌≡◌, refl, ap, ◌∙◌, arith, leb, ◌==◌, map, length, length-map,
  length-replicate,
}
use safexip.Text.{Text, codes}
use safexip.Wire.{AcmeWireCapacity, fits, is_complete, response, soa_record, txt_record}
use safexip.Wire.Maximum.{response-sections}
use safexip.State.Capacity.{IsMonotone, count}
use safexip.Main.Startup.{wire_test}
use safexip.Tests.Fixtures.{
  small_hickory, small_hickory-HasBuilders, value_of, no_record, SmallMessage,
}

abbrev pub small_wire : AcmeWireCapacity Text
small_wire = record {
  acme_name = codes "_acme-challenge.x.io";
  zone = codes "x.io";
  ns_hostname = codes "ns1.x.io";
  txt_ttl = 60;
}

values-txt_records :
    (xs : List Text) → map value_of (map (txt_record small_hickory small_wire.acme_name 60) xs) ≡ xs
unfolding txt_record
values-txt_records [] = refl
values-txt_records (x ∷ xs) = ap (λ t. x ∷ t) (values-txt_records xs)

small_complete :
    (m : SmallMessage) (n : ℕ)
    → is_complete small_hickory m n
      ≡ leb (count (codes "x") (map value_of m.answers)) 1 && length m.answers == n
unfolding is_complete
small_complete m n = ground (arith, length-replicate (length m.answers) no_record)

some_complete :
    (xs : List Text) (m : SmallMessage)
    → m.answers ≡ map (txt_record small_hickory small_wire.acme_name 60) xs
    → response small_hickory small_wire xs ≡ some m
    → wire_test small_hickory small_wire xs ≡ leb (count (codes "x") xs) 1
unfolding fits
some_complete xs m same e = ground (
  arith,
  small_complete m (length xs),
  values-txt_records xs,
  length-map (txt_record small_hickory small_wire.acme_name 60) xs,
  ap (map value_of) same,
  ap length same,
)

pub small_fits :
    (xs : List Text) → wire_test small_hickory small_wire xs ≡ leb (count (codes "x") xs) 1
unfolding soa_record
small_fits xs =
    some_complete xs _ refl
      (response-sections small_hickory small_hickory-HasBuilders small_wire xs _ refl)

pub small_wire-IsMonotone : IsMonotone (wire_test small_hickory small_wire)
small_wire-IsMonotone xs ys fewer e =
    small_fits xs ∙ ground (arith, small_fits ys, fewer (codes "x"))
