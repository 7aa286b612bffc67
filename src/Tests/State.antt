-- ===== src/Tests/State.antt =====
-- The zone's state at small inputs.
use safexip.Prelude.{
  Bool, true, false, none, some, List, [], ◌∷◌, ◌≡◌, ◌⊎◌, refl, inr, arith, ap, ℕ, ◌≢◌, leb,
  if◌then◌else◌, is_ok, ok, err,
}
use safexip.Text.{Text, codes, text_eq}
use safexip.State.{
  AcmeRecords, ZoneState, add, remove, get_with_serial, prune, with_serial, add_new, refresh_token,
  token_count, all_values, advance_serial, token_limit_reached,
}
use safexip.Map
use safexip.State.Capacity.{IsMonotone, count}
use safexip.State.Valid.{IsValid, expiry}
use safexip.State.Refine.{write, expire, expiry-add, expiry-remove_value, add-IsValid}
use safexip.State.Serial.{values_at}
use safexip.State.Period.{IsNewer, run_announces}
use safexip.State.History.{
  Event, adding, removing, reading, asking, run, IsSound, run-IsSound, nil-IsValid,
}
use safexip.State.Served.{contains, served_until_expiry, gone_after_expiry}

-- Two tokens at most, and the value `x` in one of them at most.
abbrev one_x : List Text → Bool
one_x values = leb (count (codes "x") values) 1

abbrev two_tokens : AcmeRecords
two_tokens = record { lifetime = 100; max_tokens = 2; wire_fits = one_x }

abbrev owner : Text
owner = codes "a"

abbrev empty_zone : ZoneState
empty_zone = record { records = []; serial = 5 }

-- The value `v` at the owner, from time 0 to time 100.
abbrev zone_with_v : ZoneState
zone_with_v = record {
  records = (owner, record { value = codes "v"; expires_at = 100 } ∷ []) ∷ [];
  serial = 6;
}

add_v : add two_tokens 0 0 owner (codes "v") empty_zone ≡ (ok tt, zone_with_v)
unfolding add add_new prune refresh_token token_count all_values advance_serial Map.retain_entries
    Map.get Map.insert text_eq
add_v = refl

abbrev first : Text → ℕ
first [] = 0
first (c ∷ s) = c

zone_with_v-IsValid : IsValid zone_with_v.records
unfolding add add_new prune refresh_token token_count all_values advance_serial Map.retain_entries
    Map.get Map.insert text_eq
zone_with_v-IsValid = add-IsValid two_tokens 0 0 owner (codes "v") empty_zone nil-IsValid

-- A third value is refused, and a value that has expired makes room.
limit_reached :
    (add two_tokens 20 20 owner
      (codes "z")
      (add two_tokens 10 10 owner (codes "w") zone_with_v).1).0
    ≡ err token_limit_reached
unfolding add add_new prune refresh_token token_count all_values advance_serial Map.retain_entries
    Map.get Map.insert text_eq
limit_reached = refl

room_after_expiry :
    is_ok
      (add two_tokens 100 100 owner
        (codes "z")
        (add two_tokens 10 10 owner (codes "w") zone_with_v).1).0
    ≡ true
unfolding add add_new prune refresh_token token_count all_values advance_serial Map.retain_entries
    Map.get Map.insert text_eq
room_after_expiry = refl

one_x-IsMonotone : IsMonotone one_x
one_x-IsMonotone xs ys fewer e = ground (arith, fewer (codes "x"))

v-ne-w : codes "v" ≢ codes "w"
v-ne-w e = omega (arith, ap (λ (s : Text). first s) e)

-- Another value is presented, removed, and queries are answered, before the time 100.
abbrev other_events : List Event
other_events =
    adding 10 11 owner (codes "w")
    ∷ reading 20 owner
    ∷ removing 30 owner (codes "w")
    ∷ asking 40
    ∷ []

expiry-add_example :
    expiry (add two_tokens 10 11 owner (codes "w") zone_with_v).1.records owner (codes "w") ≡ (
      if is_ok (add two_tokens 10 11 owner (codes "w") zone_with_v).0
      then write owner
          (codes "w")
          (some 111)
          (expire 10 (expiry zone_with_v.records))
          owner
          (codes "w")
      else expire 10 (expiry zone_with_v.records) owner (codes "w"))
expiry-add_example =
    expiry-add two_tokens 10 11 owner (codes "w") zone_with_v zone_with_v-IsValid owner (codes "w")

expiry-remove_value_example :
    expiry (remove 10 owner (codes "v") zone_with_v).records owner (codes "v")
    ≡ write owner (codes "v") none (expire 10 (expiry zone_with_v.records)) owner (codes "v")
expiry-remove_value_example =
    expiry-remove_value 10 owner (codes "v") zone_with_v zone_with_v-IsValid owner (codes "v")

run-IsSound_example :
    IsSound
      (with_serial 100 2 one_x 5).0
      (run (with_serial 100 2 one_x 5).0 other_events (with_serial 100 2 one_x 5).1)
run-IsSound_example = run-IsSound 100 2 one_x 5 other_events one_x-IsMonotone refl (omega arith)

served_until_expiry_example :
    contains
      (codes "v")
      (get_with_serial 99 owner
        (run two_tokens other_events (add two_tokens 0 0 owner (codes "v") empty_zone).1)).0.0
    ≡ true
unfolding add add_new prune refresh_token token_count all_values advance_serial Map.retain_entries
    Map.get Map.insert text_eq
served_until_expiry_example =
    served_until_expiry two_tokens empty_zone 0 0 owner (codes "v") other_events 99 nil-IsValid refl
      ((omega arith, inr v-ne-w), (omega arith, ((omega arith, inr v-ne-w), (omega arith, tt))))
      (omega arith)

gone_after_expiry_example :
    contains
      (codes "v")
      (get_with_serial 100 owner
        (run two_tokens other_events (add two_tokens 0 0 owner (codes "v") empty_zone).1)).0.0
    ≡ false
unfolding add add_new prune refresh_token token_count all_values advance_serial Map.retain_entries
    Map.get Map.insert text_eq
gone_after_expiry_example =
    gone_after_expiry two_tokens empty_zone 0 0 owner (codes "v") other_events 100 nil-IsValid refl
      (inr v-ne-w, (tt, (tt, (tt, tt)))) (omega arith)

run_announces_example :
    ((n : Text)
      → values_at n (run two_tokens other_events zone_with_v).records
        ≡ values_at n zone_with_v.records)
    ⊎ IsNewer (run two_tokens other_events zone_with_v).serial zone_with_v.serial
run_announces_example =
    run_announces two_tokens other_events zone_with_v zone_with_v-IsValid (omega arith)
      (omega arith)
