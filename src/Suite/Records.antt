-- ===== src/Suite/Records.antt =====
-- src/state.rs: the unit tests. Times are those of the clock since the start of a test; what lies
-- between two calls is only counted where the test sleeps.
use safexip.Prelude.{
  ℕ, zero, suc, ◌+◌, ◌-◌, ◌^◌, Bool, true, false, Option, some, none, List, [], ◌∷◌, ◌++◌, ◌&&◌,
  not, ◌==◌, Result, ok, err, length, replicate,
}
use safexip.Text.{Text, codes}
use safexip.Hickory.{Hickory}
use safexip.State.{
  AcmeRecords, ZoneState, AddError, token_limit_reached, dns_wire_capacity_reached, add, remove,
  get, get_with_serial, serial,
}
use safexip.Api.{is_empty}
use safexip.Wire.{◌>>=◌, from_config, fits}
use safexip.Suite.Fixtures.{
  passes, make_config, new_records, records_with_serial, add_ok, from_secs, from_millis, texts_eq,
  four_digits, xs,
}

-- `Err(AddError::TokenLimitReached)`
abbrev is_token_limit : Result AddError (Unit {0}) → Bool
is_token_limit (err token_limit_reached) = true
is_token_limit other = false

abbrev challenge : Text
challenge = codes "_acme-challenge.xip.test"

abbrev large_value : ℕ → Text
large_value n = four_digits n (xs 251)

-- The loop of additions until the capacity is reached: the accepted values. More rounds than the
-- fuel count as a panic.
abbrev add_until_full : AcmeRecords → ℕ → List Text → ZoneState → Option (List Text × ZoneState)
add_until_full records zero accepted s = none
add_until_full records (suc fuel) accepted s =
    let value = large_value (length accepted) in
    let (result, s') = add records 0 0 challenge value s in
    elim result [
      | ok _ ↦ add_until_full records fuel (accepted ++ value ∷ []) s'
      | err dns_wire_capacity_reached ↦ some (accepted, s')
      | err token_limit_reached ↦ none
    ]

-- The tasks, in the order of their numbers.
abbrev add_each : AcmeRecords → ℕ → ℕ → ZoneState → ZoneState
add_each records zero index s = s
add_each records (suc left) index s =
    add_each records left (index + 1) (add records 0 0 challenge (large_value index) s).1

module _ (h : Hickory) where
  unfoldable pub deduplicates_and_refreshes_tokens : Bool
  deduplicates_and_refreshes_tokens = passes (do
    (records, s) ← new_records h (from_secs 60) 1
    s1 ← add_ok records 0 (codes "name") (codes "value") s
    s2 ← add_ok records 0 (codes "name") (codes "value") s1
    some (texts_eq (get 0 (codes "name") s2).0 (codes "value" ∷ [])))

  unfoldable pub enforces_capacity : Bool
  enforces_capacity = passes (do
    (records, s) ← new_records h (from_secs 60) 1
    s1 ← add_ok records 0 (codes "name") (codes "one") s
    some (is_token_limit (add records 0 0 (codes "name") (codes "two") s1).0))

  unfoldable pub expires_tokens : Bool
  expires_tokens = passes (do
    (records, s) ← new_records h (from_millis 10) 1
    s1 ← add_ok records 0 (codes "name") (codes "value") s
    some (is_empty (get (from_millis 20) (codes "name") s1).0))

  unfoldable pub rejects_wire_overflow_without_changing_existing_records : Bool
  rejects_wire_overflow_without_changing_existing_records = passes (do
    (records, s) ← new_records h (from_secs 60) (2 ^ 64 - 1)
    (accepted, s1) ← add_until_full records 65536 [] s
    some (not (is_empty accepted) && texts_eq (get 0 challenge s1).0 accepted))

  unfoldable pub concurrent_additions_cannot_exceed_wire_capacity : Bool
  concurrent_additions_cannot_exceed_wire_capacity = passes (do
    (records, s) ← new_records h (from_secs 60) (2 ^ 64 - 1)
    capacity ← from_config h make_config
    values ← some (get 0 challenge (add_each records 400 0 s)).0
    within ← fits h capacity values
    overflow ← fits h capacity (values ++ replicate 255 b'z' ∷ [])
    some (within && not overflow))

  unfoldable pub serial_tracks_effective_rrset_changes_only : Bool
  serial_tracks_effective_rrset_changes_only = passes (do
    (records, s) ← records_with_serial h (from_secs 60) 1 100
    s1 ← some (serial 0 (serial 0 s).1).1
    s2 ← add_ok records 0 (codes "name") (codes "value") s1
    s3 ← add_ok records 0 (codes "name") (codes "value") (serial 0 s2).1
    (refused, s4) ← some (add records 0 0 (codes "name") (codes "other") (serial 0 s3).1)
    s5 ← some (remove 0 (codes "name") (codes "missing") (serial 0 s4).1)
    s6 ← some (remove 0 (codes "name") (codes "value") (serial 0 s5).1)
    some (
        (serial 0 s).0 == 100
        && (serial 0 (serial 0 s).1).0 == 100
        && (serial 0 s2).0 == 101
        && (serial 0 s3).0 == 101
        && is_token_limit refused
        && (serial 0 s4).0 == 101
        && (serial 0 s5).0 == 101
        && (serial 0 s6).0 == 102))

  unfoldable pub serial_advances_once_when_expired_records_are_pruned : Bool
  serial_advances_once_when_expired_records_are_pruned = passes (do
    (records, s) ← records_with_serial h (from_millis 10) 2 (2 ^ 32 - 2)
    s1 ← add_ok records 0 (codes "name") (codes "one") s
    s2 ← add_ok records 0 (codes "name") (codes "two") s1
    (first, s3) ← some (serial 0 s2)
    ((values, second), s4) ← some (get_with_serial (from_millis 20) (codes "name") s3)
    some (first == 0 && is_empty values && second == 1 && (serial (from_millis 20) s4).0 == 1))
