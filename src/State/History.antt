-- ===== src/State/History.antt =====
-- src/state.rs: histories, any sequence of operations, by any number of clients, in the order in which they take
-- the lock.
use safexip.Prelude.{ℕ, ◌^◌, ◌≤◌, ◌<◌, Bool, true, List, [], ◌∷◌, ◌≡◌, arith}
use safexip.Text.{Text}
use safexip.Map
use safexip.State.{
  AcmeRecords, ZoneState, with_serial, prune, add_new, add, remove, pruned, get_with_serial, serial,
  token_count, advance_if, advance_serial, all_values,
}
use safexip.State.Valid.{IsValid, prune-IsValid}
use safexip.State.Refine.{add-IsValid, remove-IsValid}
use safexip.State.Serial.{token_count-prune-le}
use safexip.State.Count.{token_count-add, token_count-remove_value}
use safexip.State.Capacity.{IsMonotone, fits-add, fits-remove, fits-pruned}

-- One operation with its arguments, and with the times that it reads.
pub data Event : Type 0 where
  adding : ℕ → ℕ → Text → Text → Event
  removing : ℕ → Text → Text → Event
  reading : ℕ → Text → Event
  asking : ℕ → Event

unfoldable pub apply : AcmeRecords → Event → ZoneState → ZoneState
apply acme (adding now later name value) s = (add acme now later name value s).1
apply acme (removing now name value) s = remove now name value s
apply acme (reading now name) s = (get_with_serial now name s).1
apply acme (asking now) s = (serial now s).1

unfoldable pub run : AcmeRecords → List Event → ZoneState → ZoneState
run acme [] s = s
run acme (event ∷ events) s = run acme events (apply acme event s)

-- What holds of the state between any two operations.
pub record IsSound (acme : AcmeRecords) (s : ZoneState) : Type 0 where
  pub valid : IsValid s.records
  pub within_limit : token_count s.records ≤ acme.max_tokens
  pub on_the_wire : acme.wire_fits (all_values s.records) ≡ true
  pub serial_u32 : s.serial < 2 ^ 32

advance_if_u32 : (c : Bool) (n : ℕ) → n < 2 ^ 32 → advance_if c n < 2 ^ 32
unfolding advance_if
advance_if_u32 c n h = ground arith

-- The state after a query.
pruned-IsSound :
    (acme : AcmeRecords)
    → IsMonotone acme.wire_fits
    → (now : ℕ) (s : ZoneState) → IsSound acme s
    → IsSound acme (pruned now s)
pruned-IsSound acme monotone now s h = record {
  valid = unfold pruned in prune-IsValid now s.records h.valid;
  within_limit = unfold pruned in omega (arith, token_count-prune-le now s.records, h.within_limit);
  on_the_wire = fits-pruned acme monotone now s h.on_the_wire;
  serial_u32 = unfold pruned in advance_if_u32 (prune now s.records).1 s.serial h.serial_u32;
}

serial-add_new_u32 :
    (acme : AcmeRecords) (later : ℕ) (name value : Text) (changed : Bool) (s : ZoneState)
    → s.serial < 2 ^ 32
    → (add_new acme later name value changed s).1.serial < 2 ^ 32
unfolding add_new advance_serial
serial-add_new_u32 acme later name value changed s h =
    ground (arith, advance_if_u32 changed s.serial h)

serial-add_u32 :
    (acme : AcmeRecords) (now later : ℕ) (name value : Text) (s : ZoneState)
    → s.serial < 2 ^ 32
    → (add acme now later name value s).1.serial < 2 ^ 32
unfolding add
serial-add_u32 acme now later name value s h = ground (
  arith,
  advance_if_u32 (prune now s.records).1 s.serial h,
  serial-add_new_u32 acme later name value (prune now s.records).1
      (record { records = (prune now s.records).0; serial = s.serial }) h,
)

serial-remove_u32 :
    (now : ℕ) (name value : Text) (s : ZoneState)
    → s.serial < 2 ^ 32
    → (remove now name value s).serial < 2 ^ 32
unfolding remove advance_if advance_serial
serial-remove_u32 now name value s h = ground arith

module _ (acme : AcmeRecords) (monotone : IsMonotone acme.wire_fits) where
  apply-IsSound :
      (event : Event) (s : ZoneState) → IsSound acme s → IsSound acme (apply acme event s)
  unfolding apply
  apply-IsSound (adding now later name value) s h = record {
    valid = add-IsValid acme now later name value s h.valid;
    within_limit = token_count-add acme now later name value s h.within_limit;
    on_the_wire = fits-add acme monotone now later name value s h.on_the_wire;
    serial_u32 = serial-add_u32 acme now later name value s h.serial_u32;
  }
  apply-IsSound (removing now name value) s h = record {
    valid = remove-IsValid now name value s h.valid;
    within_limit = omega (arith, token_count-remove_value now name value s, h.within_limit);
    on_the_wire = fits-remove acme monotone now name value s h.on_the_wire;
    serial_u32 = serial-remove_u32 now name value s h.serial_u32;
  }
  apply-IsSound (reading now name) s h =
      unfold get_with_serial in pruned-IsSound acme monotone now s h
  apply-IsSound (asking now) s h = unfold serial in pruned-IsSound acme monotone now s h

  run-IsSound_from :
      (events : List Event) (s : ZoneState) → IsSound acme s → IsSound acme (run acme events s)
  unfolding run
  run-IsSound_from [] s h = h
  run-IsSound_from (event ∷ events) s h =
      run-IsSound_from events (apply acme event s) (apply-IsSound event s h)

pub nil-IsValid : IsValid []
unfolding Map.get
nil-IsValid = record { distinct_keys = tt; entry = λ n ts e. cc }

-- From a start with no records, every history of operations, failed ones included, leaves each name
-- with one entry that is not empty and repeats no value, at most `max_tokens` tokens, values that
-- fit the wire together, and a 32-bit serial. It is assumed that the wire test depends on the
-- values alone and not on their order, that it passes for fewer values if it passes for more, that
-- it passes for none, and that the first serial is a 32-bit number.
pub run-IsSound :
    (lifetime max_tokens : ℕ) (wire_fits : List Text → Bool) (first_serial : ℕ)
    (events : List Event)
    → IsMonotone wire_fits
    → wire_fits [] ≡ true
    → first_serial < 2 ^ 32
    → let (acme, s) = with_serial lifetime max_tokens wire_fits first_serial in
      IsSound acme (run acme events s)
unfolding with_serial
run-IsSound lifetime max_tokens wire_fits first_serial events monotone none_fits small =
    let (acme, s) = with_serial lifetime max_tokens wire_fits first_serial in
    run-IsSound_from acme monotone events s (record {
      valid = nil-IsValid;
      within_limit = unfold token_count in omega arith;
      on_the_wire = unfold all_values in none_fits;
      serial_u32 = small;
    })
