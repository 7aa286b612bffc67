-- ===== src/State/Announce.antt =====
-- src/state.rs: the operations that leave the serial.
use safexip.Prelude.{◌<◌, ◌^◌, ◌≡◌, ap}
use safexip.Text.{Text}
use safexip.State.{AcmeRecords, ZoneState, get_with_serial, serial}
use safexip.State.Valid.{IsValid}
use safexip.State.Serial.{values_at, pruned_announces, add_announces, remove_announces}
use safexip.State.History.{Event, adding, removing, reading, asking, apply}

-- From valid records and a 32-bit serial: an operation that leaves the serial as it is leaves the
-- values at every name, in their order.
pub apply_announces :
    (acme : AcmeRecords) (event : Event) (s : ZoneState)
    → IsValid s.records
    → s.serial < 2 ^ 32
    → (apply acme event s).serial ≡ s.serial
    → (n : Text) → values_at n (apply acme event s).records ≡ values_at n s.records
unfolding apply get_with_serial serial
apply_announces acme (adding now later name value) s valid small e n =
    add_announces now s valid small acme later name value e n
apply_announces acme (removing now name value) s valid small e n =
    remove_announces now s valid small name value e n
apply_announces acme (reading now name) s valid small e n =
    ap (values_at n) (pruned_announces now s valid small e)
apply_announces acme (asking now) s valid small e n =
    ap (values_at n) (pruned_announces now s valid small e)
