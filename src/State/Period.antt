-- ===== src/State/Period.antt =====
-- src/state.rs: the serial over a history. It wraps around, and who compares two serials takes the
-- one as newer that is ahead by less than half of the numbers (RFC 1982).
use safexip.Prelude.{
  ℕ, zero, suc, ◌+◌, ◌-◌, ◌%◌, ◌^◌, ◌≤◌, ◌<◌, List, [], ◌∷◌, ◌≡◌, ◌⊎◌, inl, inr, refl, ap, ◌∙◌,
  arith, length,
}
use safexip.Text.{Text}
use safexip.State.{
  AcmeRecords, ZoneState, add, add_new, remove, pruned, get_with_serial, serial, advance_if,
  advance_serial,
}
use safexip.State.Valid.{IsValid}
use safexip.State.Serial.{values_at}
use safexip.State.History.{Event, adding, removing, reading, asking, apply, run}
use safexip.State.Announce.{apply_announces}
use safexip.State.Served.{apply-IsValid}

-- The serial `a` is newer than `b`.
abbrev pub IsNewer : ℕ → ℕ → Type 0
IsNewer a b = (0 < (a + 2 ^ 32 - b) % 2 ^ 32) × ((a + 2 ^ 32 - b) % 2 ^ 32 < 2 ^ 31)

serial-add :
    (acme : AcmeRecords) (now later : ℕ) (name value : Text) (s : ZoneState)
    → ((add acme now later name value s).1.serial ≡ s.serial)
      ⊎ ((add acme now later name value s).1.serial ≡ advance_serial s.serial)
unfolding add add_new advance_if
serial-add acme now later name value s = ground arith

serial-apply :
    (acme : AcmeRecords) (event : Event) (s : ZoneState)
    → ((apply acme event s).serial ≡ s.serial)
      ⊎ ((apply acme event s).serial ≡ advance_serial s.serial)
unfolding apply remove get_with_serial serial pruned advance_if
serial-apply acme (adding now later name value) s = serial-add acme now later name value s
serial-apply acme (removing now name value) s = ground arith
serial-apply acme (reading now name) s = ground arith
serial-apply acme (asking now) s = ground arith

-- How far the serial is ahead, and that the values are the same if it is not.
abbrev Ahead : ℕ → ZoneState → ZoneState → Type 0
Ahead most s t =
    (steps : ℕ) × (steps ≤ most)
    × (t.serial ≡ (s.serial + steps) % 2 ^ 32)
    × (steps ≡ 0 → (n : Text) → values_at n t.records ≡ values_at n s.records)

advance_serial_steps :
    (serial steps : ℕ) → (advance_serial serial + steps) % 2 ^ 32 ≡ (serial + suc steps) % 2 ^ 32
unfolding advance_serial
advance_serial_steps serial steps = omega arith

apply_u32 :
    (acme : AcmeRecords) (event : Event) (s : ZoneState)
    → s.serial < 2 ^ 32
    → (apply acme event s).serial < 2 ^ 32
unfolding advance_serial
apply_u32 acme event s small = elim (serial-apply acme event s) [
  | inl same ↦ omega (arith, same, small)
  | inr next ↦ omega (arith, next)
]

run-Ahead :
    (acme : AcmeRecords) (events : List Event) (s : ZoneState)
    → IsValid s.records
    → s.serial < 2 ^ 32
    → Ahead (length events) s (run acme events s)
unfolding run
run-Ahead acme [] s valid small = (0, omega arith, omega (arith, small), λ e n. refl)
run-Ahead acme (event ∷ events) s valid small =
    let s1 = apply acme event s in
    let (steps, few, ahead, kept) =
      run-Ahead acme events s1 (apply-IsValid acme event s valid) (apply_u32 acme event s small) in
    elim (serial-apply acme event s) [
      | inl same ↦ (
        steps,
        omega (arith, few),
        ahead ∙ ap (λ m. (m + steps) % 2 ^ 32) same,
        λ none n. kept none n ∙ apply_announces acme event s valid small same n,
      )
      | inr next ↦ (
        suc steps,
        omega (arith, few),
        ahead ∙ ap (λ m. (m + steps) % 2 ^ 32) next ∙ advance_serial_steps s.serial steps,
        λ e. absurd (omega (arith, e)),
      )
    ]

steps-IsNewer :
    (a b steps : ℕ)
    → b < 2 ^ 32
    → 0 < steps
    → steps < 2 ^ 31
    → a ≡ (b + steps) % 2 ^ 32
    → IsNewer a b
steps-IsNewer a b steps small some_steps few e =
    let same : ((a + 2 ^ 32 - b) % 2 ^ 32 ≡ steps) = omega arith in
    (omega (arith, same), omega (arith, same))

settled :
    (events : List Event) (s t : ZoneState)
    → s.serial < 2 ^ 32
    → length events < 2 ^ 31
    → Ahead (length events) s t
    → ((n : Text) → values_at n t.records ≡ values_at n s.records) ⊎ IsNewer t.serial s.serial
settled events s t small short (zero, few, ahead, kept) = inl (kept refl)
settled events s t small short (suc steps, few, ahead, kept) = inr (
    steps-IsNewer t.serial s.serial (suc steps) small (omega arith) (omega (arith, few, short))
      ahead)

-- From valid records and a 32-bit serial: after fewer than 2 ^ 31 operations, the values at every
-- name are the same, in their order, or the serial is newer than it was, in the arithmetic of RFC
-- 1982, also where it has wrapped around.
pub run_announces :
    (acme : AcmeRecords) (events : List Event) (s : ZoneState)
    → IsValid s.records
    → s.serial < 2 ^ 32
    → length events < 2 ^ 31
    → ((n : Text) → values_at n (run acme events s).records ≡ values_at n s.records)
      ⊎ IsNewer (run acme events s).serial s.serial
run_announces acme events s valid small short =
    settled events s (run acme events s) small short (run-Ahead acme events s valid small)
