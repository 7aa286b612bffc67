-- ===== src/State.antt =====
-- src/state.rs: the ACME challenge records and the zone's serial.
-- An operation holds the write lock from its first line to its last, so it is one function of the
-- state. `Instant` is a number; each `Instant::now()` of an operation is an argument of its own.
pub mod Tokens
pub mod Valid
pub mod Refine
pub mod Serial
pub mod Count
pub mod Capacity
pub mod History
pub mod Announce
pub mod Period
pub mod Served
use safexip.Prelude.{
  ℕ, ◌+◌, ◌%◌, ◌^◌, Bool, not, ◌||◌, Option, none, some, List, [], ◌∷◌, ◌++◌, ltb, leb, ◌==◌,
  if◌then◌else◌, map, length, retain, Result, ok, err,
}
use safexip.Text.{Text, text_eq}
use safexip.Map
use safexip.Map.{Map}

pub record Token : Type 0 where
  pub value : Text
  pub expires_at : ℕ

abbrev pub Records : Type 0
Records = Map (List Token)

pub record ZoneState : Type 0 where
  pub records : Records
  pub serial : ℕ

-- The fields of `AcmeRecords` that do not change; `wire_fits` is `wire_capacity.fits`.
pub record AcmeRecords : Type 0 where
  pub lifetime : ℕ
  pub max_tokens : ℕ
  pub wire_fits : List Text → Bool

pub data AddError : Type 0 where
  token_limit_reached dns_wire_capacity_reached : AddError

unfoldable pub with_serial : ℕ → ℕ → (List Text → Bool) → ℕ → AcmeRecords × ZoneState
with_serial lifetime max_tokens wire_fits serial = (
  record { lifetime = lifetime; max_tokens = max_tokens; wire_fits = wire_fits },
  record { records = []; serial = serial },
)

-- The serial starts as the Unix time, cut to 32 bits.
unfoldable pub new : ℕ → ℕ → (List Text → Bool) → ℕ → AcmeRecords × ZoneState
unfolding with_serial
new lifetime max_tokens wire_fits timestamp =
    with_serial lifetime max_tokens wire_fits (timestamp % 2 ^ 32)

unfoldable pub advance_serial : ℕ → ℕ
advance_serial serial = (serial + 1) % 2 ^ 32

-- `if changed { advance_serial(&mut serial) }`
unfoldable pub advance_if : Bool → ℕ → ℕ
unfolding advance_serial
advance_if changed serial = if changed then advance_serial serial else serial

-- `records.values().map(Vec::len).sum()`
unfoldable pub token_count : Records → ℕ
token_count [] = 0
token_count ((name, tokens) ∷ rest) = length tokens + token_count rest

-- `records.values().flatten().map(|token| token.value.clone()).collect()`
unfoldable pub all_values : Records → List Text
all_values [] = []
all_values ((name, tokens) ∷ rest) = map (λ (t : Token). t.value) tokens ++ all_values rest

abbrev pub is_live : ℕ → Token → Bool
is_live now token = ltb now token.expires_at

-- The value of a key whose tokens are dropped when none is left.
abbrev pub if_any : List Token → Option (List Token)
if_any [] = none
if_any (t ∷ ts) = some (t ∷ ts)

abbrev pub prune_tokens : ℕ → List Token → Option (List Token)
prune_tokens now tokens = if_any (retain (is_live now) tokens)

unfoldable pub prune : ℕ → Records → Records × Bool
prune now records =
    let kept = Map.retain_entries (prune_tokens now) records in
    (kept, not (token_count kept == token_count records))

-- `tokens.iter_mut().find(|token| token.value == value)`, and the write to the token found.
unfoldable pub refresh_token : Text → ℕ → List Token → Option (List Token)
refresh_token value expires_at [] = none
refresh_token value expires_at (t ∷ ts) =
    let rest = refresh_token value expires_at ts in
    if text_eq t.value value
    then some (record t { expires_at = expires_at } ∷ ts)
    else elim rest [ none ↦ none | some ts' ↦ some (t ∷ ts') ]

abbrev pub or_empty {ℓ} : {A : Type ℓ} → Option (List A) → List A
or_empty none = []
or_empty (some xs) = xs

abbrev pub tokens_at : Text → Records → List Token
tokens_at name records = or_empty (Map.get name records)

-- `add` after the search for the token: the count limit, the wire limit, the new token.
unfoldable pub add_new :
    AcmeRecords → ℕ → Text → Text → Bool → ZoneState → Result AddError (Unit {0}) × ZoneState
add_new acme later name value changed s =
    if leb acme.max_tokens (token_count s.records)
    then (err token_limit_reached, record s { serial = advance_if changed s.serial })
    else if not (acme.wire_fits (all_values s.records ++ value ∷ []))
    then (err dns_wire_capacity_reached, record s { serial = advance_if changed s.serial })
    else (
      ok tt,
      record {
        records =
            Map.insert name
              (tokens_at name s.records
                ++ record { value = value; expires_at = later + acme.lifetime } ∷ [])
              s.records;
        serial = advance_serial s.serial;
      },
    )

-- `now` is read by `prune`, `later` where the new expiry is computed.
unfoldable pub add :
    AcmeRecords → ℕ → ℕ → Text → Text → ZoneState → Result AddError (Unit {0}) × ZoneState
add acme now later name value s =
    let (records, changed) = prune now s.records in
    elim (refresh_token value (later + acme.lifetime) (tokens_at name records)) [
      | some tokens ↦ (
        ok tt,
        record { records = Map.insert name tokens records; serial = advance_if changed s.serial },
      )
      | none ↦
          add_new acme later name value changed (record { records = records; serial = s.serial })
    ]

-- The entry after `retain`: an empty one is removed.
unfoldable pub write_back : Text → List Token → Records → Records
write_back name [] records = Map.remove name records
write_back name (t ∷ ts) records = Map.insert name (t ∷ ts) records

unfoldable pub remove : ℕ → Text → Text → ZoneState → ZoneState
remove now name value s =
    let (records, pruned) = prune now s.records in
    elim (Map.get name records) [
      | none ↦ record { records = records; serial = advance_if pruned s.serial }
      | some tokens ↦
          let kept = retain (λ (t : Token). not (text_eq t.value value)) tokens in
          let changed = pruned || not (length kept == length tokens) in
          record { records = write_back name kept records; serial = advance_if changed s.serial }
    ]

-- The state after `if prune(&mut state.records) { advance_serial(&mut state.serial) }`.
unfoldable pub pruned : ℕ → ZoneState → ZoneState
pruned now s =
    let (records, changed) = prune now s.records in
    record { records = records; serial = advance_if changed s.serial }

unfoldable pub get_with_serial : ℕ → Text → ZoneState → (List Text × ℕ) × ZoneState
get_with_serial now name s =
    let s' = pruned now s in
    ((map (λ (t : Token). t.value) (tokens_at name s'.records), s'.serial), s')

-- `get`, which the tests call.
unfoldable pub get : ℕ → Text → ZoneState → List Text × ZoneState
unfolding get_with_serial
get now name s = let ((values, current), s') = get_with_serial now name s in (values, s')

unfoldable pub serial : ℕ → ZoneState → ℕ × ZoneState
serial now s = let s' = pruned now s in (s'.serial, s')
