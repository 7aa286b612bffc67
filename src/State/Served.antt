-- ===== src/State/Served.antt =====
-- src/state.rs: what clients see over time.
use safexip.Prelude.{
  ℕ, ◌+◌, ◌≤◌, ◌<◌, Bool, true, false, ◌||◌, none, some, List, [], ◌∷◌, ◌≡◌, ◌≢◌, ◌⊎◌, refl, ap,
  ◌∙◌, arith, map, All, is_some, is_ok,
}
use safexip.Text.{Text, text_eq}
use safexip.Text.Laws.{text_eq_iff}
use safexip.State.{
  Token, AcmeRecords, ZoneState, prune, tokens_at, add, remove, pruned, get_with_serial, serial,
}
use safexip.State.Tokens.{expiry_of, live_at}
use safexip.State.Valid.{IsValid, expiry, prune-IsValid, expiry-prune}
use safexip.State.Refine.{expire, add-IsValid, expiry-add, remove-IsValid, expiry-remove_value}
use safexip.State.History.{Event, adding, removing, reading, asking, apply, run}

unfoldable pub contains : Text → List Text → Bool
contains v [] = false
contains v (x ∷ xs) = text_eq x v || contains v xs

contains-values :
    (v : Text) (ts : List Token)
    → contains v (map (λ (t : Token). t.value) ts) ≡ is_some (expiry_of v ts)
unfolding contains expiry_of
contains-values v [] = refl
contains-values v (t ∷ ts) = ground (arith, contains-values v ts)

-- From valid records: a query returns a value exactly if the value is at the name and has not
-- expired.
pub contains-get_with_serial :
    (now : ℕ) (name value : Text) (s : ZoneState)
    → IsValid s.records
    → contains value (get_with_serial now name s).0.0
      ≡ is_some (expire now (expiry s.records) name value)
unfolding get_with_serial pruned
contains-get_with_serial now name value s valid =
    contains-values value (tokens_at name (prune now s.records).0)
    ∙ ap is_some (unfold expiry in expiry-prune now s.records name value valid)

pub apply-IsValid :
    (acme : AcmeRecords) (event : Event) (s : ZoneState)
    → IsValid s.records
    → IsValid (apply acme event s).records
unfolding apply get_with_serial serial pruned
apply-IsValid acme (adding now later name value) s h = add-IsValid acme now later name value s h
apply-IsValid acme (removing now name value) s h = remove-IsValid now name value s h
apply-IsValid acme (reading now name) s h = prune-IsValid now s.records h
apply-IsValid acme (asking now) s h = prune-IsValid now s.records h

pub run-IsValid :
    (acme : AcmeRecords) (events : List Event) (s : ZoneState)
    → IsValid s.records
    → IsValid (run acme events s).records
unfolding run
run-IsValid acme [] s valid = valid
run-IsValid acme (event ∷ events) s valid =
    run-IsValid acme events (apply acme event s) (apply-IsValid acme event s valid)

-- The event happens before `e`, and neither presents nor removes this value at this name.
abbrev pub Spares : ℕ → Text → Text → Event → Type 0
Spares e name value (adding now later n v) = (now < e) × ((name ≢ n) ⊎ (value ≢ v))
Spares e name value (removing now n v) = (now < e) × ((name ≢ n) ⊎ (value ≢ v))
Spares e name value (reading now n) = now < e
Spares e name value (asking now) = now < e

-- The event does not present this value at this name.
abbrev pub Withholds : Text → Text → Event → Type 0
Withholds name value (adding now later n v) = (name ≢ n) ⊎ (value ≢ v)
Withholds name value event = Unit

apply-Spares :
    (acme : AcmeRecords) (event : Event) (s : ZoneState) (e : ℕ) (name value : Text)
    → IsValid s.records
    → expiry s.records name value ≡ some e
    → Spares e name value event
    → expiry (apply acme event s).records name value ≡ some e
unfolding apply get_with_serial serial pruned
apply-Spares acme (adding now later n v) s e name value valid h spared = ground (
  arith,
  expiry-add acme now later n v s valid name value,
  text_eq_iff n name,
  text_eq_iff v value,
)
apply-Spares acme (removing now n v) s e name value valid h spared =
    ground (
      arith,
      expiry-remove_value now n v s valid name value,
      text_eq_iff n name,
      text_eq_iff v value,
    )
apply-Spares acme (reading now n) s e name value valid h spared =
    ground (arith, expiry-prune now s.records name value valid)
apply-Spares acme (asking now) s e name value valid h spared =
    ground (arith, expiry-prune now s.records name value valid)

run-Spares :
    (acme : AcmeRecords) (events : List Event) (s : ZoneState) (e : ℕ) (name value : Text)
    → IsValid s.records
    → expiry s.records name value ≡ some e
    → All (Spares e name value) events
    → IsValid (run acme events s).records × (expiry (run acme events s).records name value ≡ some e)
unfolding run
run-Spares acme [] s e name value valid h spared = (valid, h)
run-Spares acme (event ∷ events) s e name value valid h (spared, rest) =
    run-Spares acme events (apply acme event s) e name value (apply-IsValid acme event s valid)
      (apply-Spares acme event s e name value valid h spared) rest

-- From valid records: a value whose presentation succeeded is in every answer for its name at a
-- time before its expiry, whatever other operations come between, if each of them happens before
-- the expiry and neither presents nor removes that value at that name.
pub served_until_expiry :
    (acme : AcmeRecords) (s : ZoneState) (now later : ℕ) (name value : Text) (events : List Event)
    (query : ℕ)
    → IsValid s.records
    → is_ok (add acme now later name value s).0 ≡ true
    → All (Spares (later + acme.lifetime) name value) events
    → query < later + acme.lifetime
    → contains value
        (get_with_serial query name (run acme events (add acme now later name value s).1)).0.0
      ≡ true
served_until_expiry acme s now later name value events query valid accepted spared early =
    let (still_valid, still) =
      run-Spares acme events (add acme now later name value s).1 (later + acme.lifetime) name value
        (add-IsValid acme now later name value s valid)
        (ground (
          arith,
          expiry-add acme now later name value s valid name value,
          text_eq_iff name name,
          text_eq_iff value value,
        ))
        spared in
    rw
      (contains-get_with_serial query name value
        (run acme events (add acme now later name value s).1) still_valid)
      (ground arith)

-- Whether a value would be served is not made true by an event that does not present it.
apply-Withholds :
    (acme : AcmeRecords) (event : Event) (s : ZoneState) (e : ℕ) (name value : Text)
    → IsValid s.records
    → live_at e (expiry s.records name value) ≡ none
    → Withholds name value event
    → live_at e (expiry (apply acme event s).records name value) ≡ none
unfolding apply get_with_serial serial pruned
apply-Withholds acme (adding now later n v) s e name value valid h w = ground (
  arith,
  expiry-add acme now later n v s valid name value,
  text_eq_iff n name,
  text_eq_iff v value,
)
apply-Withholds acme (removing now n v) s e name value valid h w =
    ground (arith, expiry-remove_value now n v s valid name value)
apply-Withholds acme (reading now n) s e name value valid h w =
    ground (arith, expiry-prune now s.records name value valid)
apply-Withholds acme (asking now) s e name value valid h w =
    ground (arith, expiry-prune now s.records name value valid)

run-Withholds :
    (acme : AcmeRecords) (events : List Event) (s : ZoneState) (e : ℕ) (name value : Text)
    → IsValid s.records
    → live_at e (expiry s.records name value) ≡ none
    → All (Withholds name value) events
    → IsValid (run acme events s).records
      × (live_at e (expiry (run acme events s).records name value) ≡ none)
unfolding run
run-Withholds acme [] s e name value valid h w = (valid, h)
run-Withholds acme (event ∷ events) s e name value valid h (w, rest) =
    run-Withholds acme events (apply acme event s) e name value (apply-IsValid acme event s valid)
      (apply-Withholds acme event s e name value valid h w) rest

-- From valid records: a value that was removed is in no later answer for its name, if no operation
-- between presents that value at that name.
pub gone_after_remove :
    (acme : AcmeRecords) (s : ZoneState) (now : ℕ) (name value : Text) (events : List Event)
    (query : ℕ)
    → IsValid s.records
    → All (Withholds name value) events
    → contains value (get_with_serial query name (run acme events (remove now name value s))).0.0
      ≡ false
gone_after_remove acme s now name value events query valid w =
    let (still_valid, gone) =
      run-Withholds acme events (remove now name value s) query name value
        (remove-IsValid now name value s valid)
        (ground (
          arith,
          expiry-remove_value now name value s valid name value,
          text_eq_iff name name,
          text_eq_iff value value,
        ))
        w in
    rw
      (
        contains-get_with_serial query name value (run acme events (remove now name value s))
            still_valid,
        gone,
      )
      refl

-- From valid records: a value whose presentation succeeded is in no answer for its name from its
-- expiry on, if no operation between presents that value at that name.
pub gone_after_expiry :
    (acme : AcmeRecords) (s : ZoneState) (now later : ℕ) (name value : Text) (events : List Event)
    (query : ℕ)
    → IsValid s.records
    → is_ok (add acme now later name value s).0 ≡ true
    → All (Withholds name value) events
    → later + acme.lifetime ≤ query
    → contains value
        (get_with_serial query name (run acme events (add acme now later name value s).1)).0.0
      ≡ false
gone_after_expiry acme s now later name value events query valid accepted w late =
    let (still_valid, gone) =
      run-Withholds acme events (add acme now later name value s).1 query name value
        (add-IsValid acme now later name value s valid)
        (ground (
          arith,
          expiry-add acme now later name value s valid name value,
          text_eq_iff name name,
          text_eq_iff value value,
        ))
        w in
    rw
      (
        contains-get_with_serial query name value
            (run acme events (add acme now later name value s).1) still_valid,
        gone,
      )
      refl
