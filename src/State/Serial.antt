-- ===== src/State/Serial.antt =====
-- src/state.rs: the serial and the values in the zone.
use safexip.Prelude.{
  ℕ, ◌+◌, ◌≤◌, ◌<◌, ◌^◌, Bool, false, not, ◌||◌, Option, some, List, [], ◌∷◌, ◌≡◌, ◌≢◌, refl, sym,
  ap, ◌∙◌, arith, retain, map, Option-cases, inl, inr, length, length-retain, ◌==◌, Result,
}
use safexip.Text.{Text, text_eq}
use safexip.Text.Laws.{text_eq_iff}
use safexip.Map
use safexip.State.{
  AddError, Token, Records, AcmeRecords, ZoneState, prune, prune_tokens, or_empty, tokens_at,
  refresh_token, add_new, add, remove, write_back, pruned, advance_if, advance_serial, token_count,
  is_live,
}
use safexip.State.Tokens.{values-refresh_token}
use safexip.State.Valid.{IsValid, or_empty-if_any}
use safexip.State.Refine.{add_known, add_unknown, remove_absent, remove_present}

pub retain-eq_self :
    {A : Type 0} (p : A → Bool) (xs : List A) → length (retain p xs) ≡ length xs → retain p xs ≡ xs
retain-eq_self p [] h = refl
retain-eq_self p (x ∷ xs) h = ground (arith, retain-eq_self p xs, length-retain p xs)

IsValid-tail : (name : Text) (ts : List Token) (r : Records) → IsValid ((name, ts) ∷ r) → IsValid r
IsValid-tail name ts r h = record {
  distinct_keys = h.distinct_keys.1;
  entry = λ n us e.
      h.entry n us (unfold Map.get in ground (arith, text_eq_iff name n, h.distinct_keys.0));
}

IsValid-head-ne-nil :
    (name : Text) (ts : List Token) (r : Records) → IsValid ((name, ts) ∷ r) → ts ≢ []
IsValid-head-ne-nil name ts r h =
    (h.entry name ts (unfold Map.get in ground (arith, text_eq_iff name name))).0

token_count-retain_entries :
    (f : List Token → Option (List Token)) (name : Text) (ts : List Token) (r : Records)
    → token_count (Map.retain_entries f ((name, ts) ∷ r))
      ≡ length (or_empty (f ts)) + token_count (Map.retain_entries f r)
unfolding token_count Map.retain_entries
token_count-retain_entries f name ts r = ground arith

token_count-prune_cons :
    (now : ℕ) (name : Text) (ts : List Token) (r : Records)
    → token_count (prune now ((name, ts) ∷ r)).0
      ≡ length (retain (is_live now) ts) + token_count (prune now r).0
unfolding prune
token_count-prune_cons now name ts r =
    rw (token_count-retain_entries (prune_tokens now) name ts r)
      (rw (or_empty-if_any (retain (is_live now) ts)))

prune_cons_kept :
    (now : ℕ) (name : Text) (ts : List Token) (r : Records)
    → ts ≢ []
    → retain (is_live now) ts ≡ ts
    → (prune now ((name, ts) ∷ r)).0 ≡ (name, ts) ∷ (prune now r).0
unfolding prune Map.retain_entries
prune_cons_kept now name [] r h e = absurd (h refl)
prune_cons_kept now name (t ∷ ts) r h e = rw e

-- `prune` drops no more than it finds.
pub token_count-prune-le : (now : ℕ) (r : Records) → token_count (prune now r).0 ≤ token_count r
unfolding prune token_count Map.retain_entries
token_count-prune-le now [] = omega arith
token_count-prune-le now ((name, ts) ∷ r) =
    unfold token_count in
    omega (
      arith,
      token_count-prune_cons now name ts r,
      token_count-prune-le now r,
      length-retain (is_live now) ts,
    )

-- `prune` that keeps the number of tokens keeps the records.
pub prune-eq_self :
    (now : ℕ) (r : Records)
    → IsValid r
    → token_count (prune now r).0 ≡ token_count r
    → (prune now r).0 ≡ r
prune-eq_self now [] valid h = unfold prune Map.retain_entries in refl
prune-eq_self now ((name, ts) ∷ r) valid h =
    let parts : (length (retain (is_live now) ts) ≡ length ts)
        × (token_count (prune now r).0 ≡ token_count r) =
      (unfold token_count in
        omega (
          arith,
          token_count-prune_cons now name ts r,
          token_count-prune-le now r,
          length-retain (is_live now) ts,
        )) in
    prune_cons_kept now name ts r (IsValid-head-ne-nil name ts r valid)
      (retain-eq_self (is_live now) ts parts.0)
    ∙ ap (λ m. (name, ts) ∷ m) (prune-eq_self now r (IsValid-tail name ts r valid) parts.1)

pub prune_unchanged :
    (now : ℕ) (r : Records) → IsValid r → (prune now r).1 ≡ false → (prune now r).0 ≡ r
unfolding prune
prune_unchanged now r valid h = prune-eq_self now r valid (unfold prune in ground arith)

-- The values at a name, in the order in which they are served.
abbrev pub values_at : Text → Records → List Text
values_at name r = map (λ (t : Token). t.value) (tokens_at name r)

advance_if_true : (c : Bool) (n : ℕ) → n < 2 ^ 32 → advance_if c n ≡ n → c ≡ false
unfolding advance_if
advance_if_true c n h e = ground arith

advance_serial-ne : (n : ℕ) → n < 2 ^ 32 → advance_serial n ≢ n
unfolding advance_serial
advance_serial-ne n h e = omega arith

values_at-insert :
    (r : Records) (name : Text) (ts : List Token) (n : Text)
    → map (λ (t : Token). t.value) ts ≡ values_at name r
    → values_at n (Map.insert name ts r) ≡ values_at n r
values_at-insert r name ts n h = ground (arith, Map.get-insert name n ts r, text_eq_iff name n)

values_at-write_back :
    (r : Records) (name : Text) (ts : List Token) (n : Text)
    → Map.get name r ≡ some ts
    → values_at n (write_back name ts r) ≡ values_at n r
unfolding write_back
values_at-write_back r name [] n h = ground (arith, Map.get-remove name n r, text_eq_iff name n)
values_at-write_back r name (t ∷ ts) n h =
    values_at-insert r name (t ∷ ts) n (ap (λ o. map (λ (u : Token). u.value) (or_empty o)) (sym h))

no_change :
    (changed : Bool) (a b n : ℕ)
    → n < 2 ^ 32
    → advance_if (changed || not (a == b)) n ≡ n
    → (changed ≡ false) × (a ≡ b)
no_change changed a b n h e =
    let c = advance_if_true (changed || not (a == b)) n h e in ground arith

module _ (now : ℕ) (s : ZoneState) (valid : IsValid s.records) (small : s.serial < 2 ^ 32) where
  -- A query that leaves the serial leaves the records.
  pub pruned_announces : (pruned now s).serial ≡ s.serial → (pruned now s).records ≡ s.records
  unfolding pruned
  pruned_announces e =
      prune_unchanged now s.records valid (advance_if_true (prune now s.records).1 s.serial small e)

  still_values :
      (n : Text)
      → advance_if (prune now s.records).1 s.serial ≡ s.serial
      → values_at n (prune now s.records).0 ≡ values_at n s.records
  still_values n e = ap (values_at n) (
      prune_unchanged now s.records valid
        (advance_if_true (prune now s.records).1 s.serial small e))

  add_new_announces :
      (acme : AcmeRecords) (later : ℕ) (name value : Text) (changed : Bool) (n : Text)
      (t : ZoneState)
      → t.serial ≡ s.serial
      → (changed ≡ false → t.records ≡ s.records)
      → (add_new acme later name value changed t).1.serial ≡ s.serial
      → values_at n (add_new acme later name value changed t).1.records ≡ values_at n s.records
  unfolding add_new
  add_new_announces acme later name value changed n t same kept e =
      let still : (changed ≡ false) → values_at n t.records ≡ values_at n s.records =
        λ c. ap (values_at n) (kept c) in
      ground
        (arith, still, advance_if_true changed s.serial small, advance_serial-ne s.serial small)

  -- `add` that leaves the serial leaves the values at every name.
  pub add_announces :
      (acme : AcmeRecords) (later : ℕ) (name value : Text)
      → (add acme now later name value s).1.serial ≡ s.serial
      → (n : Text) → values_at n (add acme now later name value s).1.records ≡ values_at n s.records
  add_announces acme later name value e n =
      let r = (prune now s.records).0 in
      elim (Option-cases (refresh_token value (later + acme.lifetime) (tokens_at name r))) [
        | inl absent ↦
            let eq = add_unknown acme now later name value s absent in
            ap (λ (p : Result AddError (Unit {0}) × ZoneState). values_at n p.1.records) eq
            ∙ add_new_announces acme later name value (prune now s.records).1 n
                (record { records = r; serial = s.serial }) refl
                (prune_unchanged now s.records valid)
                (sym (ap (λ (p : Result AddError (Unit {0}) × ZoneState). p.1.serial) eq) ∙ e)
        | inr (ts, found) ↦
            let eq = add_known acme now later name value s ts found in
            ap (λ (p : Result AddError (Unit {0}) × ZoneState). values_at n p.1.records) eq
            ∙ values_at-insert r name ts n
                (values-refresh_token value (later + acme.lifetime) (tokens_at name r) ts found)
            ∙ still_values n
                (sym (ap (λ (p : Result AddError (Unit {0}) × ZoneState). p.1.serial) eq) ∙ e)
      ]

  -- `remove` that leaves the serial leaves the values at every name.
  pub remove_announces :
      (name value : Text)
      → (remove now name value s).serial ≡ s.serial
      → (n : Text) → values_at n (remove now name value s).records ≡ values_at n s.records
  remove_announces name value e n =
      let r = (prune now s.records).0 in
      elim (Option-cases (Map.get name r)) [
        | inl absent ↦
            let eq = remove_absent now name value s absent in
            ap (λ (t : ZoneState). values_at n t.records) eq
            ∙ still_values n (sym (ap (λ (t : ZoneState). t.serial) eq) ∙ e)
        | inr (ts, found) ↦
            let eq = remove_present now name value s ts found in
            let kept = retain (λ (t : Token). not (text_eq t.value value)) ts in
            let still =
              no_change (prune now s.records).1 (length kept) (length ts) s.serial small
                (sym (ap (λ (t : ZoneState). t.serial) eq) ∙ e) in
            ap (λ (t : ZoneState). values_at n t.records) eq
            ∙ ap (λ us. values_at n (write_back name us r))
                (retain-eq_self (λ (t : Token). not (text_eq t.value value)) ts still.1)
            ∙ values_at-write_back r name ts n found
            ∙ ap (values_at n) (prune_unchanged now s.records valid still.0)
      ]
