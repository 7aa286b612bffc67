-- ===== src/State/Capacity.antt =====
-- src/state.rs: the values in the zone and the wire capacity.
use safexip.Prelude.{
  ℕ, suc, ◌+◌, ◌≤◌, Bool, true, not, Option, List, [], ◌∷◌, ◌++◌, ◌≡◌, ap, arith, if◌then◌else◌,
  retain, map, map-append, Option-cases, inl, inr,
}
use safexip.Text.{Text, text_eq}
use safexip.Map
use safexip.State.{
  Token, Records, AcmeRecords, ZoneState, prune, prune_tokens, is_live, or_empty, tokens_at,
  refresh_token, add_new, add, remove, write_back, pruned, all_values,
}
use safexip.State.Tokens.{values-refresh_token}
use safexip.State.Valid.{or_empty-if_any}
use safexip.State.Serial.{values_at}
use safexip.State.Refine.{add_known, add_unknown, remove_absent, remove_present}

-- How often a value stands in a list.
abbrev pub count : Text → List Text → ℕ
count v [] = 0
count v (x ∷ xs) = if text_eq x v then suc (count v xs) else count v xs

pub count-append : (v : Text) (xs ys : List Text) → count v (xs ++ ys) ≡ count v xs + count v ys
count-append v [] ys = omega arith
count-append v (x ∷ xs) ys = ground (arith, count-append v xs ys)

-- The test depends on the values alone, and not on their order; what fits still fits when values
-- are taken away.
abbrev pub IsMonotone : (List Text → Bool) → Type 0
IsMonotone fits =
    (xs ys : List Text) → ((v : Text) → count v xs ≤ count v ys) → fits ys ≡ true → fits xs ≡ true

abbrev pub values_of : List Token → List Text
values_of = map (λ (t : Token). t.value)

count-retain :
    (v : Text) (p : Token → Bool) (ts : List Token)
    → count v (values_of (retain p ts)) ≤ count v (values_of ts)
count-retain v p [] = omega arith
count-retain v p (t ∷ ts) = ground (arith, count-retain v p ts)

count-retain_entries :
    (v : Text) (f : List Token → Option (List Token)) (name : Text) (ts : List Token) (r : Records)
    → count v (all_values (Map.retain_entries f ((name, ts) ∷ r)))
      ≡ count v (values_of (or_empty (f ts))) + count v (all_values (Map.retain_entries f r))
unfolding all_values Map.retain_entries
count-retain_entries v f name ts r = elim (Option-cases (f ts)) [
  | inl e ↦ rw e (omega arith)
  | inr (us, e) ↦ rw e (count-append v (values_of us) _)
]

count-all_values :
    (v name : Text) (ts : List Token) (r : Records)
    → count v (all_values ((name, ts) ∷ r)) ≡ count v (values_of ts) + count v (all_values r)
unfolding all_values
count-all_values v name ts r = count-append v (values_of ts) (all_values r)

count-prune :
    (v : Text) (now : ℕ) (r : Records)
    → count v (all_values (prune now r).0) ≤ count v (all_values r)
unfolding prune
count-prune v now [] = unfold all_values Map.retain_entries in omega arith
count-prune v now ((name, ts) ∷ r) =
    rw
      (
        count-retain_entries v (prune_tokens now) name ts r,
        or_empty-if_any (retain (is_live now) ts),
        count-all_values v name ts r,
      )
      (omega (arith, count-retain v (is_live now) ts, count-prune v now r))

count-insert :
    (v name : Text) (ts : List Token) (r : Records)
    → count v (all_values (Map.insert name ts r)) + count v (values_at name r)
      ≡ count v (all_values r) + count v (values_of ts)
unfolding all_values Map.insert Map.get
count-insert v name ts [] = omega (arith, count-append v (values_of ts) [])
count-insert v name ts ((n, us) ∷ r) = ground (
  arith,
  count-insert v name ts r,
  count-append v (values_of us) (all_values r),
  count-append v (values_of ts) (all_values r),
  count-append v (values_of us) (all_values (Map.insert name ts r)),
)

count-remove :
    (v name : Text) (r : Records)
    → count v (all_values (Map.remove name r)) + count v (values_at name r) ≤ count v (all_values r)
unfolding all_values Map.remove Map.get
count-remove v name [] = omega arith
count-remove v name ((n, us) ∷ r) = ground (
  arith,
  count-remove v name r,
  count-append v (values_of us) (all_values r),
  count-append v (values_of us) (all_values (Map.remove name r)),
)

count-write_back :
    (v name : Text) (ts : List Token) (r : Records)
    → count v (values_of ts) ≤ count v (values_at name r)
    → count v (all_values (write_back name ts r)) ≤ count v (all_values r)
unfolding write_back
count-write_back v name [] r h = omega (arith, count-remove v name r)
count-write_back v name (t ∷ ts) r h = omega (arith, count-insert v name (t ∷ ts) r)

count-push :
    (v name : Text) (t : Token) (r : Records)
    → count v (all_values (Map.insert name (tokens_at name r ++ t ∷ []) r))
      ≤ count v (all_values r ++ t.value ∷ [])
count-push v name t r = omega (
  arith,
  count-insert v name (tokens_at name r ++ t ∷ []) r,
  ap (count v) (map-append (λ (u : Token). u.value) (tokens_at name r) (t ∷ [])),
  count-append v (values_at name r) (t.value ∷ []),
  count-append v (all_values r) (t.value ∷ []),
)

module _ (acme : AcmeRecords) (monotone : IsMonotone acme.wire_fits) where
  fits-add_new :
      (later : ℕ) (name value : Text) (changed : Bool) (s : ZoneState)
      → acme.wire_fits (all_values s.records) ≡ true
      → acme.wire_fits (all_values (add_new acme later name value changed s).1.records) ≡ true
  unfolding add_new
  fits-add_new later name value changed s h =
      let t : Token = record { value = value; expires_at = later + acme.lifetime } in
      ground (
        arith,
        monotone (all_values (Map.insert name (tokens_at name s.records ++ t ∷ []) s.records))
            (all_values s.records ++ value ∷ []) (λ v. count-push v name t s.records),
      )

  fits-prune :
      (now : ℕ) (r : Records)
      → acme.wire_fits (all_values r) ≡ true
      → acme.wire_fits (all_values (prune now r).0) ≡ true
  fits-prune now r = monotone (all_values (prune now r).0) (all_values r) (λ v. count-prune v now r)

  -- `add` keeps the values within the capacity.
  pub fits-add :
      (now later : ℕ) (name value : Text) (s : ZoneState)
      → acme.wire_fits (all_values s.records) ≡ true
      → acme.wire_fits (all_values (add acme now later name value s).1.records) ≡ true
  fits-add now later name value s h =
      let r = (prune now s.records).0 in
      elim (Option-cases (refresh_token value (later + acme.lifetime) (tokens_at name r))) [
        | inl e ↦ rw (add_unknown acme now later name value s e) (
            fits-add_new later name value (prune now s.records).1
              (record { records = r; serial = s.serial }) (fits-prune now s.records h))
        | inr (ts, e) ↦ rw (add_known acme now later name value s ts e) (
            monotone (all_values (Map.insert name ts r)) (all_values r)
              (λ v. omega (
                arith,
                count-insert v name ts r,
                ap (count v)
                    (values-refresh_token value (later + acme.lifetime) (tokens_at name r) ts e),
              ))
              (fits-prune now s.records h))
      ]

  -- `remove` keeps the values within the capacity.
  pub fits-remove :
      (now : ℕ) (name value : Text) (s : ZoneState)
      → acme.wire_fits (all_values s.records) ≡ true
      → acme.wire_fits (all_values (remove now name value s).records) ≡ true
  fits-remove now name value s h =
      let r = (prune now s.records).0 in
      elim (Option-cases (Map.get name r)) [
        | inl e ↦ rw (remove_absent now name value s e) (fits-prune now s.records h)
        | inr (ts, e) ↦
            let unequal = λ (t : Token). not (text_eq t.value value) in
            rw (remove_present now name value s ts e) (
              monotone (all_values (write_back name (retain unequal ts) r)) (all_values r)
                (λ v. count-write_back v name (retain unequal ts) r (
                  omega (
                    arith,
                    count-retain v unequal ts,
                    ap (λ o. count v (values_of (or_empty o))) e,
                  )))
                (fits-prune now s.records h))
      ]

  pub fits-pruned :
      (now : ℕ) (s : ZoneState)
      → acme.wire_fits (all_values s.records) ≡ true
      → acme.wire_fits (all_values (pruned now s).records) ≡ true
  unfolding pruned
  fits-pruned now s = fits-prune now s.records
