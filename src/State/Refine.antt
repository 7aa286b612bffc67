-- ===== src/State/Refine.antt =====
-- src/state.rs: `add` and `remove` on the invariant and on the abstract state, the partial map of
-- expiry times.
use safexip.Prelude.{
  ℕ, ◌+◌, Bool, not, ◌&&◌, ◌||◌, ◌==◌, length, Option, none, some, List, [], ◌∷◌, ◌++◌, ◌≡◌, ◌≢◌,
  sym, ap, ◌∙◌, arith, if◌then◌else◌, retain, Option-cases, inl, inr, is_ok, ok,
}
use safexip.Text.{Text, text_eq}
use safexip.Text.Laws.{text_eq_iff}
use safexip.Map
use safexip.State.{
  Token, Records, AcmeRecords, ZoneState, prune, or_empty, tokens_at, refresh_token, add_new, add,
  remove, write_back, advance_if,
}
use safexip.State.Tokens.{
  expiry_of, live_at, HasDistinctValues, expiry_of-refresh_token, refresh_token-HasDistinctValues,
  expiry_of-refresh_none, expiry_of-push, push-HasDistinctValues, expiry_of-retain_ne,
  retain-HasDistinctValues,
}
use safexip.State.Valid.{
  IsValid, expiry, tokens_at-HasDistinctValues, prune-IsValid, expiry-prune, expiry-insert,
  expiry-remove, insert-IsValid, remove_key-IsValid,
}

-- The partial map with one value written.
abbrev pub write : Text → Text → Option ℕ → (Text → Text → Option ℕ) → Text → Text → Option ℕ
write name value e z n v = if text_eq name n && text_eq value v then e else z n v

-- The partial map at a later time: what has expired is gone.
abbrev pub expire : ℕ → (Text → Text → Option ℕ) → Text → Text → Option ℕ
expire now z n v = live_at now (z n v)

refresh-ne-nil : (v : Text) (e : ℕ) (ts us : List Token) → refresh_token v e ts ≡ some us → us ≢ []
unfolding refresh_token
refresh-ne-nil v e [] us h = cc
refresh-ne-nil v e (t ∷ ts) us h = ground arith

append-ne-nil : (ts : List Token) (t : Token) → (ts ++ t ∷ []) ≢ []
append-ne-nil [] t = cc
append-ne-nil (u ∷ ts) t = cc

-- Writing an entry whose tokens spell one write is that write.
expiry-insert-write :
    (r : Records) (name value : Text) (ts : List Token) (e : Option ℕ) (n v : Text)
    → expiry_of v ts ≡ (if text_eq value v then e else expiry_of v (tokens_at name r))
    → expiry (Map.insert name ts r) n v ≡ write name value e (expiry r) n v
expiry-insert-write r name value ts e n v h =
    rw (expiry-insert r name ts n v) (unfold expiry in ground (arith, text_eq_iff name n))

expiry-remove-write :
    (r : Records) (name value : Text) (n v : Text)
    → none ≡ (if text_eq value v then none else expiry_of v (tokens_at name r))
    → expiry (Map.remove name r) n v ≡ write name value none (expiry r) n v
expiry-remove-write r name value n v h =
    rw (expiry-remove r name n v) (unfold expiry in ground (arith, text_eq_iff name n))

module _ (acme : AcmeRecords) (later : ℕ) (name value : Text) (changed : Bool) (s : ZoneState)
    (valid : IsValid s.records) (fresh : expiry_of value (tokens_at name s.records) ≡ none) where
  add_new-IsValid : IsValid (add_new acme later name value changed s).1.records
  unfolding add_new
  add_new-IsValid = ground (
    arith,
    insert-IsValid s.records name
        (tokens_at name s.records
          ++ record { value = value; expires_at = later + acme.lifetime } ∷ [])
        valid (append-ne-nil _ _)
        (push-HasDistinctValues value (later + acme.lifetime) (tokens_at name s.records) fresh
          (tokens_at-HasDistinctValues s.records valid name)),
  )

  expiry-add_new :
      (n v : Text)
      → expiry (add_new acme later name value changed s).1.records n v ≡ (
          if is_ok (add_new acme later name value changed s).0
          then write name value (some (later + acme.lifetime)) (expiry s.records) n v
          else expiry s.records n v)
  unfolding add_new
  expiry-add_new n v = ground (
    arith,
    expiry-insert-write s.records name value
        (tokens_at name s.records
          ++ record { value = value; expires_at = later + acme.lifetime } ∷ [])
        (some (later + acme.lifetime)) n v
        (expiry_of-push value v (later + acme.lifetime) (tokens_at name s.records) fresh),
  )

write-prune :
    (now : ℕ) (name value : Text) (s : ZoneState)
    → IsValid s.records
    → (e : Option ℕ) (n v : Text)
    → write name value e (expiry (prune now s.records).0) n v
      ≡ write name value e (expire now (expiry s.records)) n v
write-prune now name value s valid e n v = rw (expiry-prune now s.records n v valid)

module _ (acme : AcmeRecords) (now later : ℕ) (name value : Text) (s : ZoneState) where
  -- `add` where the token is there already, and where it is not.
  pub add_known :
      (ts : List Token)
      → refresh_token value (later + acme.lifetime) (tokens_at name (prune now s.records).0)
        ≡ some ts
      → add acme now later name value s ≡ (
        ok tt,
        record {
          records = Map.insert name ts (prune now s.records).0;
          serial = advance_if (prune now s.records).1 s.serial;
        },
      )
  unfolding add
  add_known ts e = rw (e, add)

  pub add_unknown :
      refresh_token value (later + acme.lifetime) (tokens_at name (prune now s.records).0) ≡ none
      → add acme now later name value s
        ≡ add_new acme later name value
            (prune now s.records).1
            (record { records = (prune now s.records).0; serial = s.serial })
  unfolding add
  add_unknown e = rw (e, add)

module _ (acme : AcmeRecords) (now later : ℕ) (name value : Text) (s : ZoneState)
    (valid : IsValid s.records) where
  -- `add` keeps the invariant, whether it succeeds or not.
  pub add-IsValid : IsValid (add acme now later name value s).1.records
  add-IsValid =
      let kept = prune-IsValid now s.records valid in
      let r = (prune now s.records).0 in
      elim (Option-cases (refresh_token value (later + acme.lifetime) (tokens_at name r))) [
        | inl e ↦ rw (add_unknown acme now later name value s e) (
            add_new-IsValid acme later name value (prune now s.records).1
              (record { records = r; serial = s.serial }) kept
              (expiry_of-refresh_none value (later + acme.lifetime) (tokens_at name r) e))
        | inr (ts, e) ↦ rw (add_known acme now later name value s ts e) (
            insert-IsValid r name ts kept (refresh-ne-nil value _ (tokens_at name r) ts e) (
              refresh_token-HasDistinctValues value _ (tokens_at name r) ts e
                (tokens_at-HasDistinctValues r kept name)))
      ]

  -- From valid records: `add` drops what has expired at `now` and, if it succeeds, lets the value
  -- at the name expire one lifetime after `later`; at every other name and value, and if it fails,
  -- what has not expired stays as it is.
  pub expiry-add :
      (n v : Text)
      → expiry (add acme now later name value s).1.records n v ≡ (
          if is_ok (add acme now later name value s).0
          then write name value (some (later + acme.lifetime)) (expire now (expiry s.records)) n v
          else expire now (expiry s.records) n v)
  expiry-add n v =
      let kept = prune-IsValid now s.records valid in
      let r = (prune now s.records).0 in
      elim (Option-cases (refresh_token value (later + acme.lifetime) (tokens_at name r))) [
        | inl e ↦
            rw (add_unknown acme now later name value s e, ← expiry-prune now s.records n v valid)
              (expiry-add_new acme later name value (prune now s.records).1
                (record { records = r; serial = s.serial }) kept
                (expiry_of-refresh_none value (later + acme.lifetime) (tokens_at name r) e) n v)
        | inr (ts, e) ↦ rw (add_known acme now later name value s ts e) (
            expiry-insert-write r name value ts (some (later + acme.lifetime)) n v
              (expiry_of-refresh_token value v (later + acme.lifetime) (tokens_at name r) ts e)
            ∙ write-prune now name value s valid (some (later + acme.lifetime)) n v)
      ]

write_back-IsValid :
    (r : Records) (name : Text) (ts : List Token)
    → IsValid r
    → HasDistinctValues ts
    → IsValid (write_back name ts r)
unfolding write_back
write_back-IsValid r name [] valid h = remove_key-IsValid r name valid
write_back-IsValid r name (t ∷ ts) valid h = insert-IsValid r name (t ∷ ts) valid (cc) h

expiry-write_back :
    (r : Records) (name value : Text) (ts : List Token) (n v : Text)
    → expiry_of v ts ≡ (if text_eq value v then none else expiry_of v (tokens_at name r))
    → expiry (write_back name ts r) n v ≡ write name value none (expiry r) n v
unfolding write_back expiry_of
expiry-write_back r name value [] n v h = expiry-remove-write r name value n v h
expiry-write_back r name value (t ∷ ts) n v h = expiry-insert-write r name value (t ∷ ts) none n v h

expiry_absent :
    (r : Records) (name value n v : Text)
    → Map.get name r ≡ none
    → expiry r n v ≡ write name value none (expiry r) n v
unfolding expiry expiry_of
expiry_absent r name value n v e = ground (arith, text_eq_iff name n)

module _ (now : ℕ) (name value : Text) (s : ZoneState) where
  -- `remove` where the name has no entry, and where it has one.
  pub remove_absent :
      Map.get name (prune now s.records).0 ≡ none
      → remove now name value s ≡ record {
        records = (prune now s.records).0;
        serial = advance_if (prune now s.records).1 s.serial;
      }
  unfolding remove
  remove_absent e = rw (e, remove)

  pub remove_present :
      (ts : List Token)
      → Map.get name (prune now s.records).0 ≡ some ts
      → remove now name value s ≡ (
          let kept = retain (λ (t : Token). not (text_eq t.value value)) ts in
          record {
            records = write_back name kept (prune now s.records).0;
            serial =
                advance_if ((prune now s.records).1 || not (length kept == length ts)) s.serial;
          })
  unfolding remove
  remove_present ts e = rw (e, remove)

module _ (now : ℕ) (name value : Text) (s : ZoneState) (valid : IsValid s.records) where
  pub remove-IsValid : IsValid (remove now name value s).records
  remove-IsValid =
      let r = (prune now s.records).0 in
      let kept = prune-IsValid now s.records valid in
      elim (Option-cases (Map.get name r)) [
        | inl e ↦ rw (remove_absent now name value s e) kept
        | inr (ts, e) ↦ rw (remove_present now name value s ts e) (
            write_back-IsValid r name _ kept
              (retain-HasDistinctValues _ ts ((kept.entry name ts e).1)))
      ]

  -- From valid records: `remove` drops what has expired at `now` and the value at the name, and
  -- leaves every other name and value as it is.
  pub expiry-remove_value :
      (n v : Text)
      → expiry (remove now name value s).records n v
        ≡ write name value none (expire now (expiry s.records)) n v
  expiry-remove_value n v =
      let r = (prune now s.records).0 in
      elim (Option-cases (Map.get name r)) [
        | inl e ↦
            rw (remove_absent now name value s e)
              (expiry_absent r name value n v e ∙ write-prune now name value s valid none n v)
        | inr (ts, e) ↦ rw (remove_present now name value s ts e) (
            expiry-write_back r name value _ n v (
              expiry_of-retain_ne value v ts
              ∙ ap (λ o. if text_eq value v then none else expiry_of v (or_empty o)) (sym e))
            ∙ write-prune now name value s valid none n v)
      ]
