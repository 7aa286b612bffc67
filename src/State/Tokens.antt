-- ===== src/State/Tokens.antt =====
-- One entry of the map: a list of tokens as a partial map from values to expiry times.
use safexip.Prelude.{
  ℕ, Bool, not, Option, none, some, List, [], ◌∷◌, ◌++◌, ◌≡◌, refl, arith, ltb, if◌then◌else◌,
  retain, map,
}
use safexip.Text.{Text, text_eq}
use safexip.Text.Laws.{text_eq_iff}
use safexip.State.{Token, is_live, refresh_token}

-- When the token with this value expires.
unfoldable pub expiry_of : Text → List Token → Option ℕ
expiry_of value [] = none
expiry_of value (t ∷ ts) = if text_eq t.value value then some t.expires_at else expiry_of value ts

-- What is left of an expiry at time `now`.
abbrev pub live_at : ℕ → Option ℕ → Option ℕ
live_at now none = none
live_at now (some e) = if ltb now e then some e else none

abbrev pub HasDistinctValues : List Token → Type 0
HasDistinctValues [] = Unit
HasDistinctValues (t ∷ ts) = (expiry_of t.value ts ≡ none) × HasDistinctValues ts

expiry_of-retain-none :
    (p : Token → Bool) (v : Text) (ts : List Token)
    → expiry_of v ts ≡ none
    → expiry_of v (retain p ts) ≡ none
unfolding expiry_of
expiry_of-retain-none p v [] h = refl
expiry_of-retain-none p v (t ∷ ts) h = ground (arith, expiry_of-retain-none p v ts)

pub retain-HasDistinctValues :
    (p : Token → Bool) (ts : List Token) → HasDistinctValues ts → HasDistinctValues (retain p ts)
retain-HasDistinctValues p [] h = tt
retain-HasDistinctValues p (t ∷ ts) (fresh, h) =
    ground (arith, retain-HasDistinctValues p ts h, expiry_of-retain-none p t.value ts fresh)

pub expiry_of-retain_live :
    (now : ℕ) (v : Text) (ts : List Token)
    → HasDistinctValues ts
    → expiry_of v (retain (is_live now) ts) ≡ live_at now (expiry_of v ts)
unfolding expiry_of
expiry_of-retain_live now v [] h = refl
expiry_of-retain_live now v (t ∷ ts) (fresh, h) = ground (
  arith,
  expiry_of-retain_live now v ts h,
  text_eq_iff t.value v,
  expiry_of-retain-none (is_live now) v ts,
)

pub expiry_of-retain_ne :
    (v w : Text) (ts : List Token)
    → expiry_of w (retain (λ (t : Token). not (text_eq t.value v)) ts)
      ≡ (if text_eq v w then none else expiry_of w ts)
unfolding expiry_of
expiry_of-retain_ne v w [] = ground arith
expiry_of-retain_ne v w (t ∷ ts) = ground (
  arith,
  expiry_of-retain_ne v w ts,
  text_eq_iff t.value v,
  text_eq_iff t.value w,
  text_eq_iff v w,
)

pub expiry_of-refresh_token :
    (v w : Text) (e : ℕ) (ts ts' : List Token)
    → refresh_token v e ts ≡ some ts'
    → expiry_of w ts' ≡ (if text_eq v w then some e else expiry_of w ts)
unfolding expiry_of refresh_token
expiry_of-refresh_token v w e [] ts' h = cc
expiry_of-refresh_token v w e (t ∷ ts) [] h = ground arith
expiry_of-refresh_token v w e (t ∷ ts) (u ∷ us) h = ground (
  arith,
  expiry_of-refresh_token v w e ts us,
  text_eq_iff t.value v,
  text_eq_iff t.value w,
  text_eq_iff v w,
)

pub refresh_token-HasDistinctValues :
    (v : Text) (e : ℕ) (ts ts' : List Token)
    → refresh_token v e ts ≡ some ts'
    → HasDistinctValues ts
    → HasDistinctValues ts'
unfolding refresh_token expiry_of
refresh_token-HasDistinctValues v e [] ts' h d = cc
refresh_token-HasDistinctValues v e (t ∷ ts) [] h d = tt
refresh_token-HasDistinctValues v e (t ∷ ts) (u ∷ us) h (fresh, d) = ground (
  arith,
  refresh_token-HasDistinctValues v e ts us,
  expiry_of-refresh_token v t.value e ts us,
  text_eq_iff t.value v,
  text_eq_iff v t.value,
)

-- A token that cannot be refreshed is not there.
pub expiry_of-refresh_none :
    (v : Text) (e : ℕ) (ts : List Token) → refresh_token v e ts ≡ none → expiry_of v ts ≡ none
unfolding refresh_token expiry_of
expiry_of-refresh_none v e [] h = refl
expiry_of-refresh_none v e (t ∷ ts) h = ground (arith, expiry_of-refresh_none v e ts)

-- A token refreshed keeps the values and their order.
pub values-refresh_token :
    (v : Text) (e : ℕ) (ts ts' : List Token)
    → refresh_token v e ts ≡ some ts'
    → map (λ (t : Token). t.value) ts' ≡ map (λ (t : Token). t.value) ts
unfolding refresh_token
values-refresh_token v e [] ts' h = cc
values-refresh_token v e (t ∷ ts) [] h = ground arith
values-refresh_token v e (t ∷ ts) (u ∷ us) h = ground (arith, values-refresh_token v e ts us)

pub expiry_of-push :
    (v w : Text) (e : ℕ) (ts : List Token)
    → expiry_of v ts ≡ none
    → expiry_of w (ts ++ record { value = v; expires_at = e } ∷ [])
      ≡ (if text_eq v w then some e else expiry_of w ts)
unfolding expiry_of
expiry_of-push v w e [] h = refl
expiry_of-push v w e (t ∷ ts) h =
    ground (
      arith,
      expiry_of-push v w e ts,
      text_eq_iff t.value v,
      text_eq_iff t.value w,
      text_eq_iff v w,
    )

pub push-HasDistinctValues :
    (v : Text) (e : ℕ) (ts : List Token)
    → expiry_of v ts ≡ none
    → HasDistinctValues ts
    → HasDistinctValues (ts ++ record { value = v; expires_at = e } ∷ [])
unfolding expiry_of
push-HasDistinctValues v e [] h d = (refl, tt)
push-HasDistinctValues v e (t ∷ ts) h (fresh, d) = ground (
  arith,
  push-HasDistinctValues v e ts,
  expiry_of-push v t.value e ts,
  text_eq_iff t.value v,
  text_eq_iff v t.value,
)
