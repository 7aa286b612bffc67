-- ===== src/State/Valid.antt =====
-- The records as a partial map from names and values to expiry times, and the invariant that makes
-- it one: each name has one entry, which is not empty and holds no value twice.
use safexip.Prelude.{
  ℕ, Option, none, some, List, [], ◌∷◌, ◌≡◌, ◌≢◌, refl, sym, ap, ◌∙◌, arith, if◌then◌else◌, retain,
}
use safexip.Text.{Text, text_eq}
use safexip.Map
use safexip.Map.{HasDistinctKeys}
use safexip.State.{Token, Records, is_live, prune, prune_tokens, if_any, or_empty, tokens_at}
use safexip.State.Tokens.{
  expiry_of, live_at, HasDistinctValues, retain-HasDistinctValues, expiry_of-retain_live,
}

pub record IsValid (r : Records) : Type 0 where
  pub distinct_keys : HasDistinctKeys r
  pub entry :
      (name : Text) (ts : List Token) → Map.get name r ≡ some ts → (ts ≢ []) × HasDistinctValues ts

-- The abstract state: when the value at the name expires, `none` where there is none.
unfoldable pub expiry : Records → Text → Text → Option ℕ
expiry r name value = expiry_of value (tokens_at name r)

or_empty-HasDistinctValues :
    (o : Option (List Token))
    → ((ts : List Token) → o ≡ some ts → HasDistinctValues ts)
    → HasDistinctValues (or_empty o)
or_empty-HasDistinctValues none h = tt
or_empty-HasDistinctValues (some ts) h = h ts refl

pub tokens_at-HasDistinctValues :
    (r : Records) → IsValid r → (name : Text) → HasDistinctValues (tokens_at name r)
tokens_at-HasDistinctValues r h name =
    or_empty-HasDistinctValues (Map.get name r) (λ ts e. (h.entry name ts e).1)

pub or_empty-if_any : (ts : List Token) → or_empty (if_any ts) ≡ ts
or_empty-if_any [] = refl
or_empty-if_any (t ∷ ts) = refl

or_empty-prune_tokens :
    (now : ℕ) (o : Option (List Token))
    → or_empty (Map.and_then o (prune_tokens now)) ≡ retain (is_live now) (or_empty o)
or_empty-prune_tokens now none = refl
or_empty-prune_tokens now (some ts) = or_empty-if_any (retain (is_live now) ts)

pub tokens_at-prune :
    (now : ℕ) (r : Records) (name : Text)
    → IsValid r
    → tokens_at name (prune now r).0 ≡ retain (is_live now) (tokens_at name r)
unfolding prune
tokens_at-prune now r name h =
    ap or_empty (Map.get-retain_entries (prune_tokens now) name r h.distinct_keys)
    ∙ or_empty-prune_tokens now (Map.get name r)

if_any_entry :
    (ts us : List Token)
    → if_any ts ≡ some us
    → HasDistinctValues ts
    → (us ≢ []) × HasDistinctValues us
if_any_entry [] us e h = cc
if_any_entry (t ∷ ts) [] e h = ground arith
if_any_entry (t ∷ ts) (u ∷ us) e h = ground arith

prune_tokens-entry :
    (now : ℕ) (o : Option (List Token)) (us : List Token)
    → Map.and_then o (prune_tokens now) ≡ some us
    → ((ts : List Token) → o ≡ some ts → HasDistinctValues ts)
    → (us ≢ []) × HasDistinctValues us
prune_tokens-entry now none us e h = cc
prune_tokens-entry now (some ts) us e h =
    if_any_entry (retain (is_live now) ts) us e
      (retain-HasDistinctValues (is_live now) ts (h ts refl))

pub prune-IsValid : (now : ℕ) (r : Records) → IsValid r → IsValid (prune now r).0
unfolding prune
prune-IsValid now r h = record {
  distinct_keys = Map.retain_entries-HasDistinctKeys (prune_tokens now) r h.distinct_keys;
  entry = λ name ts e.
      prune_tokens-entry now (Map.get name r) ts
        (sym (Map.get-retain_entries (prune_tokens now) name r h.distinct_keys) ∙ e)
        (λ us found. (h.entry name us found).1);
}

-- What `prune` leaves is what has not expired.
pub expiry-prune :
    (now : ℕ) (r : Records) (name value : Text)
    → IsValid r
    → expiry (prune now r).0 name value ≡ live_at now (expiry r name value)
unfolding expiry
expiry-prune now r name value h =
    rw (tokens_at-prune now r name h)
      (expiry_of-retain_live now value (tokens_at name r) (tokens_at-HasDistinctValues r h name))

pub expiry-insert :
    (r : Records) (name : Text) (ts : List Token) (n v : Text)
    → expiry (Map.insert name ts r) n v ≡ (if text_eq name n then expiry_of v ts else expiry r n v)
unfolding expiry
expiry-insert r name ts n v = ground (arith, Map.get-insert name n ts r)

pub expiry-remove :
    (r : Records) (name n v : Text)
    → expiry (Map.remove name r) n v ≡ (if text_eq name n then none else expiry r n v)
unfolding expiry expiry_of
expiry-remove r name n v = ground (arith, Map.get-remove name n r)

pub insert-IsValid :
    (r : Records) (name : Text) (ts : List Token)
    → IsValid r
    → ts ≢ []
    → HasDistinctValues ts
    → IsValid (Map.insert name ts r)
insert-IsValid r name ts h some_token distinct = record {
  distinct_keys = Map.insert-HasDistinctKeys name ts r h.distinct_keys;
  entry = λ n us e. ground (arith, Map.get-insert name n ts r, h.entry n us);
}

pub remove_key-IsValid : (r : Records) (name : Text) → IsValid r → IsValid (Map.remove name r)
remove_key-IsValid r name h = record {
  distinct_keys = Map.remove-HasDistinctKeys name r h.distinct_keys;
  entry = λ n us e. ground (arith, Map.get-remove name n r, h.entry n us);
}
