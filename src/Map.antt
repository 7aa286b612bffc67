-- ===== src/Map.antt =====
-- `HashMap<String, V>` as an association list: the operations of the standard library that
-- state.rs calls. The list stands in the order in which the map is iterated over.
use safexip.Prelude.{
  Option, none, some, List, [], ◌∷◌, ◌≡◌, refl, arith, if◌then◌else◌, Bool-cases, inl, inr,
}
use safexip.Text.{Text, text_eq}
use safexip.Text.Laws.{text_eq_iff}

abbrev pub Map {ℓ} : Type ℓ → Type ℓ
Map V = List (Text × V)

module _ {ℓ} {V : Type ℓ} where
  unfoldable pub get : Text → Map V → Option V
  get k [] = none
  get k ((j, v) ∷ m) = if text_eq j k then some v else get k m

  -- `*map.entry(k).or_default() = v`, and a write through `get_mut`.
  unfoldable pub insert : Text → V → Map V → Map V
  insert k v [] = (k, v) ∷ []
  insert k v ((j, w) ∷ m) = if text_eq j k then (j, v) ∷ m else (j, w) ∷ insert k v m

  unfoldable pub remove : Text → Map V → Map V
  remove k [] = []
  remove k ((j, v) ∷ m) = let rest = remove k m in if text_eq j k then rest else (j, v) ∷ rest

  keep_entry : Text → Option V → Map V → Map V
  keep_entry k none m = m
  keep_entry k (some v) m = (k, v) ∷ m

  -- `map.retain(f)` for an `f` that changes the value and says whether to keep it (`some`).
  unfoldable pub retain_entries : (V → Option V) → Map V → Map V
  unfolding keep_entry
  retain_entries f [] = []
  retain_entries f ((k, v) ∷ m) = keep_entry k (f v) (retain_entries f m)

  -- Each key has one entry.
  abbrev pub HasDistinctKeys : Map V → Type ℓ
  HasDistinctKeys [] = Unit
  HasDistinctKeys ((k, v) ∷ m) = (get k m ≡ none) × HasDistinctKeys m

  pub get-insert :
      (k j : Text) (v : V) (m : Map V)
      → get j (insert k v m) ≡ (if text_eq k j then some v else get j m)
  unfolding get insert
  get-insert k j v [] = refl
  get-insert k j v ((i, w) ∷ m) =
      ground (arith, text_eq_iff k j, text_eq_iff i k, text_eq_iff i j, get-insert k j v m)

  pub get-remove :
      (k j : Text) (m : Map V) → get j (remove k m) ≡ (if text_eq k j then none else get j m)
  unfolding get remove
  get-remove k j [] = ground arith
  get-remove k j ((i, w) ∷ m) =
      ground (arith, text_eq_iff k j, text_eq_iff i k, text_eq_iff i j, get-remove k j m)

  abbrev pub and_then : Option V → (V → Option V) → Option V
  and_then none f = none
  and_then (some v) f = f v

  pub get-retain_entries :
      (f : V → Option V) (k : Text) (m : Map V)
      → HasDistinctKeys m
      → get k (retain_entries f m) ≡ and_then (get k m) f
  unfolding get retain_entries
  get-retain_entries f k [] h = refl
  get-retain_entries f k ((j, v) ∷ m) (fresh, h) =
      ground (arith, get-retain_entries f k m h, text_eq_iff j k)

  pub insert-HasDistinctKeys :
      (k : Text) (v : V) (m : Map V) → HasDistinctKeys m → HasDistinctKeys (insert k v m)
  unfolding insert get
  insert-HasDistinctKeys k v [] h = (refl, tt)
  insert-HasDistinctKeys k v ((j, w) ∷ m) (fresh, h) = elim (Bool-cases (text_eq j k)) [
    | inl e ↦ rw e (fresh, h)
    | inr e ↦ rw e (
      ground (arith, get-insert k j v m, text_eq_iff k j, text_eq_iff j k),
      insert-HasDistinctKeys k v m h,
    )
  ]

  pub remove-HasDistinctKeys :
      (k : Text) (m : Map V) → HasDistinctKeys m → HasDistinctKeys (remove k m)
  unfolding remove
  remove-HasDistinctKeys k [] h = tt
  remove-HasDistinctKeys k ((j, w) ∷ m) (fresh, h) =
      ground (arith, remove-HasDistinctKeys k m h, get-remove k j m)

  pub retain_entries-HasDistinctKeys :
      (f : V → Option V) (m : Map V) → HasDistinctKeys m → HasDistinctKeys (retain_entries f m)
  unfolding retain_entries
  retain_entries-HasDistinctKeys f [] h = tt
  retain_entries-HasDistinctKeys f ((j, w) ∷ m) (fresh, h) =
      ground (arith, retain_entries-HasDistinctKeys f m h, get-retain_entries f j m h)
