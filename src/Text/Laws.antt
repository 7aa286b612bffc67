-- ===== src/Text/Laws.antt =====
-- Laws of the text operations.
use safexip.Prelude.{
  ℕ, true, some, [], ◌∷◌, ◌++◌, ◌≡◌, ◌≢◌, refl, ap, ◌↔◌, inl, inr, arith, length, length-append,
  ◌==◌, Bool-cases, map-append,
}
use safexip.Text.{
  Text, text_eq, lower, to_lowercase, strip_suffix, ends_with, trim_end, cons_trimmed,
}

pub eq_of_text_eq : (s t : Text) → text_eq s t ≡ true → s ≡ t
unfolding text_eq
eq_of_text_eq [] [] h = refl
eq_of_text_eq [] (d ∷ t) h = cc
eq_of_text_eq (c ∷ s) [] h = cc
eq_of_text_eq (c ∷ s) (d ∷ t) h = ground (arith, eq_of_text_eq s t)

pub text_eq_refl : (s : Text) → text_eq s s ≡ true
unfolding text_eq
text_eq_refl [] = refl
text_eq_refl (c ∷ s) = ground (arith, text_eq_refl s)

pub text_eq_iff : (s t : Text) → (text_eq s t ≡ true) ↔ (s ≡ t)
text_eq_iff s t = (eq_of_text_eq s t, λ e. rw e (text_eq_refl t))

pub lower_idem : (c : ℕ) → lower (lower c) ≡ lower c
unfolding lower
lower_idem c = ground arith

pub to_lowercase_idem : (s : Text) → to_lowercase (to_lowercase s) ≡ to_lowercase s
unfolding to_lowercase
to_lowercase_idem [] = refl
to_lowercase_idem (c ∷ s) = cc (lower_idem c, to_lowercase_idem s)

pub to_lowercase-append : (s t : Text) → to_lowercase (s ++ t) ≡ to_lowercase s ++ to_lowercase t
unfolding to_lowercase
to_lowercase-append s t = map-append lower s t

pub strip_suffix_sound : (s suffix p : Text) → strip_suffix s suffix ≡ some p → s ≡ p ++ suffix
unfolding strip_suffix
strip_suffix_sound [] suffix p h = ground (arith, text_eq_iff [] suffix)
strip_suffix_sound (c ∷ s) suffix [] h = ground (arith, text_eq_iff (c ∷ s) suffix)
strip_suffix_sound (c ∷ s) suffix (d ∷ p) h = ground (arith, strip_suffix_sound s suffix p)

append-ne : (c : ℕ) (p suffix : Text) → c ∷ (p ++ suffix) ≢ suffix
append-ne c p suffix e = omega (arith, ap length e, length-append p suffix)

-- A suffix that is there is found, and what stands before it is returned.
pub strip_suffix-append : (p suffix : Text) → strip_suffix (p ++ suffix) suffix ≡ some p
unfolding strip_suffix
strip_suffix-append [] [] = refl
strip_suffix-append [] (c ∷ s) = rw (text_eq_refl (c ∷ s))
strip_suffix-append (c ∷ p) suffix = ground (
  arith,
  strip_suffix-append p suffix,
  append-ne c p suffix,
  text_eq_iff (c ∷ (p ++ suffix)) suffix,
)

pub ends_with_iff :
    (s suffix : Text)
    → (ends_with s suffix ≡ true) ↔ ((p : Text) × (strip_suffix s suffix ≡ some p))
unfolding ends_with
ends_with_iff s suffix = ground arith

-- A text ends with a suffix exactly when it is some text and then the suffix.
pub ends_with-append : (p suffix : Text) → ends_with (p ++ suffix) suffix ≡ true
unfolding ends_with
ends_with-append p suffix = rw (strip_suffix-append p suffix)

pub ends_with_sound : (s suffix : Text) → ends_with s suffix ≡ true → (p : Text) × (s ≡ p ++ suffix)
ends_with_sound s suffix h =
    let (p, e) = (ends_with_iff s suffix).0 h in (p, strip_suffix_sound s suffix p e)

-- The last byte of a text is not `d`.
abbrev pub LacksEnd : ℕ → Text → Type 0
LacksEnd d [] = Unit
LacksEnd d (c ∷ []) = c ≢ d
LacksEnd d (c ∷ b ∷ s) = LacksEnd d (b ∷ s)

cons_trimmed-LacksEnd : (d c : ℕ) (s : Text) → LacksEnd d s → LacksEnd d (cons_trimmed d c s)
unfolding cons_trimmed
cons_trimmed-LacksEnd d c [] h = elim (Bool-cases (c == d)) [
  | inl e ↦ rw e tt
  | inr e ↦ rw e (ground arith)
]
cons_trimmed-LacksEnd d c (b ∷ s) h = h

pub trim_end-LacksEnd : (d : ℕ) (s : Text) → LacksEnd d (trim_end d s)
unfolding trim_end
trim_end-LacksEnd d [] = tt
trim_end-LacksEnd d (c ∷ s) = cons_trimmed-LacksEnd d c (trim_end d s) (trim_end-LacksEnd d s)

pub trim_end_self : (d : ℕ) (s : Text) → LacksEnd d s → trim_end d s ≡ s
unfolding trim_end
trim_end_self d [] h = refl
trim_end_self d (c ∷ []) h = ground arith
trim_end_self d (c ∷ b ∷ s) h = rw (trim_end_self d (b ∷ s) h)

pub trim_end_idem : (d : ℕ) (s : Text) → trim_end d (trim_end d s) ≡ trim_end d s
trim_end_idem d s = trim_end_self d (trim_end d s) (trim_end-LacksEnd d s)
