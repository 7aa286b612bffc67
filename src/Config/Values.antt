-- ===== src/Config/Values.antt =====
-- The value parsers of src/config.rs: `parse_dns_name`, `parse_api_key`, `parse_max_tokens`.
use safexip.Prelude.{
  ℕ, ◌-◌, ◌^◌, ◌≤◌, ◌<◌, true, ◌||◌, none, some, [], ◌∷◌, ◌≡◌, ◌≢◌, ap, ◌∙◌, arith, if◌then◌else◌,
  length, ltb, ◌==◌, Result, ok, err, is_ok,
}
use safexip.Text.{Text, codes, text_eq, to_lowercase, lower, trim_end, parse_unsigned}
use safexip.Text.Laws.{text_eq_iff, to_lowercase_idem, LacksEnd, trim_end-LacksEnd, trim_end_self}
use safexip.Hickory.{Hickory}

abbrev pub min_api_key_len : ℕ
min_api_key_len = 32

abbrev pub usize_max : ℕ
usize_max = 2 ^ 64 - 1

pub data ValueError (E : Type 0) : Type 0 where
  empty_or_root api_key_too_short invalid_token_limit token_limit_zero : ValueError E
  invalid_dns_name : E → ValueError E

unfoldable pub parse_api_key : {E : Type 0} → Text → Result (ValueError E) Text
parse_api_key raw = if ltb (length raw) min_api_key_len then err api_key_too_short else ok raw

unfoldable pub parse_max_tokens : {E : Type 0} → Text → Result (ValueError E) ℕ
parse_max_tokens raw = elim (parse_unsigned usize_max raw) [
  | none ↦ err invalid_token_limit
  | some value ↦ if value == 0 then err token_limit_zero else ok value
]

module _ (h : Hickory) where
  abbrev normalized : Text → Text
  normalized raw = to_lowercase (trim_end b'.' raw)

  unfoldable pub parse_dns_name : Text → Result (ValueError h.NameError) Text
  parse_dns_name raw =
      if text_eq (normalized raw) [] || text_eq (normalized raw) (codes ".")
      then err empty_or_root
      else elim (h.from_ascii (normalized raw)) [
        | err error ↦ err (invalid_dns_name error)
        | ok name ↦ ok (normalized raw)
      ]

lower-ne-dot : (c : ℕ) → c ≢ b'.' → lower c ≢ b'.'
unfolding lower
lower-ne-dot c h = ground arith

to_lowercase-LacksEnd : (s : Text) → LacksEnd b'.' s → LacksEnd b'.' (to_lowercase s)
unfolding to_lowercase
to_lowercase-LacksEnd [] h = tt
to_lowercase-LacksEnd (c ∷ []) h = lower-ne-dot c h
to_lowercase-LacksEnd (c ∷ b ∷ s) h = to_lowercase-LacksEnd (b ∷ s) h

-- A name in the form that the configuration keeps: not empty, lower case, no dot at its end, and
-- accepted as a DNS name.
pub record IsNormalized (h : Hickory) (name : Text) : Type 0 where
  pub not_empty : name ≢ []
  pub lowercase : to_lowercase name ≡ name
  pub no_final_dot : LacksEnd b'.' name
  pub dns_name : is_ok (h.from_ascii name) ≡ true

normalized_idem : (h : Hickory) (raw : Text) → normalized h (normalized h raw) ≡ normalized h raw
normalized_idem h raw =
    ap to_lowercase (
      trim_end_self b'.' (to_lowercase (trim_end b'.' raw))
        (to_lowercase-LacksEnd (trim_end b'.' raw) (trim_end-LacksEnd b'.' raw)))
    ∙ to_lowercase_idem (trim_end b'.' raw)

-- A DNS name that is accepted is the lower case of the input without its final dots; it is not
-- empty, has no upper case and no final dot, parses, and is accepted again as it is.
pub parse_dns_name-IsNormalized :
    (h : Hickory) (raw name : Text)
    → parse_dns_name h raw ≡ ok name
    → IsNormalized h name
      × (name ≡ to_lowercase (trim_end b'.' raw))
      × (parse_dns_name h name ≡ ok name)
unfolding parse_dns_name
parse_dns_name-IsNormalized h raw name e =
    let same : (name ≡ normalized h raw) = ground arith in
    (
      rw same (record {
        not_empty = ground (arith, text_eq_iff (normalized h raw) []);
        lowercase = to_lowercase_idem (trim_end b'.' raw);
        no_final_dot = to_lowercase-LacksEnd (trim_end b'.' raw) (trim_end-LacksEnd b'.' raw);
        dns_name = ground arith;
      }),
      same,
      let again = ap (normalized h) same ∙ normalized_idem h raw in ground (arith, again),
    )

-- An accepted API key is the input, of at least 32 bytes; an accepted token limit is from 1 to the
-- largest `usize`.
pub parse_limits :
    {E : Type 0} (raw key : Text) (limit : ℕ)
    → (parse_api_key {E = E} raw ≡ ok key → (key ≡ raw) × (min_api_key_len ≤ length key))
      × (parse_max_tokens {E = E} raw ≡ ok limit
          → (0 < limit) × (parse_unsigned usize_max raw ≡ some limit))
unfolding parse_api_key parse_max_tokens
parse_limits raw key limit = (λ e. (ground arith, ground arith), λ e. (ground arith, ground arith))
