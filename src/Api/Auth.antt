-- ===== src/Api/Auth.antt =====
-- src/api.rs: Basic authentication: who is let in.
use safexip.Prelude.{
  ℕ, true, false, Option, none, some, [], ◌∷◌, ◌++◌, ◌≡◌, ◌≢◌, ◌↔◌, refl, arith, Option-cases, inl,
  inr, All, ok,
}
use safexip.Text.{codes, to_lowercase}
use safexip.Text.Laws.{text_eq_iff}
use safexip.Config.{Config}
use safexip.Hickory.{Bytes}
use safexip.Api.{
  Codecs, split_once, skip_spaces, has_space, is_empty, check_password, check_basic_auth,
}
use safexip.Api.Utf8.{is_utf8}

pub split_once_sound :
    (d : ℕ) (s before after : Bytes)
    → split_once d s ≡ some (before, after)
    → (s ≡ before ++ d ∷ after) × All (λ c. c ≢ d) before
unfolding split_once
split_once_sound d [] before after e = cc
split_once_sound d (c ∷ s) [] after e = ground arith
split_once_sound d (c ∷ s) (b ∷ before) after e = ground (arith, split_once_sound d s before after)

pub split_once-append :
    (d : ℕ) (before after : Bytes)
    → All (λ c. c ≢ d) before
    → split_once d (before ++ d ∷ after) ≡ some (before, after)
unfolding split_once
split_once-append d [] after h = ground arith
split_once-append d (c ∷ before) after (hc, h) = ground (arith, split_once-append d before after h)

-- Documented: the constant-time comparison is equality of bytes.
abbrev pub IsExact : Codecs → Type 0
IsExact k = (a b : Bytes) → (k.ct_eq a b ≡ true) ↔ (a ≡ b)

-- A header value: a scheme that reads Basic in any case, one or more spaces, and text that holds no
-- space and decodes to UTF-8, a user name with no colon, a colon and the API key.
pub record IsCredential (k : Codecs) (config : Config) (raw : Bytes) : Type 0 where
  pub scheme : Bytes
  pub rest : Bytes
  pub decoded : Bytes
  pub user : Bytes
  pub parts : split_once b' ' raw ≡ some (scheme, rest)
  pub is_basic : to_lowercase scheme ≡ codes "basic"
  pub not_empty : is_empty (skip_spaces rest) ≡ false
  pub no_space : has_space (skip_spaces rest) ≡ false
  pub decodes : k.decode (skip_spaces rest) ≡ some decoded
  pub is_text : is_utf8 decoded ≡ true
  pub has_password : decoded ≡ user ++ b':' ∷ config.api_key
  pub user_lacks_colon : All (λ c. c ≢ b':') user

-- If the constant-time comparison is equality: every header value that has a scheme that reads
-- Basic in any case, one or more spaces, and text without a space that decodes to UTF-8, a user
-- name without a colon, a colon and the API key, is accepted.
pub check_basic_auth_complete :
    (k : Codecs) (config : Config) (raw : Bytes)
    → IsExact k
    → IsCredential k config raw
    → check_basic_auth k (some raw) config ≡ ok tt
unfolding check_basic_auth check_password
check_basic_auth_complete k config raw exact c = ground (
  arith,
  text_eq_iff (to_lowercase c.scheme) (codes "basic"),
  split_once-append b':' c.user config.api_key c.user_lacks_colon,
  exact config.api_key config.api_key,
)

-- If the constant-time comparison is equality: a header that is accepted is there, and it has a
-- scheme that reads Basic in any case, one or more spaces, and text without a space that decodes to
-- UTF-8, a user name without a colon, a colon and the API key.
pub check_basic_auth_sound :
    (k : Codecs) (config : Config) (header : Option Bytes)
    → IsExact k
    → check_basic_auth k header config ≡ ok tt
    → (raw : Bytes) × (header ≡ some raw) × IsCredential k config raw
unfolding check_basic_auth check_password
check_basic_auth_sound k config none exact e = cc
check_basic_auth_sound k config (some raw) exact e = elim (Option-cases (split_once b' ' raw)) [
  | inl x ↦ absurd (ground arith)
  | inr ((scheme, rest), x) ↦ elim (Option-cases (k.decode (skip_spaces rest))) [
    | inl y ↦ absurd (ground arith)
    | inr (decoded, y) ↦ elim (Option-cases (split_once b':' decoded)) [
      | inl z ↦ absurd (ground arith)
      | inr ((user, pass), z) ↦
          let (whole, no_colon) = split_once_sound b':' decoded user pass z in
          (
            raw,
            refl,
            record {
              scheme = scheme;
              rest = rest;
              decoded = decoded;
              user = user;
              parts = x;
              is_basic = ground (arith, text_eq_iff (to_lowercase scheme) (codes "basic"));
              not_empty = ground arith;
              no_space = ground arith;
              decodes = y;
              is_text = ground arith;
              has_password = ground (arith, whole, exact pass config.api_key);
              user_lacks_colon = no_colon;
            },
          )
    ]
  ]
]
