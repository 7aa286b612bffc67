-- ===== src/Tests/Gate.antt =====
-- Authorization and admission at small inputs, with numbers in place of floats.
use safexip.Prelude.{ℕ, ◌+◌, ◌-◌, ◌*◌, ◌/◌, ◌^◌, min, some, ◌≡◌, refl, arith, ok, err, ltb}
use safexip.Text.{codes, text_eq, to_lowercase}
use safexip.Text.Laws.{text_eq_iff}
use safexip.Hickory.{Bytes}
use safexip.Api.{
  Float, Codecs, check_basic_auth, check_password, split_once, skip_spaces, has_space,
}
use safexip.Api.Utf8.{is_utf8}
use safexip.Api.Auth.{IsExact, IsCredential, check_basic_auth_complete, check_basic_auth_sound}
use safexip.Api.Gate.{HasOrder}
use safexip.Tests.Fixtures.{small_config}

-- Whole numbers, with times in seconds.
abbrev pub numbers : Float
numbers = record {
  F64 = ℕ;
  of_usize = λ n. n;
  as_secs_f64 = λ n. n / 10 ^ 9;
  add = λ a b. a + b;
  sub = λ a b. a - b;
  mul = λ a b. a * b;
  minimum = λ a b. min a b;
  lt = λ a b. ltb a b;
}

numbers-HasOrder : HasOrder numbers
numbers-HasOrder = record {
  irreflexive = λ a. ground arith;
  minimum_le_right = λ a b. ground arith;
  sub_one_le = λ a b h. ground arith;
}

-- Nothing is encoded, and the comparison is equality.
abbrev pub plain : Codecs
plain = record { decode = λ b. some b; ct_eq = text_eq }

pub plain-IsExact : IsExact plain
plain-IsExact a b = text_eq_iff a b

abbrev pub header : Bytes
header = codes "bAsic u:0123456789abcdef0123456789abcdef"

authorized : check_basic_auth plain (some header) small_config ≡ ok tt
unfolding check_basic_auth check_password split_once skip_spaces has_space is_utf8 to_lowercase
    text_eq
authorized = refl

wrong_key :
    check_basic_auth plain (some (codes "Basic u:0")) small_config ≡ err "invalid credentials"
unfolding check_basic_auth check_password split_once skip_spaces has_space is_utf8 to_lowercase
    text_eq
wrong_key = refl

check_basic_auth_sound_example :
    (raw : Bytes) × (some header ≡ some raw) × IsCredential plain small_config raw
check_basic_auth_sound_example =
    check_basic_auth_sound plain small_config (some header) plain-IsExact authorized

pub credential : IsCredential plain small_config header
unfolding split_once to_lowercase skip_spaces has_space is_utf8
credential = record {
  scheme = codes "bAsic";
  rest = codes "u:0123456789abcdef0123456789abcdef";
  decoded = codes "u:0123456789abcdef0123456789abcdef";
  user = codes "u";
  parts = refl;
  is_basic = refl;
  not_empty = refl;
  no_space = refl;
  decodes = refl;
  is_text = refl;
  has_password = refl;
  user_lacks_colon = (λ e. omega (arith, e), tt);
}

check_basic_auth_complete_example : check_basic_auth plain (some header) small_config ≡ ok tt
check_basic_auth_complete_example =
    check_basic_auth_complete plain small_config header plain-IsExact credential
