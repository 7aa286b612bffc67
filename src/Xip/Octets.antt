-- ===== src/Xip/Octets.antt =====
-- src/xip.rs: octets, in decimal.
use safexip.Prelude.{ℕ, ◌+◌, ◌/◌, ◌%◌, ◌≤◌, some, [], ◌∷◌, ◌≡◌, arith, ltb, if◌then◌else◌, All, ◌≢◌}
use safexip.Text.{Text, to_lowercase}
use safexip.Xip.{parse_octet}

-- An octet in decimal, with no leading zero.
unfoldable pub decimal : ℕ → Text
decimal n =
    if ltb n 10
    then (b'0' + n) ∷ []
    else if ltb n 100
    then (b'0' + n / 10) ∷ (b'0' + n % 10) ∷ []
    else (b'0' + n / 100) ∷ (b'0' + n / 10 % 10) ∷ (b'0' + n % 10) ∷ []

pub parse_octet-decimal : (n : ℕ) → n ≤ 255 → parse_octet (decimal n) ≡ some n
unfolding parse_octet decimal
parse_octet-decimal n h = ground arith

pub decimal-Lacks : (n : ℕ) → n ≤ 255 → All (λ c. c ≢ b'-') (decimal n)
unfolding decimal
decimal-Lacks n h = ground arith

pub to_lowercase-decimal : (n : ℕ) → n ≤ 255 → to_lowercase (decimal n) ≡ decimal n
unfolding to_lowercase decimal
to_lowercase-decimal n h = ground arith

-- What is read as an octet is one.
pub parse_octet-le : (s : Text) (n : ℕ) → parse_octet s ≡ some n → n ≤ 255
unfolding parse_octet
parse_octet-le s n h = ground arith
