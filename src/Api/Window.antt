-- ===== src/Api/Window.antt =====
-- src/api.rs: what the token bucket lets through in a span of time, if its numbers are exact. The
-- numbers of this file count billionths, so a nanosecond is 1, and whole rates lose nothing.
use safexip.Prelude.{
  ℕ, ◌+◌, ◌-◌, ◌*◌, ◌/◌, ◌^◌, ◌≤◌, min, Bool, true, List, [], ◌∷◌, ◌≡◌, sym, arith, ltb,
  if◌then◌else◌,
}
use mathlib.Core.Path.{subst}
use safexip.Api.{Float, TokenBucket, check_rate, refill}
use safexip.Api.Gate.{check_all}

abbrev pub billion : ℕ
billion = 10 ^ 9

abbrev pub exact : Float
exact = record {
  F64 = ℕ;
  of_usize = λ n. n * billion;
  as_secs_f64 = λ nanoseconds. nanoseconds;
  add = λ a b. a + b;
  sub = λ a b. a - b;
  mul = λ a b. a * b / billion;
  minimum = λ a b. min a b;
  lt = λ a b. ltb a b;
}

unfoldable pub count_true : List Bool → ℕ
count_true [] = 0
count_true (b ∷ bs) = (if b then 1 else 0) + count_true bs

-- The times do not go back, and lie between the two ends.
abbrev pub Between : ℕ → List ℕ → ℕ → Type 0
Between first [] last = first ≤ last
Between first (t ∷ ts) last = (first ≤ t) × Between t ts last

Between-le : (first : ℕ) (times : List ℕ) (last : ℕ) → Between first times last → first ≤ last
Between-le first [] last h = h
Between-le first (t ∷ ts) last (le, h) = omega (arith, le, Between-le t ts last h)

exact_mul : (elapsed rate : ℕ) → elapsed * (rate * billion) / billion ≡ rate * elapsed
exact_mul elapsed rate = omega arith

-- `REQUEST_RATE_PER_SECOND`
abbrev pub request_rate : ℕ
request_rate = 20

module _ (now : ℕ) (b : TokenBucket ℕ) (rated : b.rate_per_second ≡ request_rate * billion) where
  check_rate-exact :
      ((if (check_rate exact now b).0 then 1 else 0) * billion + (check_rate exact now b).1.tokens
        ≤ b.burst)
      × ((if (check_rate exact now b).0 then 1 else 0) * billion + (check_rate exact now b).1.tokens
          ≤ b.tokens + request_rate * (now - b.last_refill))
      × ((check_rate exact now b).1.last_refill ≡ now)
      × ((check_rate exact now b).1.burst ≡ b.burst)
      × ((check_rate exact now b).1.rate_per_second ≡ request_rate * billion)
  unfolding check_rate refill
  check_rate-exact = ground (arith, exact_mul (now - b.last_refill) request_rate)

check_all-exact :
    (times : List ℕ) (last : ℕ) (b : TokenBucket ℕ)
    → b.rate_per_second ≡ request_rate * billion
    → Between b.last_refill times last
    → count_true (check_all exact times b).0 * billion
      ≤ b.tokens + request_rate * (last - b.last_refill)
unfolding check_all count_true
check_all-exact [] last b rated between = omega arith
check_all-exact (now ∷ times) last b rated (le, between) =
    let (capped, spent, time, burst, rate) = check_rate-exact now b rated in
    let b' = (check_rate exact now b).1 in
    let later =
      check_all-exact times last b' rate (subst (λ t. Between t times last) (sym time) between) in
    omega (arith, le, Between-le now times last between, spent, time, later)

-- With exact numbers, and the rate of the router: of calls of `check_rate` at times that do not go
-- back, those that are let through between two times are at most the burst and 20 for each second
-- between them.
pub window_bound :
    (first : ℕ) (times : List ℕ) (last : ℕ) (b : TokenBucket ℕ)
    → b.rate_per_second ≡ request_rate * billion
    → Between first times last
    → count_true (check_all exact (first ∷ times) b).0 * billion
      ≤ b.burst + request_rate * (last - first)
unfolding check_all count_true
window_bound first times last b rated between =
    let (capped, spent, time, burst, rate) = check_rate-exact first b rated in
    let b' = (check_rate exact first b).1 in
    let later =
      check_all-exact times last b' rate (subst (λ t. Between t times last) (sym time) between) in
    omega (arith, capped, time, later)

-- With exact numbers, the rate of the router and a burst of one token or more: a call of
-- `check_rate` that comes 50 milliseconds after the last one, or later, is let through.
pub idle_admits :
    (now : ℕ) (b : TokenBucket ℕ)
    → b.rate_per_second ≡ request_rate * billion
    → billion ≤ b.burst
    → b.last_refill + 50_000_000 ≤ now
    → (check_rate exact now b).0 ≡ true
unfolding check_rate refill
idle_admits now b rated some_burst idle =
    ground (arith, exact_mul (now - b.last_refill) request_rate)
