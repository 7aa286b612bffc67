-- ===== src/Api/Gate.antt =====
-- src/api.rs: the token bucket.
use safexip.Prelude.{
  ℕ, ◌-◌, ◌*◌, ◌^◌, ◌<◌, max, min, Bool, false, not, List, [], ◌∷◌, ◌≡◌, refl, arith,
}
use mathlib.Core.Path.{subst}
use safexip.Config.{Config}
use safexip.Api.{Float, TokenBucket, new_gate, router_gate, refill, check_rate}

-- What IEEE 754 says of the operations at numbers that are not NaN: the minimum is not above its
-- second argument, and taking one away does not raise a number.
pub record HasOrder (f : Float) : Type 0 where
  pub irreflexive : (a : f.F64) → f.lt a a ≡ false
  pub minimum_le_right : (a b : f.F64) → f.lt b (f.minimum a b) ≡ false
  pub sub_one_le : (a b : f.F64) → f.lt b a ≡ false → f.lt b (f.sub a (f.of_usize 1)) ≡ false

-- Calls of `check_rate` at the given times, with their answers.
unfoldable pub check_all : (f : Float) → List ℕ → TokenBucket f.F64 → List Bool × TokenBucket f.F64
check_all f [] b = ([], b)
check_all f (now ∷ times) b =
    let (answer, b') = check_rate f now b in
    let (answers, last) = check_all f times b' in (answer ∷ answers, last)

module _ (f : Float) (order : HasOrder f) where
  -- With the order laws of floats: a call of `check_rate` is refused exactly if there is less than
  -- one token after the refill, leaves at most the burst, keeps the burst and the rate, and sets
  -- the time of the refill.
  pub check_rate_lem :
      (now : ℕ) (b : TokenBucket f.F64)
      → ((check_rate f now b).0 ≡ not (f.lt (refill f now b).tokens (f.of_usize 1)))
        × (f.lt b.burst (check_rate f now b).1.tokens ≡ false)
        × ((check_rate f now b).1.burst ≡ b.burst)
        × ((check_rate f now b).1.rate_per_second ≡ b.rate_per_second)
        × ((check_rate f now b).1.last_refill ≡ now)
  unfolding check_rate refill
  check_rate_lem now b =
      let sum = f.add b.tokens (f.mul (f.as_secs_f64 (now - b.last_refill)) b.rate_per_second) in
      ground (
        arith,
        order.minimum_le_right sum b.burst,
        order.sub_one_le (f.minimum sum b.burst) b.burst,
      )

  check_all-burst :
      (times : List ℕ) (b : TokenBucket f.F64)
      → f.lt b.burst b.tokens ≡ false
      → ((check_all f times b).1.burst ≡ b.burst)
        × (f.lt b.burst (check_all f times b).1.tokens ≡ false)
  unfolding check_all
  check_all-burst [] b h = (refl, h)
  check_all-burst (now ∷ times) b h =
      let (answer, capped, same, rate, time) = check_rate_lem now b in
      let (kept, below) = check_all-burst times (check_rate f now b).1 (ground arith) in
      (ground arith, ground arith)

  -- With the order laws of floats, and a token limit whose double is a 64-bit number: from the
  -- start of the router, calls of `check_rate` at any times leave at most the burst in the bucket,
  -- which is 100, or twice the token limit if that is more.
  pub gate_burst :
      (config : Config) (start : ℕ) (times : List ℕ)
      → config.max_tokens * 2 < 2 ^ 64
      → f.lt
          (f.of_usize (max 100 (config.max_tokens * 2)))
          (check_all f times (router_gate f config start).rate).1.tokens
        ≡ false
  unfolding router_gate new_gate
  gate_burst config start times small =
      let burst = max 100 (min (config.max_tokens * 2) (2 ^ 64 - 1)) in
      let same : (burst ≡ max 100 (config.max_tokens * 2)) = omega (arith, small) in
      subst
        (λ (b : ℕ).
          f.lt (f.of_usize b) (check_all f times (router_gate f config start).rate).1.tokens
          ≡ false)
        same
        (check_all-burst times (router_gate f config start).rate
          (order.irreflexive (f.of_usize burst))).1
