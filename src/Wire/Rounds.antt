-- ===== src/Wire/Rounds.antt =====
-- src/wire.rs: how many rounds the loops of the search take.
use safexip.Prelude.{
  ℕ, zero, suc, ◌+◌, ◌-◌, ◌*◌, ◌/◌, ◌^◌, ◌≤◌, ◌<◌, min, Bool, ◌≡◌, refl, ap, ◌∙◌, sym, arith, ltb,
  Bool-cases,
}
use mathlib.Core.Path.{subst}
use mathlib.Core.Logic.{inl, inr}
use safexip.Wire.Search.{grow, bisect, settle, maximum, max_dns_records}

power_positive : (n : ℕ) → 0 < 2 ^ n
power_positive zero = omega arith
power_positive (suc n) = omega (arith, power_positive n)

power-suc : (n : ℕ) → 2 ^ suc n ≡ 2 * 2 ^ n
power-suc n = omega arith

min_enough :
    (high p : ℕ)
    → 0 < p
    → max_dns_records ≤ high * (2 * p)
    → max_dns_records ≤ min (high * 2) max_dns_records * p
min_enough high p positive h = elim (Bool-cases (ltb (high * 2) max_dns_records)) [
  | inl below ↦
      let same : (min (high * 2) max_dns_records ≡ high * 2) = ground arith in
      rw same (omega (arith, h))
  | inr above ↦
      let same : (min (high * 2) max_dns_records ≡ max_dns_records) = ground arith in
      rw same (omega (arith, positive))
]

module _ (fits : ℕ → Bool) where
  grow_ended : (k low high : ℕ) → max_dns_records ≤ high → grow fits k low high ≡ (low, high)
  unfolding grow
  grow_ended zero low high h = refl
  grow_ended (suc k) low high h = ground arith

  grow_stable :
      (n m low high : ℕ)
      → n ≤ m
      → max_dns_records ≤ high * 2 ^ n
      → grow fits m low high ≡ grow fits n low high
  unfolding grow
  grow_stable zero m low high le h = grow_ended m low high (omega arith)
  grow_stable (suc n) zero low high le h = absurd (omega arith)
  grow_stable (suc n) (suc m) low high le h =
      let enough : (max_dns_records ≤ min (high * 2) max_dns_records * 2 ^ n) =
        min_enough high (2 ^ n) (power_positive n)
          (subst (λ p. max_dns_records ≤ high * p) (power-suc n) h) in
      ground (arith, grow_stable n m high (min (high * 2) max_dns_records))

  bisect_ended : (k low high : ℕ) → high ≤ low + 1 → bisect fits k low high ≡ (low, high)
  unfolding bisect
  bisect_ended zero low high h = refl
  bisect_ended (suc k) low high h = ground arith

  bisect_stable :
      (n m low high : ℕ)
      → n ≤ m
      → high - low ≤ 2 ^ n
      → bisect fits m low high ≡ bisect fits n low high
  unfolding bisect
  bisect_stable zero m low high le h = bisect_ended m low high (omega arith)
  bisect_stable (suc n) zero low high le h = absurd (omega arith)
  bisect_stable (suc n) (suc m) low high le h =
      let middle = low + (high - low) / 2 in
      let half : (high - low ≤ 2 * 2 ^ n) = omega (arith, h) in
      ground (
        arith,
        bisect_stable n m middle high (omega arith) (omega (arith, half)),
        bisect_stable n m low middle (omega arith) (omega (arith, half)),
      )

  grow-le : (k low high : ℕ) → high ≤ max_dns_records → (grow fits k low high).1 ≤ max_dns_records
  unfolding grow
  grow-le zero low high h = h
  grow-le (suc k) low high h = ground (arith, grow-le k high (min (high * 2) max_dns_records))

  -- For every test, 16 rounds of each of the two loops are enough: with 16 rounds or more of each,
  -- the search for the maximum gives the same result.
  pub search_rounds :
      (doublings halvings : ℕ)
      → 16 ≤ doublings
      → 16 ≤ halvings
      → (let (low, high) = grow fits doublings 0 1 in settle fits (bisect fits halvings low high))
        ≡ maximum fits
  unfolding maximum
  search_rounds doublings halvings d b =
      let first =
        grow_stable 16 doublings 0 1 d (omega arith)
        ∙ sym (grow_stable 16 max_dns_records 0 1 (omega arith) (omega arith)) in
      let (low, high) = grow fits max_dns_records 0 1 in
      let bound = grow-le max_dns_records 0 1 (omega arith) in
      ap (λ (p : ℕ × ℕ). settle fits (bisect fits halvings p.0 p.1)) first
      ∙ ap (settle fits) (
          bisect_stable 16 halvings low high b (omega (arith, bound))
          ∙ sym (bisect_stable 16 max_dns_records low high (omega arith) (omega (arith, bound))))
