-- ===== src/Wire/Search.antt =====
-- src/wire.rs: the search of `AcmeWireCapacity::maximum_token_count`, over the test `fits_count`: doubling, then
-- halving the interval. Each loop takes the maximum as its fuel, for each round of the first raises
-- `high`, and each round of the second brings `low` and `high` together.
use safexip.Prelude.{
  ℕ, zero, suc, ◌+◌, ◌-◌, ◌*◌, ◌/◌, ◌≤◌, ◌<◌, ◌^◌, min, Bool, true, false, ◌&&◌, ◌≡◌, ◌⊎◌, ◌↔◌, inl,
  refl, arith, ltb, ◌==◌, if◌then◌else◌,
}

abbrev pub max_dns_records : ℕ
max_dns_records = 2 ^ 16 - 1

module _ (fits : ℕ → Bool) where
  unfoldable pub grow : ℕ → ℕ → ℕ → ℕ × ℕ
  grow zero low high = (low, high)
  grow (suc fuel) low high = elim (ltb high max_dns_records && fits high) [
    | true ↦ grow fuel high (min (high * 2) max_dns_records)
    | false ↦ (low, high)
  ]

  unfoldable pub bisect : ℕ → ℕ → ℕ → ℕ × ℕ
  bisect zero low high = (low, high)
  bisect (suc fuel) low high =
      let middle = low + (high - low) / 2 in
      elim (ltb (low + 1) high) [
        | true ↦ elim (fits middle) [
          | true ↦ bisect fuel middle high
          | false ↦ bisect fuel low middle
        ]
        | false ↦ (low, high)
      ]

  unfoldable pub settle : ℕ × ℕ → ℕ
  settle (low, high) = if (high == max_dns_records) && fits high then high else low

  unfoldable pub maximum : ℕ
  maximum = let (low, high) = grow max_dns_records 0 1 in settle (bisect max_dns_records low high)

  -- What holds between two rounds: `low` is 0 or fits, and `high`, unless it is the maximum, is above
  -- what fits.
  record IsBracket (low high : ℕ) : Type 0 where
    ordered : low < high
    bounded : high ≤ max_dns_records
    low_fits : (low ≡ 0) ⊎ (fits low ≡ true)
    high_fails : (high ≡ max_dns_records) ⊎ (fits high ≡ false)

  grow-IsBracket :
      (fuel low high : ℕ)
      → max_dns_records - high < fuel
      → low < high
      → high ≤ max_dns_records
      → (low ≡ 0) ⊎ (fits low ≡ true)
      → IsBracket (grow fuel low high).0 (grow fuel low high).1
  unfolding grow
  grow-IsBracket zero low high enough o b l = absurd (omega arith)
  grow-IsBracket (suc fuel) low high enough o b l =
      ground (arith, grow-IsBracket fuel high (min (high * 2) max_dns_records))

  bisect-IsBracket :
      (fuel low high : ℕ)
      → high - low ≤ fuel
      → IsBracket low high
      → IsBracket (bisect fuel low high).0 (bisect fuel low high).1
        × ((bisect fuel low high).1 ≡ (bisect fuel low high).0 + 1)
  unfolding bisect
  bisect-IsBracket zero low high enough h = absurd (omega arith)
  bisect-IsBracket (suc fuel) low high enough h =
      let middle = low + (high - low) / 2 in
      ground (arith, bisect-IsBracket fuel middle high, bisect-IsBracket fuel low middle)

  settle_lem :
      (low high : ℕ)
      → IsBracket low high
      → high ≡ low + 1
      → (settle (low, high) ≤ max_dns_records)
        × ((settle (low, high) ≡ 0) ⊎ (fits (settle (low, high)) ≡ true))
        × ((settle (low, high) ≡ max_dns_records) ⊎ (fits (settle (low, high) + 1) ≡ false))
  unfolding settle
  settle_lem low high h e = ground arith

  -- For every test, the search ends at a boundary: at most the largest possible count, at a count
  -- that passes or at 0, and either at the largest possible count or at one whose successor fails.
  pub maximum_boundary :
      (maximum ≤ max_dns_records)
      × ((maximum ≡ 0) ⊎ (fits maximum ≡ true))
      × ((maximum ≡ max_dns_records) ⊎ (fits (maximum + 1) ≡ false))
  unfolding maximum
  maximum_boundary =
      let grown =
        grow-IsBracket max_dns_records 0 1 (omega arith) (omega arith) (omega arith) (inl refl) in
      let (low, high) = grow max_dns_records 0 1 in
      let (bracket, adjacent) =
        bisect-IsBracket max_dns_records low high (omega (arith, grown.bounded)) grown in
      settle_lem (bisect max_dns_records low high).0 (bisect max_dns_records low high).1 bracket
        adjacent

  -- If a smaller count passes the test wherever a larger one does, the search finds exactly the
  -- counts that pass: a count from 1 to the largest possible one passes if and only if it is at
  -- most the maximum found.
  pub maximum_exact :
      ((m n : ℕ) → m ≤ n → fits n ≡ true → fits m ≡ true)
      → (n : ℕ) → 0 < n
      → n ≤ max_dns_records
      → (fits n ≡ true) ↔ (n ≤ maximum)
  maximum_exact monotone n positive small =
      let (bounded, low, high) = maximum_boundary in
      (λ f. ground (arith, monotone (maximum + 1) n), λ le. ground (arith, monotone n maximum))
