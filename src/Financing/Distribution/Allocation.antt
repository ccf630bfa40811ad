-- ===== src/Financing/Distribution/Allocation.antt =====
-- What `createPlsDistribution` (application/pls-contract-service.ts) gives to each party.
use native.Mathlib.Nat.{mul-le-mul_left}
use blockchain_based_e_procu.Prelude.{ℕ, ◌+◌, ◌-◌, ◌*◌, ◌/◌, ◌≤◌, ◌<◌, ◌≡◌, arith, ap}
use blockchain_based_e_procu.Financing.Money.{ℤ, pos, magnitude, minus}
use blockchain_based_e_procu.Financing.Contract.{profit}
use blockchain_based_e_procu.Financing.Distribution.{allocate}

minus_le : (x y : ℕ) → y ≤ x → minus x y ≡ pos (x - y)
unfolding minus
minus_le x y h = ground arith

-- Where the agreed percentage is at most 100, neither part of a profit is negative, and the parts add
-- up to the magnitude of the gross amount; the financier has the agreed percentage of it, rounded down.
pub allocate-profit :
    (percent : ℕ) (gross : ℤ)
    → percent ≤ 100
    → (f : ℕ) × (o : ℕ) × (allocate profit percent gross ≡ (pos f, pos o))
      × (f + o ≡ magnitude gross)
      × (f * 100 ≤ magnitude gross * percent)
      × (magnitude gross * percent < f * 100 + 100)
unfolding allocate
allocate-profit percent gross h =
    let x = magnitude gross in
    let bound = mul-le-mul_left x h in
    (
      x * percent / 100,
      x - x * percent / 100,
      ap (λ o. (pos (x * percent / 100), o)) (minus_le x (x * percent / 100) (omega arith)),
      omega arith,
      omega arith,
      omega arith,
    )
