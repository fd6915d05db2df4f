-- ===== src/Placement/Share.antt =====
-- `share` of run.py: a limit of a gNB split over its UE simulators.
use core_network_traffic_gen.Common.{ℕ, zero, suc, ◌+◌, ◌*◌, ◌/◌, ◌%◌, ◌≤◌, ◌<◌, ◌≡◌, refl, arith}
use core_network_traffic_gen.Common.{
  ltb, ◌==◌, if◌then◌else◌, min, ◌⊎◌, inl, inr, lt-cases, ◌∙◌, sym,
}
use native.Mathlib.Nat.{div-add-mod', mod-lt, div-eq_of_lt, max-eq_right, mul_comm}
use Prim.Native.Nat.{max}

-- A negative total, which the source treats as 0, is 0.
unfoldable pub share : ℕ → ℕ → ℕ → ℕ
share total n j = if total == 0 then 0 else max 1 (total / n + (if ltb j (total % n) then 1 else 0))

-- The shares of the first m simulators of n together.
unfoldable pub shares : ℕ → ℕ → ℕ → ℕ
shares total n zero = 0
shares total n (suc m) = shares total n m + share total n m

-- With a quotient and a remainder, the first m shares are m quotients and a remainder's worth of ones.
sum_of_shares :
    (total n m : ℕ)
    → 1 ≤ total
    → 1 ≤ total / n
    → shares total n m ≡ m * (total / n) + min m (total % n)
unfolding shares share
sum_of_shares total n zero h q = omega arith
sum_of_shares total n (suc m) h q =
    let ih : shares total n m ≡ m * (total / n) + min m (total % n) = sum_of_shares total n m h q in
    ground arith

-- Without a quotient each share is one.
ones : (total n m : ℕ) → 1 ≤ total → total / n ≡ 0 → shares total n m ≡ m
unfolding shares share
ones total n zero h q = refl
ones total n (suc m) h q = let ih : shares total n m ≡ m = ones total n m h q in ground arith

pos_cases : (q : ℕ) → (q ≡ 0) ⊎ (1 ≤ q)
pos_cases zero = inl refl
pos_cases (suc q) = inr (omega arith)

-- The limits of a gNB's n simulators add up to the gNB's own limit where that is at least n, and to n,
-- one each, where it is lower but not 0.
pub shares_lem : (total n : ℕ) → 1 ≤ total → 1 ≤ n → shares total n n ≡ max total n
shares_lem total n h k = elim (lt-cases total n) [
  | inl less ↦ ones total n n h (div-eq_of_lt less) ∙ sym (max-eq_right (omega arith))
  | inr more ↦
      let whole : total / n * n + total % n ≡ total = div-add-mod' total n in
      let rest : total % n < n = mod-lt total k in
      let one : 1 ≤ total / n = elim (pos_cases (total / n)) [
        | inl none_whole ↦ absurd (ground (arith, none_whole))
        | inr some_whole ↦ some_whole
      ] in
      sum_of_shares total n n h one
      ∙ (let turned : n * (total / n) ≡ total / n * n = mul_comm n (total / n) in ground arith)
]
