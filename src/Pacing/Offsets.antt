-- ===== src/Pacing/Offsets.antt =====
-- `start_offsets` of src/pacing.py. The times are Python floats: their type and their addition are the
-- section's parameters, and so are the draws of the random generator.
pub mod Laws
mod Examples
use core_network_traffic_gen.Common.{ℕ, zero, suc, ◌+◌, if◌then◌else◌, Bool, ◌&&◌, List, [], ◌∷◌}

module _ {T : Type 0} (add : T → T → T) where
  -- The gap before UE k + 1: `rng.expovariate(1 / interval) if poisson and interval > 0 else interval`
  abbrev pub gap : T → Bool → Bool → (ℕ → T) → ℕ → T
  gap interval poisson positive draws k = if poisson && positive then draws k else interval

  -- The loop from UE k on, `n` UEs left, at time `t`.
  unfoldable pub offsets_from : (ℕ → T) → ℕ → ℕ → T → List T
  offsets_from gaps zero k t = []
  offsets_from gaps (suc n) k t = t ∷ offsets_from gaps n (suc k) (add t (gaps k))

  unfoldable pub start_offsets : T → ℕ → T → Bool → Bool → (ℕ → T) → List T
  unfolding offsets_from
  start_offsets zero_time n interval poisson positive draws =
      offsets_from (gap interval poisson positive draws) n 0 zero_time
