-- ===== src/Pacing/Offsets/Examples.antt =====
-- Three UEs, 20 ticks apart.
use core_network_traffic_gen.Common.{◌+◌, ◌≡◌, refl, true, false, [], ◌∷◌}
use core_network_traffic_gen.Pacing.Offsets.{start_offsets}

fixed_offsets : start_offsets ◌+◌ 0 3 20 false true (λ k. k) ≡ 0 ∷ 20 ∷ 40 ∷ []
unfolding start_offsets
fixed_offsets = refl

poisson_offsets : start_offsets ◌+◌ 0 3 20 true true (λ k. k + 5) ≡ 0 ∷ 5 ∷ 11 ∷ []
unfolding start_offsets
poisson_offsets = refl
