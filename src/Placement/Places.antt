-- ===== src/Placement/Places.antt =====
-- A UE's place in the run, through `create_ues` and `split_ues` of run.py, and its start time there.
use core_network_traffic_gen.Common.{
  ℕ, zero, suc, ◌+◌, ◌*◌, ◌≤◌, ◌<◌, ◌≡◌, sym, ap, ◌∙◌, arith, min,
}
use core_network_traffic_gen.Common.{some, List, [], ◌∷◌, length, get_elem?, get_or, true, false}
use mathlib.Core.Option.{some-injective}
use native.Mathlib.Nat.{mul_assoc, mul_comm}
use core_network_traffic_gen.Pacing.Offsets.{start_offsets}
use core_network_traffic_gen.Pacing.Offsets.Laws.{after, start_offsets_lem}
use core_network_traffic_gen.Placement.Ues.{Table, split_ues, Profile, create_ues}
use core_network_traffic_gen.Placement.Deal.{turn, get_elem?-turn, Distinct}
use core_network_traffic_gen.Placement.Split.{split_ues_lem}
use core_network_traffic_gen.Placement.Create.{listed, create_ues-listed, Distinct-turn}

module _ {ℓ} {C : Type ℓ} {U : Type ℓ} (new : Profile C → U) where
  -- With x gNBs of k UE simulators each and no index twice in the profiles, the i-th UE of simulator s
  -- of gNB g is UE g + (s + i * k) * x of the profiles, where either exists, and there are as many
  -- gNBs as asked for or, with fewer UEs, as UEs.
  pub create_ues-split_ues :
      (profiles : List (Profile C)) (x k : ℕ) (ues : List (ℕ × U))
      → 1 ≤ x
      → 1 ≤ k
      → listed new profiles ≡ some ues
      → Distinct ues
      → (dicts : List (Table U)) × (create_ues new profiles x ≡ some (dicts, length ues))
        × (length dicts ≡ min x (length ues))
        × ((g : ℕ)
            → g < x
            → (parts : List (Table U)) × (split_ues (get_or dicts g []) k ≡ some parts)
              × ((s i : ℕ)
                  → s < k
                  → get_elem? (get_or parts s []) i ≡ get_elem? ues (g + (s + i * k) * x)))
  create_ues-split_ues profiles x k ues hx hk e once =
      let made = create_ues-listed new profiles x ues hx e once in
      (
        made.0,
        made.1,
        made.2,
        λ g small.
            let own : get_or made.0 g [] ≡ turn x g ues = made.3 g small in
            let split = split_ues_lem (turn x g ues) k hk (Distinct-turn x g ues once) in
            (
              split.0,
              ap (λ dict. split_ues dict k) own ∙ split.1,
              λ s i fits. split.3 s i fits ∙ get_elem?-turn x g (s + i * k) ues hx,
            ),
      )

-- The i-th of fixed gaps.
after_fixed : (gap i k t : ℕ) → after (λ a b. a + b) (λ n. gap) i k t ≡ t + i * gap
after_fixed gap zero k t = omega arith
after_fixed gap (suc i) k t = after_fixed gap i (suc k) (t + gap) ∙ omega arith

-- The loop of UESim.init: each offset later by the phase.
unfoldable pub delayed : ℕ → List ℕ → List ℕ
delayed phase [] = []
delayed phase (offset ∷ offsets) = (offset + phase) ∷ delayed phase offsets

-- The start times of simulator s of a gNB's n, after main's `args.interval * len(sims)` and
-- `phase=args.interval * k`; times are whole ticks.
unfoldable pub start_times : ℕ → ℕ → ℕ → ℕ → List ℕ
start_times interval n s ues =
    delayed (interval * s) (start_offsets (λ a b. a + b) 0 ues (interval * n) false true (λ k. 0))

get_elem?-delayed :
    (phase i offset : ℕ) (offsets : List ℕ)
    → get_elem? offsets i ≡ some offset
    → get_elem? (delayed phase offsets) i ≡ some (offset + phase)
unfolding delayed
get_elem?-delayed phase i offset [] e = ground arith
get_elem?-delayed phase zero offset (x ∷ xs) e =
    ap (λ o. some (o + phase)) (some-injective x offset e)
get_elem?-delayed phase (suc i) offset (x ∷ xs) e = get_elem?-delayed phase i offset xs e

spread : (interval n s i : ℕ) → 0 + i * (interval * n) + interval * s ≡ (s + i * n) * interval
spread interval n s i =
    let turned : i * (interval * n) ≡ i * n * interval =
      ap (λ c. i * c) (mul_comm interval n) ∙ sym (mul_assoc i n interval) in
    omega arith

-- With a fixed interval the n UE simulators of a gNB together start a UE an interval: the i-th UE of
-- simulator s, which is the gNB's UE s + i * n, starts s + i * n intervals after the first.
pub start_times_lem :
    (interval n s ues i : ℕ)
    → i < ues
    → get_elem? (start_times interval n s ues) i ≡ some ((s + i * n) * interval)
unfolding start_times
start_times_lem interval n s ues i small =
    let offsets : List ℕ = start_offsets (λ a b. a + b) 0 ues (interval * n) false true (λ k. 0) in
    get_elem?-delayed (interval * s) i (0 + i * (interval * n)) offsets (
      (start_offsets_lem (λ a b. a + b) 0 ues (interval * n) false true (λ k. 0) i small).1
      ∙ ap some (after_fixed (interval * n) i 0 0))
    ∙ ap some (spread interval n s i)
