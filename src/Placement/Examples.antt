-- ===== src/Placement/Examples.antt =====
-- Seven UEs of two profiles over two gNBs of two UE simulators, on eight CPUs.
use core_network_traffic_gen.Common.{ℕ, ◌*◌, ◌+◌, ◌<◌, ◌≡◌, refl, arith, min, true}
use core_network_traffic_gen.Common.{Option, some, none, List, [], ◌∷◌, length, get_elem?, get_or}
use Prim.Native.Nat.{max}
use core_network_traffic_gen.Common.Table.{lookup}
use core_network_traffic_gen.Placement.Ues.{
  Table, Profile, create_ues, ue_of, init_of, base_of, int, int_from, padded, decimal, extra_digits,
  split_ues,
}
use core_network_traffic_gen.Placement.Deal.{Distinct}
use core_network_traffic_gen.Placement.Create.{listed, from_index}
use core_network_traffic_gen.Placement.Places.{create_ues-split_ues, start_times, start_times_lem}
use core_network_traffic_gen.Placement.Share.{share, shares, shares_lem}
use core_network_traffic_gen.Placement.Cpus.{process_cpus, sorted, put_cpu, spare_of, placed_from}
use core_network_traffic_gen.Placement.OwnCpu.{IsSetOfCpus, has, process_cpus_lem}

-- "208930000000031" and "208950000000001"
abbrev first_profile : Profile ℕ
first_profile = record {
  count = 5;
  supi = 50 ∷ 48 ∷ 56 ∷ 57 ∷ 51 ∷ 48 ∷ 48 ∷ 48 ∷ 48 ∷ 48 ∷ 48 ∷ 48 ∷ 48 ∷ 51 ∷ 49 ∷ [];
  other = 0;
}

abbrev second_profile : Profile ℕ
second_profile = record {
  count = 2;
  supi = 50 ∷ 48 ∷ 56 ∷ 57 ∷ 53 ∷ 48 ∷ 48 ∷ 48 ∷ 48 ∷ 48 ∷ 48 ∷ 48 ∷ 48 ∷ 48 ∷ 49 ∷ [];
  other = 1;
}

abbrev profiles : List (Profile ℕ)
profiles = first_profile ∷ second_profile ∷ []

-- A UE is told apart by its SUPI.
abbrev supi_of : Profile ℕ → List ℕ
supi_of profile = profile.supi

abbrev known : Option (List (ℕ × List ℕ)) → List (ℕ × List ℕ)
known none = []
known (some ues) = ues

abbrev all_ues : List (ℕ × List ℕ)
all_ues = known (listed supi_of profiles)

indices :
    (length all_ues ≡ 7)
    × (lookup 35 all_ues
        ≡ some (50 ∷ 48 ∷ 56 ∷ 57 ∷ 51 ∷ 48 ∷ 48 ∷ 48 ∷ 48 ∷ 48 ∷ 48 ∷ 48 ∷ 48 ∷ 51 ∷ 53 ∷ []))
unfolding listed from_index init_of base_of int int_from ue_of padded decimal extra_digits lookup
indices = (refl, refl)

is_listed : listed supi_of profiles ≡ some all_ues
unfolding listed from_index init_of base_of int int_from
is_listed = refl

once : Distinct all_ues
unfolding Distinct lookup listed from_index init_of base_of int int_from
once = (refl, (refl, (refl, (refl, (refl, (refl, (refl, tt)))))))

create_ues-split_ues_example :
    (dicts : List (Table (List ℕ))) × (create_ues supi_of profiles 2 ≡ some (dicts, length all_ues))
    × (length dicts ≡ min 2 (length all_ues))
    × ((g : ℕ)
        → g < 2
        → (parts : List (Table (List ℕ))) × (split_ues (get_or dicts g []) 2 ≡ some parts)
          × ((s i : ℕ)
              → s < 2
              → get_elem? (get_or parts s []) i ≡ get_elem? all_ues (g + (s + i * 2) * 2)))
create_ues-split_ues_example =
    create_ues-split_ues supi_of profiles 2 2 all_ues (omega arith) (omega arith) is_listed once

start_times_lem_example : get_elem? (start_times 10 3 2 4) 1 ≡ some ((2 + 1 * 3) * 10)
start_times_lem_example = start_times_lem 10 3 2 4 1 (omega arith)

shares_lem_example : shares 10 3 3 ≡ max 10 3
shares_lem_example = shares_lem 10 3 (omega arith) (omega arith)

-- As in tests/test_ue_ran_wiring.py.
split_shares : (share 10 3 0 ≡ 4) × (share 10 3 2 ≡ 3) × (share 2 4 3 ≡ 1) × (share 0 4 1 ≡ 0)
unfolding share
split_shares = (refl, refl, refl, refl)

abbrev cpus : List ℕ
cpus = 7 ∷ 4 ∷ 6 ∷ 5 ∷ []

-- As in tests/test_affinity.py.
short_of_cpus :
    (process_cpus 3 (0 ∷ 1 ∷ 2 ∷ []) 2 ≡ some (1 ∷ 2 ∷ 1 ∷ 2 ∷ 1 ∷ 2 ∷ []))
    × (process_cpus 2 (3 ∷ []) 2 ≡ some (3 ∷ 3 ∷ 3 ∷ 3 ∷ []))
unfolding process_cpus sorted put_cpu spare_of placed_from
short_of_cpus = (refl, refl)

cpus_once : IsSetOfCpus cpus
unfolding IsSetOfCpus has
cpus_once = (refl, (refl, (refl, (refl, tt))))

process_cpus_lem_example :
    (placed : List ℕ) × (process_cpus 1 cpus 2 ≡ some placed)
    × (length placed ≡ 2 * 1)
    × ((k : ℕ)
        → k < 2 * 1
        → (has (get_or placed k 0) cpus ≡ true)
          × (get_or (sorted cpus) 0 0 < get_or placed k 0)
          × ((l : ℕ) → k < l → l < 2 * 1 → get_or placed k 0 < get_or placed l 0))
process_cpus_lem_example = process_cpus_lem 1 2 cpus cpus_once (omega arith) (omega arith)
