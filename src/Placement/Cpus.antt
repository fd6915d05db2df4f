-- ===== src/Placement/Cpus.antt =====
-- `process_cpus` of src/affinity.py: a CPU for each process. A division by zero is none.
use core_network_traffic_gen.Common.{ℕ, zero, suc, ◌*◌, ◌%◌}
use core_network_traffic_gen.Common.{
  ◌==◌, ltb, leb, if◌then◌else◌, ◌&&◌, not, Option, some, none, List, [], ◌∷◌, length, drop, get_or,
}

-- `sorted(cpus)`
unfoldable pub put_cpu : ℕ → List ℕ → List ℕ
put_cpu c [] = c ∷ []
put_cpu c (x ∷ xs) = if leb c x then c ∷ x ∷ xs else x ∷ put_cpu c xs

unfoldable pub sorted : List ℕ → List ℕ
sorted [] = []
sorted (c ∷ cs) = put_cpu c (sorted cs)

-- `cpus[1:] if len(cpus) > 1 else cpus`
unfoldable pub spare_of : List ℕ → List ℕ
spare_of cpus = if ltb 1 (length cpus) then drop 1 cpus else cpus

-- `[spare[k % len(spare)] for k in range(...)]`, the last n of them from k on.
unfoldable pub placed_from : List ℕ → ℕ → ℕ → List ℕ
placed_from spare k zero = []
placed_from spare k (suc n) = get_or spare (k % length spare) 0 ∷ placed_from spare (suc k) n

unfoldable pub process_cpus : ℕ → List ℕ → ℕ → Option (List ℕ)
process_cpus num_gnbs cpus per_gnb =
    let spare = spare_of (sorted cpus) in
    if (length spare == 0) && not (per_gnb * num_gnbs == 0)
    then none
    else some (placed_from spare 0 (per_gnb * num_gnbs))
