-- ===== src/Pacing/Offsets/Laws.antt =====
-- The schedule is absolute: a UE's time depends on the gaps before it and on nothing after it.
use core_network_traffic_gen.Common.{ℕ, zero, suc, ◌<◌, ◌≡◌, refl, ap, arith}
use core_network_traffic_gen.Common.{Bool, some, length, get_elem?}
use core_network_traffic_gen.Pacing.Offsets.{gap, offsets_from, start_offsets}

module _ {T : Type 0} (add : T → T → T) (gaps : ℕ → T) where
  -- The time of the UE that starts `i` gaps after time `t`, which is UE k's.
  abbrev pub after : ℕ → ℕ → T → T
  after zero k t = t
  after (suc i) k t = after i (suc k) (add t (gaps k))

  length-offsets_from : (n k : ℕ) (t : T) → length (offsets_from add gaps n k t) ≡ n
  unfolding offsets_from
  length-offsets_from zero k t = refl
  length-offsets_from (suc n) k t = ap suc (length-offsets_from n (suc k) (add t (gaps k)))

  get_elem?-offsets_from :
      (i n k : ℕ) (t : T) → i < n → get_elem? (offsets_from add gaps n k t) i ≡ some (after i k t)
  unfolding offsets_from
  get_elem?-offsets_from i zero k t h = absurd (omega arith)
  get_elem?-offsets_from zero (suc n) k t h = refl
  get_elem?-offsets_from (suc i) (suc n) k t h =
      get_elem?-offsets_from i n (suc k) (add t (gaps k)) (omega arith)

module _ {T : Type 0} (add : T → T → T) where
  -- Every UE has a start time; that of UE i is the first one's time with the first i gaps added one
  -- after the other, drawn or fixed, however many UEs there are.
  pub start_offsets_lem :
      (zero_time : T) (n : ℕ) (interval : T) (poisson positive : Bool) (draws : ℕ → T) (i : ℕ)
      → i < n
      → (length (start_offsets add zero_time n interval poisson positive draws) ≡ n)
        × (get_elem? (start_offsets add zero_time n interval poisson positive draws) i
            ≡ some (after add (gap add interval poisson positive draws) i 0 zero_time))
  unfolding start_offsets
  start_offsets_lem z n interval poisson positive draws i h = (
    length-offsets_from add (gap add interval poisson positive draws) n 0 z,
    get_elem?-offsets_from add (gap add interval poisson positive draws) i n 0 z h,
  )
