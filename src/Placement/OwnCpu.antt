-- ===== src/Placement/OwnCpu.antt =====
-- `process_cpus` of src/affinity.py gives each process a CPU of its own while there are enough.
use core_network_traffic_gen.Common.{
  ℕ, zero, suc, ◌+◌, ◌-◌, ◌*◌, ◌%◌, ◌≤◌, ◌<◌, ◌≡◌, refl, sym, ap, subst, ◌∙◌, arith,
}
use core_network_traffic_gen.Common.{
  ◌==◌, leb, lt→ltb, ==_refl, if◌then◌else◌, true, false, Bool, ◌||◌, Bool-cases, inl, inr, some,
  List, [], ◌∷◌, length, length-drop, drop, get_or,
}
use native.Mathlib.Nat.{mod-eq_of_lt}
use core_network_traffic_gen.Placement.Cpus.{put_cpu, sorted, spare_of, placed_from, process_cpus}

-- Is the number in the list?
unfoldable pub has : ℕ → List ℕ → Bool
has c [] = false
has c (x ∷ xs) = (c == x) || has c xs

-- The CPUs of a set stand once.
unfoldable pub IsSetOfCpus : List ℕ → Type 0
IsSetOfCpus [] = Unit
IsSetOfCpus (c ∷ cs) = (has c cs ≡ false) × IsSetOfCpus cs

-- Each CPU is above those before it.
unfoldable pub Ascending : List ℕ → Type 0
Ascending [] = Unit
Ascending (c ∷ cs) = ((d : ℕ) → has d cs ≡ true → c < d) × Ascending cs

has-put_cpu : (d c : ℕ) (cs : List ℕ) → has d (put_cpu c cs) ≡ ((d == c) || has d cs)
unfolding has put_cpu
has-put_cpu d c [] = refl
has-put_cpu d c (x ∷ xs) = elim (Bool-cases (leb c x)) [
  | inl le ↦ rw le refl
  | inr gt ↦
      let ih : has d (put_cpu c xs) ≡ ((d == c) || has d xs) = has-put_cpu d c xs in ground arith
]

has-sorted : (d : ℕ) (cs : List ℕ) → has d (sorted cs) ≡ has d cs
unfolding has sorted
has-sorted d [] = refl
has-sorted d (c ∷ cs) = has-put_cpu d c (sorted cs) ∙ ap (λ b. (d == c) || b) (has-sorted d cs)

put_cpu-Ascending :
    (c : ℕ) (cs : List ℕ) → has c cs ≡ false → Ascending cs → Ascending (put_cpu c cs)
unfolding put_cpu Ascending has
put_cpu-Ascending c [] h asc = (λ d e. ground arith, asc)
put_cpu-Ascending c (x ∷ xs) h asc = elim (Bool-cases (leb c x)) [
  | inl le ↦
      let below : c < x = ground arith in
      rw le (
        (λ d e. elim (Bool-cases (d == x)) [
          | inl here ↦ ground arith
          | inr on ↦ let above : x < d = asc.0 d (ground arith) in ground arith
        ]),
        asc,
      )
  | inr gt ↦ rw gt (
    (λ d e. elim (Bool-cases (d == c)) [
      | inl here ↦ ground arith
      | inr on ↦ asc.0 d (ground (arith, has-put_cpu d c xs))
    ]),
    put_cpu-Ascending c xs (ground arith) asc.1,
  )
]

sorted-Ascending : (cs : List ℕ) → IsSetOfCpus cs → Ascending (sorted cs)
unfolding sorted Ascending IsSetOfCpus
sorted-Ascending [] h = h
sorted-Ascending (c ∷ cs) h =
    put_cpu-Ascending c (sorted cs) (has-sorted c cs ∙ h.0) (sorted-Ascending cs h.1)

length-put_cpu : (c : ℕ) (cs : List ℕ) → length (put_cpu c cs) ≡ suc (length cs)
unfolding put_cpu
length-put_cpu c [] = refl
length-put_cpu c (x ∷ xs) = ground (arith, length-put_cpu c xs)

length-sorted : (cs : List ℕ) → length (sorted cs) ≡ length cs
unfolding sorted
length-sorted [] = refl
length-sorted (c ∷ cs) = length-put_cpu c (sorted cs) ∙ ap suc (length-sorted cs)

has-get_or : (i : ℕ) (cs : List ℕ) → i < length cs → has (get_or cs i 0) cs ≡ true
unfolding has
has-get_or i [] h = absurd (omega arith)
has-get_or zero (c ∷ cs) h = ground (arith, ==_refl c)
has-get_or (suc i) (c ∷ cs) h =
    let ih : has (get_or cs i 0) cs ≡ true = has-get_or i cs (omega arith) in ground arith

Ascending-get_or :
    (i j : ℕ) (cs : List ℕ) → Ascending cs → i < j → j < length cs → get_or cs i 0 < get_or cs j 0
unfolding Ascending
Ascending-get_or i j [] asc h k = absurd (omega arith)
Ascending-get_or i zero (c ∷ cs) asc h k = absurd (omega arith)
Ascending-get_or zero (suc j) (c ∷ cs) asc h k =
    asc.0 (get_or cs j 0) (has-get_or j cs (omega arith))
Ascending-get_or (suc i) (suc j) (c ∷ cs) asc h k =
    Ascending-get_or i j cs asc.1 (omega arith) (omega arith)

length-placed_from : (spare : List ℕ) (k n : ℕ) → length (placed_from spare k n) ≡ n
unfolding placed_from
length-placed_from spare k zero = refl
length-placed_from spare k (suc n) = ap suc (length-placed_from spare (suc k) n)

get_or-placed_from :
    (spare : List ℕ) (k n i : ℕ)
    → i < n
    → get_or (placed_from spare k n) i 0 ≡ get_or spare ((k + i) % length spare) 0
unfolding placed_from
get_or-placed_from spare k zero i h = absurd (omega arith)
get_or-placed_from spare k (suc n) zero h =
    ap (λ q. get_or spare (q % length spare) 0) (omega arith)
get_or-placed_from spare k (suc n) (suc i) h =
    get_or-placed_from spare (suc k) n i (omega arith)
    ∙ ap (λ q. get_or spare (q % length spare) 0) (omega arith)

get_or-drop_one : (i : ℕ) (cs : List ℕ) → get_or (drop 1 cs) i 0 ≡ get_or cs (suc i) 0
get_or-drop_one i [] = refl
get_or-drop_one i (c ∷ cs) = refl

process_cpus_step :
    (num_gnbs per_gnb : ℕ) (cpus : List ℕ)
    → 1 ≤ length (spare_of (sorted cpus))
    → process_cpus num_gnbs cpus per_gnb
      ≡ some (placed_from (spare_of (sorted cpus)) 0 (per_gnb * num_gnbs))
unfolding process_cpus
process_cpus_step num_gnbs per_gnb cpus h =
    let any : (length (spare_of (sorted cpus)) == 0) ≡ false = ground arith in
    rw (process_cpus, any) refl

cut : (cpus : List ℕ) → 2 ≤ length cpus → spare_of (sorted cpus) ≡ drop 1 (sorted cpus)
unfolding spare_of
cut cpus two =
    ap (λ b. if b then drop 1 (sorted cpus) else sorted cpus)
      (lt→ltb 1 (length (sorted cpus)) (omega (arith, length-sorted cpus)))

length-spare_of :
    (cpus : List ℕ) → 2 ≤ length cpus → length (spare_of (sorted cpus)) ≡ length cpus - 1
length-spare_of cpus two =
    ap length (cut cpus two) ∙ length-drop 1 (sorted cpus) ∙ ap (λ m. m - 1) (length-sorted cpus)

-- Process k gets the allowed CPU number k + 1, from below.
placed_lem :
    (n k : ℕ) (cpus : List ℕ)
    → 2 ≤ length cpus
    → n < length cpus
    → k < n
    → get_or (placed_from (spare_of (sorted cpus)) 0 n) k 0 ≡ get_or (sorted cpus) (suc k) 0
placed_lem n k cpus two more small =
    let spare : List ℕ = spare_of (sorted cpus) in
    let start : (0 + k) % length spare ≡ k % length spare =
      ap (λ q. q % length spare) (omega arith) in
    get_or-placed_from spare 0 n k small
    ∙ ap (λ q. get_or spare q 0) (start ∙ mod-eq_of_lt (omega (arith, length-spare_of cpus two)))
    ∙ ap (λ cs. get_or cs k 0) (cut cpus two)
    ∙ get_or-drop_one k (sorted cpus)

-- With at least two CPUs and more CPUs than processes, the processes in their order get CPUs that
-- ascend, so each has one of its own, all of them allowed, and all above the first allowed CPU, which
-- is left out.
pub process_cpus_lem :
    (num_gnbs per_gnb : ℕ) (cpus : List ℕ)
    → IsSetOfCpus cpus
    → 2 ≤ length cpus
    → per_gnb * num_gnbs < length cpus
    → (placed : List ℕ) × (process_cpus num_gnbs cpus per_gnb ≡ some placed)
      × (length placed ≡ per_gnb * num_gnbs)
      × ((k : ℕ)
          → k < per_gnb * num_gnbs
          → (has (get_or placed k 0) cpus ≡ true)
            × (get_or (sorted cpus) 0 0 < get_or placed k 0)
            × ((l : ℕ) → k < l → l < per_gnb * num_gnbs → get_or placed k 0 < get_or placed l 0))
process_cpus_lem num_gnbs per_gnb cpus set two more =
    let len : length (sorted cpus) ≡ length cpus = length-sorted cpus in
    let asc : Ascending (sorted cpus) = sorted-Ascending cpus set in
    (
      placed_from (spare_of (sorted cpus)) 0 (per_gnb * num_gnbs),
      process_cpus_step num_gnbs per_gnb cpus (omega (arith, length-spare_of cpus two)),
      length-placed_from (spare_of (sorted cpus)) 0 (per_gnb * num_gnbs),
      λ k small.
          let own = placed_lem (per_gnb * num_gnbs) k cpus two more small in
          (
            ap (λ c. has c cpus) own
                ∙ sym (has-sorted (get_or (sorted cpus) (suc k) 0) cpus)
                ∙ has-get_or (suc k) (sorted cpus) (omega arith),
            subst (λ c. get_or (sorted cpus) 0 0 < c) (sym own)
                (Ascending-get_or 0 (suc k) (sorted cpus) asc (omega arith) (omega arith)),
            λ l later last.
                subst
                  (λ c.
                    c < get_or (placed_from (spare_of (sorted cpus)) 0 (per_gnb * num_gnbs)) l 0)
                  (sym own)
                  (subst (λ c. get_or (sorted cpus) (suc k) 0 < c)
                    (sym (placed_lem (per_gnb * num_gnbs) l cpus two more last))
                    (Ascending-get_or (suc k) (suc l) (sorted cpus) asc (omega arith)
                      (omega arith))),
          ),
    )
