-- ===== src/Ngap/Aper/Integers.antt =====
-- Bounded integers: `_id` reads what `_uint` writes, in the fewest octets.
use core_network_traffic_gen.Common.{
  ℕ, zero, suc, ◌+◌, ◌-◌, ◌*◌, ◌/◌, ◌^◌, ◌≤◌, ◌<◌, ◌≡◌, ◌≢◌, refl, ap, arith,
}
use core_network_traffic_gen.Common.{
  some, ◌==◌, Bool-cases, inl, inr, List, [], ◌∷◌, length, get_or, All,
}
use core_network_traffic_gen.Common.Bytes.{
  IsByte, be_bytes, from_be, from_be_acc, from_be-be_bytes, length-be_bytes, be_bytes-IsByte,
}
use native.Mathlib.Nat.{pow-suc, pow-le-pow_right, mul-le-mul_right}
use native.Mathlib.Decide.{dec_lt}
use native.Mathlib.Numerals.{towards_suc}
use core_network_traffic_gen.Ngap.Aper.{
  bit_length_fuel, bit_length, octet_count, uint, id_value, amf_ue_ngap_id, ran_ue_ngap_id,
}

bit_length_bounds :
    (f v : ℕ)
    → v ≤ f
    → (v < 2 ^ bit_length_fuel f v)
      × (0 < v → 2 ^ bit_length_fuel f v ≤ 2 * v)
      × (v ≡ 0 → bit_length_fuel f v ≡ 0)
unfolding bit_length_fuel
bit_length_bounds zero v h = (omega arith, omega arith, λ e. refl)
bit_length_bounds (suc f) v h = elim (Bool-cases (v == 0)) [
  | inl stop ↦ rw (stop, bit_length_fuel) (ground arith, ground arith, λ e. refl)
  | inr more ↦
      let (hi, lo, z) = bit_length_bounds f (v / 2) (omega arith) in
      let p = pow-suc 2 (bit_length_fuel f (v / 2)) in
      rw (more, bit_length_fuel)
        (
          omega (arith, hi, p),
          ground (arith, lo, λ (e : v / 2 ≡ 0). ap (λ (k : ℕ). 2 ^ k) (z e), p),
          ground arith,
        )
]

pow_octets : (n : ℕ) → 256 ^ n ≡ 2 ^ (8 * n)
pow_octets zero = refl
pow_octets (suc n) =
    let e : 8 * suc n ≡ 8 * n + 8 = omega arith in
    rw e (simp towards_suc (omega (arith, pow_octets n, pow-suc 256 n)))

low_bound :
    (b v : ℕ)
    → 2 ≤ (b + 7) / 8
    → (0 < v → 2 ^ b ≤ 2 * v)
    → (v ≡ 0 → b ≡ 0)
    → 256 ^ ((b + 7) / 8 - 1) ≤ v
low_bound b v two lo z =
    let k = 8 * ((b + 7) / 8 - 1) in
    ground (
      arith,
      pow_octets ((b + 7) / 8 - 1),
      pow-suc 2 k,
      pow-le-pow_right {n = 2} (omega arith) {i = suc k} {j = b} (omega arith),
      lo,
      z,
    )

-- `octet_count` is the least number of octets that hold `v`, and at least one.
pub octet_count_bounds :
    (v : ℕ)
    → (1 ≤ octet_count v)
      × (v < 256 ^ octet_count v)
      × (1 < octet_count v → 256 ^ (octet_count v - 1) ≤ v)
unfolding octet_count bit_length
octet_count_bounds v =
    let b = bit_length_fuel v v in
    let (hi, lo, z) = bit_length_bounds v v (omega arith) in
    elim (Bool-cases ((b + 7) / 8 == 0)) [
      | inl none_there ↦ rw none_there (
        omega arith,
        omega (arith, hi, ap (λ (k : ℕ). 2 ^ k) (let e : b ≡ 0 = ground arith in e)),
        λ bad. absurd (omega arith),
      )
      | inr many ↦ rw many (
        ground arith,
        omega (
          arith,
          hi,
          pow_octets ((b + 7) / 8),
          pow-le-pow_right {n = 2} (omega arith) {i = b} {j = 8 * ((b + 7) / 8)} (omega arith),
        ),
        λ two. low_bound b v two lo z,
      )
    ]

acc_step : (x acc b p : ℕ) → x < (acc * 256 + b + 1) * p → b < 256 → x < (acc + 1) * (p * 256)
acc_step x acc b p h hb =
    omega (arith, mul-le-mul_right {m = acc * 256 + b + 1} {n = (acc + 1) * 256} p (omega arith))

-- The octets of `bs` make a number below 256 ^ length, above those before them.
from_be_acc-lt :
    (acc : ℕ) (bs : List ℕ) → All IsByte bs → from_be_acc acc bs < (acc + 1) * 256 ^ length bs
unfolding from_be_acc
from_be_acc-lt acc [] h = omega arith
from_be_acc-lt acc (b ∷ bs) (hb, h) =
    rw (pow-suc 256 (length bs))
      (acc_step _ acc b (256 ^ length bs) (from_be_acc-lt (acc * 256 + b) bs h) hb)

from_be-lt :
    (m : ℕ) (bs : List ℕ)
    → All IsByte bs
    → length bs ≡ suc m
    → get_or bs 0 0 ≡ 0
    → from_be bs < 256 ^ m
unfolding from_be
from_be-lt m [] h l z = absurd (omega arith)
from_be-lt m (x ∷ xs) (hx, h) l z =
    let e : length xs ≡ m = omega arith in
    let r : from_be_acc 0 (x ∷ xs) ≡ from_be_acc (0 * 256 + x) xs = refl in
    let same : 256 ^ length xs ≡ 256 ^ m = ap (λ (k : ℕ). 256 ^ k) e in
    let acc : 0 * 256 + x ≡ 0 = omega arith in
    rw (r, acc) (omega (arith, same, from_be_acc-lt 0 xs h))

first_octet : (n v : ℕ) → 256 ^ (n - 1) ≤ v → v < 256 ^ n → get_or (be_bytes n v) 0 0 ≢ 0
first_octet zero v lo hi = absurd (omega arith)
first_octet (suc m) v lo hi = λ z. omega (
  arith,
  ap (λ (k : ℕ). 256 ^ k) (let e : suc m - 1 ≡ m = omega arith in e),
  from_be-lt m (be_bytes (suc m) v) (be_bytes-IsByte (suc m) v) (length-be_bytes (suc m) v) z,
  from_be-be_bytes (suc m) v hi,
)

-- A number below 2 ^ (8 * k) takes at most k octets.
octet_count-le : (k v : ℕ) → 1 ≤ k → v < 256 ^ k → octet_count v ≤ k
octet_count-le k v one h = elim (dec_lt k (octet_count v)) [
  | no p ↦ omega arith
  | yes p ↦
      let (pos, hi, lo) = octet_count_bounds v in
      absurd (
        omega (
          arith,
          lo (omega arith),
          pow-le-pow_right {n = 256} (omega arith) {i = k} {j = octet_count v - 1} (omega arith),
        ))
]

-- What the reader checks of the `n` octets of `v`.
record Written (n v : ℕ) : Type 0 where
  positive : 1 ≤ n
  size : length (be_bytes n v) ≡ n
  value : from_be (be_bytes n v) ≡ v
  led : 1 < n → get_or (be_bytes n v) 0 0 ≢ 0

written : (v : ℕ) → Written (octet_count v) v
written v =
    let (pos, hi, lo) = octet_count_bounds v in
    record {
      positive = pos;
      size = length-be_bytes (octet_count v) v;
      value = from_be-be_bytes (octet_count v) v hi;
      led = λ two. first_octet (octet_count v) v (lo two) hi;
    }

-- The gNB's reader gives back any AMF-UE-NGAP-ID that the gNB writes.
pub id_value-amf_ue_ngap_id :
    (v : ℕ) (bs : List ℕ) → amf_ue_ngap_id v ≡ some bs → id_value bs 3 5 ≡ some v
unfolding amf_ue_ngap_id id_value
id_value-amf_ue_ngap_id v bs h = ground (arith, written v, octet_count-le 5 v (omega arith))

-- The gNB's reader gives back any RAN-UE-NGAP-ID that the gNB writes.
pub id_value-ran_ue_ngap_id :
    (v : ℕ) (bs : List ℕ) → ran_ue_ngap_id v ≡ some bs → id_value bs 2 4 ≡ some v
unfolding ran_ue_ngap_id id_value
id_value-ran_ue_ngap_id v bs h = ground (arith, written v, octet_count-le 4 v (omega arith))

pub length-amf_ue_ngap_id : (v : ℕ) (bs : List ℕ) → amf_ue_ngap_id v ≡ some bs → length bs ≤ 6
unfolding amf_ue_ngap_id uint
length-amf_ue_ngap_id v bs h =
    ground (arith, octet_count-le 5 v (omega arith), length-be_bytes (octet_count v) v)

pub length-ran_ue_ngap_id : (v : ℕ) (bs : List ℕ) → ran_ue_ngap_id v ≡ some bs → length bs ≤ 5
unfolding ran_ue_ngap_id uint
length-ran_ue_ngap_id v bs h =
    ground (arith, octet_count-le 4 v (omega arith), length-be_bytes (octet_count v) v)
