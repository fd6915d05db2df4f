-- ===== src/Ngap/Aper.antt =====
-- The APER encodings of src/ngapfast.py (X.691): length determinants and bounded integers. An octet
-- string is a list of numbers below 256.
pub mod Integers
pub mod Lengths
pub mod Fragments
use core_network_traffic_gen.Common.{
  ℕ, zero, suc, ◌+◌, ◌-◌, ◌*◌, ◌/◌, ◌%◌, ◌^◌, ltb, leb, ◌==◌, if◌then◌else◌,
}
use core_network_traffic_gen.Common.{
  Bool, true, false, not, ◌&&◌, ◌||◌, Option, none, some, List, [], ◌∷◌, ◌++◌,
}
use core_network_traffic_gen.Common.{length, take, drop, slice, get_or}
use core_network_traffic_gen.Common.Bytes.{be_bytes, from_be}

infixl 5 ◌>>=◌ ◌>>◌
abbrev pub ◌>>=◌ {ℓ κ} : {A : Type ℓ} {B : Type κ} → Option A → (A → Option B) → Option B
none >>= f = none
some a >>= f = f a

abbrev pub ◌>>◌ {ℓ} : {B : Type ℓ} → Option (Unit {0}) → Option B → Option B
m >> k = m >>= λ _. k

abbrev pub guard : Bool → Option (Unit {0})
guard true = some tt
guard false = none

abbrev pub fragment_sizes : List ℕ
fragment_sizes = 65536 ∷ 49152 ∷ 32768 ∷ 16384 ∷ []

-- A length below 16384: one octet below 128, else two.
unfoldable pub short_length : ℕ → List ℕ
short_length n = if ltb n 128 then n ∷ [] else (128 + n / 256) ∷ (n % 256) ∷ []

-- `count` fragments of `size` octets from the front of `rest`, and what is left.
unfoldable pub cut_fragments : ℕ → ℕ → List ℕ → List ℕ × List ℕ
cut_fragments size zero rest = ([], rest)
cut_fragments size (suc count) rest =
    let (out, left) = cut_fragments size count (drop size rest) in
    ((192 + size / 16384) ∷ (take size rest ++ out), left)

-- `for size in _FRAGMENTS`, then the length of what is left, and it.
unfoldable pub fragments : List ℕ → List ℕ → List ℕ
unfolding short_length cut_fragments
fragments [] rest = short_length (length rest) ++ rest
fragments (size ∷ sizes) rest =
    let (out, left) = cut_fragments size (length rest / size) rest in out ++ fragments sizes left

unfoldable pub wrap : List ℕ → List ℕ
wrap value =
    if ltb (length value) 16384
    then short_length (length value) ++ value
    else fragments fragment_sizes value

-- int.bit_length(), on fuel: a number has at most as many bits as its value.
bit_length_fuel : ℕ → ℕ → ℕ
bit_length_fuel zero v = 0
bit_length_fuel (suc f) v = elim (v == 0) [ true ↦ 0 | false ↦ suc (bit_length_fuel f (v / 2)) ]

unfoldable pub bit_length : ℕ → ℕ
unfolding bit_length_fuel
bit_length v = bit_length_fuel v v

-- `(v.bit_length() + 7) >> 3 or 1`
unfoldable pub octet_count : ℕ → ℕ
octet_count v = if (bit_length v + 7) / 8 == 0 then 1 else (bit_length v + 7) / 8

-- `_uint`: `none` out of range.
unfoldable pub uint : ℕ → ℕ → ℕ → Option (List ℕ)
uint v ubits lbits =
    if ltb v (2 ^ ubits)
    then some ((octet_count v - 1) * 2 ^ (8 - lbits) ∷ be_bytes (octet_count v) v)
    else none

unfoldable pub amf_ue_ngap_id : ℕ → Option (List ℕ)
unfolding uint
amf_ue_ngap_id v = uint v 40 3

unfoldable pub ran_ue_ngap_id : ℕ → Option (List ℕ)
unfolding uint
ran_ue_ngap_id v = uint v 32 2

-- `_length`: the offset of the value, and its length; `none` where it is not in its canonical form
-- below 16384.
unfoldable pub length_at : List ℕ → ℕ → ℕ → Option (ℕ × ℕ)
length_at buf o end =
    if leb end o
    then none
    else let b = get_or buf o 0 in
      let n = b % 64 * 256 + get_or buf (o + 1) 0 in
      if ltb b 128
      then some (o + 1, b)
      else if not (b / 64 == 2) || leb end (o + 1)
      then none
      else if ltb n 128
      then none
      else some (o + 2, n)

-- `_id`: a UE NGAP ID's value from the whole of `value`.
unfoldable pub id_value : List ℕ → ℕ → ℕ → Option ℕ
id_value value lbits max_octets =
    let b = get_or value 0 0 in
    let n = b / 2 ^ (8 - lbits) + 1 in
    if ltb (length value) 2
    then none
    else if not (b % 2 ^ (8 - lbits) == 0)
        || ltb max_octets n
        || not (length value == 1 + n)
        || (ltb 1 n && get_or value 1 0 == 0)
    then none
    else some (from_be (drop 1 value))

-- `_octets`: an OCTET STRING's octets from the whole of `value`.
unfoldable pub octets : List ℕ → Option (List ℕ)
octets value = do
  (o, n) ← length_at value 0 (length value)
  guard (o + n == length value)
  some (drop o value)
