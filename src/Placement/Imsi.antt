-- ===== src/Placement/Imsi.antt =====
-- The SUPI of a UE that `create_ues` of run.py makes, read back the way it reads a profile's SUPI.
use core_network_traffic_gen.Common.{
  ℕ, zero, suc, ◌+◌, ◌-◌, ◌*◌, ◌/◌, ◌%◌, ◌^◌, ◌≤◌, ◌<◌, ◌≡◌, refl, sym, ap, ◌∙◌, arith,
}
use core_network_traffic_gen.Common.{
  leb, lt→ltb, true, false, some, List, [], ◌∷◌, ◌++◌, length, length-append, append-nil,
  append_assoc, take-append, drop-append,
}
use native.Mathlib.Nat.{pow-suc, mul_assoc, mod-lt, div-add-mod'}
use core_network_traffic_gen.Placement.Ues.{
  Profile, int_from, int, decimal, extra_digits, padded, base_of, init_of,
}

length-decimal : (width value : ℕ) → length (decimal width value) ≡ width
unfolding decimal
length-decimal zero value = refl
length-decimal (suc width) value =
    length-append (decimal width (value / 10)) ((48 + value % 10) ∷ [])
    ∙ omega (arith, length-decimal width (value / 10))

-- A digit adds its value after the others.
digit :
    (acc d : ℕ) (more : List ℕ)
    → d < 10
    → int_from acc ((48 + d) ∷ more) ≡ int_from (acc * 10 + d) more
unfolding int_from
digit acc d more small =
    let low : leb 48 (48 + d) ≡ true = ground arith in
    let high : leb (48 + d) 57 ≡ true = ground arith in
    rw (low, high) (ap (λ c. int_from (acc * 10 + c) more) (omega arith))

moved :
    (start width value : ℕ)
    → (start * 10 ^ width + value / 10) * 10 + value % 10 ≡ start * 10 ^ suc width + value
moved start width value = omega (
  arith,
  ap (λ p. start * p) (pow-suc 10 width) ∙ sym (mul_assoc start (10 ^ width) 10),
  div-add-mod' value 10,
)

shorter : (width value : ℕ) → value < 10 ^ suc width → value / 10 < 10 ^ width
shorter width value h = omega (arith, pow-suc 10 width)

int_from-decimal :
    (width value start : ℕ) (more : List ℕ)
    → value < 10 ^ width
    → int_from start (decimal width value ++ more) ≡ int_from (start * 10 ^ width + value) more
unfolding decimal
int_from-decimal zero value start more h = ap (λ v. int_from v more) (omega arith)
int_from-decimal (suc width) value start more h =
    ap (int_from start) (append_assoc (decimal width (value / 10)) ((48 + value % 10) ∷ []) more)
    ∙ int_from-decimal width (value / 10) start ((48 + value % 10) ∷ more) (shorter width value h)
    ∙ digit (start * 10 ^ width + value / 10) (value % 10) more (mod-lt value (omega arith))
    ∙ ap (λ v. int_from v more) (moved start width value)

-- A text that is not empty is read digit by digit.
int-int_from : (cs : List ℕ) → 1 ≤ length cs → int cs ≡ int_from 0 cs
unfolding int
int-int_from [] h = absurd (omega arith)
int-int_from (c ∷ cs) h = refl

extra_digits_none : (i : ℕ) → i < 10000000000 → extra_digits i i ≡ 0
unfolding extra_digits
extra_digits_none zero h = refl
extra_digits_none (suc i) h =
    ap (λ b. elim b [ true ↦ 0 | false ↦ suc (extra_digits i (suc i / 10)) ])
      (lt→ltb (suc i) 10000000000 h)

padded_lem : (i : ℕ) → i < 10000000000 → padded i ≡ decimal 10 i
unfolding padded
padded_lem i h = ap (λ n. decimal (10 + n) i) (extra_digits_none i h)

none_before : (i : ℕ) → 0 + i ≡ i
none_before i = omega arith

read-padded : (i : ℕ) → i < 10000000000 → int (padded i) ≡ some i
unfolding int_from
read-padded i h =
    let text : padded i ≡ decimal 10 i = padded_lem i h in
    ap int (text ∙ sym (append-nil (decimal 10 i)))
    ∙ int-int_from (decimal 10 i ++ [])
        (omega (arith, length-decimal 10 i, length-append (decimal 10 i) []))
    ∙ int_from-decimal 10 i 0 [] h
    ∙ ap some (none_before i)

-- The SUPI that a UE of index i gets has the profile's digits and then ten that read back as i, for an
-- index of ten digits.
pub init_of-padded {ℓ} :
    {C : Type ℓ} (profile : Profile C) (base_imsi : List ℕ) (i : ℕ)
    → i < 10000000000
    → (base_of (record profile { supi = base_imsi ++ padded i }) ≡ base_imsi)
      × (init_of (record profile { supi = base_imsi ++ padded i }) ≡ some i)
unfolding base_of init_of
init_of-padded profile base_imsi i h =
    let cut : length (base_imsi ++ padded i) - 10 ≡ length base_imsi = omega (
      arith,
      length-append base_imsi (padded i),
      ap length (padded_lem i h),
      length-decimal 10 i,
    ) in
    (
      take-append (length (base_imsi ++ padded i) - 10) base_imsi (padded i) cut,
      ap int (drop-append (length (base_imsi ++ padded i) - 10) base_imsi (padded i) cut)
          ∙ read-padded i h,
    )
