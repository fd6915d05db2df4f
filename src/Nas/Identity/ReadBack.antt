-- ===== src/Nas/Identity/ReadBack.antt =====
-- Readers of the identities, written after TS 24.501 and TS 23.003, and that they read back what is
-- written.
use core_network_traffic_gen.Common.{
  ℕ, zero, suc, ◌+◌, ◌-◌, ◌*◌, ◌/◌, ◌%◌, ◌≤◌, ◌<◌, ◌≡◌, refl, ap, ◌∙◌, arith, ◌==◌, if◌then◌else◌,
}
use core_network_traffic_gen.Common.{
  true, ◌&&◌, ◌||◌, Bool-cases, inl, inr, Option, none, some, List, [], ◌∷◌, ◌++◌, length,
  length-append, take, drop, take-append, drop-append,
}
use core_network_traffic_gen.Common.Bytes.{be_bytes, from_be, from_be-be_bytes, length-be_bytes}
use core_network_traffic_gen.Nas.Identity.{
  plmn_octet, filled, all_digits, suci, snssai, extend, split, with_lengths, dnn,
}

-- The labels of a DNN's octets, on fuel: each label takes an octet at least.
unfoldable pub read_labels : ℕ → List ℕ → List (List ℕ)
read_labels zero bs = []
read_labels (suc fuel) [] = []
read_labels (suc fuel) (n ∷ bs) = take n bs ∷ read_labels fuel (drop n bs)

-- The labels with dots between them.
unfoldable pub dotted : List (List ℕ) → List ℕ
dotted [] = []
dotted (label ∷ []) = label
dotted (label ∷ next ∷ labels) = label ++ (46 ∷ dotted (next ∷ labels))

read_labels-with_lengths :
    (labels : List (List ℕ)) (fuel : ℕ)
    → length labels ≤ fuel
    → read_labels fuel (with_lengths labels) ≡ labels
unfolding read_labels with_lengths
read_labels-with_lengths [] zero h = refl
read_labels-with_lengths [] (suc fuel) h = refl
read_labels-with_lengths (label ∷ labels) zero h = absurd (omega arith)
read_labels-with_lengths (label ∷ labels) (suc fuel) h =
    rw
      (
        take-append (length label) label (with_lengths labels) refl,
        drop-append (length label) label (with_lengths labels) refl,
        read_labels-with_lengths labels fuel (omega arith),
      )
      refl

-- There is a first label.
split_first :
    (name : List ℕ) → (label : List ℕ) × (labels : List (List ℕ)) × (split name ≡ label ∷ labels)
unfolding split
split_first [] = ([], [], refl)
split_first (c ∷ cs) = elim (Bool-cases (c == 46)) [
  | inl e ↦ ([], split cs, rw e refl)
  | inr e ↦ let (label, labels, h) = split_first cs in (c ∷ label, labels, rw (e, h) refl)
]

dotted-extend :
    (c : ℕ) (label : List ℕ) (labels : List (List ℕ))
    → dotted (extend c (label ∷ labels)) ≡ c ∷ dotted (label ∷ labels)
unfolding dotted
dotted-extend c label [] = refl
dotted-extend c label (next ∷ labels) = refl

dotted-split : (name : List ℕ) → dotted (split name) ≡ name
unfolding dotted split
dotted-split [] = refl
dotted-split (c ∷ cs) =
    let (label, labels, h) = split_first cs in
    let rest : dotted (label ∷ labels) ≡ cs = rw h at (dotted-split cs) in
    elim (Bool-cases (c == 46)) [
      | inl e ↦
          let dot : 46 ≡ c = ground arith in
          rw (e, h) (ap (λ xs. 46 ∷ xs) rest ∙ ap (λ x. x ∷ cs) dot)
      | inr e ↦ rw (e, h) (dotted-extend c label labels ∙ ap (λ xs. c ∷ xs) rest)
    ]

length-with_lengths : (labels : List (List ℕ)) → length labels ≤ length (with_lengths labels)
unfolding with_lengths
length-with_lengths [] = omega arith
length-with_lengths (label ∷ labels) =
    omega (arith, length-with_lengths labels, length-append label (with_lengths labels))

dnn_value :
    (name value : List ℕ)
    → dnn name ≡ some value
    → (value ≡ with_lengths (split name)) × (length value ≤ 255)
unfolding dnn
dnn_value name value h =
    let same : value ≡ with_lengths (split name) = ground arith in (same, rw same (ground arith))

-- The labels of the octets of a DNN that is taken, with dots between them, are the name; there are at
-- most 255 octets.
pub dotted-dnn :
    (name value : List ℕ)
    → dnn name ≡ some value
    → (dotted (read_labels (length value) value) ≡ name) × (length value ≤ 255)
dotted-dnn name value h =
    let (same, small) = dnn_value name value h in
    (
      rw same (
          rw
            (read_labels-with_lengths (split name) (length (with_lengths (split name)))
              (length-with_lengths (split name)))
            (dotted-split name)),
      small,
    )

-- An S-NSSAI's octets give back its SST, and its SD where there is one.
abbrev pub read_snssai : List ℕ → Option (ℕ × Option ℕ)
read_snssai (sst ∷ []) = some (sst, none)
read_snssai (sst ∷ a ∷ b ∷ c ∷ []) = some (sst, some (from_be (a ∷ b ∷ c ∷ [])))
read_snssai _ = none

read_four :
    (sst : ℕ) (bs : List ℕ) → length bs ≡ 3 → read_snssai (sst ∷ bs) ≡ some (sst, some (from_be bs))
read_four sst (a ∷ b ∷ c ∷ []) h = refl
read_four sst [] h = absurd (omega arith)
read_four sst (a ∷ []) h = absurd (omega arith)
read_four sst (a ∷ b ∷ []) h = absurd (omega arith)
read_four sst (a ∷ b ∷ c ∷ d ∷ bs) h = absurd (omega arith)

-- An S-NSSAI that is taken is read back, with its SD or without.
pub read_snssai-snssai :
    (sst : ℕ) (sd : Option ℕ) (value : List ℕ)
    → snssai sst sd ≡ some value
    → read_snssai value ≡ some (sst, sd)
unfolding snssai
read_snssai-snssai sst none value h = let same : value ≡ sst ∷ [] = ground arith in rw same refl
read_snssai-snssai sst (some sd) value h =
    let same : value ≡ sst ∷ be_bytes 3 sd = ground arith in
    let small : sd < 16777216 = ground arith in
    rw same (
      read_four sst (be_bytes 3 sd) (length-be_bytes 3 sd)
      ∙ ap (λ n. some (sst, some n)) (from_be-be_bytes 3 sd (omega arith)))

-- The digits of a PLMN's three octets: those of the MCC, then those of the MNC.
abbrev pub read_plmn : ℕ → ℕ → ℕ → List ℕ
read_plmn a b c =
    a % 16 ∷ a / 16 ∷ b % 16 ∷ c % 16 ∷ c / 16 ∷ (if b / 16 == 15 then [] else b / 16 ∷ [])

-- A SUCI of the null scheme: the PLMN's digits, and the octets of the MSIN.
unfoldable pub read_suci : List ℕ → Option (List ℕ × List ℕ)
read_suci (m ∷ n ∷ kind ∷ a ∷ b ∷ c ∷ routing ∷ routing' ∷ scheme ∷ home_key ∷ msin) =
    if kind == 1
      && routing == 0
      && routing' == 0
      && scheme == 0
      && home_key == 0
      && m * 256 + n == length msin + 8
    then some (read_plmn a b c, msin)
    else none
read_suci _ = none

abbrev pub digits_of : List ℕ → List ℕ
digits_of [] = []
digits_of (c ∷ cs) = (c - 48) ∷ digits_of cs

read_plmn_lem :
    (plmn : List ℕ)
    → (length plmn == 5 || length plmn == 6) ≡ true
    → all_digits plmn ≡ true
    → read_plmn
        (plmn_octet (filled plmn) 1 0)
        (plmn_octet (filled plmn) 5 2)
        (plmn_octet (filled plmn) 4 3)
      ≡ digits_of plmn
unfolding all_digits
read_plmn_lem (p ∷ q ∷ r ∷ s ∷ t ∷ []) n d = ground arith
read_plmn_lem (p ∷ q ∷ r ∷ s ∷ t ∷ u ∷ []) n d = ground arith
read_plmn_lem [] n d = absurd (ground arith)
read_plmn_lem (p ∷ []) n d = absurd (ground arith)
read_plmn_lem (p ∷ q ∷ []) n d = absurd (ground arith)
read_plmn_lem (p ∷ q ∷ r ∷ []) n d = absurd (ground arith)
read_plmn_lem (p ∷ q ∷ r ∷ s ∷ []) n d = absurd (ground arith)
read_plmn_lem (p ∷ q ∷ r ∷ s ∷ t ∷ u ∷ v ∷ more) n d = absurd (ground arith)

-- A SUCI that is taken is read back: the digits of the MCC and the MNC, and the MSIN as pycrate's
-- encode_bcd gives it.
pub read_suci-suci :
    (encode_bcd : List ℕ → List ℕ) (mcc mnc msin value : List ℕ)
    → suci encode_bcd mcc mnc msin ≡ some value
    → read_suci value ≡ some (digits_of (mcc ++ mnc), encode_bcd msin)
unfolding suci read_suci be_bytes
read_suci-suci encode_bcd mcc mnc msin value h = ground (arith, read_plmn_lem (mcc ++ mnc))
