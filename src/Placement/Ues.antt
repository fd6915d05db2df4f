-- ===== src/Placement/Ues.antt =====
-- `create_ues` and `split_ues` of run.py: the UEs of the profiles dealt out to the gNBs, and a gNB's
-- UEs dealt out to its UE simulators. What raises ValueError or ZeroDivisionError is none.
use core_network_traffic_gen.Common.{
  ℕ, zero, suc, ◌+◌, ◌-◌, ◌*◌, ◌/◌, ◌%◌, ◌==◌, ltb, leb, if◌then◌else◌, true, false, ◌&&◌, not,
}
use core_network_traffic_gen.Common.{
  Option, none, some, List, [], ◌∷◌, ◌++◌, length, take, drop, replicate,
}
use core_network_traffic_gen.Common.Table.{insert}

-- A dictionary of UEs by their index, in the order of insertion.
abbrev pub Table {ℓ} : Type ℓ → Type ℓ
Table V = List (ℕ × V)

-- `parts[i]` changed in place
unfoldable pub amend {ℓ} : {A : Type ℓ} → ℕ → (A → A) → List A → List A
amend i f [] = []
amend zero f (x ∷ xs) = f x ∷ xs
amend (suc i) f (x ∷ xs) = x ∷ amend i f xs

-- `[part for part in parts if part]`
unfoldable pub non_empty {ℓ} : {A : Type ℓ} → List (List A) → List (List A)
non_empty [] = []
non_empty ([] ∷ parts) = non_empty parts
non_empty ((x ∷ xs) ∷ parts) = (x ∷ xs) ∷ non_empty parts

module _ {ℓ} {V : Type ℓ} where
  -- The loop of `split_ues` from place p on.
  unfoldable pub split_from : ℕ → ℕ → List (ℕ × V) → List (Table V) → List (Table V)
  split_from k p [] parts = parts
  split_from k p ((ue_id, ue) ∷ ues) parts =
      split_from k (suc p) ues (amend (p % k) (insert ue_id ue) parts)

  unfoldable pub split_ues : Table V → ℕ → Option (List (Table V))
  split_ues ue_list k =
      if (k == 0) && not (length ue_list == 0)
      then none
      else some (non_empty (split_from k 0 ue_list (replicate k [])))

-- A profile of ue.yaml: its number of UEs, the characters of the first SUPI, and all else.
pub record Profile {ℓ} (C : Type ℓ) : Type ℓ where
  pub count : ℕ
  pub supi : List ℕ
  pub other : C

-- `int(text)` of ASCII digits. The other texts that int() reads (a sign, blanks, underscores) are no
-- part of a SUPI, and none here.
unfoldable pub int_from : ℕ → List ℕ → Option ℕ
int_from value [] = some value
int_from value (c ∷ cs) = if leb 48 c && leb c 57 then int_from (value * 10 + (c - 48)) cs else none

unfoldable pub int : List ℕ → Option ℕ
int [] = none
int (c ∷ cs) = int_from 0 (c ∷ cs)

-- The last `width` decimal digits of a number.
unfoldable pub decimal : ℕ → ℕ → List ℕ
decimal zero value = []
decimal (suc width) value = decimal width (value / 10) ++ ((48 + value % 10) ∷ [])

-- The number of digits past the first ten, each test a division by ten, on fuel.
unfoldable pub extra_digits : ℕ → ℕ → ℕ
extra_digits zero value = 0
extra_digits (suc fuel) value = elim (ltb value 10000000000) [
  | true ↦ 0
  | false ↦ suc (extra_digits fuel (value / 10))
]

-- `f"{i:010d}"`
unfoldable pub padded : ℕ → List ℕ
padded i = decimal (10 + extra_digits i i) i

module _ {ℓ} {C : Type ℓ} where
  -- `ue_config["supi"][:-10]` and `ue_config["supi"][-10:]`
  unfoldable pub base_of : Profile C → List ℕ
  base_of profile = take (length profile.supi - 10) profile.supi

  unfoldable pub init_of : Profile C → Option ℕ
  init_of profile = int (drop (length profile.supi - 10) profile.supi)

module _ {ℓ} {C : Type ℓ} {U : Type ℓ} (new : Profile C → U) where
  -- `UE({**ue_config, "supi": imsi})` with the imsi of index i
  unfoldable pub ue_of : Profile C → List ℕ → ℕ → U
  ue_of profile base_imsi i = new (record profile { supi = base_imsi ++ padded i })

  -- The loop over a profile's indices, `n` of them from i on; p counts the UEs.
  unfoldable pub create_from :
      Profile C → List ℕ → ℕ → ℕ → ℕ → ℕ → List (Table U) → List (Table U) × ℕ
  create_from profile base_imsi x zero i p dicts = (dicts, p)
  create_from profile base_imsi x (suc n) i p dicts =
      create_from profile base_imsi x n (suc i) (suc p)
        (amend (p % x) (insert i (ue_of profile base_imsi i)) dicts)

  -- The loop over the profiles.
  unfoldable pub create_all :
      ℕ → List (Profile C) → ℕ → List (Table U) → Option (List (Table U) × ℕ)
  create_all x [] p dicts = some (dicts, p)
  create_all x (profile ∷ profiles) p dicts = elim (init_of profile) [
    | none ↦ none
    | some init_imsi ↦
        let made = create_from profile (base_of profile) x profile.count init_imsi p dicts in
        create_all x profiles made.1 made.0
  ]

  unfoldable pub create_ues : List (Profile C) → ℕ → Option (List (Table U) × ℕ)
  create_ues ue_profiles x = elim (create_all x ue_profiles 0 (replicate x [])) [
    | none ↦ none
    | some (dict_list, p) ↦
        if (x == 0) && not (p == 0)
        then none
        else some ((if ltb p x then take p dict_list else dict_list), p)
  ]
