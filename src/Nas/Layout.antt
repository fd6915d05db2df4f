-- ===== src/Nas/Layout.antt =====
-- `Layout.walk` of src/nasfast.py. A layout, which pycrate's classes give, is data here: an IE's name is
-- a number, and `match` gives the optional IEs that an octet may start, in the class's order.
use core_network_traffic_gen.Common.{
  ℕ, zero, suc, ◌+◌, ◌*◌, ◌/◌, ◌%◌, ltb, leb, ◌==◌, if◌then◌else◌,
}
use core_network_traffic_gen.Common.{
  Bool, true, false, not, ◌||◌, Option, none, some, List, [], ◌∷◌, length, get_or, get_elem?,
}

-- `_FIXED`, `_NIBBLE`, `_V`, `_LV` and `_LVE`
pub data Mandatory : Type 0 where
  fixed nibble v lv lve : Mandatory

-- `_TV1`, `_T2`, `_TV`, `_TLV` and `_TLVE`
pub data Optional : Type 0 where
  tv1 t2 tv tlv tlve : Optional

pub record Layout : Type 0 where
  pub mand : List (ℕ × Mandatory × ℕ)
  pub opts : List (ℕ × Optional × ℕ)
  pub match : ℕ → List ℕ

-- A value: a nibble, True, or the two ends of its octets.
pub data Value : Type 0 where
  small : ℕ → Value
  present : Value
  span : ℕ → ℕ → Value

-- The names with their values, the latest first.
abbrev pub Values : Type 0
Values = List (ℕ × Value)

-- The start and end of a mandatory value that starts at the octet `o`.
unfoldable pub mand_span : List ℕ → Mandatory → ℕ → ℕ → Option (ℕ × ℕ)
mand_span buf v size o = some (o, o + size / 8)
mand_span buf lv size o = if leb (length buf) o then none else some (o + 1, o + 1 + get_or buf o 0)
mand_span buf _ size o =
    if leb (length buf) (o + 1)
    then none
    else some (o + 2, o + 2 + (get_or buf o 0 * 256 + get_or buf (o + 1) 0))

-- A span within the message, the bit behind it and the values with it.
unfoldable pub place_span : List ℕ → ℕ → Option (ℕ × ℕ) → Values → Option (ℕ × Values)
place_span buf name none vals = none
place_span buf name (some (start, end)) vals =
    if ltb (length buf) end then none else some (end * 8, (name, span start end) ∷ vals)

-- A mandatory IE at `bit`: the bit behind it, and the values.
unfoldable pub mand_step : List ℕ → ℕ × Mandatory × ℕ → ℕ → Values → Option (ℕ × Values)
unfolding mand_span place_span
mand_step buf (name, fixed, size) bit vals = some (bit + size, vals)
mand_step buf (name, nibble, size) bit vals =
    let b = get_or buf (bit / 8) 0 in
    if leb (length buf) (bit / 8)
    then none
    else some (bit + 4, (name, small (if bit % 8 == 0 then b / 16 else b % 16)) ∷ vals)
mand_step buf (name, kind, size) bit vals =
    if not (bit % 8 == 0)
    then none
    else place_span buf name (mand_span buf kind size (bit / 8)) vals

unfoldable pub mand_walk : List ℕ → List (ℕ × Mandatory × ℕ) → ℕ → Values → Option (ℕ × Values)
unfolding mand_step
mand_walk buf [] bit vals = some (bit, vals)
mand_walk buf (ie ∷ ies) bit vals = elim (mand_step buf ie bit vals) [
  | none ↦ none
  | some (bit', vals') ↦ mand_walk buf ies bit' vals'
]

abbrev pub elem : ℕ → List ℕ → Bool
elem x [] = false
elem x (y ∷ ys) = x == y || elem x ys

-- The first of the matching IEs that was not used.
unfoldable pub first_unused : List ℕ → List ℕ → Option ℕ
first_unused used [] = none
first_unused used (i ∷ is) = if elem i used then first_unused used is else some i

-- The place behind an optional IE of `kind` at `o`, and its value.
unfoldable pub opt_value : List ℕ → Optional → ℕ → ℕ → Option (ℕ × Value)
opt_value buf tv1 size o = some (o + 1, small (get_or buf o 0 % 16))
opt_value buf t2 size o = some (o + 1, present)
opt_value buf tv size o =
    if ltb (length buf) (o + 1 + size)
    then none
    else some (o + 1 + size, span (o + 1) (o + 1 + size))
opt_value buf tlv size o =
    let end = o + 2 + get_or buf (o + 1) 0 in
    if leb (length buf) (o + 1) || ltb (length buf) end then none else some (end, span (o + 2) end)
opt_value buf tlve size o =
    let end = o + 3 + (get_or buf (o + 1) 0 * 256 + get_or buf (o + 2) 0) in
    if leb (length buf) (o + 2) || ltb (length buf) end then none else some (end, span (o + 3) end)

-- One turn of the loop over the optional IEs.
unfoldable pub opt_step : Layout → List ℕ → ℕ → List ℕ → Values → Option (ℕ × List ℕ × Values)
unfolding first_unused opt_value
opt_step l buf o used vals = elim (first_unused used (l.match (get_or buf o 0))) [
  | none ↦ none
  | some i ↦ elim (get_elem? l.opts i) [
    | none ↦ none
    | some (name, kind, size) ↦ elim (opt_value buf kind size o) [
      | none ↦ none
      | some (next, value) ↦ some (next, i ∷ used, (name, value) ∷ vals)
    ]
  ]
]

-- The loop, on fuel: each turn takes an octet at least.
unfoldable pub opt_walk : ℕ → Layout → List ℕ → ℕ → List ℕ → Values → Option Values
unfolding opt_step
opt_walk zero l buf o used vals = if ltb o (length buf) then none else some vals
opt_walk (suc fuel) l buf o used vals = elim (ltb o (length buf)) [
  | false ↦ some vals
  | true ↦ elim (opt_step l buf o used vals) [
    | none ↦ none
    | some (next, used', vals') ↦ opt_walk fuel l buf next used' vals'
  ]
]

unfoldable pub walk : Layout → List ℕ → Option Values
unfolding mand_walk opt_walk
walk l buf = elim (mand_walk buf l.mand 0 []) [
  | none ↦ none
  | some (bit, vals) ↦
      if not (bit % 8 == 0) || ltb (length buf * 8) bit
      then none
      else opt_walk (length buf) l buf (bit / 8) [] vals
]
