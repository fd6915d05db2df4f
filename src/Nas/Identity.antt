-- ===== src/Nas/Identity.antt =====
-- The identities and names in src/nasfast.py's uplink messages: `_suci`, `_snssai` and `_dnn`. A str is
-- the list of its characters' codes, a DNN that of its UTF-8 octets. pycrate's encode_bcd is a
-- parameter.
pub mod ReadBack
use core_network_traffic_gen.Common.{ℕ, suc, ◌+◌, ◌-◌, ◌*◌, ltb, leb, ◌==◌, if◌then◌else◌}
use core_network_traffic_gen.Common.{
  Bool, true, false, not, ◌&&◌, ◌||◌, Option, none, some, List, [], ◌∷◌, ◌++◌, length, get_or,
}
use core_network_traffic_gen.Common.Bytes.{be_bytes}

-- `set(s) <= _DIGITS`
unfoldable pub all_digits : List ℕ → Bool
all_digits [] = true
all_digits (c ∷ cs) = leb 48 c && leb c 57 && all_digits cs

-- A hexadecimal digit's value, of the digits and of F.
abbrev pub hex : ℕ → ℕ
hex c = if c == 70 then 15 else c - 48

-- The octet of two of the PLMN's characters.
abbrev pub plmn_octet : List ℕ → ℕ → ℕ → ℕ
plmn_octet plmn high low = hex (get_or plmn high 0) * 16 + hex (get_or plmn low 0)

abbrev pub plmn_octets : List ℕ → List ℕ
plmn_octets plmn = plmn_octet plmn 1 0 ∷ plmn_octet plmn 5 2 ∷ plmn_octet plmn 4 3 ∷ []

-- `plmn += 'F'` for five digits
abbrev pub filled : List ℕ → List ℕ
filled plmn = if length plmn == 5 then plmn ++ (70 ∷ []) else plmn

-- `_suci`; `none` too where pack('>H', …) raises.
unfoldable pub suci : (List ℕ → List ℕ) → List ℕ → List ℕ → List ℕ → Option (List ℕ)
unfolding all_digits
suci encode_bcd mcc mnc msin =
    let plmn = mcc ++ mnc in
    let value = 1 ∷ (plmn_octets (filled plmn) ++ (0 ∷ 0 ∷ 0 ∷ 0 ∷ encode_bcd msin)) in
    if not ((length plmn == 5 || length plmn == 6) && all_digits plmn && all_digits msin)
    then none
    else if leb 65536 (length value)
    then none
    else some (be_bytes 2 (length value) ++ value)

-- `_snssai`, of an SST and an SD where it has one
unfoldable pub snssai : ℕ → Option ℕ → Option (List ℕ)
snssai sst none = if leb 256 sst then none else some (sst ∷ [])
snssai sst (some sd) = if leb 256 sst || leb 16777216 sd then none else some (sst ∷ be_bytes 3 sd)

-- A character at the front of the first label.
abbrev pub extend : ℕ → List (List ℕ) → List (List ℕ)
extend c [] = (c ∷ []) ∷ []
extend c (label ∷ labels) = (c ∷ label) ∷ labels

-- `dnn.split('.')`
unfoldable pub split : List ℕ → List (List ℕ)
split [] = [] ∷ []
split (c ∷ cs) = let rest = split cs in if c == 46 then [] ∷ rest else extend c rest

-- The labels, each behind its length.
unfoldable pub with_lengths : List (List ℕ) → List ℕ
with_lengths [] = []
with_lengths (label ∷ labels) = length label ∷ (label ++ with_lengths labels)

abbrev pub any_long : List (List ℕ) → Bool
any_long [] = false
any_long (label ∷ labels) = leb 256 (length label) || any_long labels

unfoldable pub dnn : List ℕ → Option (List ℕ)
unfolding split with_lengths
dnn name =
    let value = with_lengths (split name) in
    if any_long (split name) then none else if leb 256 (length value) then none else some value
