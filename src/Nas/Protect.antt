-- ===== src/Nas/Protect.antt =====
-- `protect` of src/nasfast.py: an uplink message security protected. CryptoMobile's algorithms are a
-- parameter; `none` is an exception of theirs.
pub mod Receive
use core_network_traffic_gen.Common.{
  ℕ, ◌+◌, ◌%◌, ◌==◌, if◌then◌else◌, Bool, true, false, not, ◌&&◌, Option, none, some, List, [], ◌∷◌,
  ◌++◌, length,
}

-- Key, COUNT, bearer, direction and message
abbrev pub Algorithm : Type 0
Algorithm = List ℕ → ℕ → ℕ → ℕ → List ℕ → Option (List ℕ)

-- `_FGEA` and `_FGIA`
pub record Algorithms : Type 0 where
  pub fgea : ℕ → Option Algorithm
  pub fgia : ℕ → Option Algorithm

-- A UE's security context.
pub record Security : Type 0 where
  pub ciph_algo : ℕ
  pub integ_algo : ℕ
  pub k_nas_enc : List ℕ
  pub k_nas_int : List ℕ
  pub ul_nas_count : ℕ

-- The algorithm of a number is applied; the null algorithm's result is given.
unfoldable pub apply :
    (ℕ → Option Algorithm) → ℕ → List ℕ → List ℕ → ℕ → ℕ → List ℕ → Option (List ℕ)
apply table n null key count dir message = elim (n == 0) [
  | true ↦ some null
  | false ↦ elim (table n) [ none ↦ none | some algorithm ↦ algorithm key count 1 dir message ]
]

abbrev pub header_type : Security → ℕ
header_type s = if s.ciph_algo == 0 && s.integ_algo == 0 then 0 else 2

-- The message from its MAC and its ciphered part.
abbrev pub protected : Security → ℕ → List ℕ → List ℕ → List ℕ
protected s count mac ciphered = 126 ∷ header_type s ∷ (mac ++ (count % 256 ∷ ciphered))

-- `count`, or the UE's own
abbrev pub count_of : Option ℕ → Security → ℕ
count_of none s = s.ul_nas_count
count_of (some n) s = n

unfoldable pub protect : Algorithms → Option ℕ → List ℕ → Security → Option (List ℕ × Security)
unfolding apply
protect a given plain s =
    let count = count_of given s in
    elim (apply a.fgea s.ciph_algo plain s.k_nas_enc count 0 plain) [
      | none ↦ none
      | some ciphered ↦
          elim (apply a.fgia s.integ_algo (0 ∷ 0 ∷ 0 ∷ 0 ∷ []) s.k_nas_int count 0
            (count % 256 ∷ ciphered)) [
              | none ↦ none
              | some mac ↦
                  if not (length mac == 4)
                  then none
                  else some (protected s count mac ciphered, record s { ul_nas_count = count + 1 })
            ]
    ]
