-- ===== src/Ngap/Pdu.antt =====
-- `_ie` and `_message` of src/ngapfast.py: a ProtocolIE-Field and an NGAP-PDU around its IEs.
pub mod Reader
use core_network_traffic_gen.Common.{ℕ, suc, ◌+◌, ◌/◌, ◌%◌, List, [], ◌∷◌, ◌++◌, length}
use core_network_traffic_gen.Ngap.Aper.{wrap}

abbrev pub reject : ℕ
reject = 0x00

abbrev pub ignore : ℕ
ignore = 0x40

-- `n.to_bytes(2, 'big')`, of an id or a count below 65536
abbrev pub two_octets : ℕ → List ℕ
two_octets n = n / 256 ∷ n % 256 ∷ []

unfoldable pub ie : ℕ → ℕ → List ℕ → List ℕ
ie ie_id crit value = two_octets ie_id ++ (crit ∷ wrap value)

abbrev pub join : List (List ℕ) → List ℕ
join [] = []
join (xs ∷ xss) = xs ++ join xss

unfoldable pub message : List ℕ → List (List ℕ) → List ℕ
message head ies = head ++ wrap (0 ∷ (two_octets (length ies) ++ join ies))
