-- ===== src/RanLink/Payload/Examples.antt =====
-- Concrete payloads.
use core_network_traffic_gen.Common.{ℕ, ◌≡◌, refl, List, [], ◌∷◌, err}
use core_network_traffic_gen.RanLink.Event.{bad_utf8}
use core_network_traffic_gen.RanLink.Payload.{parse_up_control}
use core_network_traffic_gen.RanLink.Payload.{decode_supi, is_utf8}

abbrev s_tmsi : List ℕ
s_tmsi = 1 ∷ 2 ∷ 3 ∷ 4 ∷ 5 ∷ 6 ∷ []

abbrev connect_octets : List ℕ
connect_octets = 3 ∷ 1 ∷ 1 ∷ 2 ∷ 3 ∷ 4 ∷ 5 ∷ 6 ∷ 0x7e ∷ 0 ∷ 0x41 ∷ []

abbrev up_octets : List ℕ
up_octets = 1 ∷ 4 ∷ 10 ∷ 0 ∷ 0 ∷ 1 ∷ b'i' ∷ b'm' ∷ []

bad_supi : parse_up_control (1 ∷ 0 ∷ 0xff ∷ []) ≡ err bad_utf8
unfolding parse_up_control decode_supi is_utf8
bad_supi = refl
