-- ===== src/RanLink/Payload/RoundTrip.antt =====
-- What the adapter reads from a payload is what the UE emulator put there.
use core_network_traffic_gen.Common.{
  ℕ, ◌+◌, ◌≡◌, refl, arith, true, Option, none, some, List, [], ◌∷◌,
}
use core_network_traffic_gen.Common.{
  length, length-append, take-append, drop-append, slice-append, drop-append₂, ok,
}
use core_network_traffic_gen.RanLink.Payload.{connect_payload, parse_connect, is_utf8, supi_octets}
use core_network_traffic_gen.RanLink.Payload.{
  up_control_payload, decode_supi, parse_up_control, data_payload, parse_data,
}

-- CONNECT gives back the cause, the 5G-S-TMSI if there was one, and the NAS PDU.
pub parse_connect-connect_payload :
    (nas_pdu : List ℕ) (cause : ℕ) (s_tmsi : Option (List ℕ)) (p : List ℕ)
    → connect_payload nas_pdu cause s_tmsi ≡ some p
    → parse_connect p ≡ ok (cause, s_tmsi, nas_pdu)
unfolding connect_payload parse_connect
parse_connect-connect_payload nas cause none p h = ground arith
parse_connect-connect_payload nas cause (some t) p h =
    ground (arith, length-append t nas, take-append 6 t nas, drop-append 6 t nas)

-- The SUPI that `parse_up_control` gives: an empty one is none.
abbrev pub read_supi : Option (List ℕ) → Option (List ℕ)
read_supi none = none
read_supi (some []) = none
read_supi (some (b ∷ bs)) = some (b ∷ bs)

decode_supi_lem :
    (s : Option (List ℕ))
    → is_utf8 (supi_octets s) ≡ true
    → decode_supi (supi_octets s) ≡ ok (read_supi s)
unfolding decode_supi
decode_supi_lem none h = refl
decode_supi_lem (some []) h = refl
decode_supi_lem (some (b ∷ bs)) h = ground arith

-- UP_CONTROL gives back the request, the address and the SUPI.
pub parse_up_control-up_control_payload :
    (address : List ℕ) (supi : Option (List ℕ)) (request : ℕ) (p : List ℕ)
    → is_utf8 (supi_octets supi) ≡ true
    → up_control_payload address supi request ≡ some p
    → parse_up_control p ≡ ok (request, address, read_supi supi)
unfolding up_control_payload parse_up_control
parse_up_control-up_control_payload a s r p u h =
    let front : List ℕ = r ∷ length a ∷ [] in
    ground (
      arith,
      length-append a (supi_octets s),
      slice-append 2 (2 + length a) front a (supi_octets s) refl refl,
      drop-append₂ (2 + length a) front a (supi_octets s) refl,
      decode_supi_lem s u,
    )

-- DATA gives back the PDU session ID, the QoS flow and the packet.
pub parse_data-data_payload :
    (id qfi : ℕ) (packet p : List ℕ)
    → data_payload id qfi packet ≡ some p
    → parse_data p ≡ ok (id, qfi, packet)
unfolding data_payload parse_data
parse_data-data_payload id qfi packet p h = ground arith
