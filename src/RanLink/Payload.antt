-- ===== src/RanLink/Payload.antt =====
-- The payloads of src/ranlink.py that have a structure: CONNECT, UP_CONTROL and DATA; and the test
-- that tells a Registration Request from the other NAS messages.
-- A Python string is given by its UTF-8 octets. `none` of a packing function is the struct.error (or
-- ValueError) of a value that does not fit.
pub mod RoundTrip
mod Examples
use core_network_traffic_gen.Common.{ℕ, zero, suc, ◌+◌, ◌%◌, ltb, leb, ◌==◌, if◌then◌else◌}
use core_network_traffic_gen.Common.{
  Bool, true, false, not, ◌&&◌, Option, none, some, List, [], ◌∷◌, ◌++◌,
}
use core_network_traffic_gen.Common.{length, drop, slice, get_or, Result, ok, err}
use core_network_traffic_gen.RanLink.Event.{
  FrameError, short_connect, short_up_control, short_data, bad_utf8,
}

abbrev pub fgmm_epd : ℕ
fgmm_epd = 0x7e

abbrev pub fgmm_registration_request : ℕ
fgmm_registration_request = 0x41

unfoldable pub is_plain_registration_request : List ℕ → Bool
is_plain_registration_request nas_pdu =
    leb 3 (length nas_pdu)
    && get_or nas_pdu 0 0 == fgmm_epd
    && get_or nas_pdu 1 0 % 16 == 0
    && get_or nas_pdu 2 0 == fgmm_registration_request

-- CONNECT: the establishment cause, the 5G-S-TMSI if any, the NAS PDU

abbrev pub no_s_tmsi : List ℕ
no_s_tmsi = 0 ∷ 0 ∷ 0 ∷ 0 ∷ 0 ∷ 0 ∷ []

abbrev present_flag : Option (List ℕ) → ℕ
present_flag none = 0
present_flag (some t) = 1

-- `s_tmsi or _NO_S_TMSI`, of a 5G-S-TMSI that has 6 octets
abbrev s_tmsi_field : Option (List ℕ) → List ℕ
s_tmsi_field none = no_s_tmsi
s_tmsi_field (some t) = t

abbrev s_tmsi_fits : Option (List ℕ) → Bool
s_tmsi_fits none = true
s_tmsi_fits (some t) = length t == 6

unfoldable pub connect_payload : List ℕ → ℕ → Option (List ℕ) → Option (List ℕ)
connect_payload nas_pdu cause s_tmsi =
    if not (s_tmsi_fits s_tmsi)
    then none
    else if ltb cause 256
    then some (cause ∷ present_flag s_tmsi ∷ (s_tmsi_field s_tmsi ++ nas_pdu))
    else none

unfoldable pub parse_connect : List ℕ → Result FrameError (ℕ × Option (List ℕ) × List ℕ)
parse_connect payload =
    if ltb (length payload) 8
    then err short_connect
    else ok (
      get_or payload 0 0,
      (if get_or payload 1 0 == 0 then none else some (slice 2 8 payload)),
      drop 8 payload,
    )

-- UTF-8: what may follow a first octet, as (continuation octets, bounds of the first of them)
lead : ℕ → Option (ℕ × ℕ × ℕ)
lead b =
    if ltb b 0x80
    then some (0, 0x80, 0xbf)
    else if ltb b 0xc2
    then none
    else if ltb b 0xe0
    then some (1, 0x80, 0xbf)
    else if b == 0xe0
    then some (2, 0xa0, 0xbf)
    else if b == 0xed
    then some (2, 0x80, 0x9f)
    else if ltb b 0xf0
    then some (2, 0x80, 0xbf)
    else if b == 0xf0
    then some (3, 0x90, 0xbf)
    else if ltb b 0xf4
    then some (3, 0x80, 0xbf)
    else if b == 0xf4
    then some (3, 0x80, 0x8f)
    else none

-- `pending` continuation octets to come, the first between `lo` and `hi`
utf8_from : ℕ → ℕ → ℕ → List ℕ → Bool
unfolding lead
utf8_from zero lo hi [] = true
utf8_from (suc pending) lo hi [] = false
utf8_from zero lo hi (b ∷ bs) = elim (lead b) [ none ↦ false | some (n, l, h) ↦ utf8_from n l h bs ]
utf8_from (suc pending) lo hi (b ∷ bs) = leb lo b && leb b hi && utf8_from pending 0x80 0xbf bs

unfoldable pub is_utf8 : List ℕ → Bool
unfolding utf8_from
is_utf8 bs = utf8_from 0 0x80 0xbf bs

-- `supi or ''`
abbrev pub supi_octets : Option (List ℕ) → List ℕ
supi_octets none = []
supi_octets (some s) = s

-- UP_CONTROL: the request, the PDU session's address and the SUPI

abbrev pub up_session : ℕ
up_session = 1

unfoldable pub up_control_payload : List ℕ → Option (List ℕ) → ℕ → Option (List ℕ)
up_control_payload address supi request =
    if ltb request 256 && ltb (length address) 256
    then some (request ∷ length address ∷ (address ++ supi_octets supi))
    else none

-- `bs.decode() or None`
unfoldable pub decode_supi : List ℕ → Result FrameError (Option (List ℕ))
decode_supi [] = ok none
decode_supi (b ∷ bs) = if is_utf8 (b ∷ bs) then ok (some (b ∷ bs)) else err bad_utf8

with_supi :
    ℕ
    → List ℕ
    → Result FrameError (Option (List ℕ))
    → Result FrameError (ℕ × List ℕ × Option (List ℕ))
with_supi request address (ok supi) = ok (request, address, supi)
with_supi request address (err e) = err e

unfoldable pub parse_up_control : List ℕ → Result FrameError (ℕ × List ℕ × Option (List ℕ))
unfolding with_supi
parse_up_control payload =
    let n = get_or payload 1 0 in
    if ltb (length payload) 2
    then err short_up_control
    else if ltb (length payload) (2 + n)
    then err short_up_control
    else with_supi (get_or payload 0 0) (slice 2 (2 + n) payload)
        (decode_supi (drop (2 + n) payload))

-- DATA: the PDU session ID, the QoS flow and the IP packet

unfoldable pub data_payload : ℕ → ℕ → List ℕ → Option (List ℕ)
data_payload pdu_session_id qfi packet =
    if ltb pdu_session_id 256 && ltb qfi 256 then some (pdu_session_id ∷ qfi ∷ packet) else none

unfoldable pub parse_data : List ℕ → Result FrameError (ℕ × ℕ × List ℕ)
parse_data payload =
    if ltb (length payload) 2
    then err short_data
    else ok (get_or payload 0 0, get_or payload 1 0, drop 2 payload)
