-- ===== src/Ngap/Downlink/Values.antt =====
-- How src/ngapfast.py reads the values of single IEs: the UE-NGAP-IDs' pair, the tunnel, the PDU
-- session type and the first QoS flow.
use core_network_traffic_gen.Common.{ℕ, ◌+◌, ◌*◌, ◌/◌, ◌%◌, ltb, leb, ◌==◌, if◌then◌else◌}
use core_network_traffic_gen.Common.{
  not, ◌&&◌, ◌||◌, Option, none, some, List, length, drop, slice, get_or,
}
use core_network_traffic_gen.Common.Bytes.{from_be}
use core_network_traffic_gen.Ngap.Aper.{◌>>=◌, id_value}

-- `_pair`: the AMF and RAN UE NGAP IDs. `value[0] & 0xF1` is the upper half and the lowest bit.
unfoldable pub pair : List ℕ → Option (ℕ × ℕ)
pair value =
    let b = get_or value 0 0 in
    let n = b / 2 + 1 in
    if ltb (length value) 4 || not (b / 16 == 0 && b % 2 == 0)
    then none
    else if ltb 5 n || ltb (length value) (n + 3) || (ltb 1 n && get_or value 1 0 == 0)
    then none
    else do ran ← id_value (drop (1 + n) value) 2 4; some (from_be (slice 1 (1 + n) value), ran)

-- A GTP tunnel: the transport layer address as a number, its bits, and the TEID.
pub record Tunnel : Type 0 where
  pub address : ℕ
  pub bits : ℕ
  pub teid : List ℕ

unfoldable pub tunnel : List ℕ → Option Tunnel
tunnel value =
    let b = get_or value 0 0 in
    let c = get_or value 1 0 in
    let bits = b % 16 * 16 + c / 16 + 1 in
    let n = bits / 8 in
    if ltb (length value) 2 || not (b / 16 == 0) || not (c % 16 == 0)
    then none
    else if not (bits == 32 || bits == 128 || bits == 160) || not (length value == 2 + n + 4)
    then none
    else some (record {
      address = from_be (slice 2 (2 + n) value);
      bits = bits;
      teid = drop (2 + n) value;
    })

-- `_session_type`: the index of its name among `names`, pycrate's PDUSessionType. 0x8F is the top bit
-- and the lower half.
unfoldable pub session_type : ℕ → List ℕ → Option ℕ
session_type names value =
    let b = get_or value 0 0 in
    if not (length value == 1) || not (b / 128 == 0 && b % 16 == 0) || leb names (b / 16)
    then none
    else some (b / 16)

unfoldable pub first_qfi : List ℕ → Option ℕ
first_qfi value =
    let b = get_or value 1 0 in
    if ltb (length value) 2 || not (b / 64 % 2 == 0) then none else some (b % 64)
