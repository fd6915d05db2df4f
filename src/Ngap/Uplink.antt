-- ===== src/Ngap/Uplink.antt =====
-- The uplink templates of src/ngapfast.py. `none` is the None that leaves the message to pycrate;
-- an exception inside a template is one too.
pub mod Fields
use core_network_traffic_gen.Common.{
  ℕ, zero, suc, ◌+◌, ◌-◌, ◌*◌, ◌/◌, ◌%◌, ◌^◌, ltb, leb, ◌==◌, if◌then◌else◌,
}
use core_network_traffic_gen.Common.{
  Bool, true, false, not, ◌&&◌, ◌||◌, Option, none, some, List, [], ◌∷◌, ◌++◌, length, take, drop,
}
use core_network_traffic_gen.Common.Bytes.{be_bytes, from_be}
use core_network_traffic_gen.Ngap.Aper.{◌>>=◌, ◌>>◌, guard, wrap, amf_ue_ngap_id, ran_ue_ngap_id}
use core_network_traffic_gen.Ngap.Pdu.{reject, ignore, ie, message}

abbrev pub ntp_offset : ℕ
ntp_offset = 2208988800

-- A gNB's User Location Information for each criticality, less its time stamp.
pub record Uplink : Type 0 where
  pub uli_reject : List ℕ
  pub uli_ignore : List ℕ

-- The User Location Information's octets before the time stamp.
abbrev pub location : List ℕ → ℕ → List ℕ → List ℕ
location plmn nci tac = 0x50 ∷ (plmn ++ (be_bytes 5 (nci * 16) ++ (plmn ++ tac)))

abbrev pub uli_of : ℕ → List ℕ → List ℕ
uli_of crit value = 0x00 ∷ 0x79 ∷ crit ∷ (length value + 4) ∷ value

-- `Uplink.__init__`; `none` is its ValueError.
unfoldable pub new_uplink : List ℕ → ℕ → List ℕ → Option Uplink
new_uplink plmn nci tac =
    if not (length plmn == 3) || not (length tac == 3) || not (ltb nci (2 ^ 36))
    then none
    else some (record {
      uli_reject = uli_of reject (location plmn nci tac);
      uli_ignore = uli_of ignore (location plmn nci tac);
    })

-- struct.pack('!I', int(now) + _NTP_OFFSET)
unfoldable pub stamp : ℕ → Option (List ℕ)
stamp now = if ltb (now + ntp_offset) (2 ^ 32) then some (be_bytes 4 (now + ntp_offset)) else none

unfoldable pub nas_pdu : List ℕ → List ℕ
nas_pdu nas = ie 38 reject (wrap nas)

-- The AMF's id is None for a UE that the AMF has not answered yet.
unfoldable pub ids : ℕ → ℕ → Option ℕ → ℕ → Option (List (List ℕ))
ids crit_amf crit_ran none ran_id = none
ids crit_amf crit_ran (some amf_id) ran_id = do
  a ← amf_ue_ngap_id amf_id
  r ← ran_ue_ngap_id ran_id
  some (ie 10 crit_amf a ∷ ie 85 crit_ran r ∷ [])

-- The 5G-S-TMSI's IE, where there is one: `if s_tmsi:` passes over an empty one.
abbrev pub s_tmsi_value : List ℕ → List ℕ
s_tmsi_value t = be_bytes 3 (from_be (take 2 t) * 64) ++ drop 2 t

unfoldable pub s_tmsi_ies : Option (List ℕ) → Option (List (List ℕ))
s_tmsi_ies none = some []
s_tmsi_ies (some []) = some []
s_tmsi_ies (some (b ∷ bs)) =
    if length (b ∷ bs) == 6 then some (ie 26 reject (s_tmsi_value (b ∷ bs)) ∷ []) else none

unfoldable pub initial_ue_message : Uplink → ℕ → List ℕ → ℕ → Option (List ℕ) → ℕ → Option (List ℕ)
initial_ue_message u ran_id nas cause s_tmsi now = do
  r ← ran_ue_ngap_id ran_id
  guard (ltb cause 10)
  st ← stamp now
  tmsi ← s_tmsi_ies s_tmsi
  some (
      message (0x00 ∷ 0x0f ∷ ignore ∷ []) (
        nas_pdu nas
        ∷ (u.uli_reject ++ st)
        ∷ ie 85 reject r
        ∷ ie 90 ignore (cause * 8 ∷ [])
        ∷ (tmsi ++ (ie 112 ignore (0 ∷ []) ∷ []))))

unfoldable pub uplink_nas_transport : Uplink → Option ℕ → ℕ → List ℕ → ℕ → Option (List ℕ)
uplink_nas_transport u amf_id ran_id nas now = do
  two ← ids reject reject amf_id ran_id
  st ← stamp now
  some (message (0x00 ∷ 0x2e ∷ ignore ∷ []) (nas_pdu nas ∷ (u.uli_ignore ++ st) ∷ two))

unfoldable pub initial_context_setup_response : Option ℕ → ℕ → Option (List ℕ)
initial_context_setup_response amf_id ran_id = do
  two ← ids ignore ignore amf_id ran_id
  some (message (0x20 ∷ 0x0e ∷ reject ∷ []) two)

unfoldable pub ue_context_release_complete : Option ℕ → ℕ → Option (List ℕ)
ue_context_release_complete amf_id ran_id = do
  two ← ids ignore ignore amf_id ran_id
  some (message (0x20 ∷ 0x29 ∷ reject ∷ []) two)

-- `bits = bits << 10 | qfi` for each flow; `none` for a QFI out of 0..63
unfoldable pub flow_bits : ℕ → List ℕ → Option ℕ
flow_bits bits [] = some bits
flow_bits bits (q ∷ qs) =
    let rest = flow_bits (bits * 1024 + q) qs in if ltb q 64 then rest else none

-- `-n % 8`
abbrev pub padding : ℕ → ℕ
padding n = (8 - n % 8) % 8

unfoldable pub qos_flows : List ℕ → Option (List ℕ)
unfolding flow_bits
qos_flows qfis = if length qfis == 0 || ltb 64 (length qfis) then none else do
  bits ← flow_bits (length qfis - 1) qfis
  let n = 6 + 10 * length qfis
  some (be_bytes ((n + padding n) / 8) (bits * 2 ^ padding n))

-- The PDUSessionResourceSetupResponseTransfer.
abbrev pub response_transfer : List ℕ → List ℕ → List ℕ → List ℕ
response_transfer address teid flows =
    be_bytes 3 ((length address * 8 - 1) * 32) ++ (address ++ (teid ++ flows))

unfoldable pub pdu_session_resource_setup_response :
    Option ℕ → ℕ → ℕ → List ℕ → List ℕ → List ℕ → Option (List ℕ)
pdu_session_resource_setup_response amf_id ran_id pdu_session_id address teid qfis = do
  two ← ids ignore ignore amf_id ran_id
  flows ← qos_flows qfis
  guard (ltb pdu_session_id 256)
  guard (length address == 4 || length address == 16 || length address == 20)
  guard (length teid == 4)
  some (
      message (0x20 ∷ 0x1d ∷ reject ∷ []) (
        two
        ++ (ie 75 ignore (0 ∷ 0 ∷ pdu_session_id ∷ wrap (response_transfer address teid flows))
            ∷ [])))
