-- ===== src/Ngap/Downlink/Layout.antt =====
-- The layouts of the downlink messages. pycrate's tables (the IEs of a message in their order, with
-- their criticality and the size of a fixed-size string) are a parameter; how an IE is read is the
-- source's choice.
use core_network_traffic_gen.Common.{
  ℕ, ◌+◌, ◌==◌, if◌then◌else◌, Bool, true, false, Option, none, some, List, [], ◌∷◌,
}
use core_network_traffic_gen.Common.Table.{lookup}

-- `_AMF`, `_RAN` and the others
pub data Kind : Type 0 where
  amf ran nas pair fixed learnt sessions tunnel type flows : Kind

-- An IE of pycrate's set: its id, its criticality's octet, and `_fixed_octets` of its value.
pub record TableIe : Type 0 where
  pub ie_id : ℕ
  pub crit : ℕ
  pub octets : Option ℕ

pub record Entry : Type 0 where
  pub place : ℕ
  pub crit : ℕ
  pub kind : Kind
  pub size : ℕ

-- The kind of an IE that the source does not name: checked by its size, or learnt.
abbrev pub unread : ℕ → ℕ → Option ℕ → Entry
unread place crit none = record { place = place; crit = crit; kind = learnt; size = 0 }
unread place crit (some n) = record { place = place; crit = crit; kind = fixed; size = n }

abbrev pub entry_of : List (ℕ × Kind) → ℕ → TableIe → Entry
entry_of kinds place ie = elim (lookup ie.ie_id kinds) [
  | none ↦ unread place ie.crit ie.octets
  | some k ↦ record { place = place; crit = ie.crit; kind = k; size = 0 }
]

-- `_IESet.__init__`: the entries by id, from place `place` on.
unfoldable pub ie_set : List (ℕ × Kind) → ℕ → List TableIe → List (ℕ × Entry)
ie_set kinds place [] = []
ie_set kinds place (ie ∷ ies) = (ie.ie_id, entry_of kinds place ie) ∷ ie_set kinds (place + 1) ies

-- `_KINDS`, and the kinds of the PDU Session Resource Setup Request and of its transfer
abbrev pub kinds : List (ℕ × Kind)
kinds = (10, amf) ∷ (85, ran) ∷ (38, nas) ∷ (114, pair) ∷ []

abbrev pub setup_kinds : List (ℕ × Kind)
setup_kinds = (10, amf) ∷ (85, ran) ∷ (74, sessions) ∷ []

abbrev pub transfer_kinds : List (ℕ × Kind)
transfer_kinds = (139, tunnel) ∷ (134, type) ∷ (136, flows) ∷ []

-- The key under which an IE is learnt: its message's procedure code, or the transfer.
pub data Key : Type 0 where
  procedure : ℕ → Key
  transfer : Key

abbrev pub same_key : Key → Key → Bool
same_key (procedure a) (procedure b) = a == b
same_key transfer transfer = true
same_key _ _ = false

-- What pycrate knows: for each procedure its criticality and its IEs, the transfer's IEs, and the
-- number of PDU session types.
pub record Tables : Type 0 where
  pub nas_transport : ℕ × List TableIe
  pub context_setup : ℕ × List TableIe
  pub session_setup : ℕ × List TableIe
  pub context_release : ℕ × List TableIe
  pub transfer_ies : List TableIe
  pub session_types : ℕ

abbrev pub downlink_nas_transport : ℕ
downlink_nas_transport = 4

abbrev pub initial_context_setup : ℕ
initial_context_setup = 14

abbrev pub pdu_session_resource_setup : ℕ
pdu_session_resource_setup = 29

abbrev pub ue_context_release : ℕ
ue_context_release = 41

-- `_DOWNLINK.get(code)`: the procedure's criticality and its IEs' entries.
unfoldable pub downlink_layout : Tables → ℕ → Option (ℕ × List (ℕ × Entry))
unfolding ie_set
downlink_layout t code =
    if code == downlink_nas_transport
    then some (t.nas_transport.0, ie_set kinds 0 t.nas_transport.1)
    else if code == initial_context_setup
    then some (t.context_setup.0, ie_set kinds 0 t.context_setup.1)
    else if code == pdu_session_resource_setup
    then some (t.session_setup.0, ie_set setup_kinds 0 t.session_setup.1)
    else if code == ue_context_release
    then some (t.context_release.0, ie_set kinds 0 t.context_release.1)
    else none

unfoldable pub transfer_layout : Tables → List (ℕ × Entry)
unfolding ie_set
transfer_layout t = ie_set transfer_kinds 0 t.transfer_ies
