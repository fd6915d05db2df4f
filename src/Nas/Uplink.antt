-- ===== src/Nas/Uplink.antt =====
-- The uplink NAS messages that src/nasfast.py builds.
pub mod Kind
use core_network_traffic_gen.Common.{ℕ, ◌+◌, ◌-◌, ◌*◌, ltb, leb, ◌==◌, if◌then◌else◌}
use core_network_traffic_gen.Common.{
  Bool, true, false, not, ◌||◌, Option, none, some, List, [], ◌∷◌, ◌++◌, length, get_or, drop,
}
use core_network_traffic_gen.Common.Bytes.{be_bytes}
use core_network_traffic_gen.Nas.Identity.{all_digits, suci, snssai, dnn}

-- What the builders read of a UE; an S-NSSAI is its SST and SD.
pub record Subscriber : Type 0 where
  pub mcc : List ℕ
  pub mnc : List ℕ
  pub msin : List ℕ
  pub imei_sv : List ℕ
  pub nssai : List (ℕ × Option ℕ)
  pub session_slice : Option (ℕ × Option ℕ)
  pub session_apn : Option (List ℕ)

abbrev pub ue_sec_cap : List ℕ
ue_sec_cap = 0x2e ∷ 4 ∷ 0xf0 ∷ 0xf0 ∷ 0xf0 ∷ 0xf0 ∷ []

abbrev pub fgmm_cap : List ℕ
fgmm_cap = 0x10 ∷ 5 ∷ 0 ∷ 0 ∷ 0 ∷ 0 ∷ 0 ∷ []

abbrev pub fgs_update_type : List ℕ
fgs_update_type = 0x53 ∷ 1 ∷ 0 ∷ []

abbrev pub registration_complete : List ℕ
registration_complete = 0x7e ∷ 0 ∷ 0x43 ∷ []

abbrev pub configuration_update_complete : List ℕ
configuration_update_complete = 0x7e ∷ 0 ∷ 0x55 ∷ []

abbrev pub establishment_request : List ℕ
establishment_request = 0x2e ∷ 1 ∷ 1 ∷ 0xc1 ∷ 0 ∷ 0 ∷ 0x91 ∷ 0xa1 ∷ []

abbrev pub authentication_response : List ℕ → Option (List ℕ)
authentication_response res =
    if ltb 255 (length res) then none else some (0x7e ∷ 0 ∷ 0x57 ∷ 0x2d ∷ length res ∷ res)

-- The NSSAI, each S-NSSAI behind its length.
unfoldable pub nssai_octets : List (ℕ × Option ℕ) → Option (List ℕ)
nssai_octets [] = some []
nssai_octets ((sst, sd) ∷ rest) = elim (snssai sst sd) [
  | none ↦ none
  | some v ↦ elim (nssai_octets rest) [ none ↦ none | some vs ↦ some (length v ∷ (v ++ vs)) ]
]

module _ (encode_bcd : List ℕ → List ℕ) where
  abbrev pub suci_of : Subscriber → Option (List ℕ)
  suci_of u = suci encode_bcd u.mcc u.mnc u.msin

  unfoldable pub registration_request : Subscriber → Option (List ℕ)
  registration_request u = elim (suci_of u) [
    | none ↦ none
    | some s ↦ some (0x7e ∷ 0 ∷ 0x41 ∷ 0x79 ∷ (s ++ ue_sec_cap))
  ]

  -- The Registration Request in the Security Mode Complete's container.
  abbrev pub whole_request : List ℕ → List ℕ → List ℕ
  whole_request s nssai =
      0x7e
      ∷ 0
      ∷ 0x41
      ∷ 0x79
      ∷ (s ++ (fgmm_cap ++ (ue_sec_cap ++ (0x2f ∷ length nssai ∷ (nssai ++ fgs_update_type)))))

  abbrev pub complete_of : List ℕ → List ℕ → List ℕ
  complete_of imei_sv request =
      0x7e
      ∷ 0
      ∷ 0x5e
      ∷ 0x77
      ∷ 0
      ∷ 9
      ∷ ((get_or imei_sv 0 0 - 48) * 16 + 5)
      ∷ (encode_bcd (drop 1 imei_sv) ++ (0x71 ∷ (be_bytes 2 (length request) ++ request)))

  unfoldable pub security_mode_complete : Subscriber → Option (List ℕ)
  unfolding nssai_octets
  security_mode_complete u = elim (suci_of u) [
    | none ↦ none
    | some s ↦
        if not (all_digits u.imei_sv) || not (length u.imei_sv == 16) || length u.nssai == 0
        then none
        else elim (nssai_octets u.nssai) [
          | none ↦ none
          | some nssai ↦
              if ltb 255 (length nssai) || leb 65536 (length (whole_request s nssai))
              then none
              else some (complete_of u.imei_sv (whole_request s nssai))
        ]
  ]

  unfoldable pub mo_deregistration_request : Subscriber → Option (List ℕ)
  mo_deregistration_request u = elim (suci_of u) [
    | none ↦ none
    | some s ↦ some (0x7e ∷ 0 ∷ 0x45 ∷ 0x71 ∷ s)
  ]

-- The S-NSSAI of the UE's first session, or of the UE: `ue.nssai[0]` raises where there is none.
unfoldable pub slice_of : Subscriber → Option (List ℕ)
slice_of u = elim u.session_slice [
  | some (sst, sd) ↦ snssai sst sd
  | none ↦ elim u.nssai [ [] ↦ none | (sst, sd) ∷ rest ↦ snssai sst sd ]
]

abbrev pub transport_of : List ℕ → List ℕ
transport_of slice =
    0x7e
    ∷ 0
    ∷ 0x67
    ∷ 1
    ∷ 0
    ∷ 8
    ∷ (establishment_request ++ (0x12 ∷ 1 ∷ 0x81 ∷ 0x22 ∷ length slice ∷ slice))

-- An empty APN is passed over.
unfoldable pub apn_octets : Option (List ℕ) → Option (List ℕ)
apn_octets none = some []
apn_octets (some []) = some []
apn_octets (some (c ∷ cs)) = elim (dnn (c ∷ cs)) [
  | none ↦ none
  | some d ↦ some (0x25 ∷ length d ∷ d)
]

unfoldable pub ul_nas_transport_pdu_session_establishment_request : Subscriber → Option (List ℕ)
unfolding slice_of apn_octets
ul_nas_transport_pdu_session_establishment_request u = elim (slice_of u) [
  | none ↦ none
  | some s ↦ elim (apn_octets u.session_apn) [ none ↦ none | some a ↦ some (transport_of s ++ a) ]
]
