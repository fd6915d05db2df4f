-- ===== src/Ngap/Uplink/Fields.antt =====
-- The fields of the uplink templates, as an independent reader sees them.
use core_network_traffic_gen.Common.{ℕ, ◌+◌, ◌*◌, ◌≡◌, ap, ◌∙◌, arith}
use core_network_traffic_gen.Common.{
  Option, none, some, List, [], ◌∷◌, ◌++◌, length, length-append, Option-cases, inl, inr,
}
use core_network_traffic_gen.Common.Bytes.{be_bytes, length-be_bytes}
use core_network_traffic_gen.Ngap.Aper.{
  wrap, short_length, amf_ue_ngap_id, ran_ue_ngap_id, id_value,
}
use core_network_traffic_gen.Ngap.Aper.Integers.{id_value-amf_ue_ngap_id, id_value-ran_ue_ngap_id}
use core_network_traffic_gen.Ngap.Pdu.{reject, ignore, ie, message}
use core_network_traffic_gen.Ngap.Pdu.Reader.{Field, read_message, read_message-message}
use core_network_traffic_gen.Ngap.Uplink.{
  Uplink, location, uli_of, new_uplink, stamp, nas_pdu, ids, uplink_nas_transport,
}
use core_network_traffic_gen.Ngap.Uplink.{
  initial_context_setup_response, ue_context_release_complete,
}

-- The length octet that `Uplink.__init__` puts in the constant part counts the time stamp, so that
-- part and a stamp are a whole IE.
uli-ie :
    (crit nci : ℕ) (plmn tac st : List ℕ)
    → length plmn ≡ 3
    → length tac ≡ 3
    → length st ≡ 4
    → uli_of crit (location plmn nci tac) ++ st ≡ ie 121 crit (location plmn nci tac ++ st)
unfolding ie wrap short_length
uli-ie crit nci plmn tac st hp ht hs = ground (
  arith,
  length-append (location plmn nci tac) st,
  length-append plmn (be_bytes 5 (nci * 16) ++ (plmn ++ tac)),
  length-append (be_bytes 5 (nci * 16)) (plmn ++ tac),
  length-append plmn tac,
  length-be_bytes 5 (nci * 16),
)

abbrev pub field : ℕ → ℕ → List ℕ → Field
field k c v = record { ie_id = k; crit = c; value = v }

-- The two UE NGAP IDs' encodings, which the gNB's own reader reads back.
pub record IdsOf (amf : Option ℕ) (ran : ℕ) (a r : List ℕ) : Type 0 where
  pub amf_back : id_value a 3 5 ≡ amf
  pub ran_back : id_value r 2 4 ≡ some ran

ids_inv :
    (crit_amf crit_ran : ℕ) (amf : Option ℕ) (ran : ℕ) (two : List (List ℕ))
    → ids crit_amf crit_ran amf ran ≡ some two
    → (a : List ℕ) × (r : List ℕ) × (two ≡ ie 10 crit_amf a ∷ ie 85 crit_ran r ∷ [])
      × IdsOf amf ran a r
unfolding ids
ids_inv ca cr none ran two h = absurd (ground arith)
ids_inv ca cr (some v) ran two h = elim (Option-cases (amf_ue_ngap_id v)) [
  | inl bad ↦ absurd (ground arith)
  | inr (a, ha) ↦ elim (Option-cases (ran_ue_ngap_id ran)) [
    | inl bad ↦ absurd (ground arith)
    | inr (r, hr) ↦ (
      a,
      r,
      ground arith,
      record {
        amf_back = id_value-amf_ue_ngap_id v a ha;
        ran_back = id_value-ran_ue_ngap_id ran r hr;
      },
    )
  ]
]

abbrev TwoIds : Option ℕ → ℕ → ℕ → ℕ → ℕ → List ℕ → Type 0
TwoIds amf ran x y z m =
    (a : List ℕ) × (r : List ℕ) × (read_message m
      ≡ some (x ∷ y ∷ z ∷ [], field 10 ignore a ∷ field 85 ignore r ∷ []))
    × IdsOf amf ran a r

two_ids :
    (amf : Option ℕ) (ran x y z : ℕ) (two : List (List ℕ)) (m : List ℕ)
    → ids ignore ignore amf ran ≡ some two
    → m ≡ message (x ∷ y ∷ z ∷ []) two
    → TwoIds amf ran x y z m
two_ids amf ran x y z two m h e =
    let (a, r, parts, back) = ids_inv ignore ignore amf ran two h in
    (
      a,
      r,
      ap read_message (e ∙ ap (message (x ∷ y ∷ z ∷ [])) parts)
          ∙ read_message-message x y z (field 10 ignore a ∷ field 85 ignore r ∷ []) (omega arith)
              (omega arith),
      back,
    )

-- The Initial Context Setup Response is the successful outcome of procedure 14 with the two UE NGAP
-- IDs, each read back by the gNB's own reader.
pub initial_context_setup_response_fields :
    (amf : Option ℕ) (ran : ℕ) (m : List ℕ)
    → initial_context_setup_response amf ran ≡ some m
    → (a : List ℕ) × (r : List ℕ) × (read_message m
        ≡ some (0x20 ∷ 14 ∷ reject ∷ [], field 10 ignore a ∷ field 85 ignore r ∷ []))
      × IdsOf amf ran a r
unfolding initial_context_setup_response
initial_context_setup_response_fields amf ran m h =
    elim (Option-cases (ids ignore ignore amf ran)) [
      | inl bad ↦ absurd (ground arith)
      | inr (two, e) ↦ two_ids amf ran 0x20 14 reject two m e (ground arith)
    ]

-- The UE Context Release Complete is the successful outcome of procedure 41 with the two UE NGAP IDs,
-- each read back by the gNB's own reader.
pub ue_context_release_complete_fields :
    (amf : Option ℕ) (ran : ℕ) (m : List ℕ)
    → ue_context_release_complete amf ran ≡ some m
    → (a : List ℕ) × (r : List ℕ) × (read_message m
        ≡ some (0x20 ∷ 41 ∷ reject ∷ [], field 10 ignore a ∷ field 85 ignore r ∷ []))
      × IdsOf amf ran a r
unfolding ue_context_release_complete
ue_context_release_complete_fields amf ran m h = elim (Option-cases (ids ignore ignore amf ran)) [
  | inl bad ↦ absurd (ground arith)
  | inr (two, e) ↦ two_ids amf ran 0x20 41 reject two m e (ground arith)
]

record Made (plmn : List ℕ) (nci : ℕ) (tac : List ℕ) (u : Uplink) : Type 0 where
  plmn_size : length plmn ≡ 3
  tac_size : length tac ≡ 3
  rejects : u.uli_reject ≡ uli_of reject (location plmn nci tac)
  ignores : u.uli_ignore ≡ uli_of ignore (location plmn nci tac)

new_uplink_inv :
    (plmn : List ℕ) (nci : ℕ) (tac : List ℕ) (u : Uplink)
    → new_uplink plmn nci tac ≡ some u
    → Made plmn nci tac u
unfolding new_uplink
new_uplink_inv plmn nci tac u h = record {
  plmn_size = ground arith;
  tac_size = ground arith;
  rejects = ground arith;
  ignores = ground arith;
}

length-stamp : (now : ℕ) (st : List ℕ) → stamp now ≡ some st → length st ≡ 4
unfolding stamp
length-stamp now st h = ground (arith, length-be_bytes 4 (now + 2208988800))

uplink_nas_transport_parts :
    (u : Uplink) (amf : Option ℕ) (ran : ℕ) (nas : List ℕ) (now : ℕ) (m : List ℕ)
    → uplink_nas_transport u amf ran nas now ≡ some m
    → (two : List (List ℕ)) × (st : List ℕ) × (ids reject reject amf ran ≡ some two)
      × (stamp now ≡ some st)
      × (m ≡ message (0 ∷ 46 ∷ ignore ∷ []) (nas_pdu nas ∷ (u.uli_ignore ++ st) ∷ two))
unfolding uplink_nas_transport
uplink_nas_transport_parts u amf ran nas now m h = elim (Option-cases (ids reject reject amf ran)) [
  | inl bad ↦ absurd (ground arith)
  | inr (two, e) ↦ elim (Option-cases (stamp now)) [
    | inl bad ↦ absurd (ground arith)
    | inr (st, e') ↦ (two, st, e, e', ground arith)
  ]
]

-- The Uplink NAS Transport that a gNB's template gives is procedure 46's initiating message with the
-- NAS PDU as an octet string, the gNB's User Location Information and the time stamp, and the two UE
-- NGAP IDs, each read back by the gNB's own reader.
pub uplink_nas_transport_fields :
    (plmn : List ℕ) (nci : ℕ) (tac : List ℕ) (u : Uplink) (amf : Option ℕ) (ran : ℕ) (nas : List ℕ)
    (now : ℕ) (m : List ℕ)
    → new_uplink plmn nci tac ≡ some u
    → uplink_nas_transport u amf ran nas now ≡ some m
    → (a : List ℕ) × (r : List ℕ) × (st : List ℕ) × (stamp now ≡ some st)
      × (read_message m
          ≡ some (
            0 ∷ 46 ∷ ignore ∷ [],
            field 38 reject (wrap nas)
                ∷ field 121 ignore (location plmn nci tac ++ st)
                ∷ field 10 reject a
                ∷ field 85 reject r
                ∷ [],
          ))
      × IdsOf amf ran a r
unfolding nas_pdu
uplink_nas_transport_fields plmn nci tac u amf ran nas now m made h =
    let (two, st, e, e', whole) = uplink_nas_transport_parts u amf ran nas now m h in
    let (a, r, parts, back) = ids_inv reject reject amf ran two e in
    let g = new_uplink_inv plmn nci tac u made in
    let uli =
      ap (λ xs. xs ++ st) g.ignores
      ∙ uli-ie ignore nci plmn tac st g.plmn_size g.tac_size (length-stamp now st e') in
    (
      a,
      r,
      st,
      e',
      ap read_message whole
          ∙ ap
              (λ ys. read_message (
                message (0 ∷ 46 ∷ ignore ∷ [])
                  (ie 38 reject (wrap nas) ∷ (u.uli_ignore ++ st) ∷ ys)))
              parts
          ∙ ap
              (λ x. read_message (
                message (0 ∷ 46 ∷ ignore ∷ [])
                  (ie 38 reject (wrap nas) ∷ x ∷ ie 10 reject a ∷ ie 85 reject r ∷ [])))
              uli
          ∙ read_message-message 0 46 ignore _ (omega arith) (omega arith),
      back,
    )
