-- ===== src/Ngap/Examples.antt =====
-- Concrete NGAP messages.
use core_network_traffic_gen.Common.{
  ℕ, ◌≡◌, refl, arith, none, some, List, [], ◌∷◌, ◌++◌, true, map, length,
}
use core_network_traffic_gen.Common.Bytes.{be_bytes, from_be}
use core_network_traffic_gen.Common.Table.{lookup}
use core_network_traffic_gen.Ngap.Aper.{
  length_at, octet_count, amf_ue_ngap_id, ran_ue_ngap_id, id_value, wrap, octets, short_length,
  bit_length, uint,
}
use core_network_traffic_gen.Ngap.Aper.Fragments.{unwrap, unwrap-wrap}
use core_network_traffic_gen.Ngap.Pdu.{reject, ignore, message, ie}
use core_network_traffic_gen.Ngap.Pdu.Reader.{
  Field, field_bytes, read_message, read_message-message,
}
use core_network_traffic_gen.Ngap.Uplink.{
  Uplink, location, new_uplink, stamp, uplink_nas_transport, initial_context_setup_response,
  ue_context_release_complete, ids, nas_pdu,
}
use core_network_traffic_gen.Ngap.Uplink.Fields.{field, IdsOf, uplink_nas_transport_fields}
use core_network_traffic_gen.Ngap.Downlink.Layout.{Tables, procedure, ie_set, downlink_layout}
use core_network_traffic_gen.Ngap.Downlink.Container.{container}
use core_network_traffic_gen.Ngap.Downlink.Walk.{walk, downlink, learn}
use core_network_traffic_gen.Ngap.Downlink.NasTransport.{nas_fields, downlink-nas_transport}
use core_network_traffic_gen.Ngap.Downlink.Learn.{downlink-learn}

unwrap-wrap_example :
    unwrap (length (wrap (7 ∷ 8 ∷ []))) (wrap (7 ∷ 8 ∷ []) ++ (9 ∷ [])) ≡ some (7 ∷ 8 ∷ [], 9 ∷ [])
unwrap-wrap_example = unwrap-wrap (7 ∷ 8 ∷ []) (9 ∷ [])

abbrev two_fields : List Field
two_fields = field 10 ignore (0 ∷ 5 ∷ []) ∷ field 85 ignore (0 ∷ 6 ∷ []) ∷ []

read_message-message_example :
    read_message (message (0x20 ∷ 14 ∷ reject ∷ []) (map field_bytes two_fields))
    ≡ some (0x20 ∷ 14 ∷ reject ∷ [], two_fields)
read_message-message_example =
    read_message-message 0x20 14 reject two_fields (omega arith) (omega arith)

abbrev context_setup : List ℕ
context_setup =
    0x20 ∷ 14 ∷ 0 ∷ 15 ∷ 0 ∷ 0 ∷ 2 ∷ 0 ∷ 10 ∷ 64 ∷ 2 ∷ 0 ∷ 5 ∷ 0 ∷ 85 ∷ 64 ∷ 2 ∷ 0 ∷ 6 ∷ []

context_setup_written : initial_context_setup_response (some 5) 6 ≡ some context_setup
unfolding initial_context_setup_response ids amf_ue_ngap_id ran_ue_ngap_id message wrap ie be_bytes
    octet_count bit_length short_length
context_setup_written = refl

abbrev context_release : List ℕ
context_release =
    0x20 ∷ 41 ∷ 0 ∷ 15 ∷ 0 ∷ 0 ∷ 2 ∷ 0 ∷ 10 ∷ 64 ∷ 2 ∷ 0 ∷ 5 ∷ 0 ∷ 85 ∷ 64 ∷ 2 ∷ 0 ∷ 6 ∷ []

context_release_written : ue_context_release_complete (some 5) 6 ≡ some context_release
unfolding ue_context_release_complete ids amf_ue_ngap_id ran_ue_ngap_id message wrap ie be_bytes
    octet_count bit_length short_length
context_release_written = refl

abbrev gnb : Uplink
gnb = record {
  uli_reject = 0 ∷ 0x79 ∷ 0 ∷ 19 ∷ location (2 ∷ 248 ∷ 57 ∷ []) 16 (0 ∷ 0 ∷ 1 ∷ []);
  uli_ignore = 0 ∷ 0x79 ∷ 64 ∷ 19 ∷ location (2 ∷ 248 ∷ 57 ∷ []) 16 (0 ∷ 0 ∷ 1 ∷ []);
}

gnb_made : new_uplink (2 ∷ 248 ∷ 57 ∷ []) 16 (0 ∷ 0 ∷ 1 ∷ []) ≡ some gnb
unfolding new_uplink be_bytes
gnb_made = refl

abbrev nas_transport_message : List ℕ
nas_transport_message = message (0 ∷ 46 ∷ 64 ∷ []) (
    nas_pdu (0x7e ∷ 0 ∷ [])
    ∷ (gnb.uli_ignore ++ (131 ∷ 170 ∷ 126 ∷ 128 ∷ []))
    ∷ ie 10 reject (0 ∷ 5 ∷ [])
    ∷ ie 85 reject (0 ∷ 6 ∷ [])
    ∷ [])

nas_transport_written :
    uplink_nas_transport gnb (some 5) 6 (0x7e ∷ 0 ∷ []) 0 ≡ some nas_transport_message
unfolding uplink_nas_transport ids stamp amf_ue_ngap_id ran_ue_ngap_id be_bytes octet_count
    bit_length
nas_transport_written = refl

uplink_nas_transport_fields_example :
    (a : List ℕ) × (r : List ℕ) × (st : List ℕ) × (stamp 0 ≡ some st)
    × (read_message nas_transport_message
        ≡ some (
          0 ∷ 46 ∷ ignore ∷ [],
          field 38 reject (wrap (0x7e ∷ 0 ∷ []))
              ∷ field 121 ignore (location (2 ∷ 248 ∷ 57 ∷ []) 16 (0 ∷ 0 ∷ 1 ∷ []) ++ st)
              ∷ field 10 reject a
              ∷ field 85 reject r
              ∷ [],
        ))
    × IdsOf (some 5) 6 a r
uplink_nas_transport_fields_example =
    uplink_nas_transport_fields (2 ∷ 248 ∷ 57 ∷ []) 16 (0 ∷ 0 ∷ 1 ∷ []) gnb (some 5) 6
      (0x7e ∷ 0 ∷ []) 0 nas_transport_message gnb_made nas_transport_written

-- The IEs of two messages, as a table gives them: AMF-UE-NGAP-ID, RAN-UE-NGAP-ID, NAS-PDU, and the
-- index to the RFSP (31), which the parser does not read.
abbrev tables : Tables
tables = record {
  nas_transport = (
    ignore,
    record { ie_id = 10; crit = reject; octets = none }
        ∷ record { ie_id = 85; crit = reject; octets = none }
        ∷ record { ie_id = 38; crit = reject; octets = none }
        ∷ record { ie_id = 31; crit = ignore; octets = none }
        ∷ [],
  );
  context_setup = (reject, []);
  session_setup = (reject, []);
  context_release = (reject, []);
  transfer_ies = [];
  session_types = 5;
}

downlink-nas_transport_example :
    downlink tables [] (
      message
        (0 ∷ 4 ∷ ignore ∷ [])
        (map field_bytes (nas_fields (0 ∷ 5 ∷ []) (0 ∷ 6 ∷ []) (0x7e ∷ 0 ∷ []))))
    ≡ some (4, 5, 6, some (0x7e ∷ 0 ∷ []), none)
unfolding be_bytes lookup
downlink-nas_transport_example =
    downlink-nas_transport tables [] 5 6 0 1 2 (0 ∷ 5 ∷ []) (0 ∷ 6 ∷ []) (0x7e ∷ 0 ∷ [])
      (unfold amf_ue_ngap_id octet_count bit_length uint in refl)
      (unfold ran_ue_ngap_id octet_count bit_length uint in refl) (omega arith)
      (unfold ie_set in refl) (unfold ie_set in refl) (unfold ie_set in refl) (omega arith)
      (omega arith)

-- The same with the index to the RFSP, 7.
abbrev with_rfsp : List ℕ
with_rfsp =
    0 ∷ 4 ∷ 64 ∷ 28 ∷ 0 ∷ 0 ∷ 4 ∷ 0 ∷ 10 ∷ 0 ∷ 2 ∷ 0 ∷ 5 ∷ 0 ∷ 85 ∷ 0 ∷ 2 ∷ 0 ∷ 6 ∷ 0 ∷ 38 ∷ 0 ∷ 3
    ∷ 2 ∷ 0x7e ∷ 0 ∷ 0 ∷ 31 ∷ 64 ∷ 2 ∷ 0 ∷ 7 ∷ []

refused_first : downlink tables [] with_rfsp ≡ none
unfolding downlink downlink_layout length_at container lookup id_value octets
refused_first = refl

learning :
    walk tables [] with_rfsp (some [])
    ≡ some ((4, 5, 6, some (0x7e ∷ 0 ∷ []), none), some ((procedure 4, 31, 0 ∷ 7 ∷ []) ∷ []))
unfolding walk downlink_layout length_at container lookup id_value octets from_be
learning = refl

downlink-learn_example :
    downlink tables (learn tables (λ ie. true) with_rfsp []) with_rfsp
    ≡ some (4, 5, 6, some (0x7e ∷ 0 ∷ []), none)
downlink-learn_example =
    downlink-learn tables (λ ie. true) with_rfsp [] ((procedure 4, 31, 0 ∷ 7 ∷ []) ∷ [])
      (4, 5, 6, some (0x7e ∷ 0 ∷ []), none) learning (refl, tt) (omega arith)
