-- ===== src/Gnb/Examples.antt =====
-- A gNB with two links: the UE 6 came on the link 1, and has a stamp that was not returned.
use core_network_traffic_gen.Common.{ℕ, ◌≡◌, refl, none, some, true, List, [], ◌∷◌, ◌++◌}
use core_network_traffic_gen.Common.Bytes.{be_bytes, from_be}
use core_network_traffic_gen.Common.Table.{lookup}
use core_network_traffic_gen.RanLink.Event.{Event, connect, dl_nas, release}
use core_network_traffic_gen.RanLink.Payload.{connect_payload}
use core_network_traffic_gen.Ngap.Aper.{
  amf_ue_ngap_id, ran_ue_ngap_id, octet_count, bit_length, short_length, wrap, length_at, id_value,
  octets,
}
use core_network_traffic_gen.Ngap.Pdu.{ie, message, reject, ignore}
use core_network_traffic_gen.Ngap.Uplink.{
  Uplink, nas_pdu, stamp, s_tmsi_ies, initial_ue_message, ue_context_release_complete, ids,
}
use core_network_traffic_gen.Ngap.Downlink.Values.{pair}
use core_network_traffic_gen.Ngap.Downlink.Layout.{Tables, downlink_layout}
use core_network_traffic_gen.Ngap.Downlink.Container.{container}
use core_network_traffic_gen.Ngap.Downlink.Walk.{downlink}
use core_network_traffic_gen.Gnb.State.{
  Gnb, to_amf, on_link, release_traffic, claim, pending, link_of, stamp_uplink, take_uplink_stamps,
}
use core_network_traffic_gen.Gnb.Stamps.{Change, take, run, recorded, returned, run-returned}
use core_network_traffic_gen.Gnb.Stamps as S
use core_network_traffic_gen.Gnb.Handlers.{Setting, handle_uplink}
use core_network_traffic_gen.Gnb.Downlink.{handle_downlink}
use core_network_traffic_gen.Gnb.Flow.{
  with_amf, handle_uplink-connect, handle_downlink-nas, handle_downlink-release,
}

abbrev gnb : Gnb
gnb = record {
  ues = [];
  ul_sent = (6, (65, 9) ∷ []) ∷ [];
  links = 1 ∷ 2 ∷ [];
  ue_links = (6, 1) ∷ [];
  clashes = [];
  known_ies = [];
}

-- The layouts of two messages.
abbrev layouts : Tables
layouts = record {
  nas_transport = (
    ignore,
    record { ie_id = 10; crit = reject; octets = none }
        ∷ record { ie_id = 85; crit = reject; octets = none }
        ∷ record { ie_id = 38; crit = reject; octets = none }
        ∷ [],
  );
  context_setup = (reject, []);
  session_setup = (reject, []);
  context_release = (
    reject,
    record { ie_id = 114; crit = reject; octets = none }
        ∷ record { ie_id = 15; crit = ignore; octets = some 1 }
        ∷ [],
  );
  transfer_ies = [];
  session_types = 5;
}

abbrev templates : Uplink
templates = record { uli_reject = 1 ∷ []; uli_ignore = 2 ∷ [] }

abbrev setting : Setting
setting = record {
  templates = some templates;
  gtp_address = none;
  tables = layouts;
  canonical = λ ie. true;
  build = λ q. none;
  slow = λ buf. none;
  inet_ntoa = λ address. none;
}

abbrev connecting : Event
connecting = record {
  kind = connect;
  ue_id = 6;
  payload = 3 ∷ 0 ∷ 0 ∷ 0 ∷ 0 ∷ 0 ∷ 0 ∷ 0 ∷ 0x7e ∷ [];
  code = 65;
  received_at = none;
  stamps = none;
}

abbrev initial : List ℕ
initial = message (0 ∷ 15 ∷ ignore ∷ []) (
    nas_pdu (0x7e ∷ [])
    ∷ (1 ∷ 131 ∷ 170 ∷ 126 ∷ 128 ∷ [])
    ∷ ie 85 reject (0 ∷ 6 ∷ [])
    ∷ ie 90 ignore (24 ∷ [])
    ∷ ie 112 ignore (0 ∷ [])
    ∷ [])

initial_written : initial_ue_message templates 6 (0x7e ∷ []) 3 none 0 ≡ some initial
unfolding initial_ue_message ran_ue_ngap_id stamp s_tmsi_ies be_bytes octet_count bit_length
initial_written = refl

handle_uplink-connect_example :
    handle_uplink setting 0 4 1 connecting gnb ≡ (to_amf initial ∷ [], stamp_uplink 6 (65, 4) gnb)
handle_uplink-connect_example =
    handle_uplink-connect setting templates 0 4 1 3 0x7e connecting gnb gnb none [] initial refl
      (unfold claim lookup in refl) refl (unfold connect_payload in refl) initial_written

abbrev changes : List Change
changes = S.stamp 6 (66, 10) ∷ take 6 ∷ S.stamp 7 (65, 11) ∷ S.stamp 6 (67, 12) ∷ []

run-returned_example :
    pending 6 gnb ++ recorded 6 changes ≡ returned 6 changes gnb ++ pending 6 (run changes gnb)
run-returned_example = run-returned 6 changes gnb

abbrev down : List ℕ
down =
    0 ∷ 4 ∷ 64 ∷ 22 ∷ 0 ∷ 0 ∷ 3 ∷ 0 ∷ 10 ∷ 0 ∷ 2 ∷ 0 ∷ 5 ∷ 0 ∷ 85 ∷ 0 ∷ 2 ∷ 0 ∷ 6 ∷ 0 ∷ 38 ∷ 0 ∷ 3
    ∷ 2 ∷ 0x7e ∷ 0 ∷ []

down_parsed : downlink layouts [] down ≡ some (4, 5, 6, some (0x7e ∷ 0 ∷ []), none)
unfolding downlink downlink_layout length_at container lookup id_value octets from_be
down_parsed = refl

handle_downlink-nas_example : handle_downlink setting 8 down gnb ≡ (
  on_link 1 dl_nas 6 (0x7e ∷ 0 ∷ []) 8 (pending 6 gnb) ∷ [],
  (take_uplink_stamps 6 (with_amf 6 5 gnb)).1,
)
handle_downlink-nas_example =
    handle_downlink-nas setting 8 5 6 1 0x7e down (0 ∷ []) gnb down_parsed
      (unfold link_of lookup in refl)

-- A release with the pair of ids and the cause.
abbrev release_command : List ℕ
release_command =
    0 ∷ 41 ∷ 0 ∷ 16 ∷ 0 ∷ 0 ∷ 2 ∷ 0 ∷ 114 ∷ 0 ∷ 4 ∷ 0 ∷ 5 ∷ 0 ∷ 6 ∷ 0 ∷ 15 ∷ 64 ∷ 1 ∷ 0 ∷ []

release_parsed : downlink layouts [] release_command ≡ some (41, 5, 6, none, none)
unfolding downlink downlink_layout length_at container lookup pair id_value from_be
release_parsed = refl

abbrev complete : List ℕ
complete = 41 ∷ 0 ∷ 15 ∷ 0 ∷ 0 ∷ 2 ∷ 0 ∷ 10 ∷ 64 ∷ 2 ∷ 0 ∷ 5 ∷ 0 ∷ 85 ∷ 64 ∷ 2 ∷ 0 ∷ 6 ∷ []

complete_written : ue_context_release_complete (some 5) 6 ≡ some (0x20 ∷ complete)
unfolding ue_context_release_complete ids amf_ue_ngap_id ran_ue_ngap_id message wrap ie be_bytes
    octet_count bit_length short_length
complete_written = refl

handle_downlink-release_example :
    (handle_downlink setting 8 release_command gnb).0
    ≡ release_traffic 6 ∷ to_amf (0x20 ∷ complete) ∷ on_link 1 release 6 [] 8 (pending 6 gnb) ∷ []
handle_downlink-release_example =
    handle_downlink-release setting 8 5 6 1 0x20 release_command complete gnb release_parsed
      complete_written (unfold link_of lookup in refl)
