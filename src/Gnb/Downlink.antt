-- ===== src/Gnb/Downlink.antt =====
-- `_downlink_fast`, `_downlink` and the downlink loop's body of src/NGAPSim.py.
use core_network_traffic_gen.Common.{ℕ, ◌==◌, if◌then◌else◌}
use core_network_traffic_gen.Common.{Option, none, some, List, [], ◌∷◌, ◌++◌}
use core_network_traffic_gen.Common.Table.{lookup, insert}
use core_network_traffic_gen.Common.Bytes.{be_bytes}
use core_network_traffic_gen.RanLink.Event.{dl_nas, release}
use core_network_traffic_gen.Ngap.Uplink.{
  initial_context_setup_response, ue_context_release_complete, pdu_session_resource_setup_response,
}
use core_network_traffic_gen.Ngap.Downlink.Container.{PduSession}
use core_network_traffic_gen.Ngap.Downlink.Walk.{Parsed, downlink, learn}
use core_network_traffic_gen.Gnb.State.{Context, Gnb, Output, to_amf, release_traffic, to_ue}
use core_network_traffic_gen.Gnb.Handlers.{Session, UeIds, Handled, Setting, is_empty}

-- `_pdu_session_resource_setup_fast`
unfoldable pub session_fast : Setting → ℕ → ℕ → Option (List ℕ) → PduSession → Option Handled
session_fast s amf ran nas p = elim s.gtp_address [
  | none ↦ none
  | some address ↦
      elim (pdu_session_resource_setup_response (some amf) ran p.pdu_session_id address
        (be_bytes 4 ran) (p.qfi ∷ [])) [
          | none ↦ none
          | some answer ↦ some (record {
            code = 29;
            answer = some answer;
            nas = nas;
            ue = some (record {
              ran = ran;
              amf = amf;
              session = some (record {
                pdu_session_id = p.pdu_session_id;
                qfi = p.qfi;
                ul_tunnel = p.ul_tunnel;
                dl_teid = be_bytes 4 ran;
              });
            });
          })
        ]
]

abbrev pub ids_only : ℕ → ℕ → Option UeIds
ids_only ran amf = some (record { ran = ran; amf = amf; session = none })

-- `_downlink_fast`, of what the parser gives, which has a session wherever the code is 29
unfoldable pub handled_fast : Setting → Parsed → Option Handled
unfolding session_fast
handled_fast s (code, amf, ran, nas, session) =
    if code == 4
    then (if is_empty nas
        then some (record { code = 4; answer = none; nas = none; ue = none })
        else some (record { code = 4; answer = none; nas = nas; ue = ids_only ran amf }))
    else if code == 14
    then some (record {
      code = 14;
      answer = initial_context_setup_response (some amf) ran;
      nas = nas;
      ue = ids_only ran amf;
    })
    else if code == 29
    then elim session [ none ↦ none | some p ↦ session_fast s amf ran nas p ]
    else if code == 41
    then some (record {
      code = 41;
      answer = ue_context_release_complete (some amf) ran;
      nas = none;
      ue = ids_only ran amf;
    })
    else none

unfoldable pub downlink_fast : Setting → Gnb → List ℕ → Option Handled
unfolding handled_fast
downlink_fast s g buf = elim (downlink s.tables g.known_ies buf) [
  | none ↦ none
  | some parsed ↦ handled_fast s parsed
]

-- `_downlink`: the fast path's, or else pycrate's, which then teaches the parser.
unfoldable pub handle : Setting → List ℕ → Gnb → Option Handled × Gnb
unfolding downlink_fast
handle s buf g = elim (downlink_fast s g buf) [
  | some h ↦ (some h, g)
  | none ↦ elim (s.slow buf) [
    | none ↦ (none, g)
    | some h ↦ (some h, record g { known_ies = learn s.tables s.canonical buf g.known_ies })
  ]
]

abbrev pub new_context : ℕ → Context
new_context amf = record {
  amf_id = amf;
  qfi = none;
  ul_teid = none;
  dl_teid = none;
  upf_address = none;
  pdu_session_id = none;
}

abbrev pub context_of : UeIds → Gnb → Context
context_of u g = elim (lookup u.ran g.ues) [
  | none ↦ new_context u.amf
  | some c ↦ record c { amf_id = u.amf }
]

-- The session's entries; one of the flow 0 is passed over, and `none` is an address that is not an
-- IPv4 one, on which inet_ntoa raises.
unfoldable pub with_session : Setting → Option Session → Context → Option Context
with_session s none c = some c
with_session s (some p) c = if p.qfi == 0 then some c else elim (s.inet_ntoa p.ul_tunnel.address) [
  | none ↦ none
  | some address ↦ some (record c {
    qfi = some p.qfi;
    ul_teid = some p.ul_tunnel.teid;
    dl_teid = some p.dl_teid;
    upf_address = some address;
    pdu_session_id = some p.pdu_session_id;
  })
]

abbrev pub answer_output : Option (List ℕ) → List Output
answer_output none = []
answer_output (some []) = []
answer_output (some (b ∷ bs)) = to_amf (b ∷ bs) ∷ []

-- The answer to the AMF, then the event to the UE.
unfoldable pub deliver : Handled → UeIds → ℕ → Gnb → List Output × Gnb
deliver h u received_at g =
    let (event, next) =
      (if h.code == 41 then to_ue release u.ran [] received_at g else elim h.nas [
        | none ↦ ([], g)
        | some [] ↦ ([], g)
        | some (b ∷ bs) ↦ to_ue dl_nas u.ran (b ∷ bs) received_at g
      ]) in
    (answer_output h.answer ++ event, next)

-- The body of the downlink loop, for a message that was handled.
unfoldable pub after_handled : Setting → ℕ → Handled → Gnb → List Output × Gnb
unfolding with_session deliver
after_handled s received_at h g = elim h.ue [
  | none ↦ (answer_output h.answer, g)
  | some u ↦
      let base = record g { ues = insert u.ran (context_of u g) g.ues } in
      let stopped = (if h.code == 41 then release_traffic u.ran ∷ [] else []) in
      elim (with_session s u.session (context_of u g)) [
        | none ↦ (stopped, base)
        | some c ↦
            let (out, next) = deliver h u received_at (record g { ues = insert u.ran c g.ues }) in
            (stopped ++ out, next)
      ]
]

unfoldable pub handle_downlink : Setting → ℕ → List ℕ → Gnb → List Output × Gnb
unfolding handle after_handled
handle_downlink s received_at buf g =
    let (handled, next) = handle s buf g in
    elim handled [ none ↦ ([], next) | some h ↦ after_handled s received_at h next ]
