-- ===== src/Gnb/Handlers.antt =====
-- `_handle_uplink` and `_up_control` of src/NGAPSim.py, and what both directions use. What pycrate does
-- is a parameter: the messages that it builds and handles where the fast path does not.
use core_network_traffic_gen.Common.{ℕ, ◌==◌, if◌then◌else◌}
use core_network_traffic_gen.Common.{
  Bool, true, false, ◌&&◌, Option, none, some, ok, err, List, [], ◌∷◌, length,
}
use core_network_traffic_gen.Common.Table.{lookup}
use core_network_traffic_gen.RanLink.Event.{Event, connect, ul_nas, up_control}
use core_network_traffic_gen.RanLink.Payload.{parse_connect, parse_up_control, up_session}
use core_network_traffic_gen.Ngap.Uplink.{Uplink, initial_ue_message, uplink_nas_transport}
use core_network_traffic_gen.Ngap.Downlink.Values.{Tunnel}
use core_network_traffic_gen.Ngap.Downlink.Layout.{Tables}
use core_network_traffic_gen.Ngap.Downlink.Container.{Learnt}
use core_network_traffic_gen.Gnb.State.{Gnb, Output, to_amf, add_session, claim, stamp_uplink}

-- An uplink message to build: its kind, the RAN UE NGAP ID, the AMF's, the cause, the 5G-S-TMSI and the
-- NAS PDU.
pub record Request : Type 0 where
  pub kind : ℕ
  pub ran : ℕ
  pub amf : Option ℕ
  pub cause : ℕ
  pub s_tmsi : Option (List ℕ)
  pub nas : List ℕ

-- A PDU session that was set up: its ID, its first flow, and the tunnels' ends.
pub record Session : Type 0 where
  pub pdu_session_id : ℕ
  pub qfi : ℕ
  pub ul_tunnel : Tunnel
  pub dl_teid : List ℕ

-- `ue_`
pub record UeIds : Type 0 where
  pub ran : ℕ
  pub amf : ℕ
  pub session : Option Session

pub record Handled : Type 0 where
  pub code : ℕ
  pub answer : Option (List ℕ)
  pub nas : Option (List ℕ)
  pub ue : Option UeIds

-- A gNB's templates (none where they could not be made) and its address, and pycrate: its tables, its
-- check of a learnt IE, the messages that it builds and handles, and its reading of an IPv4 address.
pub record Setting : Type 0 where
  pub templates : Option Uplink
  pub gtp_address : Option (List ℕ)
  pub tables : Tables
  pub canonical : Learnt → Bool
  pub build : Request → Option (List ℕ)
  pub slow : List ℕ → Option Handled
  pub inet_ntoa : ℕ → Option (List ℕ)

abbrev pub is_empty : Option (List ℕ) → Bool
is_empty none = true
is_empty (some []) = true
is_empty (some (b ∷ bs)) = false

-- `_uplink_fast`, at the time `now`
unfoldable pub uplink_fast : Setting → ℕ → Request → Option (List ℕ)
uplink_fast s now q = elim s.templates [
  | none ↦ none
  | some u ↦
      if q.kind == connect
      then initial_ue_message u q.ran q.nas q.cause q.s_tmsi now
      else uplink_nas_transport u q.amf q.ran q.nas now
]

-- The fast path's message, or else pycrate's.
unfoldable pub uplink_message : Setting → ℕ → Request → Option (List ℕ)
unfolding uplink_fast
uplink_message s now q = elim (uplink_fast s now q) [ some m ↦ some m | none ↦ s.build q ]

abbrev pub amf_of : ℕ → Gnb → Option ℕ
amf_of ran g = elim (lookup ran g.ues) [ none ↦ none | some c ↦ some c.amf_id ]

-- The message is stamped, and then sent: `time` is the stamp's double.
unfoldable pub send_uplink : Setting → ℕ → ℕ → ℕ → Request → Gnb → List Output × Gnb
unfolding uplink_message
send_uplink s now time code q g =
    if is_empty (some q.nas) then ([], g) else elim (uplink_message s now q) [
      | none ↦ ([], g)
      | some m ↦ (to_amf m ∷ [], if code == 0 then g else stamp_uplink q.ran (code, time) g)
    ]

-- `_up_control`: a session whose UE has no tunnel is not started (the KeyError is caught), nor is one
-- whose address has not four octets (inet_ntoa's OSError is).
unfoldable pub up_control_session : ℕ → List ℕ → Gnb → List Output
up_control_session ran payload g = elim (parse_up_control payload) [
  | err e ↦ []
  | ok (request, address, supi) ↦ elim (lookup ran g.ues) [
    | none ↦ []
    | some c ↦ elim c.ul_teid [
      | none ↦ []
      | some teid ↦
          if request == up_session && length address == 4
          then add_session ran c address supi ∷ []
          else []
    ]
  ]
]

-- What an event of a UE that the link owns does.
unfoldable pub owned_uplink : Setting → ℕ → ℕ → Event → Gnb → List Output × Gnb
unfolding send_uplink up_control_session
owned_uplink s now time e g =
    let request : Request = record {
      kind = e.kind;
      ran = e.ue_id;
      amf = amf_of e.ue_id g;
      cause = 3;
      s_tmsi = none;
      nas = e.payload;
    } in
    if e.kind == connect
    then elim (parse_connect e.payload) [
      | err why ↦ ([], g)
      | ok (cause, s_tmsi, nas) ↦
          send_uplink s now time e.code
            (record request { cause = cause; s_tmsi = s_tmsi; nas = nas }) g
    ]
    else if e.kind == ul_nas
    then send_uplink s now time e.code request g
    else if e.kind == up_control
    then (up_control_session e.ue_id e.payload g, g)
    else ([], g)

-- `_handle_uplink`; an exception leaves what was done before it.
unfoldable pub handle_uplink : Setting → ℕ → ℕ → ℕ → Event → Gnb → List Output × Gnb
unfolding owned_uplink
handle_uplink s now time link e g =
    let (owned, next) = claim link e.ue_id g in
    if owned then owned_uplink s now time e next else ([], next)
