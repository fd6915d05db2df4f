-- ===== src/Gnb/Flow.antt =====
-- A NAS message's way through the gNB, up and down.
use core_network_traffic_gen.Common.{ℕ, ◌≡◌, refl, ap, ◌∙◌, arith, ◌==◌, if◌then◌else◌}
use core_network_traffic_gen.Common.{true, Option, none, some, List, [], ◌∷◌}
use core_network_traffic_gen.Common.Table.{insert}
use core_network_traffic_gen.RanLink.Event.{Event, connect, dl_nas, release}
use core_network_traffic_gen.RanLink.Payload.{connect_payload}
use core_network_traffic_gen.RanLink.Payload.RoundTrip.{parse_connect-connect_payload}
use core_network_traffic_gen.Ngap.Uplink.{Uplink, initial_ue_message, ue_context_release_complete}
use core_network_traffic_gen.Ngap.Downlink.Walk.{Parsed, downlink}
use core_network_traffic_gen.Gnb.State.{
  Gnb, to_amf, on_link, release_traffic, claim, pending, link_of, stamp_uplink, to_ue,
  take_uplink_stamps,
}
use core_network_traffic_gen.Gnb.Handlers.{Setting, Handled, uplink_fast, handle_uplink}
use core_network_traffic_gen.Gnb.Downlink.{
  ids_only, handled_fast, downlink_fast, handle, context_of, after_handled, handle_downlink,
}

-- The payload that a UE simulator made for a CONNECT is sent to the AMF as the Initial UE Message of
-- the gNB's template, with the UE's cause, 5G-S-TMSI and NAS message; where the event has a message
-- code, the message is stamped with it.
pub handle_uplink-connect :
    (s : Setting) (u : Uplink) (now time link cause b : ℕ) (e : Event) (g next : Gnb)
    (s_tmsi : Option (List ℕ)) (nas m : List ℕ)
    → s.templates ≡ some u
    → claim link e.ue_id g ≡ (true, next)
    → e.kind ≡ connect
    → connect_payload (b ∷ nas) cause s_tmsi ≡ some e.payload
    → initial_ue_message u e.ue_id (b ∷ nas) cause s_tmsi now ≡ some m
    → handle_uplink s now time link e g
      ≡ (to_amf m ∷ [], if e.code == 0 then next else stamp_uplink e.ue_id (e.code, time) next)
unfolding handle_uplink uplink_fast
handle_uplink-connect s u now time link cause b e g next s_tmsi nas m t c k p h =
    let back = parse_connect-connect_payload (b ∷ nas) cause s_tmsi e.payload p in
    ground (arith, back)

to_ue-link_of :
    (kind ran received_at link : ℕ) (payload : List ℕ) (g : Gnb)
    → link_of ran g ≡ some link
    → to_ue kind ran payload received_at g ≡ (
      on_link link kind ran payload received_at (pending ran g) ∷ [],
      (take_uplink_stamps ran g).1,
    )
unfolding to_ue take_uplink_stamps
to_ue-link_of kind ran received_at link payload g l =
    ap
      (λ o. elim o [
        | none ↦ ([], g)
        | some k ↦ (
          on_link k kind ran payload received_at (pending ran g) ∷ [],
          (take_uplink_stamps ran g).1,
        )
      ])
      l

handle-downlink :
    (s : Setting) (buf : List ℕ) (g : Gnb) (p : Parsed) (h : Handled)
    → downlink s.tables g.known_ies buf ≡ some p
    → handled_fast s p ≡ some h
    → handle s buf g ≡ (some h, g)
unfolding handle downlink_fast
handle-downlink s buf g p h e k = ground arith

handle_downlink-handle :
    (s : Setting) (received_at : ℕ) (buf : List ℕ) (g : Gnb) (h : Handled)
    → handle s buf g ≡ (some h, g)
    → handle_downlink s received_at buf g ≡ after_handled s received_at h g
unfolding handle_downlink
handle_downlink-handle s received_at buf g h e =
    ap (λ p. elim p.0 [ none ↦ ([], p.1) | some h ↦ after_handled s received_at h p.1 ]) e

-- The gNB after a downlink message of a UE without a session.
abbrev pub with_amf : ℕ → ℕ → Gnb → Gnb
with_amf ran amf g = record g {
  ues = insert ran (context_of (record { ran = ran; amf = amf; session = none }) g) g.ues;
}

-- A DownlinkNASTransport that the parser takes is sent on the UE's link as a DL_NAS with its NAS
-- message, the time at which the gNB received it and the UE's pending stamps, which are then taken;
-- nothing goes to the AMF, and the UE's AMF UE NGAP ID is kept.
pub handle_downlink-nas :
    (s : Setting) (received_at amf ran link b : ℕ) (buf nas : List ℕ) (g : Gnb)
    → downlink s.tables g.known_ies buf ≡ some (4, amf, ran, some (b ∷ nas), none)
    → link_of ran g ≡ some link
    → handle_downlink s received_at buf g ≡ (
      on_link link dl_nas ran (b ∷ nas) received_at (pending ran g) ∷ [],
      (take_uplink_stamps ran (with_amf ran amf g)).1,
    )
unfolding handled_fast after_handled link_of
handle_downlink-nas s received_at amf ran link b buf nas g h l =
    handle_downlink-handle s received_at buf g _ (handle-downlink s buf g _ _ h refl)
    ∙ to_ue-link_of dl_nas ran received_at link (b ∷ nas) (with_amf ran amf g) l

-- A UE Context Release Command that the parser takes stops the UE's traffic, is answered to the AMF and
-- only then told to the UE as a RELEASE on its link, with its pending stamps.
pub handle_downlink-release :
    (s : Setting) (received_at amf ran link b : ℕ) (buf answer : List ℕ) (g : Gnb)
    → downlink s.tables g.known_ies buf ≡ some (41, amf, ran, none, none)
    → ue_context_release_complete (some amf) ran ≡ some (b ∷ answer)
    → link_of ran g ≡ some link
    → (handle_downlink s received_at buf g).0
      ≡ release_traffic ran
        ∷ to_amf (b ∷ answer)
        ∷ on_link link release ran [] received_at (pending ran g)
        ∷ []
unfolding handled_fast after_handled link_of
handle_downlink-release s received_at amf ran link b buf answer g h c l =
    let made : Option (List ℕ) → Handled =
      λ a. record { code = 41; answer = a; nas = none; ue = ids_only ran amf } in
    ap (λ p. p.0)
      (handle_downlink-handle s received_at buf g (made (some (b ∷ answer)))
        (handle-downlink s buf g _ _ h (ap (λ a. some (made a)) c)))
    ∙ ap (λ p. release_traffic ran ∷ to_amf (b ∷ answer) ∷ p.0)
        (to_ue-link_of release ran received_at link [] (with_amf ran amf g) l)
