-- ===== src/Ngap/Downlink/Walk.antt =====
-- `_sessions`, `_walk`, `downlink` and `learn` of src/ngapfast.py.
use core_network_traffic_gen.Common.{ℕ, ◌+◌, ltb, leb, ◌==◌, if◌then◌else◌, ◌/◌, ◌%◌}
use core_network_traffic_gen.Common.{
  Bool, not, ◌&&◌, ◌||◌, Option, none, some, List, [], ◌∷◌, length, slice, get_or,
}
use core_network_traffic_gen.Ngap.Aper.{◌>>=◌, guard, length_at}
use core_network_traffic_gen.Ngap.Downlink.Layout.{
  procedure, transfer, Tables, downlink_layout, transfer_layout, pdu_session_resource_setup,
}
use core_network_traffic_gen.Ngap.Downlink.Container.{
  PduSession, Got, nothing, Learnt, Learning, is_learnt, container, SessionsReader,
}

-- No kind of the transfer's IEs is a PDU session list.
abbrev pub no_sessions : SessionsReader
no_sessions value learning = none

pub session_of : List ℕ → ℕ → Got → Option (List ℕ × PduSession)
session_of nas pdu_session_id got = got.ul_tunnel >>= λ t. got.qfi >>= λ q. some (
  nas,
  record {
    pdu_session_id = pdu_session_id;
    ul_tunnel = t;
    qfi = q;
    pdu_session_type = got.session_type;
  },
)

-- The UE NGAP IDs: the pair's, or those of two IEs.
ue_ids : Got → Option (ℕ × ℕ)
ue_ids got = elim got.ids [
  | some p ↦ some p
  | none ↦ got.amf_id >>= λ a. got.ran_id >>= λ r. some (a, r)
]

-- (procedure code, AMF UE NGAP ID, RAN UE NGAP ID, NAS-PDU, PDU session)
abbrev pub Parsed : Type 0
Parsed = ℕ × ℕ × ℕ × Option (List ℕ) × Option PduSession

unfoldable pub parsed_of : ℕ → Got → Option Parsed
unfolding ue_ids
parsed_of code got = ue_ids got >>= λ (a, r).
    if code == pdu_session_resource_setup
    then (got.session >>= λ (nas, s). some (code, a, r, some nas, some s))
    else some (code, a, r, got.nas_octets, none)

module _ (t : Tables) (store : List Learnt) where
  -- The transfer from `o` on, after the item's S-NSSAI.
  unfoldable pub read_transfer :
      List ℕ → ℕ → ℕ → List ℕ → Learning → Option ((List ℕ × PduSession) × Learning)
  unfolding session_of
  read_transfer value o pdu_session_id nas learning =
      length_at value o (length value) >>= λ (start, n).
      guard
        (start + n == length value && not (leb (length value) start) && get_or value start 0 == 0)
      >>= λ _.
          container t.session_types store no_sessions transfer value (start + 1) (length value)
            (transfer_layout t) learning nothing
          >>= λ (got, l). session_of nas pdu_session_id got >>= λ s. some (s, l)

  -- `_sessions`. 0xA0 is the bits 7 and 5, 0x1F the five lowest ones, 0x40 bit 6.
  unfoldable pub read_sessions : SessionsReader
  unfolding read_transfer
  read_sessions value learning =
      if ltb (length value) 4 || not (get_or value 0 0 == 0) || not (get_or value 1 0 == 0x40)
      then none
      else length_at value 3 (length value) >>= λ (start, n).
          let o = start + n in
          let b = get_or value o 0 in
          guard (leb (o + 2) (length value)) >>= λ _.
          guard (b / 128 == 0 && b / 32 % 2 == 0 && get_or value (o + 1) 0 % 32 == 0) >>= λ _.
          read_transfer value (if b / 64 % 2 == 1 then o + 5 else o + 2) (get_or value 2 0)
            (slice start o value) learning

  unfoldable pub walk : List ℕ → Learning → Option (Parsed × Learning)
  unfolding parsed_of
  walk buf learning =
      if ltb (length buf) 7 || not (get_or buf 0 0 == 0)
      then none
      else let code = get_or buf 1 0 in
        downlink_layout t code >>= λ (crit, ies). guard (get_or buf 2 0 == crit) >>= λ _.
        length_at buf 3 (length buf) >>= λ (start, n). guard (start + n == length buf) >>= λ _.
        guard (leb (start + 3) (length buf) && get_or buf start 0 == 0) >>= λ _.
        container t.session_types store read_sessions (procedure code) buf (start + 1) (length buf)
          ies learning nothing
        >>= λ (got, l). parsed_of code got >>= λ p. some (p, l)

  unfoldable pub downlink : List ℕ → Option Parsed
  unfolding walk
  downlink buf = walk buf none >>= λ (p, l). some p

abbrev pub max_learnt : ℕ
max_learnt = 4096

-- `for ie in new`: pycrate's check of each (`_canonical`) is a parameter.
unfoldable pub add_learnt : (Learnt → Bool) → List Learnt → List Learnt → List Learnt
unfolding is_learnt
add_learnt canonical [] store = store
add_learnt canonical (ie ∷ ies) store =
    let next = (if canonical ie && not (is_learnt ie store) then ie ∷ store else store) in
    let rest = add_learnt canonical ies next in
    if leb max_learnt (length store) then store else rest

unfoldable pub learn : Tables → (Learnt → Bool) → List ℕ → List Learnt → List Learnt
unfolding walk
learn t canonical buf store =
    if leb max_learnt (length store) then store else elim (walk t store buf (some [])) [
      | none ↦ store
      | some (p, none) ↦ store
      | some (p, some new) ↦ add_learnt canonical new store
    ]
