-- ===== src/UeSim/Events.antt =====
-- The threads of src/UESim.py: the reader's choice of a worker, a worker's handling of a downlink
-- message (`_handle_downlink`), and the start of a UE (the loop of `init`).
use core_network_traffic_gen.Common.{ℕ, ◌%◌, ◌==◌, if◌then◌else◌, Bool, false, ◌||◌}
use core_network_traffic_gen.Common.{Option, none, some, List, [], ◌∷◌, ◌++◌}
use core_network_traffic_gen.Common.Table.{lookup}
use core_network_traffic_gen.RanLink.Event.{
  Event, Stamp, connect, ul_nas, dl_nas, release, up_control,
}
use core_network_traffic_gen.RanLink.Payload.{
  is_plain_registration_request, connect_payload, up_control_payload, up_session,
}
use core_network_traffic_gen.Pacing.InFlight.{
  InFlight, Acquired, has_place, gave_up, waits, acquire_round,
}
use core_network_traffic_gen.Pacing.InFlight as P
use core_network_traffic_gen.Ue.NextAction.{Ue, next_action}
use core_network_traffic_gen.Ue.State.{Emulated, Setting}
use core_network_traffic_gen.Ue.Handlers.{Octets, action}
use core_network_traffic_gen.UeSim.State.{Sim, Output, send, fgmm_min_type, increment, store, move}
use core_network_traffic_gen.UeSim.Dispatch.{release_sign, dispatcher}
use core_network_traffic_gen.Common.{◌-◌}

-- What a worker's queue holds: the message, its UE, the time of its reception and the stamps.
abbrev pub Queued : Type 0
Queued = Octets × ℕ × Option ℕ × List Stamp

abbrev pub stamps_of : Option (List Stamp) → List Stamp
stamps_of none = []
stamps_of (some stamps) = stamps

-- What the reader makes of an event: nothing of one that is no downlink message.
unfoldable pub queued : Event → Option Queued
queued e =
    if e.kind == dl_nas
    then some (e.payload, e.ue_id, e.received_at, stamps_of e.stamps)
    else if e.kind == release
    then some (release_sign, e.ue_id, e.received_at, stamps_of e.stamps)
    else none

-- `ueId % len(self.worker_queues)`
abbrev pub worker_of : ℕ → ℕ → ℕ
worker_of workers ue_id = ue_id % workers

-- `_ngap_to_ue_reader`: what it appends to the worker's queue, for the events in their order.
unfoldable pub read_events : ℕ → ℕ → List Event → List Queued
unfolding queued
read_events workers worker [] = []
read_events workers worker (e ∷ es) =
    let others = read_events workers worker es in
    elim (queued e) [
      | none ↦ others
      | some q ↦ if worker_of workers e.ue_id == worker then q ∷ others else others
    ]

-- `_send_nas`; an exception where the payload does not fit.
unfoldable pub send_nas : ℕ → Octets → ℕ → Option (List Output)
send_nas ue_id nas_pdu code =
    if is_plain_registration_request nas_pdu
    then elim (connect_payload nas_pdu 3 none) [
      | none ↦ none
      | some payload ↦ some (send connect ue_id payload code ∷ [])
    ]
    else some (send ul_nas ue_id nas_pdu code ∷ [])

-- `_send_up_control`
unfoldable pub send_up_control : ℕ → Octets → Octets → Option (List Output)
send_up_control ue_id address supi = elim (up_control_payload address (some supi) up_session) [
  | none ↦ none
  | some payload ↦ some (send up_control ue_id payload 0 ∷ [])
]

-- What a worker sends of the dispatcher's reply; a message without a code is a KeyError.
unfoldable pub send_reply : ℕ → Octets → Option Octets → Option ℕ → Option (List Output)
unfolding send_nas send_up_control
send_reply ue_id supi none code = some []
send_reply ue_id supi (some []) code = some []
send_reply ue_id supi (some (b ∷ bs)) none = none
send_reply ue_id supi (some (b ∷ bs)) (some code) =
    if code == 196 then send_up_control ue_id (b ∷ bs) supi else send_nas ue_id (b ∷ bs) code

abbrev pub supi_of : ℕ → Sim → Octets
supi_of ue_id sim = elim (lookup ue_id sim.ues) [ none ↦ [] | some ue ↦ ue.rest.supi ]

-- `sent_type in CLOSED_LOOP_DONE`
abbrev pub is_done : Option ℕ → Bool
is_done none = false
is_done (some code) = code == 74 || code == 196

-- The UE's next procedure follows at once; 197 is what '5GSMPDUSessionTransmissionComplete' stands for,
-- a name that no message has.
abbrev pub goes_on : Option ℕ → Bool
goes_on none = false
goes_on (some code) = code == 67 || code == 200 || code == 197

abbrev pub freed : ℕ → Option ℕ → Option InFlight → Option InFlight
freed ue_id code none = none
freed ue_id code (some f) = if is_done code then some (P.release ue_id f).0 else some f

abbrev pub free_place : ℕ → Option ℕ → Sim → Sim
free_place ue_id code sim = record sim { inflight = freed ue_id code sim.inflight }

-- The end of `_handle_downlink`: the place, and the counts where something was sent.
unfoldable pub settle : ℕ → Option ℕ → Sim → Sim
unfolding move
settle ue_id none sim = free_place ue_id none sim
settle ue_id (some code) sim =
    let freed = free_place ue_id (some code) sim in
    elim (lookup ue_id freed.ues) [ none ↦ freed | some ue ↦ move ue_id code ue freed ]

-- What a round of the start of a UE leaves.
pub data Started : Type 0 where
  stopped : Started
  no_room : Started
  raised : Sim → Started
  started : List Output → Sim → Started

module _ (s : Setting) (now : ℕ) where
  -- The next procedure of a UE whose last one has ended.
  unfoldable pub follow_up : ℕ → List Output → Sim → List Output × Sim
  unfolding send_reply settle
  follow_up ue_id out sim =
      let (reply, next) = dispatcher s now none ue_id none [] sim in
      elim reply [
        | none ↦ (out, next)
        | some (tx, code) ↦ elim (send_reply ue_id (supi_of ue_id next) tx code) [
          | none ↦ (out, next)
          | some more ↦ (out ++ more, settle ue_id code next)
        ]
      ]

  -- `_handle_downlink`, with what it has sent where an exception ends it.
  unfoldable pub handle_downlink : Queued → Sim → List Output × Sim
  unfolding send_reply settle follow_up
  handle_downlink (buf, ue_id, received_at, ul_sent) sim =
      let (reply, next) = dispatcher s now (some buf) ue_id received_at ul_sent sim in
      elim reply [
        | none ↦ ([], next)
        | some (tx, code) ↦ elim (send_reply ue_id (supi_of ue_id next) tx code) [
          | none ↦ ([], next)
          | some out ↦
              if goes_on code then follow_up ue_id out next else (out, settle ue_id code next)
        ]
      ]

  -- A UE with its place starts its first procedure; the counts get one more UE.
  unfoldable pub start_procedure : ℕ → Ue Emulated → Sim → Started
  unfolding send_nas
  start_procedure ue_id ue sim =
      let (sent, after) = next_action (action s now) ue none none in
      let raised_after = raised (store ue_id after sim) in
      elim sent [
        | some (some m, some code) ↦ elim (send_nas ue_id m code) [
          | none ↦ raised_after
          | some out ↦
              let at = code - fgmm_min_type in
              started out
                (record (store ue_id
                  (record after { rest = record after.rest { current_procedure = at } }) sim) {
                    states = increment at sim.states;
                  })
        ]
        | _ ↦ raised_after
      ]

  -- A round of `init`'s loop, once the UE's time has come.
  unfoldable pub start_ue : Bool → ℕ → Ue Emulated → Sim → Started
  unfolding start_procedure
  start_ue stop ue_id ue sim = elim sim.inflight [
    | none ↦ start_procedure ue_id ue sim
    | some f ↦ elim (acquire_round ue_id stop now f) [
      | gave_up ↦ stopped
      | waits ↦ no_room
      | has_place g ↦ start_procedure ue_id ue (record sim { inflight = some g })
    ]
  ]

-- `_expire_inflight`, once: the places of the UEs that took too long.
abbrev pub expired : ℕ → Option InFlight → Option InFlight
expired now none = none
expired now (some f) = some (P.expire now f).0

unfoldable pub expire_places : ℕ → Sim → Sim
expire_places now sim = record sim { inflight = expired now sim.inflight }
