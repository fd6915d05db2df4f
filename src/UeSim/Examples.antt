-- ===== src/UeSim/Examples.antt =====
-- A simulator with one UE, which starts and gets its Registration Accept.
use core_network_traffic_gen.Common.{◌<◌, ◌≡◌, refl, ◌==◌, if◌then◌else◌}
use core_network_traffic_gen.Common.{false, none, some, List, [], ◌∷◌}
use core_network_traffic_gen.Common.Table.{lookup}
use core_network_traffic_gen.RanLink.Payload.{is_plain_registration_request, connect_payload}
use core_network_traffic_gen.Pacing.InFlight.{InFlight, new, acquire_round}
use core_network_traffic_gen.Common.Bytes.{be_bytes}
use core_network_traffic_gen.Nas.Identity.{suci}
use core_network_traffic_gen.Nas.Uplink.{registration_request}
use core_network_traffic_gen.Ue.NextAction.{Ue, next_action}
use core_network_traffic_gen.Ue.State.{Emulated}
use core_network_traffic_gen.Ue.Handlers.{action}
use core_network_traffic_gen.Ue.Examples.{setting, emulated}
use core_network_traffic_gen.UeSim.State.{Sim, Output}
use core_network_traffic_gen.UeSim.Events.{Started, started, start_ue, handle_downlink}
use core_network_traffic_gen.UeSim.Dispatch.{release_sign}
use core_network_traffic_gen.UeSim.Counts.{IsCounted, ues_at}
use core_network_traffic_gen.UeSim.Run.{start, Reach, here, later, Reach-IsCounted}
use core_network_traffic_gen.UeSim.Held.{place_of, start_ue-takes, handle_downlink-release_sign}

abbrev ue : Ue Emulated
ue = record { procedures = 65 ∷ 69 ∷ []; procedure = none; rest = emulated }

abbrev sim : Sim
sim = record { ues = (6, ue) ∷ []; states = λ c. 0; inflight = some (new 2 30) }

-- What the start of the UE leaves.
abbrev outputs : Started → List Output
outputs (started out next) = out
outputs _ = []

abbrev sim_of : Started → Sim
sim_of (started out next) = next
sim_of _ = sim

abbrev first_start : Started
first_start = start_ue setting 5 false 6 ue sim

starts : first_start ≡ started (outputs first_start) (sim_of first_start)
unfolding start_ue acquire_round next_action action registration_request suci
    is_plain_registration_request be_bytes connect_payload
starts = refl

started-Reach : Reach setting sim (sim_of first_start)
started-Reach = later here (
    start 5 false 6 ue (outputs first_start) sim (sim_of first_start) (unfold lookup in refl) refl
      starts)

sim-IsCounted : IsCounted sim
unfolding ues_at
sim-IsCounted c = refl

Reach-IsCounted_example : IsCounted (sim_of first_start)
Reach-IsCounted_example = Reach-IsCounted started-Reach sim-IsCounted

-- The place that the UE took.
abbrev taken_place : InFlight
taken_place = record (new 2 30) { started = (6, 5) ∷ [] }

start_ue-takes_example :
    (0 < 2) × (place_of 6 (sim_of first_start) ≡ (if 6 == 6 then some 5 else none))
start_ue-takes_example =
    start_ue-takes setting 5 false 6 6 ue (new 2 30) (outputs first_start) sim (sim_of first_start)
      refl starts

-- The UE with its place, and its connection released
abbrev placed : Sim
placed = record { ues = (6, ue) ∷ []; states = λ c. 0; inflight = some taken_place }

handle_downlink-release_sign_example :
    let got = handle_downlink setting 9 (release_sign, 6, some 8, []) placed in
    (got.0 ≡ [])
    × (place_of 6 got.1 ≡ (if 6 == 6 then none else place_of 6 placed))
    × (u : Ue Emulated) × (lookup 6 got.1.ues ≡ some u)
    × (u.rest.current_procedure ≡ 9)
handle_downlink-release_sign_example =
    handle_downlink-release_sign setting 9 6 6 (some 8) [] ue placed (unfold lookup in refl)
