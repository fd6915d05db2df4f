-- ===== src/UeSim/Held.antt =====
-- Who has the places of src/UESim.py: a UE that is started gets one, and gives it back when its connection
-- is released.
use core_network_traffic_gen.Common.{ℕ, ◌-◌, ◌<◌, ◌≡◌, refl, sym, ap, subst, ◌∙◌, arith}
use core_network_traffic_gen.Common.{
  Bool, true, none, some, List, [], length, ◌==◌, if◌then◌else◌, Option,
}
use core_network_traffic_gen.Common.Table.{lookup, insert, lookup-insert}
use core_network_traffic_gen.RanLink.Event.{Stamp}
use core_network_traffic_gen.Pacing.InFlight.{InFlight, acquire_round, has_place, gave_up, waits}
use core_network_traffic_gen.Pacing.InFlight as P
use core_network_traffic_gen.Pacing.InFlight.Release.{release_lem}
use core_network_traffic_gen.Ue.NextAction.{Ue, next_action}
use core_network_traffic_gen.Ue.State.{Emulated, Setting, an_release}
use core_network_traffic_gen.Ue.Handlers.{action}
use core_network_traffic_gen.UeSim.State.{Sim, Output, move, store, fgmm_min_type}
use core_network_traffic_gen.UeSim.Dispatch.{release_sign, dispatcher, take_stamps, on_release}
use core_network_traffic_gen.UeSim.Events.{
  is_done, freed, handle_downlink, send_reply, settle, Started, stopped, no_room, raised, started,
  start_procedure, start_ue,
}
use core_network_traffic_gen.UeSim.Calls.{dispatcher-inflight}
use core_network_traffic_gen.UeSim.Places.{
  settle-inflight, Same, start_procedure-Same, start_closed, acquired,
}

-- A place, where there is a closed loop
abbrev pub place_of : ℕ → Sim → Option ℕ
place_of v sim = elim sim.inflight [ none ↦ none | some f ↦ lookup v f.started ]

place_of-freed :
    (k v code : ℕ) (o : Option InFlight)
    → is_done (some code) ≡ true
    → (elim (freed k (some code) o) [ none ↦ none | some f ↦ lookup v f.started ])
      ≡ (if k == v then none else elim o [ none ↦ none | some f ↦ lookup v f.started ])
place_of-freed k v code none d = ground arith
place_of-freed k v code (some f) d = rw d ((release_lem k v f).1)

module _ (s : Setting) (now : ℕ) where
  dispatcher_release :
      (k : ℕ) (at : Option ℕ) (ul_sent : List Stamp) (ue : Ue Emulated) (sim : Sim)
      → lookup k sim.ues ≡ some ue
      → (dispatcher s now (some release_sign) k at ul_sent sim).0 ≡ some (none, some 74)
  unfolding dispatcher on_release next_action action
  dispatcher_release k at ul_sent ue sim e = rw (dispatcher, e, on_release) refl

  -- The UE after its connection was released
  abbrev released : List Stamp → Ue Emulated → Ue Emulated
  released ul_sent ue =
      (next_action (action s now) (take_stamps ul_sent ue) (some an_release) (some 74)).1

  dispatcher_stores :
      (k : ℕ) (at : Option ℕ) (ul_sent : List Stamp) (ue : Ue Emulated) (sim : Sim)
      → lookup k sim.ues ≡ some ue
      → (dispatcher s now (some release_sign) k at ul_sent sim).1
        ≡ store k (released ul_sent ue) sim
  unfolding dispatcher on_release
  dispatcher_stores k at ul_sent ue sim e = rw (dispatcher, e, on_release) refl

  settle_stored :
      (k code : ℕ) (w : Ue Emulated) (sim : Sim)
      → (u : Ue Emulated) × (lookup k (settle k (some code) (store k w sim)).ues ≡ some u)
        × (u.rest.current_procedure ≡ code - fgmm_min_type)
  unfolding settle move
  settle_stored k code w sim =
      let found : lookup k (insert k w sim.ues) ≡ some w =
        ground (arith, lookup-insert k k w sim.ues) in
      let u : Ue Emulated = record w {
        rest = record w.rest { current_procedure = code - fgmm_min_type };
      } in
      (u, rw (found, settle) (ground (arith, lookup-insert k k u (insert k w sim.ues))), refl)

  handle_release :
      (k : ℕ) (at : Option ℕ) (ul_sent : List Stamp) (ue : Ue Emulated) (sim : Sim)
      → lookup k sim.ues ≡ some ue
      → handle_downlink s now (release_sign, k, at, ul_sent) sim
        ≡ ([], settle k (some 74) (dispatcher s now (some release_sign) k at ul_sent sim).1)
  unfolding handle_downlink send_reply
  handle_release k at ul_sent ue sim e =
      rw (dispatcher_release k at ul_sent ue sim e, handle_downlink) refl

  -- When the connection of a known UE is released, its worker sends nothing, the UE is at the release then,
  -- and the closed loop, if there is one, has taken the place of that UE back and of no other UE.
  pub handle_downlink-release_sign :
      (k v : ℕ) (at : Option ℕ) (ul_sent : List Stamp) (ue : Ue Emulated) (sim : Sim)
      → lookup k sim.ues ≡ some ue
      → let got = handle_downlink s now (release_sign, k, at, ul_sent) sim in
        (got.0 ≡ [])
        × (place_of v got.1 ≡ (if k == v then none else place_of v sim))
        × (u : Ue Emulated) × (lookup k got.1.ues ≡ some u)
        × (u.rest.current_procedure ≡ 9)
  handle_downlink-release_sign k v at ul_sent ue sim e =
      let after = dispatcher s now (some release_sign) k at ul_sent sim in
      let places : (settle k (some 74) after.1).inflight ≡ freed k (some 74) sim.inflight =
        settle-inflight k (some 74) after.1
        ∙ ap (freed k (some 74)) (dispatcher-inflight s now (some release_sign) k at ul_sent sim) in
      let (u, there, at_end) = settle_stored k 74 (released ul_sent ue) sim in
      rw (handle_release k at ul_sent ue sim e) (
        refl,
        rw (place_of, places) (place_of-freed k v 74 sim.inflight refl),
        u,
        rw (dispatcher_stores k at ul_sent ue sim e) there,
        at_end,
      )

  -- What a start leaves, seen by the place of one UE.
  abbrev Took : ℕ → ℕ → InFlight → Started → Type 0
  Took k v f stopped = Unit {0}
  Took k v f no_room = Unit {0}
  Took k v f (raised next) = Unit {0}
  Took k v f (started out next) =
      (length f.started < f.limit)
      × (place_of v next ≡ (if k == v then some now else lookup v f.started))

  acquire_takes :
      (stop : Bool) (k v : ℕ) (f g : InFlight)
      → acquire_round k stop now f ≡ has_place g
      → (length f.started < f.limit)
        × (lookup v g.started ≡ (if k == v then some now else lookup v f.started))
  unfolding acquire_round
  acquire_takes stop k v f g h = ground (arith, lookup-insert k v now f.started)

  Took-Same :
      (stop : Bool) (k v : ℕ) (f g : InFlight) (sim : Sim) (r : Started)
      → acquire_round k stop now f ≡ has_place g
      → Same s now (record sim { inflight = some g }) r
      → Took k v f r
  Took-Same stop k v f g sim stopped h same = tt
  Took-Same stop k v f g sim no_room h same = tt
  Took-Same stop k v f g sim (raised next) h same = tt
  Took-Same stop k v f g sim (started out next) h same =
      let (free, place) = acquire_takes stop k v f g h in (free, rw (place_of, same) place)

  Took-acquired :
      (stop : Bool) (k v : ℕ) (ue : Ue Emulated) (f : InFlight) (sim : Sim) (a : P.Acquired)
      → acquire_round k stop now f ≡ a
      → Took k v f (acquired s now k ue sim a)
  Took-acquired stop k v ue f sim gave_up h = tt
  Took-acquired stop k v ue f sim waits h = tt
  Took-acquired stop k v ue f sim (has_place g) h =
      let with_place : Sim = record sim { inflight = some g } in
      Took-Same stop k v f g sim (start_procedure s now k ue with_place) h
        (start_procedure-Same s now k ue with_place)

  -- A UE of a closed loop starts only while fewer UEs than the limit have a place; it has one then, since
  -- that time, and every other UE keeps what it had.
  pub start_ue-takes :
      (stop : Bool) (k v : ℕ) (ue : Ue Emulated) (f : InFlight) (out : List Output) (sim next : Sim)
      → sim.inflight ≡ some f
      → start_ue s now stop k ue sim ≡ started out next
      → (length f.started < f.limit)
        × (place_of v next ≡ (if k == v then some now else lookup v f.started))
  start_ue-takes stop k v ue f out sim next e h =
      subst (Took k v f) (sym (start_closed s now stop k ue f sim e) ∙ h)
        (Took-acquired stop k v ue f sim (acquire_round k stop now f) refl)
