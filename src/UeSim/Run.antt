-- ===== src/UeSim/Run.antt =====
-- Runs of src/UESim.py's threads: UEs that start, and downlink messages of started UEs.
use core_network_traffic_gen.Common.{
  ℕ, ◌-◌, ◌≡◌, refl, if◌then◌else◌, Bool-cases, Option-cases, inl, inr,
}
use core_network_traffic_gen.Common.{Bool, true, false, Option, none, some, List, [], ◌++◌}
use core_network_traffic_gen.Common.Table.{lookup}
use core_network_traffic_gen.Pacing.InFlight.{acquire_round, has_place, gave_up, waits}
use core_network_traffic_gen.Ue.NextAction.{Ue, next_request, next_action}
use core_network_traffic_gen.Ue.State.{Emulated, Setting}
use core_network_traffic_gen.Ue.Handlers.{action}
use core_network_traffic_gen.Ue.Keeps.{is_started, next_request-starts}
use core_network_traffic_gen.UeSim.State.{Sim, Output, fgmm_min_type, increment, store}
use core_network_traffic_gen.UeSim.Counts.{IsCounted, Has, Keeps, move-Keeps, starts-IsCounted}
use core_network_traffic_gen.UeSim.Dispatch.{dispatcher}
use core_network_traffic_gen.UeSim.Keeps.{dispatcher-Keeps}
use core_network_traffic_gen.UeSim.Events.{
  Queued, goes_on, supi_of, free_place, settle, send_reply, follow_up, handle_downlink,
  expire_places, Started, stopped, no_room, raised, started, send_nas, start_procedure, start_ue,
}

free_place-Keeps :
    (k : ℕ) (code : Option ℕ) (sim : Sim) → Keeps k sim → Keeps k (free_place k code sim)
free_place-Keeps k code sim h = h

settle-Keeps : (k : ℕ) (code : Option ℕ) (sim : Sim) → Keeps k sim → Keeps k (settle k code sim)
unfolding settle
settle-Keeps k none sim h = free_place-Keeps k none sim h
settle-Keeps k (some code) sim h =
    let (counted, (ue, e, on)) = free_place-Keeps k (some code) sim h in
    let freed = free_place k (some code) sim in
    rw (e, settle) (move-Keeps k code ue ue freed e (refl, refl) on counted)

-- What a start leaves, if the UE is started, has the counts.
abbrev Leaves : Started → Type 0
Leaves stopped = Unit {0}
Leaves no_room = Unit {0}
Leaves (raised sim) = Unit {0}
Leaves (started out next) = IsCounted next

module _ (s : Setting) (now : ℕ) where
  follow_up-Keeps :
      (k : ℕ) (out : List Output) (sim : Sim) → Keeps k sim → Keeps k (follow_up s now k out sim).1
  unfolding follow_up
  follow_up-Keeps k out sim h =
      let after = dispatcher s now none k none [] sim in
      let kept = dispatcher-Keeps s now none k none [] sim h in
      elim after.0
        as (λ r. Keeps k (
          let o : List Output × Sim = elim r [
            | none ↦ (out, after.1)
            | some (tx, code) ↦ elim (send_reply k (supi_of k after.1) tx code) [
              | none ↦ (out, after.1)
              | some more ↦ (out ++ more, settle k code after.1)
            ]
          ] in
          o.1)) [
            | none ↦ kept
            | some (tx, code) ↦
                elim (send_reply k (supi_of k after.1) tx code)
                  as (λ r. Keeps k (
                    let o : List Output × Sim = elim r [
                      | none ↦ (out, after.1)
                      | some more ↦ (out ++ more, settle k code after.1)
                    ] in
                    o.1)) [ none ↦ kept | some more ↦ settle-Keeps k code after.1 kept ]
          ]

  -- A worker's handling of a downlink message keeps the counts, whether it raises or not.
  pub handle_downlink-Keeps :
      (q : Queued) (sim : Sim) → Keeps q.1 sim → Keeps q.1 (handle_downlink s now q sim).1
  unfolding handle_downlink
  handle_downlink-Keeps (buf, k, received_at, ul_sent) sim h =
      let after = dispatcher s now (some buf) k received_at ul_sent sim in
      let kept = dispatcher-Keeps s now (some buf) k received_at ul_sent sim h in
      elim after.0
        as (λ r. Keeps k (
          let o : List Output × Sim = elim r [
            | none ↦ ([], after.1)
            | some (tx, code) ↦ elim (send_reply k (supi_of k after.1) tx code) [
              | none ↦ ([], after.1)
              | some out ↦
                  if goes_on code
                  then follow_up s now k out after.1
                  else (out, settle k code after.1)
            ]
          ] in
          o.1)) [
            | none ↦ kept
            | some (tx, code) ↦
                elim (send_reply k (supi_of k after.1) tx code)
                  as (λ r. Keeps k (
                    let o : List Output × Sim = elim r [
                      | none ↦ ([], after.1)
                      | some out ↦
                          if goes_on code
                          then follow_up s now k out after.1
                          else (out, settle k code after.1)
                    ] in
                    o.1)) [
                      | none ↦ kept
                      | some out ↦ elim (Bool-cases (goes_on code)) [
                        | inl g ↦ rw g (follow_up-Keeps k out after.1 kept)
                        | inr g ↦ rw g (settle-Keeps k code after.1 kept)
                      ]
                    ]
          ]

  start_procedure-Leaves :
      (k : ℕ) (ue : Ue Emulated) (sim : Sim)
      → lookup k sim.ues ≡ some ue
      → is_started ue ≡ false
      → IsCounted sim
      → Leaves (start_procedure s now k ue sim)
  unfolding start_procedure next_action
  start_procedure-Leaves k ue sim e off counted =
      let after = next_request (action s now) ue none in
      let raised_after : Started = raised (store k after.1 sim) in
      elim (Option-cases after.0) [
        | inl h ↦ rw (h, start_procedure) tt
        | inr ((none, code), h) ↦ rw (h, start_procedure) tt
        | inr ((some m, none), h) ↦ rw (h, start_procedure) tt
        | inr ((some m, some code), h) ↦
            let at = code - fgmm_min_type in
            let w : Ue Emulated = record after.1 {
              rest = record after.1.rest { current_procedure = at };
            } in
            let on : is_started w ≡ true = next_request-starts s now ue m code h in
            rw (h, start_procedure)
              (elim (send_nas k m code)
                as (λ o. Leaves (elim o [
                  | none ↦ raised_after
                  | some out ↦
                      started out (record (store k w sim) { states = increment at sim.states })
                ])) [ none ↦ tt | some out ↦ starts-IsCounted k at ue w sim e off on refl counted ])
      ]

  start_ue-Leaves :
      (stop : Bool) (k : ℕ) (ue : Ue Emulated) (sim : Sim)
      → lookup k sim.ues ≡ some ue
      → is_started ue ≡ false
      → IsCounted sim
      → Leaves (start_ue s now stop k ue sim)
  unfolding start_ue
  start_ue-Leaves stop k ue sim e off counted =
      elim sim.inflight
        as (λ o. Leaves (elim o [
          | none ↦ start_procedure s now k ue sim
          | some f ↦ elim (acquire_round k stop now f) [
            | gave_up ↦ stopped
            | waits ↦ no_room
            | has_place g ↦ start_procedure s now k ue (record sim { inflight = some g })
          ]
        ])) [
          | none ↦ start_procedure-Leaves k ue sim e off counted
          | some f ↦
              elim (acquire_round k stop now f)
                as (λ o. Leaves (elim o [
                  | gave_up ↦ stopped
                  | waits ↦ no_room
                  | has_place g ↦ start_procedure s now k ue (record sim { inflight = some g })
                ])) [
                  | gave_up ↦ tt
                  | waits ↦ tt
                  | has_place g ↦
                      start_procedure-Leaves k ue (record sim { inflight = some g }) e off counted
                ]
        ]

-- What the threads do, one at a time: a worker handles a message of a started UE, `init` starts a UE
-- that has not started, and places expire.
pub data Step (s : Setting) : Sim → Sim → Type 0 where
  down :
      (now : ℕ) (q : Queued) (sim next : Sim)
      → Has q.1 sim
      → next ≡ (handle_downlink s now q sim).1
      → Step s sim next
  start :
      (now : ℕ) (stop : Bool) (k : ℕ) (ue : Ue Emulated) (out : List Output) (sim next : Sim)
      → lookup k sim.ues ≡ some ue
      → is_started ue ≡ false
      → start_ue s now stop k ue sim ≡ started out next
      → Step s sim next
  expiry : (now : ℕ) (sim next : Sim) → next ≡ expire_places now sim → Step s sim next

pub data Reach (s : Setting) (first : Sim) : Sim → Type 0 where
  here : Reach s first first
  later : {sim next : Sim} → Reach s first sim → Step s sim next → Reach s first next

expire_places-IsCounted : (now : ℕ) (sim : Sim) → IsCounted sim → IsCounted (expire_places now sim)
unfolding expire_places
expire_places-IsCounted now sim h = h

Step-IsCounted : {s : Setting} {sim next : Sim} → Step s sim next → IsCounted sim → IsCounted next
Step-IsCounted {s} (down now q sim next has e) counted =
    rw e (handle_downlink-Keeps s now q sim (counted, has)).0
Step-IsCounted {s} (start now stop k ue out sim next e off h) counted =
    rw h at (start_ue-Leaves s now stop k ue sim e off counted)
Step-IsCounted (expiry now sim next e) counted = rw e (expire_places-IsCounted now sim counted)

-- From a simulator whose counts are its UEs', over any order of starts, downlink messages of started UEs
-- and expiries, each count stays the number of started UEs at that message, as a 32-bit number.
pub Reach-IsCounted :
    {s : Setting} {first sim : Sim} → Reach s first sim → IsCounted first → IsCounted sim
Reach-IsCounted here counted = counted
Reach-IsCounted (later r st) counted = Step-IsCounted st (Reach-IsCounted r counted)
