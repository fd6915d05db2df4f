-- ===== src/UeSim/Calls.antt =====
-- The dispatcher of src/UESim.py and the places of the closed loop.
use core_network_traffic_gen.Common.{
  ℕ, ◌≡◌, refl, arith, ◌==◌, if◌then◌else◌, Bool-cases, Option-cases, inl, inr,
}
use core_network_traffic_gen.Common.{Option, none, some, List}
use core_network_traffic_gen.Common.Table.{lookup}
use core_network_traffic_gen.RanLink.Event.{Stamp}
use core_network_traffic_gen.Nas.Downlink.{Message}
use core_network_traffic_gen.Ue.NextAction.{Ue}
use core_network_traffic_gen.Ue.State.{Emulated, failed, not_decrypted, taken, Setting}
use core_network_traffic_gen.Ue.Handlers.{Octets}
use core_network_traffic_gen.UeSim.State.{Sim, store, set_time, move}
use core_network_traffic_gen.UeSim.Dispatch.{
  Reply, code_of, take_stamps, is_release_sign, read, received, next_procedure, on_release, answer,
  on_message, dispatcher,
}

module _ (s : Setting) (now : ℕ) where
  next_procedure-inflight :
      (k : ℕ) (ue : Ue Emulated) (sim : Sim)
      → (next_procedure s now k ue sim).1.inflight ≡ sim.inflight
  unfolding next_procedure
  next_procedure-inflight k ue sim = ground arith

  answer-inflight :
      (k : ℕ) (m : Message) (ue : Ue Emulated) (sim : Sim)
      → (answer s now k m ue sim).1.inflight ≡ sim.inflight
  unfolding answer move
  answer-inflight k m ue sim = ground arith

  on_message-inflight :
      (k received_at : ℕ) (buf : Octets) (ue : Ue Emulated) (sim : Sim)
      → (on_message s now k received_at buf ue sim).1.inflight ≡ sim.inflight
  unfolding on_message
  on_message-inflight k received_at buf ue sim =
      elim (read s ue.rest.security buf)
        as (λ r.
          (let o : Reply = elim r [
            | failed ↦ (none, store k ue sim)
            | not_decrypted ↦ (some (none, none), store k ue sim)
            | taken m ↦
                if code_of m == 84
                then (some (none, none), store k ue sim)
                else answer s now k m (set_time (code_of m) received_at ue) sim
          ] in
            o.1.inflight)
          ≡ sim.inflight) [
            | failed ↦ refl
            | not_decrypted ↦ refl
            | taken m ↦ elim (Bool-cases (code_of m == 84)) [
              | inl h ↦ rw h refl
              | inr h ↦ rw h (answer-inflight k m (set_time (code_of m) received_at ue) sim)
            ]
          ]

  -- The dispatcher has no part in the closed loop.
  pub dispatcher-inflight :
      (d : Option Octets) (k : ℕ) (received_at : Option ℕ) (ul_sent : List Stamp) (sim : Sim)
      → (dispatcher s now d k received_at ul_sent sim).1.inflight ≡ sim.inflight
  unfolding dispatcher on_release
  dispatcher-inflight none k received_at ul_sent sim = elim (Option-cases (lookup k sim.ues)) [
    | inl e ↦ rw (e, dispatcher) refl
    | inr (ue, e) ↦ rw (e, dispatcher) (next_procedure-inflight k (take_stamps ul_sent ue) sim)
  ]
  dispatcher-inflight (some buf) k received_at ul_sent sim =
      elim (Option-cases (lookup k sim.ues)) [
        | inl e ↦ rw (e, dispatcher) refl
        | inr (ue, e) ↦
            rw (e, dispatcher)
              (elim (Bool-cases (is_release_sign buf)) [
                | inl h ↦ rw h refl
                | inr h ↦ rw h (
                    on_message-inflight k (received s now received_at) buf (take_stamps ul_sent ue)
                      sim)
              ])
      ]
