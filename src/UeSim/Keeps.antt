-- ===== src/UeSim/Keeps.antt =====
-- The dispatcher and the workers of src/UESim.py keep the counts.
use core_network_traffic_gen.Common.{
  ℕ, ◌-◌, ◌≡◌, refl, sym, ◌∙◌, ◌==◌, if◌then◌else◌, Bool-cases, inl, inr,
}
use core_network_traffic_gen.Common.{true, Option, none, some, List, [], ◌∷◌}
use core_network_traffic_gen.Common.Table.{lookup}
use core_network_traffic_gen.RanLink.Event.{Stamp}
use core_network_traffic_gen.Nas.Downlink.{Message}
use core_network_traffic_gen.Ue.NextAction.{Ue, next_action}
use core_network_traffic_gen.Ue.State.{
  Received, nas, an_release, Emulated, failed, not_decrypted, taken, Setting,
}
use core_network_traffic_gen.Ue.Handlers.{Octets, action}
use core_network_traffic_gen.Ue.Keeps.{is_started, next_action_keeps}
use core_network_traffic_gen.UeSim.State.{Sim, fgmm_min_type, store, set_time, move}
use core_network_traffic_gen.UeSim.Counts.{
  IsCounted, Alike, Keeps, lookup-store, store-Keeps, move-Keeps,
}
use core_network_traffic_gen.UeSim.Dispatch.{
  Reply, code_of, take_stamps, timed, is_release_sign, read, received, next_procedure, on_release,
  answer, on_message, dispatcher,
}

take_stamps-Alike : (stamps : List Stamp) (ue : Ue Emulated) → Alike (take_stamps stamps ue) ue
unfolding take_stamps
take_stamps-Alike [] ue = (refl, refl)
take_stamps-Alike ((code, at) ∷ stamps) ue = take_stamps-Alike stamps (set_time code at ue)

timed-Alike : (code : Option ℕ) (now : ℕ) (ue : Ue Emulated) → Alike (timed code now ue) ue
timed-Alike none now ue = (refl, refl)
timed-Alike (some code) now ue = (refl, refl)

Alike-trans : (u v w : Ue Emulated) → Alike u v → Alike v w → Alike u w
Alike-trans u v w (a, b) (c, d) = (a ∙ c, b ∙ d)

module _ (s : Setting) (now : ℕ) where
  -- A started UE counts alike after its next action.
  next_action-Alike :
      (ue : Ue Emulated) (msg : Option Received) (code : Option ℕ)
      → is_started ue ≡ true
      → Alike (next_action (action s now) ue msg code).1 ue
  next_action-Alike ue msg code on =
      let (same, still) = next_action_keeps s now ue msg code in (same, still on ∙ sym on)

  -- The UE of the call, as the simulator has it and as the call found it
  module _ (k : ℕ) (v ue : Ue Emulated) (sim : Sim) (e : lookup k sim.ues ≡ some v)
      (alike : Alike ue v) (on : is_started v ≡ true) (counted : IsCounted sim) where
    stores_Keeps : (w : Ue Emulated) → Alike w ue → Keeps k (store k w sim)
    stores_Keeps w h = store-Keeps k v w sim e (Alike-trans w ue v h alike) on counted

    next_procedure-Keeps : Keeps k (next_procedure s now k ue sim).1
    unfolding next_procedure
    next_procedure-Keeps =
        let after = next_action (action s now) ue none none in
        let same = next_action-Alike ue none none (alike.1 ∙ on) in
        elim after.0
          as (λ o. Keeps k (
            let r : Reply = elim o [
              | none ↦ (none, store k after.1 sim)
              | some (m, none) ↦ (none, store k after.1 sim)
              | some (m, some code) ↦ (some (m, some code), store k (set_time code now after.1) sim)
            ] in
            r.1)) [
              | none ↦ stores_Keeps after.1 same
              | some (m, none) ↦ stores_Keeps after.1 same
              | some (m, some code) ↦ stores_Keeps (set_time code now after.1) same
            ]

    on_release-Keeps : Keeps k (on_release s now k ue sim).1
    unfolding on_release
    on_release-Keeps =
        stores_Keeps (next_action (action s now) ue (some an_release) (some 74)).1
          (next_action-Alike ue (some an_release) (some 74) (alike.1 ∙ on))

    answer-Keeps : (m : Message) → Keeps k (answer s now k m ue sim).1
    unfolding answer move
    answer-Keeps m =
        let code = code_of m in
        let at : Ue Emulated = record ue {
          rest = record ue.rest { current_procedure = code - fgmm_min_type };
        } in
        let moved = move k code ue sim in
        let counts = move-Keeps k code v ue sim e alike on counted in
        let found : lookup k moved.ues ≡ some at = lookup-store k at sim in
        let at_on : is_started at ≡ true = alike.1 ∙ on in
        let after = next_action (action s now) at (some (nas m)) (some code) in
        let same = next_action-Alike at (some (nas m)) (some code) at_on in
        let stores : (w : Ue Emulated) → Alike w at → Keeps k (store k w moved) =
          λ w h. store-Keeps k at w moved found h at_on counts.0 in
        elim after.0
          as (λ o. Keeps k (
            let r : Reply = elim o [
              | none ↦ (none, store k after.1 moved)
              | some (tx, sent_code) ↦
                  (some (tx, sent_code), store k (timed sent_code now after.1) moved)
            ] in
            r.1)) [
              | none ↦ stores after.1 same
              | some (tx, sent_code) ↦ stores (timed sent_code now after.1) (
                  Alike-trans (timed sent_code now after.1) after.1 at
                    (timed-Alike sent_code now after.1) same)
            ]

  on_message-Keeps :
      (k received_at : ℕ) (buf : Octets) (v ue : Ue Emulated) (sim : Sim)
      → lookup k sim.ues ≡ some v
      → Alike ue v
      → is_started v ≡ true
      → IsCounted sim
      → Keeps k (on_message s now k received_at buf ue sim).1
  unfolding on_message
  on_message-Keeps k received_at buf v ue sim e alike on counted =
      let stays = stores_Keeps k v ue sim e alike on counted ue (refl, refl) in
      elim (read s ue.rest.security buf)
        as (λ r. Keeps k (
          let o : Reply = elim r [
            | failed ↦ (none, store k ue sim)
            | not_decrypted ↦ (some (none, none), store k ue sim)
            | taken m ↦
                if code_of m == 84
                then (some (none, none), store k ue sim)
                else answer s now k m (set_time (code_of m) received_at ue) sim
          ] in
          o.1)) [
            | failed ↦ stays
            | not_decrypted ↦ stays
            | taken m ↦ elim (Bool-cases (code_of m == 84)) [
              | inl h ↦ rw h stays
              | inr h ↦
                  rw h (
                    answer-Keeps k v (set_time (code_of m) received_at ue) sim e alike on counted m)
            ]
          ]

  -- The dispatcher keeps the counts, for a UE that has started.
  pub dispatcher-Keeps :
      (d : Option Octets) (k : ℕ) (received_at : Option ℕ) (ul_sent : List Stamp) (sim : Sim)
      → Keeps k sim
      → Keeps k (dispatcher s now d k received_at ul_sent sim).1
  unfolding dispatcher
  dispatcher-Keeps none k received_at ul_sent sim (counted, (v, e, on)) =
      let alike = take_stamps-Alike ul_sent v in
      rw (e, dispatcher) (next_procedure-Keeps k v (take_stamps ul_sent v) sim e alike on counted)
  dispatcher-Keeps (some buf) k received_at ul_sent sim (counted, (v, e, on)) =
      let ue = take_stamps ul_sent v in
      let alike = take_stamps-Alike ul_sent v in
      rw (e, dispatcher)
        (elim (Bool-cases (is_release_sign buf)) [
          | inl h ↦ rw h (on_release-Keeps k v ue sim e alike on counted)
          | inr h ↦
              rw h (on_message-Keeps k (received s now received_at) buf v ue sim e alike on counted)
        ])
