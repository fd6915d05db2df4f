-- ===== src/UeSim/Dispatch.antt =====
-- `dispatcher` of src/UESim.py, below verbosity 3: a downlink message of a UE, or its next procedure.
use core_network_traffic_gen.Common.{
  ℕ, ◌-◌, ◌==◌, if◌then◌else◌, Bool, false, Option, none, some, List, [], ◌∷◌,
}
use core_network_traffic_gen.Common.Table.{lookup}
use core_network_traffic_gen.RanLink.Event.{Stamp}
use core_network_traffic_gen.Nas.Protect.{Security}
use core_network_traffic_gen.Nas.Downlink.{
  Message, authentication_request, security_mode_command, no_fields, establishment_accept,
}
use core_network_traffic_gen.Nas.Downlink as D
use core_network_traffic_gen.Ue.NextAction.{Ue, next_action}
use core_network_traffic_gen.Ue.State.{
  nas, an_release, Emulated, Slow, failed, not_decrypted, taken, Setting,
}
use core_network_traffic_gen.Ue.Handlers.{Octets, action}
use core_network_traffic_gen.UeSim.State.{Sim, fgmm_min_type, store, set_time, move}

-- `AN_RELEASE`, b'F': the sign of the (R)AN connection's release
abbrev pub release_sign : Octets
release_sign = 0x46 ∷ []

abbrev pub is_release_sign : Octets → Bool
is_release_sign [] = false
is_release_sign (b ∷ []) = b == 0x46
is_release_sign (b ∷ c ∷ rest) = false

-- `fg_msg_codes` of a message's name
abbrev pub code_of : Message → ℕ
code_of (authentication_request rand sqn_xor_ak amf mac abba) = 86
code_of (security_mode_command ciph_algo integ_algo) = 93
code_of (no_fields code) = code
code_of (establishment_accept address) = 194

-- What a call gives: what is sent and its code, none for an exception; and the simulator after it.
abbrev pub Reply : Type 0
Reply = Option (Option Octets × Option ℕ) × Sim

-- `for code, sent_at in ul_sent or (): ...`
unfoldable pub take_stamps : List Stamp → Ue Emulated → Ue Emulated
take_stamps [] ue = ue
take_stamps ((code, sent_at) ∷ stamps) ue = take_stamps stamps (set_time code sent_at ue)

-- The fast path's reading; a UE without a security context has no algorithm to decipher with.
unfoldable pub read_fast : Setting → Option Security → Octets → Option Message
read_fast s none buf =
    D.downlink s.pycrate (λ n. none)
      (record { ciph_algo = 1; integ_algo = 1; k_nas_enc = []; k_nas_int = []; ul_nas_count = 0 })
      buf
read_fast s (some c) buf = D.downlink s.pycrate s.algorithms.fgea c buf

unfoldable pub read : Setting → Option Security → Octets → Slow
unfolding read_fast
read s c buf = elim (read_fast s c buf) [ some m ↦ taken m | none ↦ s.slow c buf ]

abbrev pub timed : Option ℕ → ℕ → Ue Emulated → Ue Emulated
timed none now ue = ue
timed (some code) now ue = set_time code now ue

module _ (s : Setting) (now : ℕ) where
  -- The next procedure: its code is in fg_msg_codes, so None is a KeyError.
  unfoldable pub next_procedure : ℕ → Ue Emulated → Sim → Reply
  next_procedure ue_id ue sim =
      let (sent, after) = next_action (action s now) ue none none in
      elim sent [
        | none ↦ (none, store ue_id after sim)
        | some (m, none) ↦ (none, store ue_id after sim)
        | some (m, some code) ↦ (some (m, some code), store ue_id (set_time code now after) sim)
      ]

  unfoldable pub on_release : ℕ → Ue Emulated → Sim → Reply
  on_release ue_id ue sim =
      let (sent, after) = next_action (action s now) ue (some an_release) (some 74) in
      (sent, store ue_id after sim)

  -- The answer to a message: the counts first, then the UE's action.
  unfoldable pub answer : ℕ → Message → Ue Emulated → Sim → Reply
  unfolding move
  answer ue_id m ue sim =
      let code = code_of m in
      let counted = move ue_id code ue sim in
      let at = record ue { rest = record ue.rest { current_procedure = code - fgmm_min_type } } in
      let (sent, after) = next_action (action s now) at (some (nas m)) (some code) in
      elim sent [
        | none ↦ (none, store ue_id after counted)
        | some (tx, sent_code) ↦
            (some (tx, sent_code), store ue_id (timed sent_code now after) counted)
      ]

  -- A Configuration Update Command is passed over.
  unfoldable pub on_message : ℕ → ℕ → Octets → Ue Emulated → Sim → Reply
  unfolding read answer
  on_message ue_id received_at buf ue sim = elim (read s ue.rest.security buf) [
    | failed ↦ (none, store ue_id ue sim)
    | not_decrypted ↦ (some (none, none), store ue_id ue sim)
    | taken m ↦
        if code_of m == 84
        then (some (none, none), store ue_id ue sim)
        else answer ue_id m (set_time (code_of m) received_at ue) sim
  ]

  -- `received_at or time.time()`
  abbrev pub received : Option ℕ → ℕ
  received none = now
  received (some at) = if at == 0 then now else at

  unfoldable pub dispatcher : Option Octets → ℕ → Option ℕ → List Stamp → Sim → Reply
  unfolding take_stamps next_procedure on_release on_message
  dispatcher d ue_id received_at ul_sent sim = elim (lookup ue_id sim.ues) [
    | none ↦ (none, sim)
    | some ue ↦
        let stamped = take_stamps ul_sent ue in
        elim d [
          | none ↦ next_procedure ue_id stamped sim
          | some buf ↦
              if is_release_sign buf
              then on_release ue_id stamped sim
              else on_message ue_id (received received_at) buf stamped sim
        ]
  ]
