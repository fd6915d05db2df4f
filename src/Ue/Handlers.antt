-- ===== src/Ue/Handlers.antt =====
-- The functions of src/UEMessages.py that answer a message or start a procedure, with the fast path on.
-- A handler gives what is sent and its code, or an exception; `now` is the clock.
use core_network_traffic_gen.Common.{ℕ, ◌+◌, ◌==◌, if◌then◌else◌, Bool, true, false}
use core_network_traffic_gen.Common.{Option, none, some, List, [], drop, length}
use core_network_traffic_gen.Nas.Protect.{Security, protect}
use core_network_traffic_gen.Nas.Downlink.{
  Message, authentication_request, security_mode_command, establishment_accept,
}
use core_network_traffic_gen.Nas.Uplink.{
  Subscriber, registration_request, registration_complete, configuration_update_complete,
  establishment_request, mo_deregistration_request, security_mode_complete,
  ul_nas_transport_pdu_session_establishment_request,
}
use core_network_traffic_gen.Nas.Uplink as U
use core_network_traffic_gen.Ue.NextAction.{Action}
use core_network_traffic_gen.Ue.State.{
  State, registered_initiated, registered, deregistered_initiated, authenticated_initiated,
  security_mode_initiated, pdu_session_requested, pdu_session_established, pdu_session_transmitting,
  deregistered, connection_released,
}
use core_network_traffic_gen.Ue.State.{Received, nas, Emulated, Setting, set_state, set_procedure}

abbrev pub Octets : Type 0
Octets = List ℕ

-- What a handler leaves.
abbrev pub Done : Type 0
Done = Option (Option Octets × Option ℕ) × Emulated

abbrev pub sends : Option Octets → ℕ → Emulated → Done
sends m code e = (some (m, some code), e)

-- The builder's message, or else pycrate's
abbrev pub built : Option Octets → Option Octets → Option Octets
built none slow = slow
built (some m) slow = some m

-- `security_prot_encrypt_ciphered`: any failure gives the plain message.
unfoldable pub encrypt_ciphered : Setting → Octets → Emulated → Octets × Emulated
encrypt_ciphered s plain e = elim e.security [
  | none ↦ (plain, e)
  | some c ↦ elim (s.encrypt c plain) [
    | none ↦ (plain, e)
    | some m ↦ (m, record e { security = some (record c { ul_nas_count = c.ul_nas_count + 1 }) })
  ]
]

-- `nasfast.protect`, none where it gives None
unfoldable pub protect_fast : Setting → Option ℕ → Octets → Emulated → Option (Octets × Emulated)
protect_fast s count plain e = elim e.security [
  | none ↦ none
  | some c ↦ elim (protect s.algorithms count plain c) [
    | none ↦ none
    | some (m, next) ↦ some (m, record e { security = some next })
  ]
]

-- `ue.ul_nas_count = 0`, where a count is given
abbrev pub with_count : Option ℕ → Emulated → Emulated
with_count none e = e
with_count (some n) e = elim e.security [
  | none ↦ e
  | some c ↦ record e { security = some (record c { ul_nas_count = n }) }
]

module _ (s : Setting) (now : ℕ) where
  -- A protected message of the fast path, or else what `slow` leaves; `inner` is what MsgInBytes keeps.
  unfoldable pub send_protected :
      Option ℕ → Option Octets → Octets → State → ℕ → Done → Emulated → Done
  unfolding protect_fast
  send_protected count none inner state code slow e = slow
  send_protected count (some plain) inner state code slow e = elim (protect_fast s count plain e) [
    | none ↦ slow
    | some (m, after) ↦
        sends (some m) code (set_state state now (record after { msg_in_bytes = some inner }))
  ]

  -- The same with pycrate: the message with this code is built, kept and protected.
  unfoldable pub send_slow : Option ℕ → State → ℕ → Emulated → Done
  unfolding encrypt_ciphered
  send_slow count state code e = elim (s.build code e) [
    | none ↦ (none, e)
    | some m ↦
        let (sent, after) =
          encrypt_ciphered s m (with_count count (record e { msg_in_bytes = some m })) in
        sends (some sent) code (set_state state now after)
  ]

  unfoldable pub registration : Emulated → Done
  registration e = elim (built (registration_request s.encode_bcd e.subscriber) (s.build 65 e)) [
    | none ↦ (none, e)
    | some m ↦
        sends (some m) 65
          (record (set_procedure 65 now
            (set_state registered_initiated now (record e { msg_in_bytes = some m }))) {
              start_time = some now;
            })
  ]

  unfoldable pub complete_registration : Emulated → Done
  unfolding send_protected send_slow
  complete_registration e =
      send_protected none (some registration_complete) registration_complete registered 67
        (send_slow none registered 67 e) e

  abbrev pub is_deregistering : State → Bool
  is_deregistering deregistered_initiated = true
  is_deregistering _ = false

  -- No code is sent: the UE's state stays.
  unfoldable pub complete_configuration_update : Emulated → Done
  unfolding protect_fast encrypt_ciphered
  complete_configuration_update e =
      let slow : Done = elim (s.build 85 e) [
        | none ↦ (none, e)
        | some m ↦
            let (sent, after) = encrypt_ciphered s m (record e { msg_in_bytes = some m }) in
            (some (some sent, none), after)
      ] in
      if is_deregistering e.state
      then (some (none, none), e)
      else elim (protect_fast s none configuration_update_complete e) [
        | none ↦ slow
        | some (m, after) ↦ (
          some (some m, none),
          record after { msg_in_bytes = some configuration_update_complete },
        )
      ]

  unfoldable pub deregistration : Emulated → Done
  unfolding send_protected send_slow
  deregistration e =
      let plain = mo_deregistration_request s.encode_bcd e.subscriber in
      send_protected none plain (elim plain [ none ↦ [] | some p ↦ p ]) deregistered_initiated 69
        (send_slow none deregistered_initiated 69 e) e

  abbrev pub deregistration_complete : Emulated → Done
  deregistration_complete e = sends none 74 (set_state deregistered now e)

  -- `authentication_response`: RES* and the keys up to K_AMF.
  unfoldable pub authenticate : Message → Emulated → Done
  authenticate (authentication_request rand sqn_xor_ak amf mac abba) e =
      let (res, ck, ik) = s.crypto.f2345 e.op_type_opc e.op e.key rand in
      let res_star = s.crypto.conv_501_a4 ck ik e.sn_name rand res in
      let k_ausf = s.crypto.conv_501_a2 ck ik e.sn_name sqn_xor_ak in
      let k_seaf = s.crypto.conv_501_a6 k_ausf e.sn_name in
      elim (built (U.authentication_response res_star) (s.build 87 e)) [
        | none ↦ (none, e)
        | some m ↦ sends (some m) 87 (
            set_state authenticated_initiated now (record e {
              msg_in_bytes = some m;
              k_ausf = k_ausf;
              k_seaf = k_seaf;
              k_amf = s.crypto.conv_501_a7 k_seaf e.supi abba;
            }))
      ]
  authenticate _ e = (none, e)

  -- The NAS security context that a Security Mode Command starts, before its first message.
  abbrev pub context : ℕ → ℕ → Emulated → Security
  context ciph_algo integ_algo e = record {
    ciph_algo = ciph_algo;
    integ_algo = integ_algo;
    k_nas_enc = drop 16 (s.crypto.conv_501_a8 e.k_amf 1 ciph_algo);
    k_nas_int = drop 16 (s.crypto.conv_501_a8 e.k_amf 2 integ_algo);
    ul_nas_count = elim e.security [ none ↦ 0 | some c ↦ c.ul_nas_count ];
  }

  abbrev pub new_security : ℕ → ℕ → Emulated → Emulated
  new_security ciph_algo integ_algo e = record e {
    security = some (context ciph_algo integ_algo e);
  }

  unfoldable pub complete_security_mode : Message → Emulated → Done
  unfolding send_protected send_slow
  complete_security_mode (security_mode_command ciph_algo integ_algo) e =
      let with_keys = new_security ciph_algo integ_algo e in
      let plain = security_mode_complete s.encode_bcd e.subscriber in
      send_protected (some 0) plain (elim plain [ none ↦ [] | some p ↦ p ]) security_mode_initiated
        94 (send_slow (some 0) security_mode_initiated 94 with_keys) with_keys
  complete_security_mode _ e = (none, e)

  -- pycrate builds the request, and then the transport message that carries it.
  unfoldable pub session_slow : Emulated → Done
  unfolding encrypt_ciphered
  session_slow e = elim (s.build 193 e) [
    | none ↦ (none, e)
    | some inner ↦
        let kept = record e { msg_in_bytes = some inner } in
        elim (s.build 103 kept) [
          | none ↦ (none, kept)
          | some m ↦
              let (sent, after) = encrypt_ciphered s m kept in
              sends (some sent) 193 (set_state pdu_session_requested now after)
        ]
  ]

  unfoldable pub request_session : Emulated → Done
  unfolding send_protected session_slow
  request_session e =
      send_protected none (ul_nas_transport_pdu_session_establishment_request e.subscriber)
        establishment_request pdu_session_requested 193 (session_slow e) e

  -- inet_ntoa raises for an address that has not four octets, when it is kept already.
  unfoldable pub complete_session : Message → Emulated → Done
  complete_session (establishment_accept address) e =
      let kept = record e { ip_address = some address } in
      if length address == 4
      then sends none 200 (set_state pdu_session_established now kept)
      else (none, kept)
  complete_session _ e = (none, e)

  abbrev pub connection_release_complete : Emulated → Done
  connection_release_complete e =
      sends none 74 (record (set_procedure 74 now (set_state connection_released now e)) {
        end_time = some now;
      })

  unfoldable pub generate_traffic : Emulated → Done
  generate_traffic e =
      let transmitting = set_state pdu_session_transmitting now e in
      elim e.ip_address [
        | none ↦ (none, transmitting)
        | some address ↦ sends (some address) 196 transmitting
      ]

  -- The message that a handler takes, or an exception where it has none of it.
  abbrev pub of_message : (Message → Emulated → Done) → Option Received → Emulated → Done
  of_message f (some (nas m)) e = f m e
  of_message f _ e = (none, e)

  -- request_mapper and response_mapper
  unfoldable pub handler : ℕ → Option Received → Emulated → Done
  unfolding registration complete_registration complete_configuration_update deregistration
      authenticate complete_security_mode request_session complete_session generate_traffic
  handler code msg e =
      if code == 65
      then registration e
      else if code == 193
      then request_session e
      else if code == 69
      then deregistration e
      else if code == 196
      then generate_traffic e
      else if code == 86
      then of_message authenticate msg e
      else if code == 66
      then complete_registration e
      else if code == 84
      then complete_configuration_update e
      else if code == 194
      then of_message complete_session msg e
      else if code == 93
      then of_message complete_security_mode msg e
      else if code == 70
      then deregistration_complete e
      else if code == 74
      then connection_release_complete e
      else (none, e)

  unfoldable pub action : ℕ → Action Emulated Received Octets
  unfolding handler
  action code ue msg = let (out, e) = handler code msg ue.rest in (out, record ue { rest = e })
