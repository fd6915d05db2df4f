-- ===== src/Ue/Keeps.antt =====
-- What the handlers of src/UEMessages.py leave alone: the message that the UE was at.
use core_network_traffic_gen.Common.{
  ℕ, ◌≡◌, refl, ap, ◌∙◌, arith, ◌==◌, if◌then◌else◌, Bool-cases, Option-cases, inl, inr,
}
use core_network_traffic_gen.Common.{Bool, true, false, Option, none, some, [], get_elem?}
use core_network_traffic_gen.Nas.Downlink.{
  Message, authentication_request, security_mode_command, no_fields, establishment_accept,
}
use core_network_traffic_gen.Nas.Uplink.{
  mo_deregistration_request, security_mode_complete, registration_complete, establishment_request,
  ul_nas_transport_pdu_session_establishment_request,
}
use core_network_traffic_gen.Ue.NextAction.{
  Ue, is_request, is_response, next_index, next_request, next_action,
}
use core_network_traffic_gen.Ue.State.{
  State, registered, deregistered_initiated, security_mode_initiated, pdu_session_requested,
  Received, nas, an_release, Emulated, Setting,
}
use core_network_traffic_gen.Ue.Handlers.{
  Octets, Done, encrypt_ciphered, protect_fast, send_protected, send_slow, registration,
  complete_registration, complete_configuration_update, deregistration, authenticate,
  complete_security_mode, session_slow, request_session, complete_session, generate_traffic,
  handler, new_security, of_message, action,
}

module _ (s : Setting) (now : ℕ) where
  -- The message that a UE was at, after a handler.
  abbrev at : Done → ℕ
  at d = d.1.current_procedure

  encrypt_ciphered-at :
      (plain : Octets) (e : Emulated)
      → (encrypt_ciphered s plain e).1.current_procedure ≡ e.current_procedure
  unfolding encrypt_ciphered
  encrypt_ciphered-at plain e = ground arith

  send_slow-at :
      (count : Option ℕ) (state : State) (code : ℕ) (e : Emulated)
      → at (send_slow s now count state code e) ≡ e.current_procedure
  unfolding send_slow encrypt_ciphered
  send_slow-at count state code e = ground arith

  send_protected-at :
      (count : Option ℕ) (plain : Option Octets) (inner : Octets) (state : State) (code : ℕ)
      (slow : Done) (e : Emulated)
      → at slow ≡ e.current_procedure
      → at (send_protected s now count plain inner state code slow e) ≡ e.current_procedure
  unfolding send_protected protect_fast
  send_protected-at count none inner state code slow e h = h
  send_protected-at count (some plain) inner state code slow e h = ground arith

  configuration-at :
      (e : Emulated) → at (complete_configuration_update s now e) ≡ e.current_procedure
  unfolding complete_configuration_update protect_fast encrypt_ciphered
  configuration-at e = ground arith

  session_slow-at : (e : Emulated) → at (session_slow s now e) ≡ e.current_procedure
  unfolding session_slow encrypt_ciphered
  session_slow-at e = ground arith

  registration-at : (e : Emulated) → at (registration s now e) ≡ e.current_procedure
  unfolding registration
  registration-at e = ground arith

  authenticate-at : (m : Message) (e : Emulated) → at (authenticate s now m e) ≡ e.current_procedure
  unfolding authenticate
  authenticate-at (authentication_request rand sqn_xor_ak amf mac abba) e = ground arith
  authenticate-at (security_mode_command c i) e = refl
  authenticate-at (no_fields c) e = refl
  authenticate-at (establishment_accept a) e = refl

  complete_security_mode-at :
      (m : Message) (e : Emulated) → at (complete_security_mode s now m e) ≡ e.current_procedure
  unfolding complete_security_mode
  complete_security_mode-at (authentication_request rand sqn_xor_ak amf mac abba) e = refl
  complete_security_mode-at (security_mode_command c i) e =
      let with_keys = new_security s now c i e in
      let plain = security_mode_complete s.encode_bcd e.subscriber in
      send_protected-at (some 0) plain (elim plain [ none ↦ [] | some p ↦ p ])
        security_mode_initiated 94 (send_slow s now (some 0) security_mode_initiated 94 with_keys)
        with_keys (send_slow-at (some 0) security_mode_initiated 94 with_keys)
  complete_security_mode-at (no_fields c) e = refl
  complete_security_mode-at (establishment_accept a) e = refl

  complete_session-at :
      (m : Message) (e : Emulated) → at (complete_session s now m e) ≡ e.current_procedure
  unfolding complete_session
  complete_session-at (authentication_request rand sqn_xor_ak amf mac abba) e = refl
  complete_session-at (security_mode_command c i) e = refl
  complete_session-at (no_fields c) e = refl
  complete_session-at (establishment_accept a) e = ground arith

  request_session-at : (e : Emulated) → at (request_session s now e) ≡ e.current_procedure
  unfolding request_session
  request_session-at e =
      send_protected-at none (ul_nas_transport_pdu_session_establishment_request e.subscriber)
        establishment_request pdu_session_requested 193 (session_slow s now e) e (session_slow-at e)

  deregistration-at : (e : Emulated) → at (deregistration s now e) ≡ e.current_procedure
  unfolding deregistration
  deregistration-at e =
      let plain = mo_deregistration_request s.encode_bcd e.subscriber in
      send_protected-at none plain (elim plain [ none ↦ [] | some p ↦ p ]) deregistered_initiated 69
        (send_slow s now none deregistered_initiated 69 e) e
        (send_slow-at none deregistered_initiated 69 e)

  complete_registration-at :
      (e : Emulated) → at (complete_registration s now e) ≡ e.current_procedure
  unfolding complete_registration
  complete_registration-at e =
      send_protected-at none (some registration_complete) registration_complete registered 67
        (send_slow s now none registered 67 e) e (send_slow-at none registered 67 e)

  generate_traffic-at : (e : Emulated) → at (generate_traffic s now e) ≡ e.current_procedure
  unfolding generate_traffic
  generate_traffic-at e = ground arith

  -- A handler that takes a message
  of_message-at :
      (f : Message → Emulated → Done) (msg : Option Received) (e : Emulated)
      → ((m : Message) → at (f m e) ≡ e.current_procedure)
      → at (of_message s now f msg e) ≡ e.current_procedure
  of_message-at f none e h = refl
  of_message-at f (some (nas m)) e h = h m
  of_message-at f (some an_release) e h = refl

  -- A choice by a code
  choice_at : (b : Bool) (x y : Done) (n : ℕ) → at x ≡ n → at y ≡ n → at (if b then x else y) ≡ n
  choice_at true x y n hx hy = hx
  choice_at false x y n hx hy = hy

  -- No handler changes the message that the UE was at: the dispatcher alone does.
  pub handler-current_procedure :
      (code : ℕ) (msg : Option Received) (e : Emulated)
      → (handler s now code msg e).1.current_procedure ≡ e.current_procedure
  unfolding handler
  handler-current_procedure code msg e = choice_at (code == 65) _ _ _ (registration-at e) (
      choice_at (code == 193) _ _ _ (request_session-at e) (
        choice_at (code == 69) _ _ _ (deregistration-at e) (
          choice_at (code == 196) _ _ _ (generate_traffic-at e) (
            choice_at (code == 86) _ _ _ (of_message-at _ msg e (λ m. authenticate-at m e)) (
              choice_at (code == 66) _ _ _ (complete_registration-at e) (
                choice_at (code == 84) _ _ _ (configuration-at e) (
                  choice_at (code == 194) _ _ _
                    (of_message-at _ msg e (λ m. complete_session-at m e))
                    (choice_at (code == 93) _ _ _
                      (of_message-at _ msg e (λ m. complete_security_mode-at m e))
                      (choice_at (code == 70) _ _ _ refl
                        (choice_at (code == 74) _ _ _ refl refl))))))))))

-- A UE that is past its first procedure
abbrev pub is_started {ℓ} : {S : Type ℓ} → Ue S → Bool
is_started ue = elim ue.procedure [ none ↦ false | some p ↦ true ]

module _ (s : Setting) (now : ℕ) where
  abbrev current : Ue Emulated → ℕ
  current ue = ue.rest.current_procedure

  -- What an action keeps: the message the UE was at, and its procedure.
  action_keeps :
      (code : ℕ) (ue : Ue Emulated) (msg : Option Received)
      → (current (action s now code ue msg).1 ≡ current ue)
        × ((action s now code ue msg).1.procedure ≡ ue.procedure)
  unfolding action
  action_keeps code ue msg = (handler-current_procedure s now code msg ue.rest, refl)

  next_request_keeps :
      (ue : Ue Emulated) (msg : Option Received)
      → (current (next_request (action s now) ue msg).1 ≡ current ue)
        × (is_started ue ≡ true → is_started (next_request (action s now) ue msg).1 ≡ true)
  unfolding next_request
  next_request_keeps ue msg =
      elim (Option-cases (get_elem? ue.procedures (next_index ue.procedure ue.procedures))) [
        | inl e ↦ rw (e, next_request) (refl, λ h. h)
        | inr (p, e) ↦
            let (same, still) = action_keeps p (record ue { procedure = some p }) msg in
            let started = ap (λ o. elim o [ none ↦ false | some q ↦ true ]) still in
            rw (e, next_request)
              (elim (Bool-cases (is_request p)) [
                | inl r ↦ rw r (same, λ h. started)
                | inr r ↦ rw r (refl, λ h. h)
              ])
      ]

  -- The next action changes neither the message that the UE was at nor that it has started.
  pub next_action_keeps :
      (ue : Ue Emulated) (msg : Option Received) (code : Option ℕ)
      → (current (next_action (action s now) ue msg code).1 ≡ current ue)
        × (is_started ue ≡ true → is_started (next_action (action s now) ue msg code).1 ≡ true)
  unfolding next_action
  next_action_keeps ue none code = next_request_keeps ue none
  next_action_keeps ue (some m) none = next_request_keeps ue (some m)
  next_action_keeps ue (some m) (some code) =
      let (same, still) = action_keeps code ue (some m) in
      let rest = next_request_keeps ue (some m) in
      elim (Bool-cases (is_response code)) [
        | inl e ↦ rw e (same, λ h. ap (λ p. elim p [ none ↦ false | some q ↦ true ]) still ∙ h)
        | inr e ↦ rw e rest
      ]

  -- A UE whose next procedure sends a message has started.
  pub next_request-starts :
      (ue : Ue Emulated) (m : Octets) (code : ℕ)
      → (next_request (action s now) ue none).0 ≡ some (some m, some code)
      → is_started (next_request (action s now) ue none).1 ≡ true
  unfolding next_request
  next_request-starts ue m code =
      elim (Option-cases (get_elem? ue.procedures (next_index ue.procedure ue.procedures))) [
        | inl e ↦ rw (e, next_request) (λ h. cc)
        | inr (p, e) ↦
            let still = (action_keeps p (record ue { procedure = some p }) none).1 in
            rw (e, next_request)
              (elim (Bool-cases (is_request p)) [
                | inl r ↦ rw r (λ h. ap (λ o. elim o [ none ↦ false | some q ↦ true ]) still)
                | inr r ↦ rw r (λ h. cc)
              ])
      ]
