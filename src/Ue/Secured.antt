-- ===== src/Ue/Secured.antt =====
-- A UE's registration under its NAS security context: the Security Mode Complete and the Registration
-- Complete of src/UEMessages.py, as the network reads them.
use core_network_traffic_gen.Common.{ℕ, ◌+◌, ◌≡◌, refl, sym, ap, ◌∙◌, arith, subst}
use core_network_traffic_gen.Common.{Option, none, some, []}
use core_network_traffic_gen.Nas.Protect.{Algorithms, Security, protect}
use core_network_traffic_gen.Nas.Protect.Receive.{Symmetric, receive, receive-protect}
use core_network_traffic_gen.Nas.Downlink.{security_mode_command}
use core_network_traffic_gen.Nas.Uplink.{registration_complete, security_mode_complete}
use core_network_traffic_gen.Ue.State.{
  State, registered, security_mode_initiated, Received, nas, Emulated, Setting, set_state,
}
use core_network_traffic_gen.Ue.Handlers.{
  Octets, Done, sends, protect_fast, send_protected, send_slow, context, complete_registration,
  complete_security_mode, new_security, handler,
}

module _ (s : Setting) (now : ℕ) where
  send_protected_ok :
      (count : Option ℕ) (plain inner m : Octets) (state : State) (code : ℕ) (slow : Done)
      (c next : Security) (e : Emulated)
      → e.security ≡ some c
      → protect s.algorithms count plain c ≡ some (m, next)
      → send_protected s now count (some plain) inner state code slow e
        ≡ sends
            (some m)
            code
            (set_state state now (record e { security = some next; msg_in_bytes = some inner }))
  unfolding send_protected protect_fast
  send_protected_ok count plain inner m state code slow c next e h p = ground arith

  -- The answer to a Security Mode Command
  security_mode-answer :
      (ciph_algo integ_algo : ℕ) (plain m : Octets) (next : Security) (e : Emulated)
      → security_mode_complete s.encode_bcd e.subscriber ≡ some plain
      → protect s.algorithms (some 0) plain (context s now ciph_algo integ_algo e) ≡ some (m, next)
      → handler s now 93 (some (nas (security_mode_command ciph_algo integ_algo))) e
        ≡ sends (some m) 94 (
            set_state security_mode_initiated now
              (record e { security = some next; msg_in_bytes = some plain }))
  unfolding handler complete_security_mode
  security_mode-answer ciph_algo integ_algo plain m next e b p =
      let with_keys = new_security s now ciph_algo integ_algo e in
      ap
        (λ o.
          send_protected s now (some 0) o (elim o [ none ↦ [] | some q ↦ q ])
            security_mode_initiated 94
            (send_slow s now (some 0) security_mode_initiated 94 with_keys) with_keys)
        b
      ∙ send_protected_ok (some 0) plain plain m security_mode_initiated 94 _ _ next with_keys refl
          p

  -- The answer to a Registration Accept
  accept-answer :
      (m : Octets) (c next : Security) (msg : Option Received) (e : Emulated)
      → e.security ≡ some c
      → protect s.algorithms none registration_complete c ≡ some (m, next)
      → handler s now 66 msg e
        ≡ sends (some m) 67 (
            set_state registered now
              (record e { security = some next; msg_in_bytes = some registration_complete }))
  unfolding handler complete_registration
  accept-answer m c next msg e h p =
      send_protected_ok none registration_complete registration_complete m registered 67
        (send_slow s now none registered 67 e) c next e h p

-- The network's reading does not take the COUNT of the context, but the one that it is given.
receive_count :
    (a : Algorithms) (c : Security) (n count : ℕ) (m : Octets)
    → receive a (record c { ul_nas_count = n }) count m ≡ receive a c count m
unfolding receive
receive_count a c n count m = refl

-- A UE answers a Security Mode Command and then a Registration Accept with messages that a network with
-- the keys derived from the UE's K_AMF verifies and reads as the Security Mode Complete, with COUNT 0,
-- and as the Registration Complete, with COUNT 1; the UE is then registered and its COUNT is 2. The
-- algorithms take the messages, and the cipher is symmetric.
pub registration_secured :
    (s : Setting) (now later ciph_algo integ_algo : ℕ) (plain m m' : Octets) (next next' : Security)
    (msg : Option Received) (e : Emulated)
    → Symmetric s.algorithms
    → security_mode_complete s.encode_bcd e.subscriber ≡ some plain
    → protect s.algorithms (some 0) plain (context s now ciph_algo integ_algo e) ≡ some (m, next)
    → protect s.algorithms none registration_complete next ≡ some (m', next')
    → let c = context s now ciph_algo integ_algo e in
      let first = handler s now 93 (some (nas (security_mode_command ciph_algo integ_algo))) e in
      let second = handler s later 66 msg first.1 in
      (first.0 ≡ some (some m, some 94))
      × (receive s.algorithms c 0 m ≡ some plain)
      × (second.0 ≡ some (some m', some 67))
      × (receive s.algorithms c 1 m' ≡ some registration_complete)
      × (second.1.state ≡ registered)
      × (second.1.security ≡ some (record c { ul_nas_count = 2 }))
registration_secured s now later ciph_algo integ_algo plain m m' next next' msg e symmetric b p q =
    let c = context s now ciph_algo integ_algo e in
    let first = security_mode-answer s now ciph_algo integ_algo plain m next e b p in
    let mid : Emulated =
      set_state security_mode_initiated now
        (record e { security = some next; msg_in_bytes = some plain }) in
    let (read, counted) = receive-protect s.algorithms (some 0) plain m c next symmetric p in
    let (read', counted') =
      receive-protect s.algorithms none registration_complete m' next next' symmetric q in
    let second : handler s later 66 msg
          (handler s now 93 (some (nas (security_mode_command ciph_algo integ_algo))) e).1
        ≡ sends (some m') 67 (
            set_state registered later
              (record mid { security = some next'; msg_in_bytes = some registration_complete })) =
      ap (λ d. handler s later 66 msg d.1) first
      ∙ accept-answer s later m' next next' msg mid refl q in
    (
      ap (λ d. d.0) first,
      read,
      ap (λ d. d.0) second,
      sym (receive_count s.algorithms c 1 1 m')
          ∙ subst
              (λ (n : Security).
                receive s.algorithms n n.ul_nas_count m' ≡ some registration_complete)
              counted read',
      ap (λ d. d.1.state) second,
      ap (λ d. d.1.security) second
          ∙ ap some (
              counted'
              ∙ ap (λ (n : Security). record n { ul_nas_count = n.ul_nas_count + 1 }) counted),
    )
