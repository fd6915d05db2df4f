-- ===== src/Ue/Examples.antt =====
-- A UE that has sent its registration request, and whose next procedure is a PDU session.
use core_network_traffic_gen.Common.{ℕ, ◌≡◌, refl, none, some, [], ◌∷◌, Option, true}
use core_network_traffic_gen.Common.Bytes.{be_bytes}
use core_network_traffic_gen.Nas.Identity.{suci, snssai}
use core_network_traffic_gen.Nas.Protect.{Security, protect}
use core_network_traffic_gen.Nas.Protect.Receive.{receive}
use core_network_traffic_gen.Nas.Downlink.{no_fields, security_mode_command}
use core_network_traffic_gen.Nas.Uplink.{registration_complete, security_mode_complete}
use core_network_traffic_gen.Nas.Examples.{
  algorithms, algorithms-Symmetric, pycrate, swapped, subscriber,
}
use core_network_traffic_gen.Ue.State.{null, registered, Emulated, Setting, nas, taken}
use core_network_traffic_gen.Ue.Handlers.{Octets, context, handler}
use core_network_traffic_gen.Ue.Secured.{registration_secured}
use core_network_traffic_gen.Ue.NextAction.{Ue, Action, index, next_action}
use core_network_traffic_gen.Ue.Order.{next_action-order}

abbrev ue : Ue ℕ
ue = record { procedures = 65 ∷ 193 ∷ 69 ∷ []; procedure = some 65; rest = 0 }

-- A handler sends its own code.
abbrev echo : ℕ → Action ℕ ℕ ℕ
echo code ue msg = (some (some code, some code), ue)

next_action-order_example :
    next_action echo ue (some 7) (some 104) ≡ echo 193 (record ue { procedure = some 193 }) (some 7)
next_action-order_example =
    next_action-order echo ue 7 104 65 193 [] (69 ∷ []) refl refl refl refl refl

after_last :
    next_action echo (record ue { procedure = some 69 }) none none
    ≡ (some (none, some 74), record ue { procedure = some 69 })
unfolding next_action index
after_last = refl

-- A UE with the algorithms 1 and 1, and functions in place of CryptoMobile's.
abbrev pub setting : Setting
setting = record {
  encode_bcd = swapped;
  algorithms = algorithms;
  crypto = record {
    f2345 = λ opc op key rand. (rand, key, op);
    conv_501_a2 = λ ck ik sn sqn. ck;
    conv_501_a4 = λ ck ik sn rand res. res;
    conv_501_a6 = λ k sn. k;
    conv_501_a7 = λ k supi abba. k;
    conv_501_a8 = λ k typ id. k;
  };
  pycrate = pycrate;
  build = λ code e. some (126 ∷ 0 ∷ code ∷ []);
  encrypt = λ c m. some m;
  slow = λ c buf. taken (no_fields 66);
}

abbrev pub emulated : Emulated
emulated = record {
  subscriber = subscriber;
  supi = 49 ∷ [];
  sn_name = [];
  key = 1 ∷ [];
  op = 2 ∷ [];
  op_type_opc = true;
  state = null;
  state_time = 0;
  k_ausf = [];
  k_seaf = [];
  k_amf = 3 ∷ [];
  security = none;
  ip_address = none;
  msg_in_bytes = none;
  procedure_times = [];
  current_procedure = 0;
  start_time = none;
  end_time = none;
}

abbrev or_empty : Option Octets → Octets
or_empty none = []
or_empty (some m) = m

abbrev result : Option (Octets × Security) → Octets × Security
result none = ([], context setting 0 1 1 emulated)
result (some r) = r

-- The messages and contexts that the functions give.
abbrev complete : Octets
complete = or_empty (security_mode_complete swapped subscriber)

abbrev first_sent : Octets × Security
first_sent = result (protect algorithms (some 0) complete (context setting 0 1 1 emulated))

abbrev then_sent : Octets × Security
then_sent = result (protect algorithms none registration_complete first_sent.1)

built_complete : security_mode_complete swapped subscriber ≡ some complete
unfolding security_mode_complete suci snssai be_bytes
built_complete = refl

first_protected :
    protect algorithms (some 0) complete (context setting 0 1 1 emulated)
    ≡ some (first_sent.0, first_sent.1)
unfolding protect
first_protected = refl

then_protected :
    protect algorithms none registration_complete first_sent.1 ≡ some (then_sent.0, then_sent.1)
unfolding protect
then_protected = refl

registration_secured_example :
    let first = handler setting 5 93 (some (nas (security_mode_command 1 1))) emulated in
    let second = handler setting 6 66 none first.1 in
    (first.0 ≡ some (some first_sent.0, some 94))
    × (receive algorithms (context setting 5 1 1 emulated) 0 first_sent.0 ≡ some complete)
    × (second.0 ≡ some (some then_sent.0, some 67))
    × (receive algorithms (context setting 5 1 1 emulated) 1 then_sent.0
        ≡ some registration_complete)
    × (second.1.state ≡ registered)
    × (second.1.security ≡ some (record (context setting 5 1 1 emulated) { ul_nas_count = 2 }))
registration_secured_example =
    registration_secured setting 5 6 1 1 complete first_sent.0 then_sent.0 first_sent.1 then_sent.1
      none emulated algorithms-Symmetric built_complete first_protected then_protected
