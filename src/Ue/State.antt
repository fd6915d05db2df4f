-- ===== src/Ue/State.antt =====
-- What src/UE.py's UE keeps of its registration: its 5GMM state (src/UEUtils.py), its keys and its NAS
-- security context, and what the functions of src/UEMessages.py take from pycrate and CryptoMobile.
use core_network_traffic_gen.Common.{ℕ, Bool, Option, List}
use core_network_traffic_gen.Common.Table.{insert}
use core_network_traffic_gen.Nas.Protect.{Algorithms, Security}
use core_network_traffic_gen.Nas.Downlink.{Message, Pycrate}
use core_network_traffic_gen.Nas.Uplink.{Subscriber}

-- `FGMMState`
pub data State : Type 0 where
  null registered_initiated registered deregistered_initiated service_request_initiated : State
  authenticated_initiated authenticated security_mode_initiated security_mode_completed : State
  pdu_session_requested pdu_session_established pdu_session_transmitting no_response : State
  deregistered connection_released fail pass : State

-- A message from the core, or the sign of the connection's release.
pub data Received : Type 0 where
  nas : Message → Received
  an_release : Received

-- A UE: its configuration (the key and the operator's one as their octets) and its state. `security` is
-- none until the first Security Mode Command, as CiphAlgo and IntegAlgo are None.
pub record Emulated : Type 0 where
  pub subscriber : Subscriber
  pub supi : List ℕ
  pub sn_name : List ℕ
  pub key : List ℕ
  pub op : List ℕ
  pub op_type_opc : Bool
  pub state : State
  pub state_time : ℕ
  pub k_ausf : List ℕ
  pub k_seaf : List ℕ
  pub k_amf : List ℕ
  pub security : Option Security
  pub ip_address : Option (List ℕ)
  pub msg_in_bytes : Option (List ℕ)
  pub procedure_times : List (ℕ × ℕ)
  pub current_procedure : ℕ
  pub start_time : Option ℕ
  pub end_time : Option ℕ

-- Milenage's f2 to f4 (RES, CK and IK; what f1 and f5star give is not used) and the key derivations of
-- CryptoMobile's conv.
pub record Crypto : Type 0 where
  pub f2345 : Bool → (op key rand : List ℕ) → List ℕ × List ℕ × List ℕ
  pub conv_501_a2 : (ck ik sn_name sqn_xor_ak : List ℕ) → List ℕ
  pub conv_501_a4 : (ck ik sn_name rand res : List ℕ) → List ℕ
  pub conv_501_a6 : (k_ausf sn_name : List ℕ) → List ℕ
  pub conv_501_a7 : (k_seaf supi abba : List ℕ) → List ℕ
  pub conv_501_a8 : (k_amf : List ℕ) (alg_type alg_id : ℕ) → List ℕ

-- What pycrate makes of a downlink message that the fast path does not take: nothing that the UE has a
-- name for (an exception follows), a protected message that it does not decipher, or a message.
pub data Slow : Type 0 where
  failed : Slow
  not_decrypted : Slow
  taken : Message → Slow

-- `build` and `encrypt` are pycrate's: the message with a code (none where it raises) and the protection
-- of a message; `slow` reads a downlink message.
pub record Setting : Type 0 where
  pub encode_bcd : List ℕ → List ℕ
  pub algorithms : Algorithms
  pub crypto : Crypto
  pub pycrate : Pycrate
  pub build : ℕ → Emulated → Option (List ℕ)
  pub encrypt : Security → List ℕ → Option (List ℕ)
  pub slow : Option Security → List ℕ → Slow

abbrev pub set_state : State → ℕ → Emulated → Emulated
set_state state now e = record e { state = state; state_time = now }

abbrev pub set_procedure : ℕ → ℕ → Emulated → Emulated
set_procedure code now e = record e { procedure_times = insert code now e.procedure_times }
