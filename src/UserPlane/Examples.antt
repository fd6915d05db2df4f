-- ===== src/UserPlane/Examples.antt =====
-- Two UEs with three sessions, one of which is released.
use core_network_traffic_gen.Common.{ℕ, ◌≡◌, none, some, List, [], ◌∷◌}
use core_network_traffic_gen.UserPlane.Service.{Session, Operation, add, release, stop, serve}
use core_network_traffic_gen.UserPlane.Release.{provide, provide-serve}

abbrev session : ℕ → ℕ → Session
session ran id = record {
  supi = none;
  ue_ip = 10 ∷ 0 ∷ 0 ∷ id ∷ [];
  pdu_session_id = some id;
  ul_teid = 0 ∷ 0 ∷ 0 ∷ 1 ∷ [];
  qfi = 9;
  upf_address = none;
  dl_teid = none;
  gnb_address = none;
  ran_ue_ngap_id = ran;
  amf_ue_ngap_id = some 4;
  t = 7;
}

abbrev operations : List Operation
operations = add (session 1 1) ∷ add (session 2 1) ∷ add (session 1 2) ∷ release 1 ∷ stop ∷ []

provide-serve_example : provide (serve operations []).0 [] ≡ (serve operations []).1
provide-serve_example = provide-serve operations []
