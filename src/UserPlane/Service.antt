-- ===== src/UserPlane/Service.antt =====
-- UserPlane._run of src/userplane/service.py, after its providers are started: the operations on its
-- queue, and the calls that every provider gets. A call that raises is logged and changes nothing here.
use core_network_traffic_gen.Common.{ℕ, ◌==◌, if◌then◌else◌}
use core_network_traffic_gen.Common.{
  Bool, true, false, ◌&&◌, Option, none, some, List, [], ◌∷◌, ◌++◌,
}

-- Session of src/userplane/base.py: addresses are octets, the time is in ticks.
pub record Session : Type 0 where
  pub supi : Option (List ℕ)
  pub ue_ip : List ℕ
  pub pdu_session_id : Option ℕ
  pub ul_teid : List ℕ
  pub qfi : ℕ
  pub upf_address : Option (List ℕ)
  pub dl_teid : Option (List ℕ)
  pub gnb_address : Option (List ℕ)
  pub ran_ue_ngap_id : ℕ
  pub amf_ue_ngap_id : Option ℕ
  pub t : ℕ

-- The two parts of a key's text, `ran-pdu`, where an absent PDU session id is written None.
abbrev pub Key : Type 0
Key = ℕ × Option ℕ

-- `Session.key`
abbrev pub key : Session → Key
key s = (s.ran_ue_ngap_id, s.pdu_session_id)

abbrev pub same_id : Option ℕ → Option ℕ → Bool
same_id none none = true
same_id (some i) (some j) = i == j
same_id none (some j) = false
same_id (some i) none = false

abbrev pub same_key : Key → Key → Bool
same_key k l = k.0 == l.0 && same_id k.1 l.1

-- `sessions[session.key] = session`: a key keeps its place.
unfoldable pub set_session : Session → List Session → List Session
set_session s [] = s ∷ []
set_session s (x ∷ xs) = if same_key (key x) (key s) then s ∷ xs else x ∷ set_session s xs

-- `sessions.get(key)`
unfoldable pub get_session : Key → List Session → Option Session
get_session k [] = none
get_session k (x ∷ xs) = if same_key (key x) k then some x else get_session k xs

-- What is left by `sessions.pop(key)`
unfoldable pub drop_session : Key → List Session → List Session
drop_session k [] = []
drop_session k (x ∷ xs) =
    let others = drop_session k xs in if same_key (key x) k then others else x ∷ others

-- The operations of the queue, and a call of each provider.
pub data Operation : Type 0 where
  add : Session → Operation
  release : ℕ → Operation
  stop : Operation

pub data Call : Type 0 where
  add_session : Session → Call
  remove_session : Session → Call

-- The keys of the UE's sessions, in the dictionary's order
unfoldable pub keys_of : ℕ → List Session → List Key
keys_of ran [] = []
keys_of ran (x ∷ xs) =
    let others = keys_of ran xs in if x.ran_ue_ngap_id == ran then key x ∷ others else others

-- The call for a popped session; a key of keys_of is in the dictionary until it is popped.
abbrev pub removal : Option Session → List Call
removal none = []
removal (some s) = remove_session s ∷ []

-- The loop of `release` over those keys
unfoldable pub release_keys : List Key → List Session → List Call × List Session
release_keys [] sessions = ([], sessions)
release_keys (k ∷ ks) sessions =
    let (calls, left) = release_keys ks (drop_session k sessions) in
    (removal (get_session k sessions) ++ calls, left)

-- The loop of `_run` until a stop, or until the queue is empty
unfoldable pub serve : List Operation → List Session → List Call × List Session
serve [] sessions = ([], sessions)
serve (add s ∷ ops) sessions =
    let (calls, left) = serve ops (set_session s sessions) in (add_session s ∷ calls, left)
serve (release ran ∷ ops) sessions =
    let (removed, rest) = release_keys (keys_of ran sessions) sessions in
    let (calls, left) = serve ops rest in (removed ++ calls, left)
serve (stop ∷ ops) sessions = ([], sessions)
