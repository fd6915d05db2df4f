-- ===== src/Gnb/State.antt =====
-- What src/NGAPSim.py's GNB keeps, and the operations on the links and stamps of its UEs. A link is the
-- number of its end; what the gNB does to the outside is a list of outputs.
use core_network_traffic_gen.Common.{ℕ, ◌==◌, if◌then◌else◌}
use core_network_traffic_gen.Common.{
  Bool, true, false, ◌||◌, Option, none, some, List, [], ◌∷◌, ◌++◌,
}
use core_network_traffic_gen.Common.Table.{lookup, insert, erase}
use core_network_traffic_gen.RanLink.Event.{Stamp}
use core_network_traffic_gen.Ngap.Downlink.Container.{Learnt}

-- A UE's PDU session, as it is kept in `self.ues`: the session's traffic starts from it.
pub record Context : Type 0 where
  pub amf_id : ℕ
  pub qfi : Option ℕ
  pub ul_teid : Option (List ℕ)
  pub dl_teid : Option (List ℕ)
  pub upf_address : Option (List ℕ)
  pub pdu_session_id : Option ℕ

pub record Gnb : Type 0 where
  pub ues : List (ℕ × Context)
  pub ul_sent : List (ℕ × List Stamp)
  pub links : List ℕ
  pub ue_links : List (ℕ × ℕ)
  pub clashes : List ℕ
  pub known_ies : List Learnt

-- A message to the AMF, an event on a link, a session handed to the user plane or its release.
pub data Output : Type 0 where
  to_amf : List ℕ → Output
  on_link : (link kind ran : ℕ) (payload : List ℕ) (received_at : ℕ) (stamps : List Stamp) → Output
  add_session : (ran : ℕ) (context : Context) (address : List ℕ) (supi : Option (List ℕ)) → Output
  release_traffic : ℕ → Output

abbrev pub elem : ℕ → List ℕ → Bool
elem x [] = false
elem x (y ∷ ys) = y == x || elem x ys

-- `_claim`
unfoldable pub claim : ℕ → ℕ → Gnb → Bool × Gnb
claim link ran g = elim (lookup ran g.ue_links) [
  | none ↦ (true, record g { ue_links = insert ran link g.ue_links })
  | some owner ↦ if owner == link then (true, g) else (
    false,
    record g { clashes = (if elem ran g.clashes then g.clashes else ran ∷ g.clashes) },
  )
]

-- The only link, where there is one.
abbrev pub only : List ℕ → Option ℕ
only (link ∷ []) = some link
only _ = none

-- `_link_of`
unfoldable pub link_of : ℕ → Gnb → Option ℕ
link_of ran g = elim (lookup ran g.ue_links) [ some link ↦ some link | none ↦ only g.links ]

-- The stamps of a UE that were not yet returned.
abbrev pub pending : ℕ → Gnb → List Stamp
pending ran g = elim (lookup ran g.ul_sent) [ none ↦ [] | some stamps ↦ stamps ]

-- `_stamp_uplink`
unfoldable pub stamp_uplink : ℕ → Stamp → Gnb → Gnb
stamp_uplink ran stamp g = record g {
  ul_sent = insert ran (pending ran g ++ (stamp ∷ [])) g.ul_sent;
}

-- `_take_uplink_stamps`
unfoldable pub take_uplink_stamps : ℕ → Gnb → List Stamp × Gnb
take_uplink_stamps ran g = (pending ran g, record g { ul_sent = erase ran g.ul_sent })

-- `_to_ue`: dropped where no link has the UE, its stamps kept then. A send that raises LinkStopped or
-- LinkClosed, after which the taken stamps are lost, is not modelled.
unfoldable pub to_ue : ℕ → ℕ → List ℕ → ℕ → Gnb → List Output × Gnb
unfolding link_of take_uplink_stamps
to_ue kind ran payload received_at g = elim (link_of ran g) [
  | none ↦ ([], g)
  | some link ↦ (
    on_link link kind ran payload received_at (take_uplink_stamps ran g).0 ∷ [],
    (take_uplink_stamps ran g).1,
  )
]
