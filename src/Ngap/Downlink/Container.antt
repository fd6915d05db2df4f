-- ===== src/Ngap/Downlink/Container.antt =====
-- `_container` of src/ngapfast.py: the fields of a ProtocolIE-Container, and what is read from them.
-- The list of IEs to learn is kept only where the whole message is taken, so it is part of the result.
use core_network_traffic_gen.Common.{ℕ, zero, suc, ◌+◌, ◌*◌, ltb, leb, ◌==◌, if◌then◌else◌}
use core_network_traffic_gen.Common.{
  Bool, true, false, ◌&&◌, ◌||◌, Option, none, some, List, [], ◌∷◌, ◌++◌, length, slice, get_or,
}
use core_network_traffic_gen.Common.Table.{lookup}
use core_network_traffic_gen.Ngap.Aper.{◌>>=◌, guard, length_at, id_value, octets}
use core_network_traffic_gen.Ngap.Downlink.Values.{Tunnel, first_qfi, session_type}
use core_network_traffic_gen.Ngap.Downlink.Values as V
use core_network_traffic_gen.Ngap.Downlink.Layout.{
  amf, ran, nas, pair, fixed, learnt, sessions, tunnel, type, flows,
}
use core_network_traffic_gen.Ngap.Downlink.Layout.{Entry, Key, same_key}

-- `PDUSession`
pub record PduSession : Type 0 where
  pub pdu_session_id : ℕ
  pub ul_tunnel : Tunnel
  pub qfi : ℕ
  pub pdu_session_type : Option ℕ

-- `got`, by kind
pub record Got : Type 0 where
  pub amf_id : Option ℕ
  pub ran_id : Option ℕ
  pub nas_octets : Option (List ℕ)
  pub ids : Option (ℕ × ℕ)
  pub session : Option (List ℕ × PduSession)
  pub ul_tunnel : Option Tunnel
  pub session_type : Option ℕ
  pub qfi : Option ℕ

abbrev pub nothing : Got
nothing = record {
  amf_id = none;
  ran_id = none;
  nas_octets = none;
  ids = none;
  session = none;
  ul_tunnel = none;
  session_type = none;
  qfi = none;
}

-- An IE that pycrate decoded: its key, its id and its value.
abbrev pub Learnt : Type 0
Learnt = Key × ℕ × List ℕ

abbrev pub same_octets : List ℕ → List ℕ → Bool
same_octets [] [] = true
same_octets (x ∷ xs) (y ∷ ys) = x == y && same_octets xs ys
same_octets _ _ = false

abbrev pub same_ie : Learnt → Learnt → Bool
same_ie (k, i, v) (l, j, w) = same_key k l && i == j && same_octets v w

-- `ie in _learnt`
unfoldable pub is_learnt : Learnt → List Learnt → Bool
is_learnt ie [] = false
is_learnt ie (x ∷ xs) = same_ie x ie || is_learnt ie xs

-- The IEs to learn, or none where the parser is not learning.
abbrev pub Learning : Type 0
Learning = Option (List Learnt)

-- An IE that must be known: refused, or appended to what is to be learnt.
unfoldable pub known : List Learnt → Learnt → Learning → Option Learning
unfolding is_learnt
known store ie none = if is_learnt ie store then some none else none
known store ie (some new) =
    if is_learnt ie store then some (some new) else some (some (new ++ (ie ∷ [])))

-- How a PDU session list is read: the source's `_sessions`, which calls `_container` on the transfer.
abbrev pub SessionsReader : Type 0
SessionsReader = List ℕ → Learning → Option ((List ℕ × PduSession) × Learning)

module _ (names : ℕ) (store : List Learnt) (read_sessions : SessionsReader) (key : Key) where
  -- What is read from one IE's value, and put into `got`.
  unfoldable pub read_ie : Entry → ℕ → List ℕ → Learning → Got → Option (Got × Learning)
  unfolding known
  read_ie e ie_id value learning got = elim e.kind [
    | fixed ↦ guard (length value == e.size) >>= λ _. some (got, learning)
    | learnt ↦ known store (key, ie_id, value) learning >>= λ l. some (got, l)
    | flows ↦ known store (key, ie_id, value) learning >>= λ l.
        first_qfi value >>= λ q. some (record got { qfi = some q }, l)
    | amf ↦ id_value value 3 5 >>= λ a. some (record got { amf_id = some a }, learning)
    | ran ↦ id_value value 2 4 >>= λ r. some (record got { ran_id = some r }, learning)
    | nas ↦ octets value >>= λ n. some (record got { nas_octets = some n }, learning)
    | pair ↦ V.pair value >>= λ p. some (record got { ids = some p }, learning)
    | sessions ↦
        read_sessions value learning >>= λ (s, l). some (record got { session = some s }, l)
    | tunnel ↦ V.tunnel value >>= λ t. some (record got { ul_tunnel = some t }, learning)
    | type ↦ session_type names value >>= λ t. some (record got { session_type = some t }, learning)
  ]

  -- The loop over `count` fields from offset `o`; the next IE's place is at least `least`.
  unfoldable pub fields :
      ℕ → List ℕ → ℕ → ℕ → List (ℕ × Entry) → ℕ → Learning → Got → Option (Got × Learning)
  unfolding read_ie
  fields zero buf o end ies least learning got = if o == end then some (got, learning) else none
  fields (suc count) buf o end ies least learning got =
      let ie_id = get_or buf o 0 * 256 + get_or buf (o + 1) 0 in
      if ltb end (o + 3)
      then none
      else lookup ie_id ies >>= λ e. guard (leb least e.place) >>= λ _.
          guard (get_or buf (o + 2) 0 == e.crit) >>= λ _.
          length_at buf (o + 3) end >>= λ (start, n). guard (leb (start + n) end) >>= λ _.
          read_ie e ie_id (slice start (start + n) buf) learning got >>= λ (got', learning').
          fields count buf (start + n) end ies (e.place + 1) learning' got'

  unfoldable pub container :
      List ℕ → ℕ → ℕ → List (ℕ × Entry) → Learning → Got → Option (Got × Learning)
  unfolding fields
  container buf o end ies learning got =
      if ltb end (o + 2)
      then none
      else fields (get_or buf o 0 * 256 + get_or buf (o + 1) 0) buf (o + 2) end ies 0 learning got
