-- ===== src/Nas/Downlink.antt =====
-- `_downlink` of src/nasfast.py: which downlink messages are parsed, and what is taken from them. The
-- layouts of pycrate's classes, the names of their IEs, CryptoMobile's ciphering and pycrate's decoding
-- of a PDU address are parameters; `none` is None, or an exception, which `downlink` catches.
pub mod Ciphered
use core_network_traffic_gen.Common.{ℕ, ◌+◌, ◌-◌, ◌*◌, ◌/◌, ◌%◌, ltb, leb, ◌==◌, if◌then◌else◌}
use core_network_traffic_gen.Common.{
  Bool, true, false, not, ◌&&◌, ◌||◌, Option, none, some, List, [], ◌∷◌, length, drop, slice,
  get_or,
}
use core_network_traffic_gen.Common.Table.{lookup}
use core_network_traffic_gen.Ngap.Aper.{◌>>=◌, guard}
use core_network_traffic_gen.Nas.Layout.{Layout, Value, small, present, span, Values, walk}
use core_network_traffic_gen.Nas.Protect.{Algorithm, Security, apply}

-- The messages, with what the UE reads of them.
pub data Message : Type 0 where
  authentication_request : List ℕ → List ℕ → List ℕ → List ℕ → List ℕ → Message
  security_mode_command : ℕ → ℕ → Message
  no_fields : ℕ → Message
  establishment_accept : List ℕ → Message

-- What pycrate gives: the layout of a 5GMM message type, that of the PDU Session Establishment Accept,
-- the numbers of the IEs' names, and the decoding of a PDU address.
pub record Pycrate : Type 0 where
  pub layouts : ℕ → Layout
  pub accept : Layout
  pub rand : ℕ
  pub autn : ℕ
  pub abba : ℕ
  pub nas_sec_algo : ℕ
  pub payload_container_type : ℕ
  pub payload_container : ℕ
  pub pdu_address_ie : ℕ
  pub pdu_address : List ℕ → Option (List ℕ)

-- `v[name]`, where it is a pair of ends
unfoldable pub span_of : ℕ → Values → Option (ℕ × ℕ)
span_of name vals = elim (lookup name vals) [ some (span start end) ↦ some (start, end) | _ ↦ none ]

-- What is taken out of a message with a new security context: a Security Mode Command only.
unfoldable pub new_context : Option Message → Option Message
new_context none = none
new_context (some (security_mode_command c i)) = some (security_mode_command c i)
new_context (some m) = none

module _ (p : Pycrate) where
  unfoldable pub parse_authentication_request : List ℕ → Option Message
  unfolding span_of
  parse_authentication_request buf = walk (p.layouts 86) buf >>= λ v.
      span_of p.autn v >>= λ (a0, a1). guard (a1 - a0 == 16) >>= λ _.
      span_of p.rand v >>= λ (r0, r1). span_of p.abba v >>= λ (b0, b1). some (
        authentication_request (slice r0 r1 buf) (slice a0 (a0 + 6) buf)
          (slice (a0 + 6) (a0 + 8) buf) (slice (a0 + 8) a1 buf) (slice b0 b1 buf))

  unfoldable pub parse_security_mode_command : List ℕ → Option Message
  unfolding span_of
  parse_security_mode_command buf = walk (p.layouts 93) buf >>= λ v.
      span_of p.nas_sec_algo v >>= λ (o, _). guard (ltb o (length buf)) >>= λ _.
      some (security_mode_command (get_or buf o 0 / 16) (get_or buf o 0 % 16))

  unfoldable pub parse_no_fields : ℕ → List ℕ → Option Message
  parse_no_fields typ buf = walk (p.layouts typ) buf >>= λ v. some (no_fields typ)

  unfoldable pub parse_dl_nas_transport : List ℕ → Option Message
  unfolding span_of
  parse_dl_nas_transport buf = walk (p.layouts 104) buf >>= λ v.
      guard (elim (lookup p.payload_container_type v) [
        | some (small n) ↦ n == 1
        | some present ↦ true
        | _ ↦ false
      ])
      >>= λ _. span_of p.payload_container v >>= λ (s0, s1).
          let sm = slice s0 s1 buf in
          guard (leb 4 (length sm) && get_or sm 0 0 == 46 && get_or sm 3 0 == 194) >>= λ _.
          walk p.accept sm >>= λ w. span_of p.pdu_address_ie w >>= λ (a0, a1).
          p.pdu_address (slice a0 a1 sm) >>= λ address. some (establishment_accept address)

  -- `_PLAIN` and `_plain`
  unfoldable pub plain : List ℕ → Option Message
  unfolding parse_authentication_request parse_security_mode_command parse_no_fields
      parse_dl_nas_transport
  plain buf =
      let typ = get_or buf 2 0 in
      if ltb (length buf) 3 || not (get_or buf 0 0 == 126) || not (get_or buf 1 0 == 0)
      then none
      else if typ == 86
      then parse_authentication_request buf
      else if typ == 93
      then parse_security_mode_command buf
      else if typ == 66 || typ == 84 || typ == 70
      then parse_no_fields typ buf
      else if typ == 104
      then parse_dl_nas_transport buf
      else none

  unfoldable pub downlink : (ℕ → Option Algorithm) → Security → List ℕ → Option Message
  unfolding plain new_context
  downlink fgea s buf =
      let header = get_or buf 1 0 in
      if ltb (length buf) 3 || not (get_or buf 0 0 == 126)
      then none
      else if header == 0
      then plain buf
      else if ltb (length buf) 10
      then none
      else if header == 2
      then (apply fgea s.ciph_algo (drop 7 buf) s.k_nas_enc (get_or buf 6 0) 1 (drop 7 buf) >>= λ m.
          plain m)
      else if header == 1 || header == 3
      then new_context (plain (drop 7 buf))
      else none
