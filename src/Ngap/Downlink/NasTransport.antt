-- ===== src/Ngap/Downlink/NasTransport.antt =====
-- The parser's answer to a DownlinkNASTransport that src/ngapfast.py's own encodings make up.
use core_network_traffic_gen.Common.{ℕ, ◌+◌, ◌≤◌, ◌<◌, ◌≡◌, refl, ◌∙◌, arith, leb, ◌==◌, ==_refl}
use core_network_traffic_gen.Common.{
  true, none, some, List, [], ◌∷◌, ◌++◌, map, length, length-append, All,
}
use core_network_traffic_gen.Common.Table.{lookup}
use core_network_traffic_gen.Ngap.Aper.{
  wrap, short_length, amf_ue_ngap_id, ran_ue_ngap_id, id_value, octets,
}
use core_network_traffic_gen.Ngap.Aper.Integers.{
  length-amf_ue_ngap_id, length-ran_ue_ngap_id, id_value-amf_ue_ngap_id, id_value-ran_ue_ngap_id,
}
use core_network_traffic_gen.Ngap.Aper.Lengths.{length-short_length, octets-wrap}
use core_network_traffic_gen.Ngap.Pdu.{ie, message, reject}
use core_network_traffic_gen.Ngap.Pdu.Reader.{Field, field_bytes}
use core_network_traffic_gen.Ngap.Downlink.Layout.{
  Kind, amf, ran, nas, Entry, Key, procedure, Tables, downlink_layout, ie_set, kinds,
}
use core_network_traffic_gen.Ngap.Downlink.Container.{
  nothing, Got, Learnt, Learning, SessionsReader, read_ie,
}
use core_network_traffic_gen.Ngap.Downlink.Walk.{read_sessions, parsed_of, downlink}
use core_network_traffic_gen.Ngap.Downlink.Accept.{IsShort, read_all, read_field, wrap-short}
use core_network_traffic_gen.Ngap.Downlink.Messages.{body_of, walk-message}

-- The fields of a DownlinkNASTransport with the mandatory IEs.
abbrev pub nas_fields : List ℕ → List ℕ → List ℕ → List Field
nas_fields a r nas_pdu =
    record { ie_id = 10; crit = reject; value = a }
    ∷ record { ie_id = 85; crit = reject; value = r }
    ∷ record { ie_id = 38; crit = reject; value = wrap nas_pdu }
    ∷ []

-- The entry of an IE that is read.
abbrev pub read_as : Kind → ℕ → Entry
read_as k place = record { place = place; crit = reject; kind = k; size = 0 }

length-wrap : (v : List ℕ) → length v < 16384 → length (wrap v) ≤ length v + 2
length-wrap v h =
    rw (wrap-short v h)
      (ground (arith, length-append (short_length (length v)) v, length-short_length (length v)))

length-ie : (k c : ℕ) (v : List ℕ) → length v < 16384 → length (ie k c v) ≤ length v + 5
unfolding ie
length-ie k c v h = omega (arith, length-wrap v h)

module _ (names : ℕ) (store : List Learnt) (reader : SessionsReader) (key : Key)
    (ies : List (ℕ × Entry)) where
  read_all_ok :
      (k : Kind) (i place least : ℕ) (v : List ℕ) (fs : List Field) (l : Learning) (got got' : Got)
      → lookup i ies ≡ some (read_as k place)
      → least ≤ place
      → read_ie names store reader key (read_as k place) i v l got ≡ some (got', l)
      → read_all names store reader key ies
          (record { ie_id = i; crit = reject; value = v } ∷ fs)
          least
          l
          got
        ≡ read_all names store reader key ies fs (place + 1) l got'
  unfolding read_all read_field
  read_all_ok k i place least v fs l got got' e h r =
      let ordered : leb least place ≡ true = ground arith in rw (e, ordered, r) refl

  read_all_nil :
      (least : ℕ) (got : Got)
      → read_all names store reader key ies [] least none got ≡ some (got, none)
  unfolding read_all
  read_all_nil least got = refl

  read_all-nas_fields :
      (p q r x y : ℕ) (a b nas_pdu : List ℕ)
      → lookup 10 ies ≡ some (read_as amf p)
      → lookup 85 ies ≡ some (read_as ran q)
      → lookup 38 ies ≡ some (read_as nas r)
      → p < q
      → q < r
      → id_value a 3 5 ≡ some x
      → id_value b 2 4 ≡ some y
      → octets (wrap nas_pdu) ≡ some nas_pdu
      → read_all names store reader key ies (nas_fields a b nas_pdu) 0 none nothing
        ≡ some
            (record nothing { amf_id = some x; ran_id = some y; nas_octets = some nas_pdu }, none)
  unfolding read_ie
  read_all-nas_fields p q r x y a b nas_pdu e10 e85 e38 pq qr ha hb hn =
      let one = record nothing { amf_id = some x } in
      let two = record one { ran_id = some y } in
      let three = record two { nas_octets = some nas_pdu } in
      read_all_ok amf 10 p 0 a _ none nothing one e10 (omega arith) (rw ha refl)
      ∙ read_all_ok ran 85 q (p + 1) b _ none one two e85 (omega arith) (rw hb refl)
      ∙ read_all_ok nas 38 r (q + 1) (wrap nas_pdu) _ none two three e38 (omega arith) (rw hn refl)
      ∙ read_all_nil (r + 1) three

-- A DownlinkNASTransport of the gNB's own encodings, its NAS message of fewer than 16000 octets, is read
-- back as its two ids and its NAS message, where the layout has the three IEs in this order and the
-- message's criticality.
pub downlink-nas_transport :
    (t : Tables) (store : List Learnt) (x y p q r : ℕ) (a b nas_pdu : List ℕ)
    → amf_ue_ngap_id x ≡ some a
    → ran_ue_ngap_id y ≡ some b
    → length nas_pdu < 16000
    → lookup 10 (ie_set kinds 0 t.nas_transport.1) ≡ some (read_as amf p)
    → lookup 85 (ie_set kinds 0 t.nas_transport.1) ≡ some (read_as ran q)
    → lookup 38 (ie_set kinds 0 t.nas_transport.1) ≡ some (read_as nas r)
    → p < q
    → q < r
    → downlink t store
        (message (0 ∷ 4 ∷ t.nas_transport.0 ∷ []) (map field_bytes (nas_fields a b nas_pdu)))
      ≡ some (4, x, y, some nas_pdu, none)
unfolding downlink downlink_layout parsed_of
downlink-nas_transport t store x y p q r a b nas_pdu ha hb short e10 e85 e38 pq qr =
    let la : length a ≤ 6 = length-amf_ue_ngap_id x a ha in
    let lb : length b ≤ 5 = length-ran_ue_ngap_id y b hb in
    let ln : length (wrap nas_pdu) < 16100 = omega (arith, length-wrap nas_pdu (omega arith)) in
    let fs = nas_fields a b nas_pdu in
    let all : All IsShort fs = (
      (omega arith, omega arith),
      ((omega arith, omega arith), ((omega arith, omega arith), tt)),
    ) in
    let total : length (body_of fs) < 16384 = omega (
      arith,
      length-ie 10 reject a (omega arith),
      length-ie 85 reject b (omega arith),
      length-ie 38 reject (wrap nas_pdu) (omega arith),
      length-append (field_bytes (record { ie_id = 10; crit = reject; value = a }))
          (ie 85 reject b ++ (ie 38 reject (wrap nas_pdu) ++ [])),
      length-append (ie 85 reject b) (ie 38 reject (wrap nas_pdu) ++ []),
      length-append (ie 38 reject (wrap nas_pdu)) [],
    ) in
    let walked = walk-message t store 4 t.nas_transport.0 fs none all (omega arith) total in
    let read =
      read_all-nas_fields t.session_types store (read_sessions t store) (procedure 4)
        (ie_set kinds 0 t.nas_transport.1) p q r x y a b nas_pdu e10 e85 e38 pq qr
        (id_value-amf_ue_ngap_id x a ha) (id_value-ran_ue_ngap_id y b hb)
        (octets-wrap nas_pdu (omega arith)) in
    let same : (t.nas_transport.0 == t.nas_transport.0) ≡ true = ==_refl _ in
    rw (walked, same, read) refl
