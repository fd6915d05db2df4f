-- ===== src/Ngap/Downlink/Messages.antt =====
-- `_walk` and `downlink` of src/ngapfast.py on a message whose fields are given.
use core_network_traffic_gen.Common.{
  ℕ, ◌+◌, ◌*◌, ◌/◌, ◌%◌, ◌<◌, ◌≡◌, sym, ap, ◌∙◌, arith, ltb, leb, ◌==◌, le→ltb,
}
use core_network_traffic_gen.Common.{
  true, false, some, List, [], ◌∷◌, ◌++◌, append_assoc, map, length, length-append, length-map,
  get_or, All,
}
use core_network_traffic_gen.Ngap.Aper.{◌>>=◌, guard, short_length, length_at}
use core_network_traffic_gen.Ngap.Aper.Lengths.{
  get_or-append_at, det_size, length-short_length, length_at-short_length,
}
use core_network_traffic_gen.Ngap.Pdu.{join, two_octets, message}
use core_network_traffic_gen.Ngap.Pdu.Reader.{Field, field_bytes}
use core_network_traffic_gen.Ngap.Downlink.Layout.{Entry, Key, procedure, Tables, downlink_layout}
use core_network_traffic_gen.Ngap.Downlink.Container.{
  nothing, Learnt, Learning, SessionsReader, container,
}
use core_network_traffic_gen.Ngap.Downlink.Walk.{read_sessions, parsed_of, walk}
use core_network_traffic_gen.Ngap.Downlink.Accept.{
  IsShort, read_all, fields-join, wrap-short, bind_cong,
}

abbrev pub body_of : List Field → List ℕ
body_of fs = 0 ∷ (two_octets (length fs) ++ join (map field_bytes fs))

module _ (names : ℕ) (store : List Learnt) (reader : SessionsReader) (key : Key)
    (ies : List (ℕ × Entry)) where
  container-join :
      (fs : List Field) (pre : List ℕ) (learning : Learning)
      → All IsShort fs
      → length fs < 65536
      → container names store reader key
          (pre ++ (two_octets (length fs) ++ join (map field_bytes fs)))
          (length pre)
          (length (pre ++ (two_octets (length fs) ++ join (map field_bytes fs))))
          ies
          learning
          nothing
        ≡ read_all names store reader key ies fs 0 learning nothing
  unfolding container
  container-join fs pre learning h n =
      let buf = pre ++ (two_octets (length fs) ++ join (map field_bytes fs)) in
      let room : ltb (length buf) (length pre + 2) ≡ false =
        le→ltb _ _ (
          omega (arith, length-append pre (two_octets (length fs) ++ join (map field_bytes fs)))) in
      let hi : get_or buf (length pre) 0 ≡ length fs / 256 =
        let e : length pre ≡ length pre + 0 = omega arith in rw e (get_or-append_at 0 pre _) in
      let lo : get_or buf (length pre + 1) 0 ≡ length fs % 256 = get_or-append_at 1 pre _ in
      let count : length fs / 256 * 256 + length fs % 256 ≡ length fs = omega arith in
      let place : length pre + 2 ≡ length (pre ++ two_octets (length fs)) =
        omega (arith, length-append pre (two_octets (length fs))) in
      let same : buf ≡ (pre ++ two_octets (length fs)) ++ join (map field_bytes fs) =
        sym (append_assoc pre _ _) in
      rw (room, hi, lo, count, place, same)
        (fields-join names store reader key ies fs (pre ++ two_octets (length fs)) 0 learning
          nothing h)

  container_at :
      (fs : List Field) (pre buf : List ℕ) (o : ℕ) (learning : Learning)
      → buf ≡ pre ++ (two_octets (length fs) ++ join (map field_bytes fs))
      → o ≡ length pre
      → All IsShort fs
      → length fs < 65536
      → container names store reader key buf o (length buf) ies learning nothing
        ≡ read_all names store reader key ies fs 0 learning nothing
  container_at fs pre buf o learning e k h n = rw (e, k) (container-join fs pre learning h n)

message-short :
    (code crit : ℕ) (fs : List Field)
    → length (body_of fs) < 16384
    → message (0 ∷ code ∷ crit ∷ []) (map field_bytes fs)
      ≡ 0 ∷ code ∷ crit ∷ (short_length (length (body_of fs)) ++ body_of fs)
unfolding message
message-short code crit fs short = rw (length-map fs field_bytes, wrap-short (body_of fs) short)

-- The message of given fields, below the length of a fragment.
pub walk-message :
    (t : Tables) (store : List Learnt) (code crit : ℕ) (fs : List Field) (learning : Learning)
    → All IsShort fs
    → length fs < 65536
    → length (body_of fs) < 16384
    → walk t store (message (0 ∷ code ∷ crit ∷ []) (map field_bytes fs)) learning ≡ (
        downlink_layout t code >>= λ (c, ies). guard (crit == c) >>= λ _.
        read_all t.session_types store
          (read_sessions t store)
          (procedure code)
          ies
          fs
          0
          learning
          nothing
        >>= λ (got, l). parsed_of code got >>= λ p. some (p, l))
unfolding walk
walk-message t store code crit fs learning h n short =
    let body = body_of fs in
    let d = short_length (length body) in
    let front = 0 ∷ code ∷ crit ∷ [] in
    let buf = front ++ (d ++ body) in
    let rest = two_octets (length fs) ++ join (map field_bytes fs) in
    let total : length buf ≡ 3 + det_size (length body) + length body =
      omega (arith, length-append d body, length-short_length (length body)) in
    let room : ltb (length buf) 7 ≡ false = ground (arith, total) in
    let size : length_at buf 3 (length buf) ≡ some (3 + det_size (length body), length body) =
      length_at-short_length front body (length body) (length buf) short (omega (arith, total)) in
    let start : 3 + det_size (length body) ≡ length (front ++ d) + 0 =
      omega (arith, length-short_length (length body)) in
    let zero_at : get_or buf (3 + det_size (length body)) 0 ≡ 0 =
      rw start (get_or-append_at 0 (front ++ d) body) in
    let ends : (3 + det_size (length body) + length body == length buf) ≡ true =
      ground (arith, total) in
    let fits : leb (3 + det_size (length body) + 3) (length buf) ≡ true = ground (arith, total) in
    let place : 3 + det_size (length body) + 1 ≡ length (front ++ (d ++ (0 ∷ []))) =
      omega (arith, length-append d (0 ∷ []), length-short_length (length body)) in
    let same : buf ≡ (front ++ (d ++ (0 ∷ []))) ++ rest =
      ap (λ xs. front ++ xs) (sym (append_assoc d (0 ∷ []) rest)) in
    ap (λ m. walk t store m learning) (message-short code crit fs short)
    ∙ rw (room, size, ends, fits, zero_at)
        (bind_cong (downlink_layout t code) _ _ (λ l. bind_cong (guard (crit == l.0)) _ _ (λ _.
          ap (λ r. r >>= λ (got, l). parsed_of code got >>= λ p. some (p, l))
            (container_at t.session_types store (read_sessions t store) (procedure code) l.1 fs
              (front ++ (d ++ (0 ∷ []))) buf _ learning same place h n))))
