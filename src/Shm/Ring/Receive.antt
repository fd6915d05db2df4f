-- ===== src/Shm/Ring/Receive.antt =====
-- What `recv` takes from a ring that holds the records of frames.
use core_network_traffic_gen.Common.{
  ℕ, ◌+◌, ◌-◌, ◌%◌, ◌^◌, ◌≤◌, ◌<◌, ◌≡◌, refl, sym, ap, ◌∙◌, arith, ltb, leb, ◌==◌,
}
use core_network_traffic_gen.Common.{
  true, false, Bool-cases, inl, inr, none, some, List, [], ◌∷◌, ◌++◌, length, length-append, take,
  drop, slice, take-append, drop-append,
}
use core_network_traffic_gen.Common.Bytes.{le_bytes, length-le_bytes, from_le, from_le-le_bytes}
use core_network_traffic_gen.Shm.Memory.{contents, length-contents, contents_split}
use core_network_traffic_gen.Shm.Read.{copy, copy-contents}
use core_network_traffic_gen.Shm.Ring.{
  Ring, rec_size, advance, take_record, refreshed, recv_idle, recv_frame,
}
use core_network_traffic_gen.Shm.Ring.Records.{
  record_of, Records, Boundary, Boundary-le, Boundary-end, length-record_of,
}
use core_network_traffic_gen.Shm.Ring.Fifo.{Holds, aligned_place}

append-inj :
    (xs xs' ys ys' : List ℕ)
    → length xs ≡ length xs'
    → xs ++ ys ≡ xs' ++ ys'
    → (xs ≡ xs') × (ys ≡ ys')
append-inj xs xs' ys ys' n e = (
  sym (take-append (length xs) xs ys refl)
      ∙ ap (take (length xs)) e
      ∙ take-append (length xs) xs' ys' n,
  sym (drop-append (length xs) xs ys refl)
      ∙ ap (drop (length xs)) e
      ∙ drop-append (length xs) xs' ys' n,
)

-- The first record of a ring.
pub record First (cap : ℕ) (f : List ℕ) (fs : List (List ℕ)) (r : Ring) : Type 0 where
  fits : r.head + rec_size (length f) ≤ r.tail
  pub small : rec_size (length f) ≤ cap
  word : contents cap r.mem r.head 4 ≡ le_bytes 4 (length f)
  body : contents cap r.mem (r.head + 4) (length f) ≡ f
  others :
      Records fs (
        contents cap r.mem (r.head + rec_size (length f)) (r.tail - (r.head + rec_size (length f))))

pub first :
    (cap : ℕ) (f : List ℕ) (fs : List (List ℕ)) (r : Ring) → Holds cap (f ∷ fs) r → First cap f fs r
first cap f fs r h =
    let (pad, rest, size, e, more) = h.records in
    let n = length f in
    let rec = rec_size n in
    let total : r.tail - r.head ≡ rec + length rest = omega (
      arith,
      sym (length-contents cap r.mem r.head (r.tail - r.head)),
      ap length e,
      length-append (record_of f pad) rest,
      length-record_of f pad,
    ) in
    let outer : contents cap r.mem r.head (rec + length rest) ≡ record_of f pad ++ rest =
      rw total at e in
    let (one, last) =
      append-inj (contents cap r.mem r.head rec) (record_of f pad) _ rest
        (omega (arith, length-contents cap r.mem r.head rec, length-record_of f pad))
        (sym (contents_split cap r.mem r.head rec (length rest)) ∙ outer) in
    let parts : 4 + (n + length pad) ≡ rec = omega arith in
    let (word, two) =
      append-inj (contents cap r.mem r.head 4) (le_bytes 4 n) _ (f ++ pad)
        (length-contents cap r.mem r.head 4 ∙ sym (length-le_bytes 4 n))
        (sym (contents_split cap r.mem r.head 4 (n + length pad)) ∙ rw parts one) in
    let (body, end) =
      append-inj (contents cap r.mem (r.head + 4) n) f _ pad
        (length-contents cap r.mem (r.head + 4) n)
        (sym (contents_split cap r.mem (r.head + 4) n (length pad)) ∙ two) in
    let left : r.tail - (r.head + rec) ≡ length rest = omega arith in
    record {
      fits = omega (arith, h);
      small = omega (arith, h);
      word = word;
      body = body;
      others = rw (left, last) more;
    }

-- The record's length word is read back, before or behind the ring's end.
word_read :
    (cap : ℕ) (f : List ℕ) (fs : List (List ℕ)) (r : Ring)
    → Holds cap (f ∷ fs) r
    → length f < 2 ^ 32
    → from_le (slice (r.head % cap) (r.head % cap + 4) r.mem) ≡ length f
unfolding copy
word_read cap f fs r h small =
    let place = aligned_place cap r.head h.large h.whole h.aligned_head in
    let direct : leb (r.head % cap + 4) cap ≡ true = ground arith in
    let e : r.head % cap + 0 ≡ r.head % cap = omega arith in
    let e' : r.head + 0 ≡ r.head = omega arith in
    let word =
      rw (e, e', direct) at
        (copy-contents cap r.head 0 4 r.mem h.size h.large (omega arith) (omega arith)) in
    ap from_le (word ∙ (first cap f fs r h).word) ∙ from_le-le_bytes 4 (length f) small

body_read :
    (cap : ℕ) (f : List ℕ) (fs : List (List ℕ)) (r : Ring)
    → Holds cap (f ∷ fs) r
    → copy cap r.mem (r.head % cap + 4) (length f) ≡ f
body_read cap f fs r h =
    let place = aligned_place cap r.head h.large h.whole h.aligned_head in
    let one = first cap f fs r h in
    copy-contents cap r.head 4 (length f) r.mem h.size h.large (omega arith) (omega (arith, one))
    ∙ one.body

body_direct :
    (cap : ℕ) (f : List ℕ) (fs : List (List ℕ)) (r : Ring)
    → Holds cap (f ∷ fs) r
    → leb (r.head % cap + 4 + length f) cap ≡ true
    → slice (r.head % cap + 4) (r.head % cap + 4 + length f) r.mem ≡ f
unfolding copy
body_direct cap f fs r h e = rw e at (body_read cap f fs r h)

-- After the first record's octets are freed, the ring holds the others.
advance-Holds :
    (cap : ℕ) (f : List ℕ) (fs : List (List ℕ)) (r : Ring)
    → Holds cap (f ∷ fs) r
    → Boundary fs (r.head + rec_size (length f)) r.in_tail
    → Holds cap fs (advance cap (r.head + rec_size (length f)) r)
unfolding advance
advance-Holds cap f fs r h boundary =
    let one = first cap f fs r h in
    record {
      size = h.size;
      whole = h.whole;
      large = h.large;
      aligned_head = omega (arith, h.aligned_head);
      aligned_tail = h.aligned_tail;
      seen_head = omega (arith, h.seen_head);
      seen_tail = h.seen_tail;
      behind = Boundary-le fs (r.head + rec_size (length f)) r.in_tail boundary;
      boundary = boundary;
      within = h.within;
      idle = h.idle;
      records = one.others;
    }

-- A ring's record at the head is taken once the consumer sees it.
recv_idle_lem :
    (cap : ℕ) (f : List ℕ) (fs : List (List ℕ)) (r : Ring)
    → Holds cap (f ∷ fs) r
    → length f < 2 ^ 32
    → r.head < r.in_tail
    → recv_idle cap r ≡ (some f, advance cap (r.head + rec_size (length f)) r)
unfolding recv_idle take_record
recv_idle_lem cap f fs r h small lt =
    let one = first cap f fs r h in
    let more : (r.in_tail == r.head) ≡ false = ground arith in
    let whole : ltb cap (rec_size (length f)) ≡ false = ground (arith, one) in
    rw (more, word_read cap f fs r h small, whole, body_read cap f fs r h)
      (elim (Bool-cases (leb (r.head % cap + 4 + length f) cap)) [
        | inl e ↦ rw e (
            ap (λ xs. (some xs, advance cap (r.head + rec_size (length f)) r))
              (body_direct cap f fs r h e))
        | inr e ↦ rw e refl
      ])

refreshed-Holds :
    (cap : ℕ) (fs : List (List ℕ)) (r : Ring) → Holds cap fs r → Holds cap fs (refreshed r)
refreshed-Holds cap fs r h = elim (Bool-cases (r.in_tail == r.head)) [
  | inr e ↦ rw e h
  | inl e ↦ rw e (record {
    size = h.size;
    whole = h.whole;
    large = h.large;
    aligned_head = h.aligned_head;
    aligned_tail = h.aligned_tail;
    seen_head = h.seen_head;
    seen_tail = omega arith;
    behind = omega (arith, h);
    boundary =
        Boundary-end fs _ r.head r.tail h.records
          (omega (arith, h, length-contents cap r.mem r.head (r.tail - r.head)));
    within = h.within;
    idle = h.idle;
    records = h.records;
  })
]

recv_frame_step :
    (cap : ℕ) (r : Ring) → r.partial ≡ none → recv_frame cap r ≡ recv_idle cap (refreshed r)
unfolding recv_frame
recv_frame_step cap r e =
    ap (λ o. elim o [ some p ↦ (none, r) | none ↦ recv_idle cap (refreshed r) ]) e

-- A ring that is not empty: the consumer sees its first record after it looked at the tail.
refreshed_sees :
    (r : Ring) → r.head ≤ r.in_tail → r.head < r.tail → (refreshed r).head < (refreshed r).in_tail
refreshed_sees r h k = elim (Bool-cases (r.in_tail == r.head)) [
  | inl e ↦ rw e k
  | inr e ↦ rw e (ground arith)
]

-- A receive from a ring whose first frame is `f` gives `f`, and leaves the ring holding the others.
pub recv_frame_lem :
    (cap : ℕ) (f : List ℕ) (fs : List (List ℕ)) (r : Ring)
    → Holds cap (f ∷ fs) r
    → length f < 2 ^ 32
    → ((recv_frame cap r).0 ≡ some f) × Holds cap fs (recv_frame cap r).1
recv_frame_lem cap f fs r h small =
    let r' = refreshed r in
    let h' = refreshed-Holds cap (f ∷ fs) r h in
    let one = first cap f fs r h in
    let sees : r'.head < r'.in_tail = refreshed_sees r h.behind (omega (arith, one.fits)) in
    let boundary : Boundary fs (r'.head + rec_size (length f)) r'.in_tail = elim h'.boundary [
      | inl e ↦ absurd (omega arith)
      | inr b ↦ b
    ] in
    rw (recv_frame_step cap r h.idle, recv_idle_lem cap f fs r' h' small sees)
      (refl, advance-Holds cap f fs r' h' boundary)

-- A receive from a ring that holds no record gives none, and leaves it so.
pub recv_frame_empty :
    (cap : ℕ) (r : Ring)
    → Holds cap [] r
    → ((recv_frame cap r).0 ≡ none) × Holds cap [] (recv_frame cap r).1
unfolding recv_idle
recv_frame_empty cap r h =
    let h' = refreshed-Holds cap [] r h in
    let stop : ((refreshed r).in_tail == (refreshed r).head) ≡ true = ground (arith, h'.boundary) in
    rw (recv_frame_step cap r h.idle, stop) (refl, h')
