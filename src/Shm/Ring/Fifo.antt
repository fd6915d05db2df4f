-- ===== src/Shm/Ring/Fifo.antt =====
-- A ring is a queue of frames: `send_frame` puts a frame at its end, `recv_frame` takes the first one.
use core_network_traffic_gen.Common.{
  ℕ, ◌+◌, ◌-◌, ◌*◌, ◌/◌, ◌%◌, ◌≤◌, ◌<◌, ◌≡◌, refl, ap, ap₂, ◌∙◌, arith, ltb, leb, leb→le, ltb→lt,
}
use core_network_traffic_gen.Common.{
  Bool, true, false, Bool-cases, inl, inr, none, List, [], ◌∷◌, ◌++◌, append_assoc, length,
}
use core_network_traffic_gen.Common.Bytes.{le_bytes, length-le_bytes}
use native.Mathlib.Nat.{mul_assoc, mod-add-div, mod-lt}
use core_network_traffic_gen.Shm.Memory.{
  write, contents, length-contents, contents_split, contents_are, contents_same, length-write,
}
use core_network_traffic_gen.Shm.Put.{length-put, put_new, put_old, write_new, write_old}
use core_network_traffic_gen.Shm.Ring.{
  Ring, rec_size, Sent, gone, blocked, streams, sent, publish, send_frame,
}
use core_network_traffic_gen.Shm.Ring.Records.{
  record_of, Records, Boundary, Boundary-append, Records-append,
}

-- A ring of `cap` octets that holds the records of `fs` and no part of a streamed one.
pub record Holds (cap : ℕ) (fs : List (List ℕ)) (r : Ring) : Type 0 where
  pub size : length r.mem ≡ cap
  pub whole : cap % 8 ≡ 0
  pub large : 0 < cap
  pub aligned_head : r.head % 8 ≡ 0
  pub aligned_tail : r.tail % 8 ≡ 0
  pub seen_head : r.out_head ≤ r.head
  pub seen_tail : r.in_tail ≤ r.tail
  pub behind : r.head ≤ r.in_tail
  pub boundary : Boundary fs r.head r.in_tail
  pub within : r.tail ≤ r.out_head + cap
  pub idle : r.partial ≡ none
  pub records : Records fs (contents cap r.mem r.head (r.tail - r.head))

-- The rest of a position that is a multiple of 8 leaves room for a length.
pub aligned_place : (cap t : ℕ) → 0 < cap → cap % 8 ≡ 0 → t % 8 ≡ 0 → t % cap + 8 ≤ cap
aligned_place cap t pos h k =
    let same : cap ≡ 8 * (cap / 8) = omega arith in
    let times : cap * (t / cap) ≡ 8 * (cap / 8 * (t / cap)) =
      ap (λ c. c * (t / cap)) same ∙ mul_assoc 8 (cap / 8) (t / cap) in
    omega (arith, mod-add-div t cap, times, mod-lt t pos)

module _ (cap : ℕ) (frame : List ℕ) (r : Ring) (size : length r.mem ≡ cap) (pos : 0 < cap)
    (place : r.tail % cap + 8 ≤ cap) (room : rec_size (length frame) ≤ cap) where
  abbrev det : List ℕ
  det = le_bytes 4 (length frame)

  abbrev worded : List ℕ
  worded = write (r.tail % cap) det r.mem

  n_det : length det ≡ 4
  n_det = length-le_bytes 4 (length frame)

  worded-size : length worded ≡ cap
  worded-size = length-write (r.tail % cap) det r.mem (omega (arith, n_det)) ∙ size

  length-publish : length (publish cap frame r).mem ≡ cap
  unfolding publish
  length-publish =
      length-put cap (r.tail % cap + 4) frame worded worded-size (omega arith) (omega arith)

  -- The records before the tail stay as they are.
  publish-old :
      (n : ℕ)
      → n + rec_size (length frame) ≤ cap
      → r.head + n ≡ r.tail
      → contents cap (publish cap frame r).mem r.head n ≡ contents cap r.mem r.head n
  unfolding publish
  publish-old n fits same = contents_same cap r.mem _ r.head n (λ d lt.
      put_old cap r.tail 4 frame worded worded-size pos (omega arith) (omega arith) (r.head + d)
        (omega arith) (omega arith)
      ∙ write_old cap r.tail det r.mem size pos (omega (arith, n_det)) (r.head + d) (omega arith)
          (omega (arith, n_det)))

  publish-word : contents cap (publish cap frame r).mem r.tail 4 ≡ det
  unfolding publish
  publish-word = contents_are cap _ r.tail 4 det n_det (λ d lt.
      put_old cap r.tail 4 frame worded worded-size pos (omega arith) (omega arith) (r.tail + d)
        (omega arith) (omega arith)
      ∙ write_new cap r.tail det r.mem size pos (omega (arith, n_det)) d (omega (arith, n_det)))

  publish-frame : contents cap (publish cap frame r).mem (r.tail + 4) (length frame) ≡ frame
  unfolding publish
  publish-frame =
      contents_are cap _ (r.tail + 4) (length frame) frame refl
        (λ d lt. put_new cap r.tail 4 frame worded worded-size pos (omega arith) (omega arith) d lt)

  abbrev pad : List ℕ
  pad =
      contents cap (publish cap frame r).mem (r.tail + (4 + length frame))
        (rec_size (length frame) - (4 + length frame))

  length-pad : 4 + length frame + length pad ≡ rec_size (length frame)
  length-pad = omega (
    arith,
    length-contents cap (publish cap frame r).mem (r.tail + (4 + length frame))
        (rec_size (length frame) - (4 + length frame)),
  )

  publish-new :
      contents cap (publish cap frame r).mem r.tail (rec_size (length frame)) ≡ record_of frame pad
  publish-new =
      let mem = (publish cap frame r).mem in
      let n = length frame in
      let whole : 4 + n + (rec_size n - (4 + n)) ≡ rec_size n = omega arith in
      rw whole at (contents_split cap mem r.tail (4 + n) (rec_size n - (4 + n)))
      ∙ ap (λ xs. xs ++ pad)
          (contents_split cap mem r.tail 4 n ∙ ap₂ (λ xs ys. xs ++ ys) publish-word publish-frame)
      ∙ append_assoc det frame pad

publish-Holds :
    (cap : ℕ) (fs : List (List ℕ)) (frame : List ℕ) (r : Ring)
    → Holds cap fs r
    → rec_size (length frame) ≤ cap - (r.tail - r.out_head)
    → Holds cap (fs ++ (frame ∷ [])) (publish cap frame r)
unfolding publish
publish-Holds cap fs frame r h room =
    let rec = rec_size (length frame) in
    let place = aligned_place cap r.tail h.large h.whole h.aligned_tail in
    let n = r.tail - r.head in
    let same : r.head + n ≡ r.tail = omega (arith, h) in
    let fits : rec ≤ cap = omega (arith, h) in
    let p = pad cap frame r h.size h.large place fits in
    let mem = (publish cap frame r).mem in
    let two : contents cap mem r.head (n + rec) ≡ contents cap r.mem r.head n ++ record_of frame p =
      contents_split cap mem r.head n rec
      ∙ ap₂ (λ xs ys. xs ++ ys)
          (publish-old cap frame r h.size h.large place fits n (omega (arith, h)) same)
          (rw same (publish-new cap frame r h.size h.large place fits)) in
    let count : r.tail + rec - r.head ≡ n + rec = omega (arith, h) in
    record {
      size = length-publish cap frame r h.size h.large place fits;
      whole = h.whole;
      large = h.large;
      aligned_head = h.aligned_head;
      aligned_tail = omega (arith, h.aligned_tail);
      seen_head = h.seen_head;
      seen_tail = omega (arith, h);
      behind = h.behind;
      boundary = Boundary-append fs frame r.head r.in_tail h.boundary;
      within = omega (arith, h);
      idle = h.idle;
      records =
          rw (count, two)
            (Records-append fs frame (contents cap r.mem r.head n) p h.records
              (length-pad cap frame r h.size h.large place fits));
    }

refresh-Holds :
    (cap : ℕ) (fs : List (List ℕ)) (r : Ring)
    → Holds cap fs r
    → Holds cap fs (record r { out_head = r.head })
refresh-Holds cap fs r h = record {
  size = h.size;
  whole = h.whole;
  large = h.large;
  aligned_head = h.aligned_head;
  aligned_tail = h.aligned_tail;
  seen_head = omega (arith, h);
  seen_tail = h.seen_tail;
  behind = h.behind;
  boundary = h.boundary;
  within = omega (arith, h);
  idle = h.idle;
  records = h.records;
}

-- What a send leaves behind: the frame at the queue's end, or the queue as it was.
pub data SendOutcome (closed : Bool) (cap : ℕ) (fs : List (List ℕ)) (frame : List ℕ) (r : Ring)
    : Sent → Type 0 where
  refused : closed ≡ true → SendOutcome closed cap fs frame r gone
  full :
      (r' : Ring)
      → Holds cap fs r'
      → cap - (r.tail - r.head) < rec_size (length frame)
      → rec_size (length frame) ≤ cap
      → SendOutcome closed cap fs frame r (blocked r')
  larger :
      (r' : Ring)
      → Holds cap fs r'
      → cap < rec_size (length frame)
      → SendOutcome closed cap fs frame r (streams r')
  queued :
      (r' : Ring)
      → Holds cap (fs ++ (frame ∷ [])) r'
      → rec_size (length frame) ≤ cap - (r.tail - r.head)
      → SendOutcome closed cap fs frame r (sent r')

-- A send to a ring that holds `fs` queues the frame behind them just where its record has room, blocks
-- where it has none though the ring is large enough, and streams only a record larger than the ring.
pub send_frame_lem :
    (closed : Bool) (cap : ℕ) (fs : List (List ℕ)) (frame : List ℕ) (r : Ring)
    → Holds cap fs r
    → SendOutcome closed cap fs frame r (send_frame cap closed frame r)
unfolding send_frame
send_frame_lem true cap fs frame r h = refused refl
send_frame_lem false cap fs frame r h =
    let rec = rec_size (length frame) in
    let fresh = record r { out_head = r.head } in
    let h' = refresh-Holds cap fs r h in
    elim (Bool-cases (leb rec (cap - (r.tail - r.out_head)))) [
      | inl e ↦
          let room : rec ≤ cap - (r.tail - r.out_head) = leb→le _ _ e in
          rw e
            (queued (publish cap frame r) (publish-Holds cap fs frame r h room) (omega (arith, h)))
      | inr e ↦ rw e (elim (Bool-cases (leb rec (cap - (r.tail - r.head)))) [
        | inl e' ↦
            let room : rec ≤ cap - (r.tail - r.head) = leb→le _ _ e' in
            rw e' (queued (publish cap frame fresh) (publish-Holds cap fs frame fresh h' room) room)
        | inr e' ↦ rw e' (elim (Bool-cases (ltb cap rec)) [
          | inl big ↦ rw big (larger fresh h' (ltb→lt _ _ big))
          | inr small ↦ rw small (full fresh h' (ground arith) (ground arith))
        ])
      ])
    ]
