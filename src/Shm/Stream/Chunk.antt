-- ===== src/Shm/Stream/Chunk.antt =====
-- The turns of the producer of a streamed record keep its octets in the ring.
use core_network_traffic_gen.Common.{
  ℕ, ◌+◌, ◌-◌, ◌%◌, ◌≤◌, ◌<◌, ◌≡◌, refl, ap, ◌∙◌, arith, ltb, leb, min, ◌⊎◌, inl, inr,
}
use core_network_traffic_gen.Common.{true, false, Bool-cases, lt-cases, List, length, slice, get_or}
use core_network_traffic_gen.Shm.Memory.{put, octet_at}
use core_network_traffic_gen.Shm.Read.{length-slice, get_or-slice}
use core_network_traffic_gen.Shm.Ring.{Ring, rec_size}
use core_network_traffic_gen.Shm.Stream.{
  octets_of, publish_chunk, Turn, goes_on, all_sent, waits_for, need_of, room_seen, send_now,
  send_turn,
}
use core_network_traffic_gen.Shm.Stream.Octets.{
  put_here, put_kept, size_kept, Streams, length-octets_of,
}

module _ (cap : ℕ) (frame : List ℕ) (start : ℕ) where
  -- The octets in the ring after a copy of the record's octets from `at` to `end`.
  chunk_octets :
      (at end : ℕ) (r : Ring)
      → Streams cap frame start at r
      → at < end
      → end ≤ 4 + length frame
      → end ≤ at + (r.out_head + cap - r.tail)
      → (d : ℕ) → d < end
      → r.head ≤ start + d
      → octet_at cap (put cap (r.tail % cap) (slice at end (octets_of frame)) r.mem) (start + d)
        ≡ get_or (octets_of frame) d 0
  chunk_octets at end r h some_octets whole room d small there =
      let all : length (octets_of frame) ≡ 4 + length frame = length-octets_of cap frame start in
      let n : length (slice at end (octets_of frame)) ≡ end - at =
        length-slice at end (octets_of frame) (omega arith) (omega arith) in
      elim (lt-cases d at) [
        | inl old ↦
            put_kept cap r.tail (slice at end (octets_of frame)) r.mem h.size h.large
              (omega (arith, h)) (start + d) (omega (arith, h)) (omega (arith, h))
            ∙ h.octets d (omega arith) there (omega (arith, h))
        | inr new ↦
            let place : start + d ≡ r.tail + (d - at) = omega (arith, h) in
            ap (octet_at cap (put cap (r.tail % cap) (slice at end (octets_of frame)) r.mem)) place
            ∙ put_here cap r.tail (slice at end (octets_of frame)) r.mem h.size h.large
                (omega (arith, h)) (d - at) (omega arith)
            ∙ get_or-slice at end (octets_of frame) (d - at) (omega arith)
            ∙ ap (λ i. get_or (octets_of frame) i 0) (omega arith)
      ]

  module _ (at n : ℕ) (r : Ring) (h : Streams cap frame start at r)
      (room : n ≤ r.out_head + cap - r.tail) (first : (8 ≤ n) ⊎ (8 ≤ at))
      (inside : at + n ≤ rec_size (length frame)) where
    -- The octets after a part is sent.
    published_octets :
        (d : ℕ)
        → d < 4 + length frame
        → r.head ≤ start + d
        → start + d < r.tail + n
        → octet_at cap (publish_chunk cap frame n at r).mem (start + d)
          ≡ get_or (octets_of frame) d 0
    unfolding publish_chunk
    published_octets d small there sent =
        elim (Bool-cases (ltb at (min (at + n) (4 + length frame)))) [
          | inl some_octets ↦ rw some_octets (
              chunk_octets at (min (at + n) (4 + length frame)) r h (ground arith) (omega arith)
                (omega arith) d (omega (arith, h)) there)
          | inr none_left ↦ rw none_left (h.octets d small there (ground (arith, h.sent)))
        ]

    published_size : length (publish_chunk cap frame n at r).mem ≡ cap
    unfolding publish_chunk
    published_size = elim (Bool-cases (ltb at (min (at + n) (4 + length frame)))) [
      | inl some_octets ↦ rw some_octets (
          size_kept cap r.tail (slice at (min (at + n) (4 + length frame)) (octets_of frame)) r.mem
            h.size h.large
            (omega (
              arith,
              h,
              length-octets_of cap frame start,
              length-slice at (min (at + n) (4 + length frame)) (octets_of frame) (ground arith)
                  (omega (arith, length-octets_of cap frame start)),
            )))
      | inr none_left ↦ rw none_left h.size
    ]

    published-Streams : Streams cap frame start (at + n) (publish_chunk cap frame n at r)
    published-Streams = record {
      size = published_size;
      whole = h.whole;
      large = h.large;
      aligned = h.aligned;
      sent = unfold publish_chunk in omega (arith, h);
      begun = inr (elim first [ inl e ↦ omega arith | inr e ↦ omega arith ]);
      bounded = inside;
      longer = h.longer;
      seen_head = unfold publish_chunk in h.seen_head;
      behind = unfold publish_chunk in omega (arith, h);
      within = unfold publish_chunk in omega (arith, h);
      octets = λ d small there sent.
          published_octets d small (unfold publish_chunk in there) (unfold publish_chunk in sent);
    }

  -- A turn of the producer: all is sent, or it sends more, or it waits while the ring lacks the room.
  pub data SendOutcome (at : ℕ) (r : Ring) : Turn → Type 0 where
    ended : at ≡ rec_size (length frame) → SendOutcome at r all_sent
    went :
        (at' : ℕ) (r' : Ring)
        → at < at'
        → Streams cap frame start at' r'
        → r'.head ≡ r.head
        → r'.partial ≡ r.partial
        → r'.in_tail ≡ r.in_tail
        → SendOutcome at r (goes_on at' r')
    lacks :
        (r' : Ring)
        → Streams cap frame start at r'
        → r'.head ≡ r.head
        → r'.tail ≡ r.tail
        → r'.partial ≡ r.partial
        → r'.in_tail ≡ r.in_tail
        → cap < r.tail - r.head + 8
        → SendOutcome at r (waits_for (need_of cap frame at) r')

  refreshed-Streams :
      (at : ℕ) (r : Ring)
      → Streams cap frame start at r
      → Streams cap frame start at (record r { out_head = r.head })
  refreshed-Streams at r h = record {
    size = h.size;
    whole = h.whole;
    large = h.large;
    aligned = h.aligned;
    sent = h.sent;
    begun = h.begun;
    bounded = h.bounded;
    longer = h.longer;
    seen_head = omega arith;
    behind = h.behind;
    within = omega (arith, h);
    octets = h.octets;
  }

  went_now :
      (at : ℕ) (r s : Ring)
      → Streams cap frame start at s
      → s.head ≡ r.head
      → s.partial ≡ r.partial
      → s.in_tail ≡ r.in_tail
      → leb (rec_size (length frame)) at ≡ false
      → leb (need_of cap frame at) (room_seen cap frame s) ≡ true
      → SendOutcome at r (send_now cap frame at s)
  went_now at r s h same_head same_partial same_seen more enough =
      let n = min (room_seen cap frame s) (rec_size (length frame) - at) in
      let left : at < rec_size (length frame) = ground arith in
      let some_room : 1 ≤ room_seen cap frame s = ground arith in
      let room : n ≤ s.out_head + cap - s.tail = omega (arith, h) in
      let first : (8 ≤ n) ⊎ (8 ≤ at) = elim h.begun [
        | inl none_yet ↦ inl (ground (arith, h.longer, h.whole, h.large))
        | inr some_sent ↦ inr some_sent
      ] in
      went (at + n) (publish_chunk cap frame n at s) (omega arith)
        (published-Streams at n s h room first (ground arith)) (unfold publish_chunk in same_head)
        (unfold publish_chunk in same_partial) (unfold publish_chunk in same_seen)

  pub send_turn_lem :
      (at : ℕ) (r : Ring)
      → Streams cap frame start at r
      → SendOutcome at r (send_turn cap frame at r)
  unfolding send_turn
  send_turn_lem at r h =
      let fresh = record r { out_head = r.head } in
      elim (Bool-cases (leb (rec_size (length frame)) at)) [
        | inl all ↦ rw all (ended (ground (arith, h.bounded)))
        | inr more ↦ elim (Bool-cases (leb (need_of cap frame at) (room_seen cap frame r))) [
          | inl enough ↦ rw (more, enough) (went_now at r r h refl refl refl more enough)
          | inr short ↦ elim (Bool-cases (leb (need_of cap frame at) (room_seen cap frame fresh))) [
            | inl enough ↦
                rw (more, short, enough)
                  (went_now at r fresh (refreshed-Streams at r h) refl refl refl more enough)
            | inr full ↦
                rw (more, short, full)
                  (lacks fresh (refreshed-Streams at r h) refl refl refl refl (ground arith))
          ]
        ]
      ]
