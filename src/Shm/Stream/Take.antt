-- ===== src/Shm/Stream/Take.antt =====
-- The consumer's turns while a record streams: its length, the first part, and those after.
use core_network_traffic_gen.Common.{
  ℕ, ◌+◌, ◌-◌, ◌%◌, ◌^◌, ◌≤◌, ◌<◌, ◌≡◌, refl, sym, ap, subst, ◌∙◌, arith, lt→ltb, leb, ◌==◌, inl,
  inr, true, Bool-cases,
}
use core_network_traffic_gen.Common.{List, [], length, slice, get_or-append}
use core_network_traffic_gen.Common.Bytes.{le_bytes, length-le_bytes, from_le, from_le-le_bytes}
use core_network_traffic_gen.Shm.Memory.{octet_at, contents, contents_are}
use core_network_traffic_gen.Shm.Read.{copy}
use core_network_traffic_gen.Shm.Ring.{
  Ring, Partial, rec_size, advance, collect, take_record, recv_turn,
}
use core_network_traffic_gen.Shm.Ring.Fifo.{aligned_place}
use core_network_traffic_gen.Shm.Stream.Octets.{Streams, same-Streams}
use core_network_traffic_gen.Shm.Stream.Collect.{Collected, TakeOutcome, more, copied, collect_lem}

module _ (cap : ℕ) (frame : List ℕ) (start : ℕ) where
  -- The length at the head, before anything of the record is taken.
  pub word_read :
      (at : ℕ) (r : Ring)
      → Streams cap frame start at r
      → r.head ≡ start
      → r.head < r.tail
      → length frame < 2 ^ 32
      → from_le (slice (r.head % cap) (r.head % cap + 4) r.mem) ≡ length frame
  word_read at r h first any small =
      let aligned : r.head % 8 ≡ 0 = ap (λ q. q % 8) first ∙ h.aligned in
      let place = aligned_place cap r.head h.large h.whole aligned in
      let direct : leb (r.head % cap + 4) cap ≡ true = ground arith in
      let eight : 8 ≤ at = elim h.begun [ inl e ↦ absurd (omega (arith, h)) | inr e ↦ e ] in
      let text : copy cap r.mem (r.head % cap) 4 ≡ slice (r.head % cap) (r.head % cap + 4) r.mem =
        unfold copy in rw direct refl in
      let word : contents cap r.mem r.head 4 ≡ le_bytes 4 (length frame) =
        contents_are cap r.mem r.head 4 (le_bytes 4 (length frame))
          (length-le_bytes 4 (length frame))
          (λ d less.
            ap (octet_at cap r.mem) (omega arith)
            ∙ h.octets d (omega arith) (omega arith) (omega (arith, h))
            ∙ get_or-append d (le_bytes 4 (length frame)) frame 0
                (omega (arith, length-le_bytes 4 (length frame)))) in
      ap from_le (sym text ∙ copied cap frame start at 4 r h (omega (arith, h)) ∙ word)
      ∙ from_le-le_bytes 4 (length frame) small

  -- Nothing of the record but its length.
  abbrev unread : Partial
  unread = record { filled = []; size = rec_size (length frame) - 4; frame_length = length frame }

  take_record_step :
      (at : ℕ) (r : Ring)
      → Streams cap frame start at r
      → r.head ≡ start
      → r.head < r.tail
      → length frame < 2 ^ 32
      → take_record cap r ≡ collect cap unread (advance cap (r.head + 4) r)
  unfolding take_record collect
  take_record_step at r h first any small =
      rw (word_read at r h first any small, lt→ltb cap (rec_size (length frame)) h.longer) refl

  length_taken :
      (at : ℕ) (r : Ring)
      → Streams cap frame start at r
      → r.head ≡ start
      → r.head < r.tail
      → r.in_tail ≡ r.tail
      → Streams cap frame start at (advance cap (r.head + 4) r)
  unfolding advance
  length_taken at r h first any seen =
      let eight : 8 ≤ at = elim h.begun [ inl e ↦ absurd (omega (arith, h)) | inr e ↦ e ] in
      same-Streams cap frame start at r _ h refl refl refl (omega arith) (omega (arith, h))

  -- The consumer looks at the tail.
  pub seen_Streams :
      (at : ℕ) (r : Ring)
      → Streams cap frame start at r
      → Streams cap frame start at (record r { in_tail = r.tail })
  seen_Streams at r h = same-Streams cap frame start at r _ h refl refl refl (omega arith) h.behind

  -- With nothing in the ring there is more to come.
  pub empty_more :
      (at : ℕ) (r : Ring)
      → Streams cap frame start at r
      → Collected cap frame start r
      → r.tail ≡ r.head
      → Collected cap frame start (record r { in_tail = r.tail }) × (at < rec_size (length frame))
  empty_more at r h (inl (idle, first, seen)) empty =
      (inl (idle, first, empty ∙ first), omega (arith, h))
  empty_more at r h (inr (p, streaming, part, less)) empty =
      (inr (p, streaming, part, less), omega (arith, h, part))

  pub take_record_lem :
      (at : ℕ) (r : Ring)
      → Streams cap frame start at r
      → r.head ≡ start
      → r.head < r.tail
      → r.in_tail ≡ r.tail
      → length frame < 2 ^ 32
      → TakeOutcome cap frame start at (take_record cap r)
  take_record_lem at r h first any seen small =
      subst (TakeOutcome cap frame start at) (sym (take_record_step at r h first any small)) (
        collect_lem cap frame start at unread (advance cap (r.head + 4) r)
          (length_taken at r h first any seen)
          (record {
            buffer = refl;
            of_frame = refl;
            taken = unfold advance in omega (arith, first);
            agrees = λ d none_yet short. absurd (omega arith);
          })
          (omega (arith, h)))

  -- One turn of `_recv_wait`'s loop.
  pub recv_turn_lem :
      (at : ℕ) (r : Ring)
      → Streams cap frame start at r
      → Collected cap frame start r
      → length frame < 2 ^ 32
      → TakeOutcome cap frame start at (recv_turn cap r)
  unfolding recv_turn
  recv_turn_lem at r h have small =
      let fresh = record r { in_tail = r.tail } in
      elim (Bool-cases (r.tail == r.head)) [
        | inl empty ↦ rw empty (
            let none_there : r.tail ≡ r.head = ground arith in
            let left = empty_more at r h have none_there in
            more fresh (seen_Streams at r h) left.0 left.1 (sym none_there))
        | inr some_octets ↦ elim have [
          | inl (idle, first, seen) ↦
              rw (some_octets, idle)
                (take_record_lem at fresh (seen_Streams at r h) first (ground arith) refl small)
          | inr (p, streaming, part, less) ↦
              rw (some_octets, streaming)
                (collect_lem cap frame start at p fresh (seen_Streams at r h) part less)
        ]
      ]
