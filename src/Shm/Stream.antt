-- ===== src/Shm/Stream.antt =====
-- A record larger than the ring: _send_streamed of src/shmlink.py with the consumer of Shm/Ring.
pub mod Octets
pub mod Chunk
pub mod Collect
pub mod Take
pub mod Progress
pub mod Delivery
pub mod Exchange
mod Examples
use core_network_traffic_gen.Common.{
  ℕ, ◌+◌, ◌-◌, ◌%◌, ◌≡◌, ltb, leb, ◌==◌, if◌then◌else◌, min, Bool, none, List, ◌++◌, length, slice,
}
use core_network_traffic_gen.Common.Bytes.{le_bytes}
use core_network_traffic_gen.Shm.Memory.{put}
use core_network_traffic_gen.Shm.Ring.{Ring, rec_size, recv_frame, recv_turn}

-- `_LEN.pack(n) + frame`
abbrev pub octets_of : List ℕ → List ℕ
octets_of frame = le_bytes 4 (length frame) ++ frame

-- What a turn of the loop over the record's octets comes to: all are sent, it waits for this much
-- room, or it goes on after so many octets of the record.
pub data Turn : Type 0 where
  all_sent : Turn
  waits_for : ℕ → Ring → Turn
  goes_on : ℕ → Ring → Turn

module _ (cap : ℕ) (frame : List ℕ) where
  -- The octets that fit, the padding without a copy, then the tail, then the signal.
  unfoldable pub publish_chunk : ℕ → ℕ → Ring → Ring
  publish_chunk n at r =
      let end = min (at + n) (4 + length frame) in
      record r {
        mem =
            (if ltb at end
              then put cap (r.tail % cap) (slice at end (octets_of frame)) r.mem
              else r.mem);
        tail = r.tail + n;
        data_signals = (if r.read_waits then r.data_signals + 1 else r.data_signals);
      }

  -- The room that the turn uses, as the producer sees it.
  abbrev pub room_seen : Ring → ℕ
  room_seen r = cap - (r.tail - r.out_head)

  -- With enough room seen.
  abbrev pub send_now : ℕ → Ring → Turn
  send_now at r =
      let n = min (room_seen r) (rec_size (length frame) - at) in
      goes_on (at + n) (publish_chunk n at r)

  -- A record's length is never split.
  abbrev pub need_of : ℕ → ℕ
  need_of at = if at == 0 then 8 else 1

  -- One turn of `while sent < rec`, with `at` octets sent.
  unfoldable pub send_turn : ℕ → Ring → Turn
  send_turn at r =
      let fresh = record r { out_head = r.head } in
      if leb (rec_size (length frame)) at
      then all_sent
      else if leb (need_of at) (room_seen r)
      then send_now at r
      else if leb (need_of at) (room_seen fresh)
      then send_now at fresh
      else waits_for (need_of at) fresh

  -- A turn of either end: the producer sends a part or waits with its flag up or down, and the
  -- consumer, which may say that it waits, looks at the ring and has no frame yet.
  pub data Step : ℕ × Ring → ℕ × Ring → Type 0 where
    sends : (at at' : ℕ) (r r' : Ring) → send_turn at r ≡ goes_on at' r' → Step (at, r) (at', r')
    waits :
        (at n : ℕ) (b : Bool) (r r' : Ring)
        → send_turn at r ≡ waits_for n r'
        → Step (at, r) (at, record r' { write_waits = b })
    says : (at : ℕ) (b : Bool) (r : Ring) → Step (at, r) (at, record r { read_waits = b })
    looks : (at : ℕ) (r r' : Ring) → recv_frame cap r ≡ (none, r') → Step (at, r) (at, r')
    collects : (at : ℕ) (r r' : Ring) → recv_turn cap r ≡ (none, r') → Step (at, r) (at, r')

  -- What the two ends come to from this.
  pub data Reach (start : ℕ × Ring) : ℕ × Ring → Type 0 where
    here : Reach start start
    later : {s s' : ℕ × Ring} → Reach start s → Step s s' → Reach start s'
