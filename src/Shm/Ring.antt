-- ===== src/Shm/Ring.antt =====
-- One ring of src/shmlink.py's ShmEndpoint: what its producer and its consumer do between two waits.
pub mod Records
pub mod Fifo
pub mod Receive
pub mod Runs
mod Examples
use core_network_traffic_gen.Common.{
  ℕ, zero, suc, ◌+◌, ◌-◌, ◌*◌, ◌/◌, ◌%◌, ltb, leb, ◌==◌, if◌then◌else◌, min,
}
use core_network_traffic_gen.Common.{
  Bool, true, false, not, ◌&&◌, Option, none, some, Result, List, [], ◌∷◌, ◌++◌, length, take, drop,
  slice,
}
use core_network_traffic_gen.Common.Bytes.{le_bytes, from_le}
use mathlib.Core.Option as O
use core_network_traffic_gen.RanLink.Event.{Event, FrameError}
use core_network_traffic_gen.RanLink.Frame.{decode}
use core_network_traffic_gen.Shm.Memory.{write, put}
use core_network_traffic_gen.Shm.Read.{copy}

-- A streamed record being collected: the octets that came, the buffer's size and the frame's length.
pub record Partial : Type 0 where
  pub filled : List ℕ
  pub size : ℕ
  pub frame_length : ℕ

-- The ring's octets and words, the producer's and the consumer's copies of the other's word, and the
-- number of signals on each eventfd.
pub record Ring : Type 0 where
  pub mem : List ℕ
  pub tail : ℕ
  pub head : ℕ
  pub out_head : ℕ
  pub in_tail : ℕ
  pub read_waits : Bool
  pub write_waits : Bool
  pub data_signals : ℕ
  pub room_signals : ℕ
  pub partial : Option Partial

abbrev pub new_ring : ℕ → List ℕ → Ring
new_ring at mem = record {
  mem = mem;
  tail = at;
  head = at;
  out_head = at;
  in_tail = at;
  read_waits = false;
  write_waits = false;
  data_signals = 0;
  room_signals = 0;
  partial = none;
}

-- `(n + 11) & -8`: the length's four octets and the frame's, up to a multiple of 8.
abbrev pub rec_size : ℕ → ℕ
rec_size n = (n + 11) / 8 * 8

-- The consumer looks at the tail once it has taken what it saw.
abbrev pub refreshed : Ring → Ring
refreshed r = if r.in_tail == r.head then record r { in_tail = r.tail } else r

-- How a send goes on: it raises LinkClosed, waits for room, streams, or is done.
pub data Sent : Type 0 where
  gone : Sent
  blocked : Ring → Sent
  streams : Ring → Sent
  sent : Ring → Sent

module _ (cap : ℕ) where
  -- The record's octets, then the tail, then the signal.
  unfoldable pub publish : List ℕ → Ring → Ring
  publish frame r =
      let pos = r.tail % cap in
      record r {
        mem = put cap (pos + 4) frame (write pos (le_bytes 4 (length frame)) r.mem);
        tail = r.tail + rec_size (length frame);
        data_signals = (if r.read_waits then r.data_signals + 1 else r.data_signals);
      }

  -- `send_frame`; `ended` is that either end is closed or the peer is gone.
  unfoldable pub send_frame : Bool → List ℕ → Ring → Sent
  unfolding publish
  send_frame ended frame r =
      let rec = rec_size (length frame) in
      let fresh = record r { out_head = r.head } in
      if ended
      then gone
      else if leb rec (cap - (r.tail - r.out_head))
      then sent (publish frame r)
      else if leb rec (cap - (r.tail - r.head))
      then sent (publish frame fresh)
      else if ltb cap rec
      then streams fresh
      else blocked fresh

  -- `_advance`
  unfoldable pub advance : ℕ → Ring → Ring
  advance head r = record r {
    head = head;
    room_signals =
        (if r.write_waits && leb (r.in_tail - head) (cap / 2)
          then r.room_signals + 1
          else r.room_signals);
  }

  -- `_collect`: the frame once it is whole.
  unfoldable pub collect : Partial → Ring → Option (List ℕ) × Ring
  unfolding advance
  collect p r =
      let fresh = record r { in_tail = r.tail } in
      let n = min (r.tail - r.head) (p.size - length p.filled) in
      let filled = p.filled ++ copy cap r.mem (r.head % cap) n in
      if ltb (length p.filled + n) p.size
      then (
        none,
        record (advance (r.head + n) fresh) { partial = some (record p { filled = filled }) },
      )
      else (
        some (take p.frame_length filled),
        record (advance (r.head + n) fresh) { partial = none },
      )

  -- `_take`
  unfoldable pub take_record : Ring → Option (List ℕ) × Ring
  unfolding collect
  take_record r =
      let pos = r.head % cap in
      let n = from_le (slice pos (pos + 4) r.mem) in
      if ltb cap (rec_size n)
      then collect (record { filled = []; size = rec_size n - 4; frame_length = n })
          (advance (r.head + 4) r)
      else (some (copy cap r.mem (pos + 4) n), advance (r.head + rec_size n) r)

  -- `recv` with no streamed record, once it looked at the tail: the record at the head, at once where
  -- it does not reach the ring's end.
  unfoldable pub recv_idle : Ring → Option (List ℕ) × Ring
  unfolding take_record
  recv_idle r =
      let pos = r.head % cap in
      let n = from_le (slice pos (pos + 4) r.mem) in
      if r.in_tail == r.head
      then (none, r)
      else if leb (pos + 4 + n) cap
      then (some (slice (pos + 4) (pos + 4 + n) r.mem), advance (r.head + rec_size n) r)
      else take_record r

  -- `recv` before it waits.
  unfoldable pub recv_frame : Ring → Option (List ℕ) × Ring
  unfolding recv_idle
  recv_frame r = elim r.partial [ some p ↦ (none, r) | none ↦ recv_idle (refreshed r) ]

  -- One turn of `_recv_wait`'s loop.
  unfoldable pub recv_turn : Ring → Option (List ℕ) × Ring
  unfolding take_record
  recv_turn r =
      let fresh = record r { in_tail = r.tail } in
      if r.tail == r.head
      then (none, fresh)
      else elim r.partial [ none ↦ take_record fresh | some p ↦ collect p fresh ]

  -- `recv`: the frame's event, or its FrameError; `none` is that it waits.
  unfoldable pub recv : Ring → Option (Result FrameError Event) × Ring
  unfolding recv_frame
  recv r = let (frame, next) = recv_frame r in (O.map decode frame, next)

-- `_wait_room` before it blocks: `blocks` is with the flag set and the ring still full.
pub data Room : Type 0 where
  room_gone : Room
  room : Ring → Room
  room_stopped : Room
  blocks : Ring → Room

unfoldable pub wait_room : ℕ → Bool → Bool → ℕ → Ring → Room
wait_room cap ended stop need r =
    if ended
    then room_gone
    else if leb need (cap - (r.tail - r.head))
    then room (record r { out_head = r.head })
    else if stop
    then room_stopped
    else blocks (record r { write_waits = true })
