-- ===== src/Shm/Stream/Examples.antt =====
-- A frame of 17 octets, a record of 24, over a ring of 16 octets.
use core_network_traffic_gen.Common.{ℕ, ◌<◌, ◌≡◌, refl, arith, ◌==◌, if◌then◌else◌}
use core_network_traffic_gen.Common.{none, some, List, [], ◌∷◌, length, replicate}
use core_network_traffic_gen.Common.Bytes.{le_bytes, from_le}
use core_network_traffic_gen.Shm.Memory.{contents, write, put}
use core_network_traffic_gen.Shm.Read.{copy}
use core_network_traffic_gen.Shm.Ring.{
  Ring, new_ring, rec_size, recv_frame, recv_turn, take_record, collect, advance,
}
use core_network_traffic_gen.Shm.Ring.Fifo.{Holds}
use core_network_traffic_gen.Shm.Stream.{
  Turn, goes_on, send_turn, publish_chunk, Reach, here, later, sends,
}
use core_network_traffic_gen.Shm.Stream.Delivery.{Reach-delivers, Reach-unblocked}
use core_network_traffic_gen.Shm.Stream.Exchange.{exchange, exchange_delivers}

abbrev frame : List ℕ
frame = 1 ∷ 2 ∷ 3 ∷ 4 ∷ 5 ∷ 6 ∷ 7 ∷ 8 ∷ 9 ∷ 10 ∷ 11 ∷ 12 ∷ 13 ∷ 14 ∷ 15 ∷ 16 ∷ 17 ∷ []

abbrev ring : Ring
ring = new_ring 8 (replicate 16 0)

ring-Holds : Holds 16 [] ring
ring-Holds = record {
  size = refl;
  whole = refl;
  large = omega arith;
  aligned_head = refl;
  aligned_tail = refl;
  seen_head = omega arith;
  seen_tail = omega arith;
  behind = omega arith;
  boundary = refl;
  within = omega arith;
  idle = refl;
  records = unfold contents in refl;
}

-- What a turn that goes on leaves.
abbrev ring_of : Turn → Ring
ring_of (goes_on at r) = r
ring_of _ = ring

abbrev half : Ring
half = ring_of (send_turn 16 frame 0 ring)

half_sent : send_turn 16 frame 0 ring ≡ goes_on 16 half
unfolding send_turn publish_chunk
half_sent = refl

half-Reach : Reach 16 frame (0, ring) (16, half)
half-Reach = later here (sends 0 16 ring half half_sent)

-- The first part is at the ring's end and its start.
half_octets : half.mem ≡ 5 ∷ 6 ∷ 7 ∷ 8 ∷ 9 ∷ 10 ∷ 11 ∷ 12 ∷ 17 ∷ 0 ∷ 0 ∷ 0 ∷ 1 ∷ 2 ∷ 3 ∷ 4 ∷ []
unfolding send_turn publish_chunk put write le_bytes
half_octets = refl

Reach-delivers_example :
    ((recv_turn 16 half).0 ≡ (if 16 == rec_size (length frame) then some frame else none))
    × ((f : List ℕ) → (recv_frame 16 half).0 ≡ some f → f ≡ frame)
Reach-delivers_example =
    Reach-delivers 16 frame ring half 16 (omega arith) ring-Holds (omega arith) half-Reach

Reach-unblocked_example :
    (at' : ℕ) × (s' : Ring) × (send_turn 16 frame 16 (recv_turn 16 half).1 ≡ goes_on at' s')
    × (16 < at')
Reach-unblocked_example =
    Reach-unblocked 16 frame ring half 16 (omega arith) ring-Holds (omega arith) half-Reach
      (omega arith)

exchange_delivers_example : exchange 16 frame 25 0 ring ≡ some frame
exchange_delivers_example =
    exchange_delivers 16 frame ring 25 (omega arith) ring-Holds (omega arith) (omega arith)

-- Two turns of both ends and one more of the consumer are enough here.
exchange_run : exchange 16 frame 3 0 ring ≡ some frame
unfolding exchange send_turn publish_chunk put write le_bytes recv_turn take_record collect advance
    copy from_le
exchange_run = refl
