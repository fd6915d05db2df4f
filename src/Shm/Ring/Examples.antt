-- ===== src/Shm/Ring/Examples.antt =====
-- A ring of 64 octets near its end: a frame of eight octets is sent, goes on at the ring's start, and is
-- received.
use core_network_traffic_gen.Common.{
  ℕ, ◌≡◌, refl, arith, some, List, [], ◌∷◌, ◌++◌, replicate, false, inl,
}
use core_network_traffic_gen.Common.Bytes.{le_bytes, from_le}
use core_network_traffic_gen.Shm.Memory.{contents, put, write}
use core_network_traffic_gen.Shm.Read.{copy}
use core_network_traffic_gen.Shm.Ring.{Ring, new_ring, sent, send_frame, recv_frame}
use core_network_traffic_gen.Shm.Ring.Fifo.{Holds}
use core_network_traffic_gen.Shm.Ring.Runs.{sends, receives, Run, done, then, Queue, run-Queue}

abbrev frame : List ℕ
frame = 1 ∷ 2 ∷ 3 ∷ 4 ∷ 5 ∷ 6 ∷ 7 ∷ 8 ∷ []

-- Both ends at 120, the octet 56 of the ring.
abbrev empty : Ring
empty = new_ring 120 (replicate 64 0)

empty-Holds : Holds 64 [] empty
empty-Holds = record {
  size = refl;
  whole = refl;
  large = omega arith;
  aligned_head = refl;
  aligned_tail = refl;
  seen_head = omega arith;
  seen_tail = omega arith;
  behind = omega arith;
  boundary = refl;
  within = omega arith;
  idle = refl;
  records = unfold contents in refl;
}

abbrev filled : Ring
filled = record empty {
  mem = (5 ∷ 6 ∷ 7 ∷ 8 ∷ []) ++ (replicate 52 0 ++ (8 ∷ 0 ∷ 0 ∷ 0 ∷ 1 ∷ 2 ∷ 3 ∷ 4 ∷ []));
  tail = 136;
}

send_frame_filled : send_frame 64 false frame empty ≡ sent filled
unfolding send_frame put write le_bytes
send_frame_filled = refl

filled-Holds : Holds 64 (frame ∷ []) filled
filled-Holds = record {
  size = refl;
  whole = refl;
  large = omega arith;
  aligned_head = refl;
  aligned_tail = refl;
  seen_head = omega arith;
  seen_tail = omega arith;
  behind = omega arith;
  boundary = inl refl;
  within = omega arith;
  idle = refl;
  records = (0 ∷ 0 ∷ 0 ∷ 0 ∷ [], [], refl, unfold contents le_bytes in refl, refl);
}

abbrev drained : Ring
drained = record filled { head = 136; in_tail = 136 }

recv_frame-drained : recv_frame 64 filled ≡ (some frame, drained)
unfolding recv_frame from_le copy
recv_frame-drained = refl

send_then_receive : Run 64 empty (frame ∷ []) (frame ∷ []) drained
send_then_receive =
    then empty filled drained (frame ∷ []) [] [] (frame ∷ [])
      (sends empty filled frame send_frame_filled)
      (then filled drained drained [] (frame ∷ []) [] []
        (receives filled drained frame recv_frame-drained) (done drained))

run-Queue_example : Queue 64 [] (frame ∷ []) (frame ∷ []) drained
run-Queue_example =
    run-Queue 64 [] (frame ∷ []) (frame ∷ []) empty drained (omega arith) empty-Holds
      send_then_receive
