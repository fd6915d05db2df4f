-- ===== src/Shm/Wake/Examples.antt =====
-- A ring of 16 bytes that is filled and read again, with both ends in their polls.
use core_network_traffic_gen.Common.{◌+◌, ◌≤◌, ◌<◌, ◌≡◌, ◌⊎◌, refl, arith, true}
use core_network_traffic_gen.Shm.Wake.{
  published, room_blocked, data_blocked, Words, publish, signal_data, lacks, arm_room, block_room,
  advance, check_flag, arm_data, check_room, block_data, fresh, Reach, here, later,
}
use core_network_traffic_gen.Shm.Wake.Safety.{Reach-no_lost_wake, Reach-not_stuck, Reach-fits}

-- The producer has filled the ring and waits for 8 bytes.
abbrev full : Words
full = record (fresh 0) { tail = 16; need = 8; write_waits = true; producer = room_blocked }

full-Reach : Reach 16 0 full
full-Reach =
    later
      (later
        (later (later (later here (publish 16 refl (omega arith) refl)) (signal_data refl refl))
          (lacks 8 refl (omega arith) (omega arith) refl))
        (arm_room refl refl))
      (block_room refl (omega arith) refl)

-- The consumer has read all of it, and waits too.
abbrev both_wait : Words
both_wait = record full {
  head = 16;
  visible = 16;
  read_waits = true;
  room_signals = 2;
  consumer = data_blocked;
}

both_wait-Reach : Reach 16 0 both_wait
both_wait-Reach =
    later
      (later
        (later
          (later (later full-Reach (advance 16 refl (omega arith) refl))
            (check_flag 16 refl (omega arith) (omega arith) refl))
          (arm_data refl refl))
        (check_room refl refl))
      (block_data refl refl refl)

Reach-not_stuck_example : (0 < both_wait.data_signals) ⊎ (0 < both_wait.room_signals)
Reach-not_stuck_example = Reach-not_stuck both_wait-Reach refl refl

Reach-fits_example : (both_wait.head ≤ both_wait.tail) × (both_wait.tail ≤ both_wait.head + 16)
Reach-fits_example = Reach-fits both_wait-Reach

-- The consumer waits on an empty ring, and a record is published.
abbrev just_published : Words
just_published = record (fresh 0) {
  tail = 8;
  read_waits = true;
  producer = published;
  consumer = data_blocked;
}

just_published-Reach : Reach 16 0 just_published
just_published-Reach =
    later
      (later (later (later here (arm_data refl refl)) (check_room refl refl))
        (block_data refl refl refl))
      (publish 8 refl (omega arith) refl)

Reach-no_lost_wake_example :
    (just_published.producer ≡ published) × (just_published.read_waits ≡ true)
Reach-no_lost_wake_example =
    Reach-no_lost_wake just_published-Reach refl refl (λ e. omega (arith, e))
