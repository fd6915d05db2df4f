-- ===== src/Pacing/InFlight/Examples.antt =====
-- A limit of two, and UEs 7 and 8 in flight since the ticks 1 and 5.
use core_network_traffic_gen.Common.{
  ◌≤◌, ◌<◌, ◌+◌, ◌≡◌, ◌⊎◌, refl, arith, false, some, [], ◌∷◌, length,
}
use core_network_traffic_gen.Common.Table.{lookup, insert, erase}
use core_network_traffic_gen.Pacing.InFlight.{
  InFlight, new, has_place, waits, acquire_round, release, expire,
}
use core_network_traffic_gen.Pacing.InFlight.Expire.{IsDictionary}
use core_network_traffic_gen.Pacing.InFlight.Limit.{acquires, Reach-within_limit}
use core_network_traffic_gen.Pacing.InFlight.Limit as L
use core_network_traffic_gen.Pacing.InFlight.Waiting.{
  Waiting, none_waiting, after, takes, sleeps, releases, Reach, here, next, Reach-awake,
}

abbrev two : InFlight
two = record { limit = 2; timeout = 3; started = (7, 1) ∷ (8, 5) ∷ []; notified = 0 }

third_waits : acquire_round 9 false 6 two ≡ waits
unfolding acquire_round
third_waits = refl

expires_one : (expire 6 two).1 ≡ 7 ∷ []
unfolding expire
expires_one = refl

abbrev one : InFlight
one = record { limit = 1; timeout = 3; started = (7, 1) ∷ []; notified = 0 }

starts_one : acquire_round 7 false 1 (new 1 3) ≡ has_place one
unfolding acquire_round insert
starts_one = refl

Reach-within_limit_example : (length one.started ≤ 1) × IsDictionary one.started
Reach-within_limit_example =
    Reach-within_limit 1 3 one (L.next L.here (acquires 7 1 false (new 1 3) one starts_one))

-- UE 7 has the one place, a thread waits for UE 8, and 7 is released.
abbrev first_taken : Waiting
first_taken = record (none_waiting 1 3) { places = one }

abbrev second_waits : Waiting
second_waits = record first_taken { asleep = 1 }

abbrev place_freed : Waiting
place_freed = after (release 7 second_waits.places).0 second_waits

place_freed-Reach : Reach (none_waiting 1 3) place_freed
unfolding lookup acquire_round
place_freed-Reach =
    next
      (next (next here (takes 7 1 false (none_waiting 1 3) one refl starts_one))
        (sleeps 8 2 false first_taken refl))
      (releases 7 second_waits)

Reach-awake_example :
    (0 < place_freed.woken)
    × ((place_freed.asleep ≡ 0) ⊎ (1 ≤ length place_freed.places.started + place_freed.woken))
    × (t : InFlight) × (acquire_round 8 false 4 place_freed.places ≡ has_place t)
    × (lookup 8 t.started ≡ some 4)
    × (length t.started ≤ 1)
Reach-awake_example =
    Reach-awake 1 3 8 4 false place_freed place_freed-Reach
      (unfold release lookup erase in omega arith) (unfold release lookup erase in omega arith)
      (unfold release lookup erase in refl)
