-- ===== src/Shm/Wake/Safety.antt =====
-- No wake-up of src/shmlink.py is lost, and the two ends never wait for each other.
use core_network_traffic_gen.Common.{
  ℕ, zero, suc, ◌+◌, ◌≤◌, ◌<◌, ◌≡◌, ◌≢◌, ◌⊎◌, refl, ap, arith, Bool, true, false, inl, inr,
}
use core_network_traffic_gen.Shm.Wake.{
  Producer, published, waits_room, room_armed, room_blocked, Consumer, data_armed, data_checked,
  data_blocked, Words, Step, publish, signal_data, lacks, has_room, arm_room, finds_room,
  block_room, wake_room, time_out_room, advance, check_flag, shows, arm_data, check_room,
  finds_data, block_data, wake_data, time_out_data, fresh, Reach, here, later,
}

-- The consumer has armed, and its head is seen since.
abbrev is_armed : Consumer → Bool
is_armed data_armed = true
is_armed data_checked = true
is_armed data_blocked = true
is_armed _ = false

-- The consumer has looked at the producer's flag since.
abbrev is_checked : Consumer → Bool
is_checked data_checked = true
is_checked data_blocked = true
is_checked _ = false

abbrev has_flag : Producer → Bool
has_flag room_armed = true
has_flag room_blocked = true
has_flag _ = false

abbrev is_waiting : Producer → Bool
is_waiting waits_room = true
is_waiting room_armed = true
is_waiting room_blocked = true
is_waiting _ = false

zero_or_more : (n : ℕ) → (n ≡ 0) ⊎ (0 < n)
zero_or_more zero = inl refl
zero_or_more (suc n) = inr (omega arith)

record Inv (cap : ℕ) (w : Words) : Type 0 where
  ordered : w.visible ≤ w.head
  behind : w.head ≤ w.tail
  fits : w.tail ≤ w.visible + cap
  small : is_waiting w.producer ≡ true → w.need ≤ cap
  armed : is_armed w.consumer ≡ true → w.read_waits ≡ true
  shown : is_armed w.consumer ≡ true → w.visible ≡ w.head
  flagged : has_flag w.producer ≡ true → w.write_waits ≡ true
  data_kept :
      w.consumer ≡ data_blocked → w.data_signals ≡ 0 → w.tail ≢ w.head → w.producer ≡ published
  room_kept :
      w.producer ≡ room_blocked
      → is_checked w.consumer ≡ true
      → w.room_signals ≡ 0
      → w.visible + cap < w.tail + w.need

fresh-Inv : (cap at : ℕ) → Inv cap (fresh at)
fresh-Inv cap at = ground arith

Step-Inv : {cap : ℕ} {w next : Words} → Step cap w next → Inv cap w → Inv cap next
Step-Inv (publish n p r e) v = rw e (ground arith)
Step-Inv (signal_data p e) v = rw e (ground arith)
Step-Inv (lacks n p c l e) v = rw e (ground arith)
Step-Inv (has_room p r e) v = rw e (ground arith)
Step-Inv (arm_room p e) v = rw e (ground arith)
Step-Inv (finds_room p r e) v = rw e (ground arith)
Step-Inv (block_room p l e) v = rw e (ground arith)
Step-Inv (wake_room p s e) v = rw e (ground arith)
Step-Inv (time_out_room p e) v = rw e (ground arith)
Step-Inv (advance n c l e) v = rw e (ground arith)
Step-Inv (check_flag seen c a b e) v = rw e (ground arith)
Step-Inv (shows at a b e) v = rw e (ground arith)
Step-Inv (arm_data c e) v = rw e (ground arith)
Step-Inv (check_room c e) v = rw e (ground arith)
Step-Inv (finds_data c t e) v = rw e (ground arith)
Step-Inv (block_data c t e) v = rw e (ground arith)
Step-Inv (wake_data c s e) v = rw e (ground arith)
Step-Inv (time_out_data c e) v = rw e (ground arith)

Reach-Inv : {cap at : ℕ} {w : Words} → Reach cap at w → Inv cap w
Reach-Inv {cap} {at} here = fresh-Inv cap at
Reach-Inv (later r st) = Step-Inv st (Reach-Inv r)

-- In every interleaving the consumer's poll misses no record: where it waits, no signal is left to report
-- and there is something to read, the producer has just published and is about to signal.
pub Reach-no_lost_wake :
    {cap at : ℕ} {w : Words}
    → Reach cap at w
    → w.consumer ≡ data_blocked
    → w.data_signals ≡ 0
    → w.tail ≢ w.head
    → (w.producer ≡ published) × (w.read_waits ≡ true)
Reach-no_lost_wake r c s t = let v = Reach-Inv r in (v.data_kept c s t, v.armed (ap is_armed c))

-- In every interleaving the two ends do not wait for each other: where the producer is in its poll for
-- room and the consumer in its poll for data, a signal is left that wakes one of them.
pub Reach-not_stuck :
    {cap at : ℕ} {w : Words}
    → Reach cap at w
    → w.producer ≡ room_blocked
    → w.consumer ≡ data_blocked
    → (0 < w.data_signals) ⊎ (0 < w.room_signals)
Reach-not_stuck {w = w} r p c = elim (zero_or_more w.data_signals) [
  | inr more ↦ inl more
  | inl d ↦ elim (zero_or_more w.room_signals) [
    | inr more ↦ inr more
    | inl s ↦
        let v = Reach-Inv r in
        let lacks_room = v.room_kept p (ap is_checked c) s in
        let shown = v.shown (ap is_armed c) in
        let small = v.small (ap is_waiting p) in
        let unread : w.tail ≢ w.head = λ e. omega (arith, lacks_room, shown, small, e) in
        let about_to : w.producer ≡ published = v.data_kept c d unread in cc
  ]
]

-- In every interleaving what the ring holds fits in it: the bytes between the head and the tail are at
-- most the ring's size, and the producer writes over none that is not read.
pub Reach-fits :
    {cap at : ℕ} {w : Words} → Reach cap at w → (w.head ≤ w.tail) × (w.tail ≤ w.head + cap)
Reach-fits r = let v = Reach-Inv r in (v.behind, omega (arith, v.fits, v.ordered))
