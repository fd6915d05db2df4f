-- ===== src/Shm/Wake.antt =====
-- How the two ends of a ring of src/shmlink.py wait for each other: send_frame's publication and flag
-- check, `_wait_room`, `_advance`, `_wait_data` with `_arm`, `_after_fence`, `_ready` and `_disarm`.
-- Every access to a shared word is a step of its own. x86-64 may let a store be seen late: the
-- consumer's head, which no fence follows, has the value the producer sees beside it; the other
-- stores are followed by a fence before the read that matters. One sender is in its send at a time, its
-- flag check included, as UESim's send_lock makes it; the read of a flag and the write to its eventfd
-- are one step. A link's end, with LinkStopped and LinkClosed, is not modelled here.
pub mod Safety
mod Examples
use core_network_traffic_gen.Common.{
  ℕ, ◌+◌, ◌-◌, ◌/◌, ◌≤◌, ◌<◌, ◌≡◌, ◌≢◌, leb, if◌then◌else◌, Bool, true, false, ◌&&◌,
}

-- Where the producer is: between sends; with a record published whose flag check is to come; in
-- _wait_room's loop; there with its flag set; in its poll.
pub data Producer : Type 0 where
  writing published waits_room room_armed room_blocked : Producer

-- Where the consumer is: between receives; with its head moved and the flag check to come; armed, after
-- the fence; there, with the producer's flag checked; in its poll.
pub data Consumer : Type 0 where
  reading advanced data_armed data_checked data_blocked : Consumer

-- `visible` is the head as the producer sees it; the signals are those that a poll has not reported; `need`
-- is the room that the producer waits for.
pub record Words : Type 0 where
  pub tail : ℕ
  pub head : ℕ
  pub visible : ℕ
  pub read_waits : Bool
  pub write_waits : Bool
  pub data_signals : ℕ
  pub room_signals : ℕ
  pub need : ℕ
  pub producer : Producer
  pub consumer : Consumer

abbrev pub signal : Bool → ℕ → ℕ
signal flag n = if flag then n + 1 else n

-- Room for n bytes, and the lack of it, as the producer sees it
abbrev pub HasRoom : ℕ → ℕ → Words → Type 0
HasRoom cap n w = w.tail + n ≤ w.visible + cap

abbrev pub LacksRoom : ℕ → ℕ → Words → Type 0
LacksRoom cap n w = w.visible + cap < w.tail + n

pub data Step (cap : ℕ) (w next : Words) : Type 0 where
  -- the producer: a record's bytes and the tail, then the fence of the lock's release and the check
  publish :
      (n : ℕ)
      → w.producer ≡ writing
      → HasRoom cap n w
      → next ≡ record w { tail = w.tail + n; producer = published }
      → Step cap w next
  signal_data :
      w.producer ≡ published
      → next ≡ record w { data_signals = signal w.read_waits w.data_signals; producer = writing }
      → Step cap w next
  -- `_wait_room`: the head again, then the flag, a fence, and the head again
  lacks :
      (n : ℕ)
      → w.producer ≡ writing
      → n ≤ cap
      → LacksRoom cap n w
      → next ≡ record w { need = n; producer = waits_room }
      → Step cap w next
  has_room :
      w.producer ≡ waits_room
      → HasRoom cap w.need w
      → next ≡ record w { producer = writing }
      → Step cap w next
  arm_room :
      w.producer ≡ waits_room
      → next ≡ record w { write_waits = true; producer = room_armed }
      → Step cap w next
  finds_room :
      w.producer ≡ room_armed
      → HasRoom cap w.need w
      → next ≡ record w { write_waits = false; producer = waits_room }
      → Step cap w next
  block_room :
      w.producer ≡ room_armed
      → LacksRoom cap w.need w
      → next ≡ record w { producer = room_blocked }
      → Step cap w next
  wake_room :
      w.producer ≡ room_blocked
      → 0 < w.room_signals
      → next ≡ record w { room_signals = 0; write_waits = false; producer = waits_room }
      → Step cap w next
  time_out_room :
      w.producer ≡ room_blocked
      → next ≡ record w { write_waits = false; producer = waits_room }
      → Step cap w next
  -- the consumer: a record is taken and the head moved, then the flag checked, with the tail it saw
  advance :
      (n : ℕ)
      → w.consumer ≡ reading
      → w.head + n ≤ w.tail
      → next ≡ record w { head = w.head + n; consumer = advanced }
      → Step cap w next
  check_flag :
      (seen : ℕ)
      → w.consumer ≡ advanced
      → w.head ≤ seen
      → seen ≤ w.tail
      → next ≡ record w {
        room_signals = signal (w.write_waits && leb (seen - w.head) (cap / 2)) w.room_signals;
        consumer = reading;
      }
      → Step cap w next
  -- a store of the head comes to be seen
  shows :
      (at : ℕ) → w.visible ≤ at → at ≤ w.head → next ≡ record w { visible = at } → Step cap w next
  -- `_wait_data`: the flag and a fence, which shows the head; the producer's flag; the tail
  arm_data :
      w.consumer ≡ reading
      → next ≡ record w { read_waits = true; visible = w.head; consumer = data_armed }
      → Step cap w next
  check_room :
      w.consumer ≡ data_armed
      → next
        ≡ record w { room_signals = signal w.write_waits w.room_signals; consumer = data_checked }
      → Step cap w next
  finds_data :
      w.consumer ≡ data_checked
      → w.tail ≢ w.head
      → next ≡ record w { read_waits = false; consumer = reading }
      → Step cap w next
  block_data :
      w.consumer ≡ data_checked
      → w.tail ≡ w.head
      → next ≡ record w { consumer = data_blocked }
      → Step cap w next
  wake_data :
      w.consumer ≡ data_blocked
      → 0 < w.data_signals
      → next ≡ record w { data_signals = 0; read_waits = false; consumer = reading }
      → Step cap w next
  time_out_data :
      w.consumer ≡ data_blocked
      → next ≡ record w { read_waits = false; consumer = reading }
      → Step cap w next

-- An empty ring whose ends have not waited yet
abbrev pub fresh : ℕ → Words
fresh at = record {
  tail = at;
  head = at;
  visible = at;
  read_waits = false;
  write_waits = false;
  data_signals = 0;
  room_signals = 0;
  need = 0;
  producer = writing;
  consumer = reading;
}

pub data Reach (cap at : ℕ) : Words → Type 0 where
  here : Reach cap at (fresh at)
  later : {w next : Words} → Reach cap at w → Step cap w next → Reach cap at next
