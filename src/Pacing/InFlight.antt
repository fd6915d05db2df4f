-- ===== src/Pacing/InFlight.antt =====
-- The closed loop, `InFlight` of src/pacing.py. Every method runs under the condition's lock, so it
-- is one step; Pacing/InFlight/Waiting has the threads that wait on the condition. Times are whole
-- ticks of the clock.
pub mod Release
pub mod Expire
pub mod Limit
pub mod Waiting
mod Examples
use core_network_traffic_gen.Common.{
  ℕ, ◌+◌, ltb, leb, if◌then◌else◌, Bool, true, false, Option, none, some, List, [], ◌∷◌, length,
}
use core_network_traffic_gen.Common.Table.{lookup, insert, erase}

pub record InFlight : Type 0 where
  pub limit : ℕ
  pub timeout : ℕ
  pub started : List (ℕ × ℕ)  -- UE ID, when it started
  pub notified : ℕ  -- The waiting threads that the condition was asked to wake, all in all

-- `__init__`
abbrev pub new : ℕ → ℕ → InFlight
new limit timeout = record { limit = limit; timeout = timeout; started = []; notified = 0 }

-- What one round of `acquire`'s loop does.
pub data Acquired : Type 0 where
  has_place : InFlight → Acquired
  gave_up : Acquired
  waits : Acquired

-- A round of `while len(self.started) >= self.limit`, and the place that is taken after it.
unfoldable pub acquire_round : ℕ → Bool → ℕ → InFlight → Acquired
acquire_round ue_id stopped now s =
    if leb s.limit (length s.started)
    then (if stopped then gave_up else waits)
    else has_place (record s { started = insert ue_id now s.started })

-- `self.cond.notify(n)`
abbrev pub notify : ℕ → InFlight → InFlight
notify n s = record s { notified = s.notified + n }

unfoldable pub release : ℕ → InFlight → InFlight × Bool
release ue_id s = elim (lookup ue_id s.started) [
  | none ↦ (s, false)
  | some t ↦ (notify 1 (record s { started = erase ue_id s.started }), true)
]

-- `now - t > self.timeout`
abbrev pub is_late : ℕ → ℕ → ℕ → Bool
is_late timeout now t = ltb (t + timeout) now

-- `[u for u, t in self.started.items() if now - t > self.timeout]`
unfoldable pub late_ids : ℕ → ℕ → List (ℕ × ℕ) → List ℕ
late_ids timeout now [] = []
late_ids timeout now ((u, t) ∷ m) =
    let rest = late_ids timeout now m in if is_late timeout now t then u ∷ rest else rest

-- `for u in late: del self.started[u]`
unfoldable pub remove_all : List ℕ → List (ℕ × ℕ) → List (ℕ × ℕ)
remove_all [] m = m
remove_all (u ∷ us) m = remove_all us (erase u m)

-- `if late: self.cond.notify(len(late))` is `notify (length late)`, which adds 0 for an empty list.
unfoldable pub expire : ℕ → InFlight → InFlight × List ℕ
unfolding late_ids remove_all
expire now s =
    let late = late_ids s.timeout now s.started in
    (notify (length late) (record s { started = remove_all late s.started }), late)
