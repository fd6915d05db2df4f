-- ===== src/UeSim/State.antt =====
-- What src/UESim.py's UESim keeps, and the counts of UEs by the message they were at last. The counts
-- are C ints shared by the processes, given by their 32 bits; procedures_count, which is never read, is
-- left out.
use core_network_traffic_gen.Common.{ℕ, ◌+◌, ◌-◌, ◌%◌, ◌^◌, ◌==◌, if◌then◌else◌, Option, List}
use core_network_traffic_gen.Common.Table.{insert}
use core_network_traffic_gen.Pacing.InFlight.{InFlight}
use core_network_traffic_gen.Ue.NextAction.{Ue}
use core_network_traffic_gen.Ue.State.{Emulated, set_procedure}

-- The UEs by their id, which is int(supi[-10:]), so that storing a UE again changes nothing but itself;
-- the counts; and the places of the closed loop, if there is one.
pub record Sim : Type 0 where
  pub ues : List (ℕ × Ue Emulated)
  pub states : ℕ → ℕ
  pub inflight : Option InFlight

-- An event on the link: its kind, UE, payload and message code.
pub data Output : Type 0 where
  send : (kind ue_id : ℕ) (payload : List ℕ) (code : ℕ) → Output

abbrev pub fgmm_min_type : ℕ
fgmm_min_type = 65

-- `states[i] += 1` and `states[i] -= 1` of a C int
abbrev pub increment : ℕ → (ℕ → ℕ) → ℕ → ℕ
increment i states j = if i == j then (states j + 1) % 2 ^ 32 else states j

abbrev pub decrement : ℕ → (ℕ → ℕ) → ℕ → ℕ
decrement i states j = if i == j then (states j + (2 ^ 32 - 1)) % 2 ^ 32 else states j

abbrev pub store : ℕ → Ue Emulated → Sim → Sim
store ue_id ue sim = record sim { ues = insert ue_id ue sim.ues }

abbrev pub set_time : ℕ → ℕ → Ue Emulated → Ue Emulated
set_time code at ue = record ue { rest = set_procedure code at ue.rest }

-- The UE goes from its current message to the one with this code, and the counts with it.
unfoldable pub move : ℕ → ℕ → Ue Emulated → Sim → Sim
move ue_id code ue sim =
    let at = code - fgmm_min_type in
    record (store ue_id (record ue { rest = record ue.rest { current_procedure = at } }) sim) {
      states = increment at (decrement ue.rest.current_procedure sim.states);
    }
