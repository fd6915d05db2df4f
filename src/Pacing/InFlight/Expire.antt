-- ===== src/Pacing/InFlight/Expire.antt =====
-- Freeing the places of the UEs that did not finish in time.
use core_network_traffic_gen.Common.{ℕ, ◌≡◌, ◌==◌, ◌||◌}
use core_network_traffic_gen.Common.{Bool, false, Option, none, some, List, [], ◌∷◌}
use core_network_traffic_gen.Pacing.InFlight.{InFlight, is_late}

abbrev pub contains : ℕ → List ℕ → Bool
contains u [] = false
contains u (v ∷ vs) = v == u || contains u vs

-- A key stands once, as in any Python dictionary.
abbrev pub has_key : ℕ → List (ℕ × ℕ) → Bool
has_key u [] = false
has_key u ((v, t) ∷ m) = v == u || has_key u m

abbrev pub IsDictionary : List (ℕ × ℕ) → Type 0
IsDictionary [] = Unit
IsDictionary ((v, t) ∷ m) = (has_key v m ≡ false) × IsDictionary m

abbrev pub started_late : ℕ → ℕ → Option ℕ → Bool
started_late timeout now none = false
started_late timeout now (some t) = is_late timeout now t
