-- ===== src/Ue/Compliance/Same.antt =====
-- Without the judgement a test is a run of procedures: next_compliance_test and next_action of src/UE.py.
use core_network_traffic_gen.Common.{ℕ, ◌≡◌, if◌then◌else◌}
use core_network_traffic_gen.Common.{true, ◌||◌, Option, none, some, All, get_elem?}
use core_network_traffic_gen.Ue.NextAction.{
  Ue, Outcome, Action, is_request, is_response, next_index,
}
use core_network_traffic_gen.Ue.Compliance.{in_octets}

-- The procedures' functions in one mapper
unfoldable pub both {ℓ} : {S M B : Type ℓ} → (ℕ → Action S M B) → ℕ → Option (Action S M B)
both act code = if is_response code || is_request code then some (act code) else none

module _ {ℓ} {S M B : Type ℓ} (act : ℕ → Action S M B) (ue : Ue S)
    (requests : All (λ p. is_request p ≡ true) ue.procedures) where
  -- A test's outcome beside that of a run of procedures: its octets, or at the end no message's name.
  pub data SameOrEnd (test action : Outcome S B) : Type ℓ where
    same : test ≡ in_octets action → SameOrEnd test action
    at_end :
        get_elem? ue.procedures (next_index ue.procedure ue.procedures) ≡ none
        → test ≡ (some (none, none), ue)
        → action ≡ (some (none, some 74), ue)
        → SameOrEnd test action
