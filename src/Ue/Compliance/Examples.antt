-- ===== src/Ue/Compliance/Examples.antt =====
-- A UE whose procedures are a registration and a deregistration.
use core_network_traffic_gen.Common.{ℕ, ◌≡◌, refl, ◌⊎◌, ◌↔◌, true, false}
use core_network_traffic_gen.Common.{Option, none, some, [], ◌∷◌}
use core_network_traffic_gen.Ue.NextAction.{Ue, Action}
use core_network_traffic_gen.Ue.Compliance.{
  Sent, Answer, released, message, Complaint, wanted, judged, raises, pass, fail, null, judge,
  not_accepted, validator,
}
use core_network_traffic_gen.Ue.Compliance.Ends.{IsRejected, IsGone, validator-pass}

-- What the UE sent last is all that it keeps.
abbrev ue : Ue (Option Sent)
ue = record {
  procedures = 65 ∷ 69 ∷ [];
  procedure = some 65;
  rest = some (record { name = 65; container = none });
}

-- A handler that sends its code.
abbrev act : ℕ → Action (Option Sent) Answer ℕ
act code ue msg = (some (some code, some code), ue)

abbrev challenge : Answer
challenge =
    message (record { name = 86; has_autn = true; has_cause = false; has_rejection_cause = false })

abbrev kept : Answer → Option Sent → Option (Option Sent)
kept msg s = some s

abbrev noted : Option Complaint → Option Sent → Option Sent
noted complaint s = s

-- The challenge is what the UE waits for, and its test ends all the same.
passed : validator (some (record { name = 65; container = none })) challenge ≡ judged null none
unfolding validator judge
passed = refl

-- A Security Mode Complete without a registration in it, which the network rejects.
abbrev empty_complete : Sent
empty_complete = record { name = 94; container = some (some (0 ∷ 0 ∷ [])) }

abbrev reject : Answer
reject =
    message (record { name = 68; has_autn = false; has_cause = true; has_rejection_cause = false })

rejected : validator (some empty_complete) reject ≡ judged pass none
unfolding validator judge not_accepted
rejected = refl

-- The UE's deregistration is answered by the release alone.
released_only :
    validator (some (record { name = 69; container = none })) released
    ≡ judged fail (some (wanted 70 74))
unfolding validator judge
released_only = refl

-- A cause in the Deregistration Accept: the error message reads an entry of another name.
accept_with_cause :
    validator (some (record { name = 69; container = none })) (
      message
        (record { name = 70; has_autn = false; has_cause = true; has_rejection_cause = false }))
    ≡ raises
unfolding validator judge
accept_with_cause = refl

validator-pass_example :
    (validator (some empty_complete) reject ≡ judged pass none)
    ↔ (IsRejected empty_complete reject ⊎ IsGone empty_complete reject)
validator-pass_example = validator-pass empty_complete reject
