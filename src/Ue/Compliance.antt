-- ===== src/Ue/Compliance.antt =====
-- The compliance tests of src/UE.py: validator, which judges a message by what the UE sent last, and
-- UE.next_compliance_test. A message's name is its code in fg_msg_names of src/UEUtils.py.
mod Same
mod Ends
mod Examples
use core_network_traffic_gen.Common.{ℕ, ◌==◌, if◌then◌else◌, get_elem?}
use core_network_traffic_gen.Common.{Bool, false, Option, none, some, List, [], ◌∷◌}
use core_network_traffic_gen.Ue.NextAction.{Ue, Outcome, Action, next_index}

-- What validator looks at of the UE's last message: its name, and its NASContainer with the V there.
pub record Sent : Type 0 where
  pub name : ℕ
  pub container : Option (Option (List ℕ))

-- What it looks at of the answer: whether the dictionary has these entries.
pub record Content : Type 0 where
  pub name : ℕ
  pub has_autn : Bool
  pub has_cause : Bool
  pub has_rejection_cause : Bool

-- `b'F'`, `b'0'` and a message
pub data Answer : Type 0 where
  released : Answer
  terminated : Answer
  message : Content → Answer

-- The error messages, the third with the names wanted and got.
pub data Complaint : Type 0 where
  no_answer : Complaint
  no_autn : Complaint
  wanted : ℕ → ℕ → Complaint
  has_cause : Complaint

-- FGMMState's values that validator returns
pub data Verdict : Type 0 where
  null : Verdict
  no_response : Verdict
  fail : Verdict
  pass : Verdict

-- What a call of validator comes to: an exception, None, or a state with an error message.
pub data Judgement : Type 0 where
  raises : Judgement
  unparsed : Judgement
  judged : Verdict → Option Complaint → Judgement

abbrev pub unless : ℕ → ℕ → Judgement → Judgement
unless expected got otherwise =
    if got == expected then otherwise else judged fail (some (wanted expected got))

-- `V` is `b'\x00\x00'`; a V that is None or empty is not.
abbrev pub is_zero_pair : Option (List ℕ) → Bool
is_zero_pair (some (a ∷ b ∷ [])) = if a == 0 then b == 0 else false
is_zero_pair _ = false

-- A Security Mode Complete whose answer is not a Registration Accept.
unfoldable pub not_accepted : Option (Option (List ℕ)) → ℕ → Judgement
not_accepted none got = raises
not_accepted (some v) got =
    if is_zero_pair v then unless 68 got (judged pass none) else judged fail (some (wanted 66 got))

-- The entries of an answer; `b'F'` has none.
abbrev pub flag_of : (Content → Bool) → Answer → Bool
flag_of f (message m) = f m
flag_of f _ = false

-- By the name of the message sent, with the name of the answer.
unfoldable pub judge : Sent → ℕ → Answer → Judgement
judge sent got answer =
    if sent.name == 65
    then unless 86 got
        (if flag_of (λ m. m.has_autn) answer then judged null none else judged fail (some no_autn))
    else if sent.name == 87
    then unless 93 got (judged null none)
    else if sent.name == 94
    then (if got == 66 then judged null none else not_accepted sent.container got)
    else if sent.name == 69
    then unless 70 got (
        if flag_of (λ m. m.has_cause) answer
        then (if flag_of (λ m. m.has_rejection_cause) answer
            then judged fail (some has_cause)
            else raises)
        else judged null none)
    else if got == 74
    then (if sent.name == 70 then judged pass none else judged fail (some (wanted 70 74)))
    else judged null none

unfoldable pub validator : Option Sent → Answer → Judgement
validator none answer = unparsed
validator (some sent) released = judge sent 74 released
validator (some sent) terminated = judged no_response (some no_answer)
validator (some sent) (message m) = judge sent m.name (message m)

module _ {ℓ} {S : Type ℓ} {B : Type ℓ} where
  -- The end of a test unless validator raises an exception, as no state is None; a call that returns
  -- None cannot be unpacked. `noted` keeps the error message.
  abbrev pub settled : (Option Complaint → S → S) → Judgement → Ue S → Outcome S B
  settled noted raises ue = (none, ue)
  settled noted unparsed ue = (none, ue)
  settled noted (judged verdict complaint) ue =
      (some (none, none), record ue { rest = noted complaint ue.rest })

  -- `Msg.to_bytes() if Msg != None else None` of what a handler gives: the octets of a transmission (196)
  -- have no to_bytes.
  abbrev pub in_octets : Outcome S B → Outcome S B
  in_octets (some (some b, some code), ue) =
      if code == 196 then (none, ue) else (some (some b, some code), ue)
  in_octets (some (some b, none), ue) = (some (some b, none), ue)
  in_octets (some (none, sent), ue) = (some (none, sent), ue)
  in_octets (none, ue) = (none, ue)

-- validator with what it reads of the UE's last message and of the answer; `none` of the answer is an
-- exception of get_val_d.
abbrev pub validated : Option Sent → Option Answer → Judgement
validated none answer = unparsed
validated (some sent) none = raises
validated (some sent) (some answer) = validator (some sent) answer

module _ {ℓ} {S : Type ℓ} {M : Type ℓ} {B : Type ℓ} (mapper : ℕ → Option (Action S M B)) where
  -- The next test of the UE's procedures.
  unfoldable pub next_test : Ue S → Option M → Outcome S B
  next_test ue msg = elim (get_elem? ue.procedures (next_index ue.procedure ue.procedures)) [
    | none ↦ (some (none, none), ue)
    | some p ↦ elim (mapper p) [
      | none ↦ (none, ue)
      | some action ↦ in_octets (action (record ue { procedure = some p }) msg)
    ]
  ]

  -- The answer to a message with a handler, or else the next test.
  unfoldable pub answer_test : Ue S → Option M → Option ℕ → Outcome S B
  answer_test ue none msg_type = next_test ue none
  answer_test ue (some msg) none = next_test ue (some msg)
  answer_test ue (some msg) (some code) = elim (mapper code) [
    | none ↦ next_test ue (some msg)
    | some action ↦ in_octets (action ue (some msg))
  ]

  -- `kept` keeps the octets of the message, which a `b'0'` has not.
  module _ (sent_of : S → Option Sent) (answer_of : M → Option Answer) (kept : M → S → Option S)
      (noted : Option Complaint → S → S) where
    unfoldable pub next_compliance_test : Bool → Ue S → Option M → Option ℕ → Outcome S B
    next_compliance_test verbose ue none msg_type = answer_test ue none msg_type
    next_compliance_test verbose ue (some msg) msg_type =
        if verbose
        then elim (kept msg ue.rest) [
          | none ↦ (none, ue)
          | some s ↦
              settled noted (validated (sent_of ue.rest) (answer_of msg)) (record ue { rest = s })
        ]
        else answer_test ue (some msg) msg_type
