-- ===== src/Ue/Compliance/Ends.antt =====
-- What passes a test: validator of src/UE.py.
use core_network_traffic_gen.Common.{ℕ, ◌≡◌, refl, arith, ◌⊎◌, ◌↔◌, inl, inr, true}
use core_network_traffic_gen.Common.{Option, none, some, List, [], ◌∷◌}
use core_network_traffic_gen.Ue.Compliance.{
  Sent, Answer, released, terminated, message, Complaint, pass, judged, judge, validator,
  not_accepted, is_zero_pair,
}

-- The UE sent a Security Mode Complete without a registration in it, and got a Registration Reject.
abbrev pub IsRejected : Sent → Answer → Type 0
IsRejected sent released = ⊥
IsRejected sent terminated = ⊥
IsRejected sent (message m) =
    (sent.name ≡ 94) × (sent.container ≡ some (some (0 ∷ 0 ∷ []))) × (m.name ≡ 68)

-- The UE sent a Deregistration Accept, and the connection was released.
abbrev pub IsGone : Sent → Answer → Type 0
IsGone sent released = sent.name ≡ 70
IsGone sent terminated = ⊥
IsGone sent (message m) = (sent.name ≡ 70) × (m.name ≡ 74)

zero_pair : (v : Option (List ℕ)) → is_zero_pair v ≡ true → v ≡ some (0 ∷ 0 ∷ [])
zero_pair none h = absurd (ground arith)
zero_pair (some []) h = absurd (ground arith)
zero_pair (some (a ∷ [])) h = absurd (ground arith)
zero_pair (some (a ∷ b ∷ [])) h = ground arith
zero_pair (some (a ∷ b ∷ c ∷ r)) h = absurd (ground arith)

not_accepted-pass :
    (v : Option (Option (List ℕ))) (got : ℕ) (c : Option Complaint)
    → not_accepted v got ≡ judged pass c
    → (c ≡ none) × (v ≡ some (some (0 ∷ 0 ∷ []))) × (got ≡ 68)
unfolding not_accepted
not_accepted-pass none got c h = absurd (ground arith)
not_accepted-pass (some v) got c h = ground (arith, zero_pair v)

judge-pass :
    (sent : Sent) (got : ℕ) (answer : Answer) (c : Option Complaint)
    → judge sent got answer ≡ judged pass c
    → ((sent.name ≡ 94) × (sent.container ≡ some (some (0 ∷ 0 ∷ []))) × (got ≡ 68))
      ⊎ ((sent.name ≡ 70) × (got ≡ 74))
unfolding judge
judge-pass sent got answer c e = ground (arith, not_accepted-pass sent.container got c)

judge_rejected :
    (sent : Sent) (got : ℕ) (answer : Answer)
    → sent.name ≡ 94
    → sent.container ≡ some (some (0 ∷ 0 ∷ []))
    → got ≡ 68
    → judge sent got answer ≡ judged pass none
unfolding judge not_accepted
judge_rejected sent got answer n v m = rw (judge, n, v, m, not_accepted) refl

judge_gone :
    (sent : Sent) (got : ℕ) (answer : Answer)
    → sent.name ≡ 70
    → got ≡ 74
    → judge sent got answer ≡ judged pass none
unfolding judge
judge_gone sent got answer n m = rw (judge, n, m) refl

passes :
    (sent : Sent) (answer : Answer) (c : Option Complaint)
    → validator (some sent) answer ≡ judged pass c
    → IsRejected sent answer ⊎ IsGone sent answer
unfolding validator
passes sent released c h = ground (arith, judge-pass sent 74 released c h)
passes sent terminated c h = absurd (ground arith)
passes sent (message m) c h = judge-pass sent m.name (message m) c h

pass_for :
    (sent : Sent) (answer : Answer)
    → IsRejected sent answer ⊎ IsGone sent answer
    → validator (some sent) answer ≡ judged pass none
unfolding validator
pass_for sent released (inl h) = absurd h
pass_for sent released (inr h) = judge_gone sent 74 released h refl
pass_for sent terminated (inl h) = absurd h
pass_for sent terminated (inr h) = absurd h
pass_for sent (message m) (inl h) = judge_rejected sent m.name (message m) h.0 h.1 h.2
pass_for sent (message m) (inr h) = judge_gone sent m.name (message m) h.0 h.1

-- validator passes a test exactly where a Registration Reject answers a Security Mode Complete whose
-- NASContainer is two octets 0, or where the connection is released after a Deregistration Accept of the UE.
pub validator-pass :
    (sent : Sent) (answer : Answer)
    → (validator (some sent) answer ≡ judged pass none)
      ↔ (IsRejected sent answer ⊎ IsGone sent answer)
validator-pass sent answer = (passes sent answer none, pass_for sent answer)
