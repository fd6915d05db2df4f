-- ===== src/Ue/Order.antt =====
-- The order of a UE's procedures: UE.next_action of src/UE.py.
use core_network_traffic_gen.Common.{
  ℕ, suc, ◌≡◌, refl, ap, ◌∙◌, arith, ◌==◌, ==_refl, if◌then◌else◌, get_elem?,
}
use core_network_traffic_gen.Common.{Bool, true, false, none, some, List, [], ◌∷◌, ◌++◌}
use core_network_traffic_gen.Ue.NextAction.{
  Ue, Action, is_request, is_response, index, next_index, next_request, next_action,
}

-- Whether a code is among those of a list
abbrev pub among : ℕ → List ℕ → Bool
among x [] = false
among x (y ∷ ys) = if y == x then true else among x ys

index-first :
    (x : ℕ) (before behind : List ℕ)
    → among x before ≡ false
    → (i : ℕ) × ((index x (before ++ (x ∷ behind)) ≡ some i)
        × (get_elem? (before ++ (x ∷ behind)) (suc i) ≡ get_elem? behind 0))
unfolding index
index-first x [] behind fresh = (0, (rw (==_refl x) refl, refl))
index-first x (y ∷ ys) behind fresh =
    let rest = index-first x ys behind (ground arith) in
    let apart : (y == x) ≡ false = ground arith in
    let found = rest.1.0 in
    (
      suc rest.0,
      (rw apart (ap (λ o. elim o [ none ↦ none | some i ↦ some (suc i) ]) found), rest.1.1),
    )

-- A UE at a procedure p, which stands once before q, sends the request of q next and is at q then, where
-- the message that it got has no handler of its own.
pub next_action-order {ℓ} :
    {S M B : Type ℓ} (act : ℕ → Action S M B) (ue : Ue S) (msg : M) (code p q : ℕ)
    (before behind : List ℕ)
    → ue.procedures ≡ before ++ (p ∷ q ∷ behind)
    → ue.procedure ≡ some p
    → among p before ≡ false
    → is_response code ≡ false
    → is_request q ≡ true
    → next_action act ue (some msg) (some code)
      ≡ act q (record ue { procedure = some q }) (some msg)
unfolding next_action next_request
next_action-order act ue msg code p q before behind all here fresh other request =
    let place = index-first p before (q ∷ behind) fresh in
    let found = place.1.0 in
    let next : get_elem? ue.procedures (next_index ue.procedure ue.procedures) ≡ some q =
      ap (λ procedures. get_elem? procedures (next_index ue.procedure procedures)) all
      ∙ ap (λ o. get_elem? (before ++ (p ∷ q ∷ behind)) (next_index o (before ++ (p ∷ q ∷ behind))))
          here
      ∙ ap (λ o. get_elem? (before ++ (p ∷ q ∷ behind)) (elim o [ none ↦ 0 | some i ↦ suc i ]))
          found
      ∙ place.1.1 in
    rw other (
      ap
        (λ o. elim o [
          | none ↦ (some (none, some 74), ue)
          | some c ↦
              if is_request c
              then act c (record ue { procedure = some c }) (some msg)
              else (none, ue)
        ])
        next
      ∙ rw request refl)
