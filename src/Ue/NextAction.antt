-- ===== src/Ue/NextAction.antt =====
-- UE.next_action of src/UE.py, below verbosity 3. The functions of request_mapper and response_mapper
-- are an argument, as are the messages; a message's name is its code in fg_msg_names of
-- src/UEUtils.py.
use core_network_traffic_gen.Common.{ℕ, suc, ◌==◌, if◌then◌else◌, get_elem?}
use core_network_traffic_gen.Common.{Bool, ◌||◌, Option, none, some, List, [], ◌∷◌}

-- `request_mapper`'s keys
abbrev pub is_request : ℕ → Bool
is_request code = code == 65 || code == 193 || code == 69 || code == 196

-- `response_mapper`'s keys
abbrev pub is_response : ℕ → Bool
is_response code =
    code == 86 || code == 66 || code == 84 || code == 194 || code == 93 || code == 70 || code == 74

-- A UE's procedures, the one that it is at, and the rest of it
pub record Ue {ℓ} (S : Type ℓ) : Type ℓ where
  pub procedures : List ℕ
  pub procedure : Option ℕ
  pub rest : S

-- `list.index`, at its first place
unfoldable pub index : ℕ → List ℕ → Option ℕ
index x [] = none
index x (y ∷ ys) =
    let behind = index x ys in
    if y == x then some 0 else elim behind [ none ↦ none | some i ↦ some (suc i) ]

-- `idx + 1`, with an idx of -1 for a procedure that is not among the UE's
abbrev pub next_index : Option ℕ → List ℕ → ℕ
next_index none procedures = 0
next_index (some p) procedures = elim (index p procedures) [ none ↦ 0 | some i ↦ suc i ]

-- What a handler gives: the message sent and its code, none for one that it has not, or an exception;
-- and the UE, which it may have changed before the exception.
abbrev pub Outcome {ℓ} : Type ℓ → Type ℓ → Type ℓ
Outcome S B = Option (Option B × Option ℕ) × Ue S

abbrev pub Action {ℓ} : Type ℓ → Type ℓ → Type ℓ → Type ℓ
Action S M B = Ue S → Option M → Outcome S B

module _ {ℓ} {S : Type ℓ} {M : Type ℓ} {B : Type ℓ} where
  -- The answer to a message with a handler, or else the next request, which becomes the procedure; after
  -- the last one the UE tells of the release of its connection.
  unfoldable pub next_request : (ℕ → Action S M B) → Ue S → Option M → Outcome S B
  next_request act ue msg = elim (get_elem? ue.procedures (next_index ue.procedure ue.procedures)) [
    | none ↦ (some (none, some 74), ue)
    | some p ↦ if is_request p then act p (record ue { procedure = some p }) msg else (none, ue)
  ]

  unfoldable pub next_action : (ℕ → Action S M B) → Ue S → Option M → Option ℕ → Outcome S B
  unfolding next_request
  next_action act ue none msg_type = next_request act ue none
  next_action act ue (some msg) none = next_request act ue (some msg)
  next_action act ue (some msg) (some code) =
      if is_response code then act code ue (some msg) else next_request act ue (some msg)
