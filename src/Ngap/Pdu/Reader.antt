-- ===== src/Ngap/Pdu/Reader.antt =====
-- An independent reader of an NGAP-PDU's fields, whatever their lengths, and that it reads back what
-- `_message` puts together.
use core_network_traffic_gen.Common.{
  ℕ, zero, suc, ◌+◌, ◌*◌, ◌/◌, ◌%◌, ◌<◌, ◌≡◌, refl, ap, ◌∙◌, arith,
}
use core_network_traffic_gen.Common.{
  Option, none, some, List, [], ◌∷◌, ◌++◌, append-nil, map, length, length-map, All,
}
use core_network_traffic_gen.Ngap.Aper.{wrap}
use core_network_traffic_gen.Ngap.Aper.Fragments.{unwrap, unwrap-wrap_all}
use core_network_traffic_gen.Ngap.Pdu.{two_octets, ie, join, message}

pub record Field : Type 0 where
  pub ie_id : ℕ
  pub crit : ℕ
  pub value : List ℕ

abbrev pub field_bytes : Field → List ℕ
field_bytes f = ie f.ie_id f.crit f.value

-- `count` fields that take all of the octets.
unfoldable pub read_fields : ℕ → List ℕ → Option (List Field)
read_fields zero [] = some []
read_fields zero (b ∷ bs) = none
read_fields (suc n) [] = none
read_fields (suc n) (a ∷ []) = none
read_fields (suc n) (a ∷ b ∷ []) = none
read_fields (suc n) (a ∷ b ∷ c ∷ bs) = elim (unwrap (length bs) bs) [
  | none ↦ none
  | some (v, rest) ↦ elim (read_fields n rest) [
    | none ↦ none
    | some fs ↦ some (record { ie_id = a * 256 + b; crit = c; value = v } ∷ fs)
  ]
]

read_body : List ℕ → Option (List Field)
unfolding read_fields
read_body (ext ∷ a ∷ b ∷ bs) = read_fields (a * 256 + b) bs
read_body _ = none

-- Nothing may be left behind the message.
with_head : List ℕ → List ℕ → Option (List Field) → Option (List ℕ × List Field)
with_head head [] (some fs) = some (head, fs)
with_head head _ _ = none

-- The PDU's choice, procedure code and criticality, and its fields.
unfoldable pub read_message : List ℕ → Option (List ℕ × List Field)
unfolding read_body with_head
read_message (a ∷ b ∷ c ∷ bs) = elim (unwrap (length bs) bs) [
  | none ↦ none
  | some (v, rest) ↦ with_head (a ∷ b ∷ c ∷ []) rest (read_body v)
]
read_message _ = none

abbrev pub IsField : Field → Type 0
IsField f = f.ie_id < 65536

read_fields_step :
    (n a b c : ℕ) (bs v rest : List ℕ) (fs : List Field)
    → unwrap (length bs) bs ≡ some (v, rest)
    → read_fields n rest ≡ some fs
    → read_fields (suc n) (a ∷ b ∷ c ∷ bs)
      ≡ some (record { ie_id = a * 256 + b; crit = c; value = v } ∷ fs)
unfolding read_fields
read_fields_step n a b c bs v rest fs e h = ground arith

read_fields-join :
    (fs : List Field)
    → All IsField fs
    → read_fields (length fs) (join (map field_bytes fs)) ≡ some fs
unfolding ie
read_fields-join [] h = unfold read_fields in refl
read_fields-join (f ∷ fs) (hf, h) =
    let rest = join (map field_bytes fs) in
    let same : f.ie_id / 256 * 256 + f.ie_id % 256 ≡ f.ie_id = omega arith in
    read_fields_step (length fs) (f.ie_id / 256) (f.ie_id % 256) f.crit (wrap f.value ++ rest)
      f.value rest fs (unwrap-wrap_all f.value rest) (read_fields-join fs h)
    ∙ ap (λ k. some (record { ie_id = k; crit = f.crit; value = f.value } ∷ fs)) same

read_message_step :
    (a b c : ℕ) (bs v : List ℕ) (fs : List Field)
    → unwrap (length bs) bs ≡ some (v, [])
    → read_body v ≡ some fs
    → read_message (a ∷ b ∷ c ∷ bs) ≡ some (a ∷ b ∷ c ∷ [], fs)
unfolding read_message
read_message_step a b c bs v fs e h = ground arith

-- A reader of the fields gets back a message's head, and its IEs' ids, criticalities and values in
-- their order, whatever their number and lengths.
pub read_message-message :
    (a b c : ℕ) (fs : List Field)
    → All IsField fs
    → length fs < 65536
    → read_message (message (a ∷ b ∷ c ∷ []) (map field_bytes fs)) ≡ some (a ∷ b ∷ c ∷ [], fs)
unfolding message read_body
read_message-message a b c fs h n =
    let ies = map field_bytes fs in
    let body = 0 ∷ (two_octets (length ies) ++ join ies) in
    let count : length ies / 256 * 256 + length ies % 256 ≡ length fs =
      omega (arith, length-map fs field_bytes) in
    read_message_step a b c (wrap body) body fs (rw append-nil at (unwrap-wrap_all body []))
      (rw count (read_fields-join fs h))
