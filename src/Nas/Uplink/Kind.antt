-- ===== src/Nas/Uplink/Kind.antt =====
-- Which event a UE's message is sent as: a CONNECT for the Registration Request, UL_NAS for every other
-- message (`is_plain_registration_request` of src/ranlink.py, of what src/nasfast.py builds).
use core_network_traffic_gen.Common.{ℕ, ◌%◌, ◌≡◌, refl, arith, ◌==◌, Bool-cases, inl, inr}
use core_network_traffic_gen.Common.{
  Bool, true, false, ◌&&◌, Option, none, some, List, [], ◌∷◌, length,
}
use core_network_traffic_gen.RanLink.Payload.{is_plain_registration_request}
use core_network_traffic_gen.Nas.Protect.{Algorithms, Security, apply, protect, protected, count_of}
use core_network_traffic_gen.Nas.Protect.Receive.{parts}
use core_network_traffic_gen.Nas.Uplink.{
  Subscriber, registration_request, authentication_response, security_mode_complete,
  mo_deregistration_request, ul_nas_transport_pdu_session_establishment_request,
}

-- What the header of a message says, where the message is built.
abbrev pub Says : Bool → Option (List ℕ) → Type 0
Says b none = Unit
Says b (some m) = is_plain_registration_request m ≡ b

says :
    (b : Bool) (built : Option (List ℕ))
    → ((m : List ℕ) → built ≡ some m → is_plain_registration_request m ≡ b)
    → Says b built
says b none f = tt
says b (some m) f = f m refl

-- The Registration Request is one by its header; no other message that is built is.
pub is_plain_registration_request-built :
    (encode_bcd : List ℕ → List ℕ) (u : Subscriber) (res : List ℕ)
    → Says true (registration_request encode_bcd u)
      × Says false (authentication_response res)
      × Says false (security_mode_complete encode_bcd u)
      × Says false (mo_deregistration_request encode_bcd u)
      × Says false (ul_nas_transport_pdu_session_establishment_request u)
unfolding registration_request security_mode_complete mo_deregistration_request
    ul_nas_transport_pdu_session_establishment_request is_plain_registration_request
is_plain_registration_request-built encode_bcd u res = (
  says true (registration_request encode_bcd u) (λ m h. ground arith),
  says false (authentication_response res) (λ m h. ground arith),
  says false (security_mode_complete encode_bcd u) (λ m h. ground arith),
  says false (mo_deregistration_request encode_bcd u) (λ m h. ground arith),
  says false (ul_nas_transport_pdu_session_establishment_request u) (λ m h. ground arith),
)

not_plain :
    (a : Algorithms) (s : Security) (count : ℕ) (mac ciphered : List ℕ)
    → length mac ≡ 4
    → apply a.fgia s.integ_algo (0 ∷ 0 ∷ 0 ∷ 0 ∷ []) s.k_nas_int count 0 (count % 256 ∷ ciphered)
      ≡ some mac
    → is_plain_registration_request (protected s count mac ciphered) ≡ false
unfolding apply is_plain_registration_request
not_plain a s count mac ciphered n i = elim (Bool-cases (s.ciph_algo == 0 && s.integ_algo == 0)) [
  | inr e ↦ ground arith
  | inl e ↦ let null : mac ≡ 0 ∷ 0 ∷ 0 ∷ 0 ∷ [] = ground arith in rw null (ground arith)
]

-- No protected message is taken for a plain Registration Request, with the null algorithms neither.
pub is_plain_registration_request-protect :
    (a : Algorithms) (given : Option ℕ) (plain message : List ℕ) (s s' : Security)
    → protect a given plain s ≡ some (message, s')
    → is_plain_registration_request message ≡ false
is_plain_registration_request-protect a given plain message s s' h =
    let p = parts a given plain message s s' h in
    rw p.octets (not_plain a s (count_of given s) p.mac p.ciphered p.mac_size p.integrity)
