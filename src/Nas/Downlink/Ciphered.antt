-- ===== src/Nas/Downlink/Ciphered.antt =====
-- A protected downlink message is parsed as the plain message in it.
use core_network_traffic_gen.Common.{
  ℕ, ◌+◌, ◌≤◌, ◌≡◌, sym, ap, arith, ◌==◌, Bool-cases, Option-cases, inl, inr, ◌⊎◌,
}
use core_network_traffic_gen.Common.{
  Option, none, some, List, [], ◌∷◌, ◌++◌, append_assoc, length, length-append, drop, drop-append,
  get_or,
}
use core_network_traffic_gen.Ngap.Aper.Lengths.{get_or-append_at}
use core_network_traffic_gen.Nas.Protect.{Algorithms, Security, apply}
use core_network_traffic_gen.Nas.Protect.Receive.{Symmetric}
use core_network_traffic_gen.Nas.Downlink.{
  Pycrate, Message, authentication_request, no_fields, establishment_accept, security_mode_command,
  plain, new_context, downlink,
}

-- What a network sends: the header, the MAC, the sequence number and the ciphered message.
abbrev pub sent_by_network : ℕ → List ℕ → ℕ → List ℕ → List ℕ
sent_by_network header mac seq ciphered = 126 ∷ header ∷ (mac ++ (seq ∷ ciphered))

seq_of :
    (header seq : ℕ) (mac ciphered : List ℕ)
    → length mac ≡ 4
    → get_or (sent_by_network header mac seq ciphered) 6 0 ≡ seq
seq_of header seq mac ciphered h =
    let e : length mac + 0 ≡ 4 = omega arith in rw e at (get_or-append_at 0 mac (seq ∷ ciphered))

after :
    (header seq : ℕ) (mac ciphered : List ℕ)
    → length mac ≡ 4
    → drop 7 (sent_by_network header mac seq ciphered) ≡ ciphered
after header seq mac ciphered h =
    let e : mac ++ (seq ∷ ciphered) ≡ (mac ++ (seq ∷ [])) ++ ciphered =
      sym (append_assoc mac (seq ∷ []) ciphered) in
    rw e (drop-append 5 (mac ++ (seq ∷ [])) ciphered (omega (arith, length-append mac (seq ∷ []))))

decipher :
    (a : Algorithms) (s : Security) (seq : ℕ) (m ciphered : List ℕ)
    → Symmetric a
    → apply a.fgea s.ciph_algo m s.k_nas_enc seq 1 m ≡ some ciphered
    → apply a.fgea s.ciph_algo ciphered s.k_nas_enc seq 1 ciphered ≡ some m
unfolding apply
decipher a s seq m ciphered symmetric h = elim (Bool-cases (s.ciph_algo == 0)) [
  | inl e ↦ ground arith
  | inr e ↦ elim (Option-cases (a.fgea s.ciph_algo)) [
    | inl e' ↦ absurd (ground arith)
    | inr (f, e') ↦
        let once : f s.k_nas_enc seq 1 1 m ≡ some ciphered = ground arith in
        ground (arith, symmetric s.ciph_algo f s.k_nas_enc seq 1 m ciphered e' once)
  ]
]

-- A message of three octets or more that the network ciphered with the UE's key and the COUNT that is
-- its sequence number, downlink, is parsed as the plain message is.
pub downlink-ciphered :
    (p : Pycrate) (a : Algorithms) (s : Security) (seq : ℕ) (mac m ciphered : List ℕ)
    → Symmetric a
    → length mac ≡ 4
    → 3 ≤ length ciphered
    → apply a.fgea s.ciph_algo m s.k_nas_enc seq 1 m ≡ some ciphered
    → downlink p a.fgea s (sent_by_network 2 mac seq ciphered) ≡ plain p m
unfolding downlink
downlink-ciphered p a s seq mac m ciphered symmetric n long h =
    let size = length-append mac (seq ∷ ciphered) in
    ground (
      arith,
      size,
      seq_of 2 seq mac ciphered n,
      after 2 seq mac ciphered n,
      decipher a s seq m ciphered symmetric h,
    )

new_context_ok :
    (o : Option Message) (msg : Message)
    → new_context o ≡ some msg
    → (c : ℕ) × (i : ℕ) × (msg ≡ security_mode_command c i) × (o ≡ some msg)
unfolding new_context
new_context_ok none msg h = absurd (ground arith)
new_context_ok (some (security_mode_command c i)) msg h =
    (c, i, ap (λ o. elim o [ none ↦ msg | some x ↦ x ]) (sym h), h)
new_context_ok (some (authentication_request a b c d e)) msg h = absurd (ground arith)
new_context_ok (some (no_fields t)) msg h = absurd (ground arith)
new_context_ok (some (establishment_accept x)) msg h = absurd (ground arith)

new_context_of :
    (p : Pycrate) (a : Algorithms) (s : Security) (header seq : ℕ) (mac m : List ℕ) (msg : Message)
    → (header ≡ 1) ⊎ (header ≡ 3)
    → length mac ≡ 4
    → downlink p a.fgea s (sent_by_network header mac seq m) ≡ some msg
    → new_context (plain p m) ≡ some msg
unfolding downlink
new_context_of p a s header seq mac m msg (inl e) n h = ground (arith, after header seq mac m n)
new_context_of p a s header seq mac m msg (inr e) n h = ground (arith, after header seq mac m n)

-- Of a message under a new security context, that is not ciphered, only a Security Mode Command is
-- taken, and it is the one that the plain message is parsed as.
pub downlink_new_context :
    (p : Pycrate) (a : Algorithms) (s : Security) (header seq : ℕ) (mac m : List ℕ) (msg : Message)
    → (header ≡ 1) ⊎ (header ≡ 3)
    → length mac ≡ 4
    → downlink p a.fgea s (sent_by_network header mac seq m) ≡ some msg
    → (c : ℕ) × (i : ℕ) × (msg ≡ security_mode_command c i) × (plain p m ≡ some msg)
downlink_new_context p a s header seq mac m msg which n h =
    new_context_ok (plain p m) msg (new_context_of p a s header seq mac m msg which n h)
