-- ===== src/Nas/Protect/Receive.antt =====
-- A network's reading of a protected message, written after TS 24.501 §4.4.3, and that it gives back
-- what `protect` protected.
use core_network_traffic_gen.Common.{
  ℕ, ◌+◌, ◌%◌, ◌≡◌, refl, sym, ap, ◌∙◌, arith, ◌==◌, if◌then◌else◌, Bool-cases, Option-cases, inl,
  inr,
}
use core_network_traffic_gen.Common.{
  Bool, true, false, not, ◌&&◌, ◌||◌, Option, none, some, List, [], ◌∷◌, length, take, drop,
  take-append, drop-append, get_or,
}
use core_network_traffic_gen.Nas.Protect.{
  Algorithm, Algorithms, Security, apply, count_of, protected, protect,
}

abbrev same_octets : List ℕ → List ℕ → Bool
same_octets [] [] = true
same_octets (x ∷ xs) (y ∷ ys) = x == y && same_octets xs ys
same_octets _ _ = false

same_octets_refl : (xs : List ℕ) → same_octets xs xs ≡ true
same_octets_refl [] = refl
same_octets_refl (x ∷ xs) = ground (arith, same_octets_refl xs)

-- The MAC is checked over the sequence number and the ciphered message, which is then deciphered.
unfoldable pub receive : Algorithms → Security → ℕ → List ℕ → Option (List ℕ)
receive a s count message =
    let mac = take 4 (drop 2 message) in
    let rest = drop 6 message in
    elim (apply a.fgia s.integ_algo (0 ∷ 0 ∷ 0 ∷ 0 ∷ []) s.k_nas_int count 0 rest) [
      | none ↦ none
      | some expected ↦
          if not (same_octets mac expected) || not (get_or rest 0 0 == count % 256)
          then none
          else apply a.fgea s.ciph_algo (drop 1 rest) s.k_nas_enc count 0 (drop 1 rest)
    ]

-- A stream cipher: ciphering twice with the same key and COUNT gives the message back.
abbrev pub Symmetric : Algorithms → Type 0
Symmetric a =
    (n : ℕ) (f : Algorithm) (key : List ℕ) (count dir : ℕ) (plain ciphered : List ℕ)
    → a.fgea n ≡ some f
    → f key count 1 dir plain ≡ some ciphered
    → f key count 1 dir ciphered ≡ some plain

apply_twice :
    (a : Algorithms) (n : ℕ) (key : List ℕ) (count : ℕ) (plain ciphered : List ℕ)
    → Symmetric a
    → apply a.fgea n plain key count 0 plain ≡ some ciphered
    → apply a.fgea n ciphered key count 0 ciphered ≡ some plain
unfolding apply
apply_twice a n key count plain ciphered sym_a h = elim (Bool-cases (n == 0)) [
  | inl e ↦ ground arith
  | inr e ↦ elim (Option-cases (a.fgea n)) [
    | inl e' ↦ absurd (ground arith)
    | inr (f, e') ↦
        let once : f key count 1 0 plain ≡ some ciphered = ground arith in
        ground (arith, sym_a n f key count 0 plain ciphered e' once)
  ]
]

-- What `protect` gives, in parts.
pub record Parts (a : Algorithms) (count : ℕ) (plain message : List ℕ) (s s' : Security)
    : Type 0 where
  pub ciphered : List ℕ
  pub mac : List ℕ
  pub cipher : apply a.fgea s.ciph_algo plain s.k_nas_enc count 0 plain ≡ some ciphered
  pub integrity :
      apply a.fgia s.integ_algo (0 ∷ 0 ∷ 0 ∷ 0 ∷ []) s.k_nas_int count 0 (count % 256 ∷ ciphered)
      ≡ some mac
  pub mac_size : length mac ≡ 4
  pub octets : message ≡ protected s count mac ciphered
  pub next : s' ≡ record s { ul_nas_count = count + 1 }

pub parts :
    (a : Algorithms) (given : Option ℕ) (plain message : List ℕ) (s s' : Security)
    → protect a given plain s ≡ some (message, s')
    → Parts a (count_of given s) plain message s s'
unfolding protect
parts a given plain message s s' h =
    let count = count_of given s in
    elim (Option-cases (apply a.fgea s.ciph_algo plain s.k_nas_enc count 0 plain)) [
      | inl e ↦ absurd (ground arith)
      | inr (c, e) ↦
          elim (Option-cases (
            apply a.fgia s.integ_algo (0 ∷ 0 ∷ 0 ∷ 0 ∷ []) s.k_nas_int count 0 (count % 256 ∷ c))) [
              | inl e' ↦ absurd (ground arith)
              | inr (m, e') ↦ record {
                ciphered = c;
                mac = m;
                cipher = e;
                integrity = e';
                mac_size = ground arith;
                octets = ground arith;
                next = ground arith;
              }
            ]
    ]

-- Reading the parts of a protected message.
mac_of :
    (s : Security) (count : ℕ) (mac ciphered : List ℕ)
    → length mac ≡ 4
    → take 4 (drop 2 (protected s count mac ciphered)) ≡ mac
mac_of s count mac ciphered h = take-append 4 mac (count % 256 ∷ ciphered) (sym h)

rest_of :
    (s : Security) (count : ℕ) (mac ciphered : List ℕ)
    → length mac ≡ 4
    → drop 6 (protected s count mac ciphered) ≡ count % 256 ∷ ciphered
rest_of s count mac ciphered h = drop-append 4 mac (count % 256 ∷ ciphered) (sym h)

receive_ok :
    (a : Algorithms) (s : Security) (count : ℕ) (plain message mac ciphered : List ℕ)
    → take 4 (drop 2 message) ≡ mac
    → drop 6 message ≡ count % 256 ∷ ciphered
    → apply a.fgia s.integ_algo (0 ∷ 0 ∷ 0 ∷ 0 ∷ []) s.k_nas_int count 0 (count % 256 ∷ ciphered)
      ≡ some mac
    → apply a.fgea s.ciph_algo ciphered s.k_nas_enc count 0 ciphered ≡ some plain
    → receive a s count message ≡ some plain
unfolding receive
receive_ok a s count plain message mac ciphered m r i c = ground (arith, same_octets_refl mac)

-- A network with the same context and COUNT verifies what `protect` gives and reads the plain message
-- back, where ciphering is symmetric; the UE's COUNT is then one more than the one used, and nothing
-- else of its context changes.
pub receive-protect :
    (a : Algorithms) (given : Option ℕ) (plain message : List ℕ) (s s' : Security)
    → Symmetric a
    → protect a given plain s ≡ some (message, s')
    → (receive a s (count_of given s) message ≡ some plain)
      × (s' ≡ record s { ul_nas_count = count_of given s + 1 })
receive-protect a given plain message s s' symmetric h =
    let count = count_of given s in
    let p = parts a given plain message s s' h in
    (
      receive_ok a s count plain message p.mac p.ciphered
          (ap (λ x. take 4 (drop 2 x)) p.octets ∙ mac_of s count p.mac p.ciphered p.mac_size)
          (ap (λ x. drop 6 x) p.octets ∙ rest_of s count p.mac p.ciphered p.mac_size) p.integrity
          (apply_twice a s.ciph_algo s.k_nas_enc count plain p.ciphered symmetric p.cipher),
      p.next,
    )
