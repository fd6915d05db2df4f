-- ===== src/Shm/Ring/Records.antt =====
-- The records of a ring: each a frame's length, the frame, and octets up to a multiple of 8.
use core_network_traffic_gen.Common.{ℕ, ◌+◌, ◌≤◌, ◌≡◌, refl, sym, ap, ◌∙◌, arith}
use core_network_traffic_gen.Common.{
  List, [], ◌∷◌, ◌++◌, append_assoc, append-nil, length, length-append, ◌⊎◌, inl, inr,
}
use core_network_traffic_gen.Common.Bytes.{le_bytes, length-le_bytes}
use core_network_traffic_gen.Shm.Ring.{rec_size}

-- The octets of a record with this frame and this padding.
abbrev pub record_of : List ℕ → List ℕ → List ℕ
record_of frame pad = le_bytes 4 (length frame) ++ (frame ++ pad)

-- The octets are the records of these frames, whatever their padding.
abbrev pub Records : List (List ℕ) → List ℕ → Type 0
Records [] bs = bs ≡ []
Records (f ∷ fs) bs =
    (pad : List ℕ) × (rest : List ℕ) × (4 + length f + length pad ≡ rec_size (length f))
    × (bs ≡ record_of f pad ++ rest)
    × Records fs rest

pub Records-append :
    (fs : List (List ℕ)) (f bs pad : List ℕ)
    → Records fs bs
    → 4 + length f + length pad ≡ rec_size (length f)
    → Records (fs ++ (f ∷ [])) (bs ++ record_of f pad)
Records-append [] f bs pad h size =
    (pad, [], size, ap (λ xs. xs ++ record_of f pad) h ∙ sym (append-nil (record_of f pad)), refl)
Records-append (g ∷ fs) f bs pad (p, rest, s, e, more) size = (
  p,
  rest ++ record_of f pad,
  s,
  ap (λ xs. xs ++ record_of f pad) e ∙ append_assoc (record_of g p) rest (record_of f pad),
  Records-append fs f rest pad more size,
)

pub length-record_of : (f pad : List ℕ) → length (record_of f pad) ≡ 4 + length f + length pad
length-record_of f pad = omega (
  arith,
  length-append (le_bytes 4 (length f)) (f ++ pad),
  length-append f pad,
  length-le_bytes 4 (length f),
)

-- The position `q` is the end of one of the records from `p` on, or `p` itself.
abbrev pub Boundary : List (List ℕ) → ℕ → ℕ → Type 0
Boundary [] p q = p ≡ q
Boundary (f ∷ fs) p q = (p ≡ q) ⊎ Boundary fs (p + rec_size (length f)) q

pub Boundary-append :
    (fs : List (List ℕ)) (f : List ℕ) (p q : ℕ) → Boundary fs p q → Boundary (fs ++ (f ∷ [])) p q
Boundary-append [] f p q h = inl h
Boundary-append (g ∷ fs) f p q (inl e) = inl e
Boundary-append (g ∷ fs) f p q (inr h) = inr (Boundary-append fs f (p + rec_size (length g)) q h)

pub Boundary-le : (fs : List (List ℕ)) (p q : ℕ) → Boundary fs p q → p ≤ q
Boundary-le [] p q h = omega arith
Boundary-le (f ∷ fs) p q (inl e) = omega arith
Boundary-le (f ∷ fs) p q (inr h) = omega (arith, Boundary-le fs (p + rec_size (length f)) q h)

-- The end of the last record is one.
pub Boundary-end :
    (fs : List (List ℕ)) (bs : List ℕ) (p q : ℕ)
    → Records fs bs
    → p + length bs ≡ q
    → Boundary fs p q
Boundary-end [] bs p q h e = omega (arith, ap length h)
Boundary-end (f ∷ fs) bs p q (pad, rest, size, e, h) k = inr (
    Boundary-end fs rest (p + rec_size (length f)) q h
      (omega (arith, ap length e, length-append (record_of f pad) rest, length-record_of f pad)))
