-- ===== src/RanLink/Frame/RoundTrip/Stamps.antt =====
-- The stamps behind a payload.
use core_network_traffic_gen.Common.{
  ℕ, zero, suc, ◌+◌, ◌*◌, ◌^◌, ◌<◌, ◌≡◌, refl, sym, ap, ap₂, arith,
}
use core_network_traffic_gen.Common.{some, List, [], ◌∷◌, ◌++◌, All}
use core_network_traffic_gen.Common.{Option-cases, inl, inr, length, take, drop, drop-drop}
use core_network_traffic_gen.Common.Bytes.{le_bytes, from_le}
use core_network_traffic_gen.RanLink.Event.{Stamp}
use core_network_traffic_gen.RanLink.Frame.{pack_stamps, uint_at, stamps_at}

pub uint_at-drop :
    (w off k : ℕ) (buf : List ℕ) → uint_at w k (drop off buf) ≡ uint_at w (off + k) buf
unfolding uint_at
uint_at-drop w off k buf = ap (λ xs. from_le (take w xs)) (drop-drop k off buf)

-- Reading stamps at an offset is reading them from what is behind it.
pub stamps_at-drop :
    (n off k : ℕ) (buf : List ℕ) → stamps_at n k (drop off buf) ≡ stamps_at n (off + k) buf
unfolding stamps_at
stamps_at-drop zero off k buf = refl
stamps_at-drop (suc n) off k buf =
    let e : off + (k + 2) ≡ off + k + 2 = omega arith in
    let e' : off + (k + 10) ≡ off + k + 10 = omega arith in
    ap₂ ◌∷◌
      (ap₂ {C = Stamp} (λ a b. (a, b)) (uint_at-drop 2 off k buf)
        (rw (← e) (uint_at-drop 8 off (k + 2) buf)))
      (rw (← e') (stamps_at-drop n off (k + 10) buf))

-- The octets of a stamp.
stamp_bytes : ℕ → ℕ → List ℕ
unfolding le_bytes
stamp_bytes c t = le_bytes 2 c ++ le_bytes 8 t

stamp_fields :
    (c t : ℕ) (qs : List ℕ)
    → c < 2 ^ 16
    → t < 2 ^ 64
    → (uint_at 2 0 (stamp_bytes c t ++ qs) ≡ c) × (uint_at 8 2 (stamp_bytes c t ++ qs) ≡ t)
unfolding stamp_bytes uint_at
stamp_fields c t qs hc ht = (omega arith, omega arith)

pack_stamps_inv :
    (c t : ℕ) (ss : List Stamp) {ps : List ℕ}
    → pack_stamps ((c, t) ∷ ss) ≡ some ps
    → (qs : List ℕ) × (pack_stamps ss ≡ some qs) × (c < 2 ^ 16) × (ps ≡ stamp_bytes c t ++ qs)
unfolding pack_stamps stamp_bytes
pack_stamps_inv c t ss e = elim (Option-cases (pack_stamps ss)) [
  | inl bad ↦ absurd (ground arith)
  | inr (qs, good) ↦ (qs, good, ground arith, ground arith)
]

stamps_behind :
    (n c t : ℕ) (qs : List ℕ) → stamps_at n 10 (stamp_bytes c t ++ qs) ≡ stamps_at n 0 qs
unfolding stamp_bytes
stamps_behind n c t qs = sym (stamps_at-drop n 10 0 (stamp_bytes c t ++ qs))

length-stamp_bytes : (c t : ℕ) (qs : List ℕ) → length (stamp_bytes c t ++ qs) ≡ 10 + length qs
unfolding stamp_bytes
length-stamp_bytes c t qs = omega arith

pub stamps_at-pack_stamps :
    (ss : List Stamp) {ps : List ℕ}
    → All (λ s. s.1 < 2 ^ 64) ss
    → pack_stamps ss ≡ some ps
    → (length ps ≡ 10 * length ss) × (stamps_at (length ss) 0 ps ≡ ss)
unfolding stamps_at
stamps_at-pack_stamps [] h e = unfold pack_stamps in ground arith
stamps_at-pack_stamps ((c, t) ∷ ss) {ps} h e =
    let (qs, good, fits, parts) = pack_stamps_inv c t ss e in
    let (len, back) = stamps_at-pack_stamps ss h.1 good in
    let (same_c, same_t) = stamp_fields c t qs fits h.0 in
    rw parts (
      omega (arith, len, length-stamp_bytes c t qs),
      rw (same_c, same_t, stamps_behind (length ss) c t qs, back),
    )
