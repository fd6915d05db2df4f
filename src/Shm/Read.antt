-- ===== src/Shm/Read.antt =====
-- A copy out of the ring gives the octets that stand at its positions.
use core_network_traffic_gen.Common.{
  ℕ, ◌+◌, ◌-◌, ◌%◌, ◌≤◌, ◌<◌, ◌≡◌, sym, ap, ap₂, ◌∙◌, arith, ltb, leb, if◌then◌else◌,
}
use core_network_traffic_gen.Common.{
  true, false, List, ◌++◌, length, length-take, length-drop, drop, slice, get_or, get_or-drop,
  Bool-cases, inl, inr,
}
use core_network_traffic_gen.Shm.Memory.{
  get_or-take, contents, contents_are, contents_split, mod_shift,
}

-- The octets that a copy of `n` octets from `pos` on gives, gone on at the ring's start.
unfoldable pub copy : ℕ → List ℕ → ℕ → ℕ → List ℕ
copy cap mem pos n =
    if leb (pos + n) cap
    then slice pos (pos + n) mem
    else slice pos cap mem ++ slice 0 (pos + n - cap) mem

pub length-slice :
    (a b : ℕ) (mem : List ℕ) → a ≤ b → b ≤ length mem → length (slice a b mem) ≡ b - a
length-slice a b mem h k = omega (arith, length-take (b - a) (drop a mem), length-drop a mem)

pub get_or-slice :
    (a b : ℕ) (mem : List ℕ) (d : ℕ) → d < b - a → get_or (slice a b mem) d 0 ≡ get_or mem (a + d) 0
get_or-slice a b mem d h = get_or-take (b - a) (drop a mem) d h ∙ get_or-drop a d mem 0

module _ (cap t k : ℕ) (mem : List ℕ) (size : length mem ≡ cap) (pos : 0 < cap) where
  contents_direct :
      (n : ℕ)
      → t % cap + k + n ≤ cap
      → contents cap mem (t + k) n ≡ slice (t % cap + k) (t % cap + k + n) mem
  contents_direct n h =
      contents_are cap mem (t + k) n _
        (length-slice (t % cap + k) (t % cap + k + n) mem (omega arith) (omega arith) ∙ omega arith)
        (λ d lt.
          let e : t + k + d ≡ t + (k + d) = omega arith in
          let low : ltb (t % cap + (k + d)) cap ≡ true = ground arith in
          rw (e, mod_shift cap t (k + d) pos (omega arith), low)
            (ap (λ i. get_or mem i 0) (omega arith)
              ∙ sym (get_or-slice (t % cap + k) (t % cap + k + n) mem d (omega arith))))

  -- From the ring's start.
  contents_start :
      (n : ℕ) → t % cap + k ≡ cap → k + n ≤ cap → contents cap mem (t + k) n ≡ slice 0 n mem
  contents_start n h room =
      contents_are cap mem (t + k) n _
        (length-slice 0 n mem (omega arith) (omega arith) ∙ omega arith)
        (λ d lt.
          let e : t + k + d ≡ t + (k + d) = omega arith in
          let high : ltb (t % cap + (k + d)) cap ≡ false = ground arith in
          rw (e, mod_shift cap t (k + d) pos (omega arith), high)
            (ap (λ i. get_or mem i 0) (omega arith) ∙ sym (get_or-slice 0 n mem d (omega arith))))

pub copy-contents :
    (cap t k n : ℕ) (mem : List ℕ)
    → length mem ≡ cap
    → 0 < cap
    → t % cap + k ≤ cap
    → k + n ≤ cap
    → copy cap mem (t % cap + k) n ≡ contents cap mem (t + k) n
unfolding copy
copy-contents cap t k n mem size pos place room = elim (Bool-cases (leb (t % cap + k + n) cap)) [
  | inl e ↦ rw e (sym (contents_direct cap t k mem size pos n (ground arith)))
  | inr e ↦
      let m = cap - (t % cap + k) in
      let wraps : cap < t % cap + k + n = ground arith in
      let two : m + (t % cap + k + n - cap) ≡ n = omega arith in
      let end : t % cap + k + m ≡ cap = omega arith in
      let place' : t + k + m ≡ t + (k + m) = omega arith in
      rw e (
        sym (
          rw two at (contents_split cap mem (t + k) m (t % cap + k + n - cap))
          ∙ ap₂ (λ xs ys. xs ++ ys)
              (rw end at (contents_direct cap t k mem size pos m (omega arith)))
              (rw place' (
                contents_start cap t (k + m) mem size pos (t % cap + k + n - cap) (omega arith)
                  (omega arith)))))
]
