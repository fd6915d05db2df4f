-- ===== src/Shm/Memory.antt =====
-- The octets of a ring, as src/shmlink.py writes and reads them: slice assignments that go on at the
-- ring's start.
use core_network_traffic_gen.Common.{
  ℕ, zero, suc, ◌+◌, ◌-◌, ◌%◌, ◌≤◌, ◌<◌, ◌≡◌, refl, sym, ap, ap₂, ◌∙◌, arith, ltb, leb,
  if◌then◌else◌,
}
use core_network_traffic_gen.Common.{
  List, [], ◌∷◌, ◌++◌, length, length-append, length-take, length-drop, take, drop, get_or,
  get_or-drop, get_or-append, Bool-cases, inl, inr,
}
use native.Mathlib.Nat.{mod-lt, mod-add-mod, mod-eq_of_lt, mod-eq-sub-mod}

-- `mm[pos:pos + len(xs)] = xs`
unfoldable pub write : ℕ → List ℕ → List ℕ → List ℕ
write pos xs mem = take pos mem ++ (xs ++ drop (pos + length xs) mem)

-- A copy from `pos` on that goes on at the ring's start where it reaches `cap`.
unfoldable pub put : ℕ → ℕ → List ℕ → List ℕ → List ℕ
put cap pos xs mem =
    if leb (pos + length xs) cap
    then write pos xs mem
    else write 0 (drop (cap - pos) xs) (write pos (take (cap - pos) xs) mem)

-- The octet at the position `i`, which counts octets since the start.
abbrev pub octet_at : ℕ → List ℕ → ℕ → ℕ
octet_at cap mem i = get_or mem (i % cap) 0

-- The `n` octets from the position `i` on.
unfoldable pub contents : ℕ → List ℕ → ℕ → ℕ → List ℕ
contents cap mem i zero = []
contents cap mem i (suc n) = octet_at cap mem i ∷ contents cap mem (i + 1) n

pub length-contents : (cap : ℕ) (mem : List ℕ) (i n : ℕ) → length (contents cap mem i n) ≡ n
unfolding contents
length-contents cap mem i zero = refl
length-contents cap mem i (suc n) = ap suc (length-contents cap mem (i + 1) n)

pub contents_split :
    (cap : ℕ) (mem : List ℕ) (i m n : ℕ)
    → contents cap mem i (m + n) ≡ contents cap mem i m ++ contents cap mem (i + m) n
unfolding contents
contents_split cap mem i zero n =
    let e : i + 0 ≡ i = omega arith in let e' : 0 + n ≡ n = omega arith in rw (e, e') refl
contents_split cap mem i (suc m) n =
    let e : suc m + n ≡ suc (m + n) = omega arith in
    let e' : i + suc m ≡ i + 1 + m = omega arith in
    rw (e, e') (ap (λ xs. octet_at cap mem i ∷ xs) (contents_split cap mem (i + 1) m n))

-- A list is what stands at a position where its octets do.
pub contents_are :
    (cap : ℕ) (mem : List ℕ) (i n : ℕ) (xs : List ℕ)
    → length xs ≡ n
    → ((d : ℕ) → d < n → octet_at cap mem (i + d) ≡ get_or xs d 0)
    → contents cap mem i n ≡ xs
unfolding contents
contents_are cap mem i zero [] h f = refl
contents_are cap mem i zero (x ∷ xs) h f = absurd (omega arith)
contents_are cap mem i (suc n) [] h f = absurd (omega arith)
contents_are cap mem i (suc n) (x ∷ xs) h f =
    let e : i + 0 ≡ i = omega arith in
    ap₂ (λ y ys. y ∷ ys) (rw e at (f 0 (omega arith)))
      (contents_are cap mem (i + 1) n xs (omega arith)
        (λ d lt. let e' : i + 1 + d ≡ i + suc d = omega arith in rw e' (f (suc d) (omega arith))))

pub contents_same :
    (cap : ℕ) (mem mem' : List ℕ) (i n : ℕ)
    → ((d : ℕ) → d < n → octet_at cap mem' (i + d) ≡ octet_at cap mem (i + d))
    → contents cap mem' i n ≡ contents cap mem i n
unfolding contents
contents_same cap mem mem' i zero f = refl
contents_same cap mem mem' i (suc n) f =
    let e : i + 0 ≡ i = omega arith in
    ap₂ (λ y ys. y ∷ ys) (rw e at (f 0 (omega arith)))
      (contents_same cap mem mem' (i + 1) n
        (λ d lt. let e' : i + 1 + d ≡ i + suc d = omega arith in rw e' (f (suc d) (omega arith))))

-- The place in the ring, `d` positions on.
pub mod_shift :
    (cap i d : ℕ)
    → 0 < cap
    → d ≤ cap
    → (i + d) % cap ≡ (if ltb (i % cap + d) cap then i % cap + d else i % cap + d - cap)
mod_shift cap i d pos h =
    let r = i % cap in
    let low : r < cap = mod-lt i pos in
    let e : (i + d) % cap ≡ (r + d) % cap = sym (mod-add-mod i cap d) in
    elim (Bool-cases (ltb (r + d) cap)) [
      | inl fits ↦ rw fits (e ∙ mod-eq_of_lt (ground arith))
      | inr past ↦ rw past (e ∙ mod-eq-sub-mod (ground arith) ∙ mod-eq_of_lt (omega arith))
    ]

pub get_or-take : (n : ℕ) (xs : List ℕ) (j : ℕ) → j < n → get_or (take n xs) j 0 ≡ get_or xs j 0
get_or-take zero xs j h = absurd (omega arith)
get_or-take (suc n) [] j h = refl
get_or-take (suc n) (x ∷ xs) zero h = refl
get_or-take (suc n) (x ∷ xs) (suc j) h = get_or-take n xs j (omega arith)

pub get_or_past :
    (xs ys : List ℕ) (j : ℕ) → length xs ≤ j → get_or (xs ++ ys) j 0 ≡ get_or ys (j - length xs) 0
get_or_past [] ys j h = ap (λ k. get_or ys k 0) (omega arith)
get_or_past (x ∷ xs) ys zero h = absurd (omega arith)
get_or_past (x ∷ xs) ys (suc j) h =
    get_or_past xs ys j (omega arith) ∙ ap (λ k. get_or ys k 0) (omega arith)

module _ (pos : ℕ) (xs mem : List ℕ) (h : pos + length xs ≤ length mem) where
  pub length-write : length (write pos xs mem) ≡ length mem
  unfolding write
  length-write = omega (
    arith,
    length-append (take pos mem) (xs ++ drop (pos + length xs) mem),
    length-append xs (drop (pos + length xs) mem),
    length-take pos mem,
    length-drop (pos + length xs) mem,
  )

  pub write_inside :
      (j : ℕ)
      → pos ≤ j
      → j < pos + length xs
      → get_or (write pos xs mem) j 0 ≡ get_or xs (j - pos) 0
  unfolding write
  write_inside j lo hi =
      let n : length (take pos mem) ≡ pos = omega (arith, length-take pos mem) in
      get_or_past (take pos mem) (xs ++ drop (pos + length xs) mem) j (omega arith)
      ∙ rw n (get_or-append (j - pos) xs (drop (pos + length xs) mem) 0 (omega arith))

  pub write_before : (j : ℕ) → j < pos → get_or (write pos xs mem) j 0 ≡ get_or mem j 0
  unfolding write
  write_before j lt =
      get_or-append j (take pos mem) (xs ++ drop (pos + length xs) mem) 0
        (omega (arith, length-take pos mem))
      ∙ get_or-take pos mem j lt

  pub write_after : (j : ℕ) → pos + length xs ≤ j → get_or (write pos xs mem) j 0 ≡ get_or mem j 0
  unfolding write
  write_after j le =
      let n : length (take pos mem) ≡ pos = omega (arith, length-take pos mem) in
      get_or_past (take pos mem) (xs ++ drop (pos + length xs) mem) j (omega arith)
      ∙ rw n (get_or_past xs (drop (pos + length xs) mem) (j - pos) (omega arith))
      ∙ get_or-drop (pos + length xs) (j - pos - length xs) mem 0
      ∙ ap (λ k. get_or mem k 0) (omega arith)
