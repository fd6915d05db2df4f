-- ===== src/Shm/Put.antt =====
-- What a copy into the ring changes: the octets at the positions that it writes, and no other in the
-- window of `cap` octets that ends with them.
use core_network_traffic_gen.Common.{
  ℕ, ◌+◌, ◌-◌, ◌%◌, ◌≤◌, ◌<◌, ◌≡◌, refl, sym, ap, ◌∙◌, arith, ltb, leb,
}
use core_network_traffic_gen.Common.{
  true, false, List, length, length-take, length-drop, take, drop, get_or, get_or-drop, Bool-cases,
  inl, inr, ◌⊎◌,
}
use core_network_traffic_gen.Shm.Memory.{
  write, put, octet_at, length-write, write_inside, write_before, write_after, get_or-take,
  mod_shift,
}

module _ (cap pos : ℕ) (xs mem : List ℕ) (size : length mem ≡ cap) (place : pos ≤ cap)
    (fits : length xs ≤ cap) where
  abbrev front : List ℕ
  front = take (cap - pos) xs

  abbrev back : List ℕ
  back = drop (cap - pos) xs

  -- The two parts of a copy that does not fit before the ring's end.
  record Parts : Type 0 where
    two : put cap pos xs mem ≡ write 0 back (write pos front mem)
    length_front : length front ≡ cap - pos
    length_back : length back + cap ≡ pos + length xs
    first : pos + length front ≤ length mem
    same_size : length (write pos front mem) ≡ cap
    second : 0 + length back ≤ length (write pos front mem)

  parts : leb (pos + length xs) cap ≡ false → Parts
  unfolding put
  parts wraps =
      let lf : length front ≡ cap - pos = ground (arith, length-take (cap - pos) xs) in
      let lb : length back + cap ≡ pos + length xs = ground (arith, length-drop (cap - pos) xs) in
      let one : pos + length front ≤ length mem = omega arith in
      let same : length (write pos front mem) ≡ cap = length-write pos front mem one ∙ size in
      record {
        two = rw wraps refl;
        length_front = lf;
        length_back = lb;
        first = one;
        same_size = same;
        second = omega arith;
      }

  direct_put : leb (pos + length xs) cap ≡ true → put cap pos xs mem ≡ write pos xs mem
  unfolding put
  direct_put e = rw e refl

  direct_fits : leb (pos + length xs) cap ≡ true → pos + length xs ≤ length mem
  direct_fits e = ground arith

  pub length-put : length (put cap pos xs mem) ≡ cap
  length-put = elim (Bool-cases (leb (pos + length xs) cap)) [
    | inl e ↦ rw (direct_put e) (length-write pos xs mem (direct_fits e) ∙ size)
    | inr e ↦
        let p = parts e in
        rw p.two (length-write 0 back (write pos front mem) p.second ∙ p.same_size)
  ]

  -- At a place before the ring's end.
  put_inside :
      (j : ℕ)
      → pos ≤ j
      → j < pos + length xs
      → j < cap
      → get_or (put cap pos xs mem) j 0 ≡ get_or xs (j - pos) 0
  put_inside j lo hi lt = elim (Bool-cases (leb (pos + length xs) cap)) [
    | inl e ↦ rw (direct_put e) (write_inside pos xs mem (direct_fits e) j lo hi)
    | inr e ↦
        let p = parts e in
        rw p.two (
          write_after 0 back (write pos front mem) p.second j (omega (arith, p))
          ∙ write_inside pos front mem p.first j lo (omega (arith, p))
          ∙ get_or-take (cap - pos) xs (j - pos) (omega arith))
  ]

  -- At a place after the ring's start, the copy gone on there.
  put_wrapped :
      (j : ℕ)
      → j + cap < pos + length xs
      → get_or (put cap pos xs mem) j 0 ≡ get_or xs (j + cap - pos) 0
  put_wrapped j lt = elim (Bool-cases (leb (pos + length xs) cap)) [
    | inl e ↦ absurd (ground arith)
    | inr e ↦
        let p = parts e in
        rw p.two (
          write_inside 0 back (write pos front mem) p.second j (omega arith) (omega (arith, p))
          ∙ get_or-drop (cap - pos) (j - 0) xs 0
          ∙ ap (λ k. get_or xs k 0) (omega arith))
  ]

  put_outside :
      (j : ℕ)
      → pos + length xs ≤ j + cap
      → (j < pos) ⊎ (pos + length xs ≤ j)
      → get_or (put cap pos xs mem) j 0 ≡ get_or mem j 0
  put_outside j no_wrap away = elim (Bool-cases (leb (pos + length xs) cap)) [
    | inl e ↦ rw (direct_put e) (elim away [
      | inl lo ↦ write_before pos xs mem (direct_fits e) j lo
      | inr hi ↦ write_after pos xs mem (direct_fits e) j hi
    ])
    | inr e ↦
        let p = parts e in
        rw p.two (
          write_after 0 back (write pos front mem) p.second j (omega (arith, p)) ∙ elim away [
            | inl lo ↦ write_before pos front mem p.first j lo
            | inr hi ↦ write_after pos front mem p.first j (omega (arith, p))
          ])
  ]

-- A copy of `xs` at `k` octets behind the position `t`, whose place and `k` are within the ring.
module _ (cap t k : ℕ) (xs mem : List ℕ) (size : length mem ≡ cap) (pos : 0 < cap)
    (place : t % cap + k ≤ cap) (fits : k + length xs ≤ cap) where
  pub put_new :
      (d : ℕ)
      → d < length xs
      → octet_at cap (put cap (t % cap + k) xs mem) (t + k + d) ≡ get_or xs d 0
  put_new d lt =
      let e : t + k + d ≡ t + (k + d) = omega arith in
      rw (e, mod_shift cap t (k + d) pos (omega arith))
        (elim (Bool-cases (ltb (t % cap + (k + d)) cap)) [
          | inl low ↦ rw low (
              put_inside cap (t % cap + k) xs mem size place (omega arith) (t % cap + (k + d))
                (omega arith) (omega arith) (ground arith)
              ∙ ap (λ i. get_or xs i 0) (omega arith))
          | inr past ↦
              let high : cap ≤ t % cap + (k + d) = ground arith in
              rw past (
                put_wrapped cap (t % cap + k) xs mem size place (omega arith)
                  (t % cap + (k + d) - cap) (omega arith)
                ∙ ap (λ i. get_or xs i 0) (omega arith))
        ])

  place_old :
      (i : ℕ)
      → i < t + k
      → t + k + length xs ≤ i + cap
      → (t % cap + k + length xs ≤ i % cap + cap)
        × ((i % cap < t % cap + k) ⊎ (t % cap + k + length xs ≤ i % cap))
  place_old i lt window = elim (Bool-cases (leb i t)) [
    | inl before ↦
        let behind : i ≤ t = ground arith in
        let e : i + (t - i) ≡ t = omega arith in
        let shift = rw e at (mod_shift cap i (t - i) pos (omega arith)) in
        elim (Bool-cases (ltb (i % cap + (t - i)) cap)) [
          | inl low ↦
              let here : t % cap ≡ i % cap + (t - i) = rw low at shift in
              (omega arith, inl (omega arith))
          | inr past ↦
              let here : t % cap ≡ i % cap + (t - i) - cap = rw past at shift in
              let high : cap ≤ i % cap + (t - i) = ground arith in (omega arith, inr (omega arith))
        ]
    | inr after ↦
        let ahead : t < i = ground arith in
        let e : t + (i - t) ≡ i = omega arith in
        let low : ltb (t % cap + (i - t)) cap ≡ true = ground arith in
        let here : i % cap ≡ t % cap + (i - t) =
          rw (e, low) at (mod_shift cap t (i - t) pos (omega arith)) in
        (omega arith, inl (omega arith))
  ]

  pub put_old :
      (i : ℕ)
      → i < t + k
      → t + k + length xs ≤ i + cap
      → octet_at cap (put cap (t % cap + k) xs mem) i ≡ octet_at cap mem i
  put_old i lt window =
      let (no_wrap, away) = place_old i lt window in
      put_outside cap (t % cap + k) xs mem size place (omega arith) (i % cap) no_wrap away

-- A copy of `xs` at the position `t` that fits before the ring's end.
module _ (cap t : ℕ) (xs mem : List ℕ) (size : length mem ≡ cap) (pos : 0 < cap)
    (fits : t % cap + length xs ≤ cap) where
  write_as_put : write (t % cap) xs mem ≡ put cap (t % cap + 0) xs mem
  write_as_put =
      let e : t % cap + 0 ≡ t % cap = omega arith in
      rw e (sym (direct_put cap (t % cap) xs mem size (omega arith) (omega arith) (ground arith)))

  pub write_new :
      (d : ℕ) → d < length xs → octet_at cap (write (t % cap) xs mem) (t + d) ≡ get_or xs d 0
  write_new d lt =
      let e : t + d ≡ t + 0 + d = omega arith in
      rw (write_as_put, e) (put_new cap t 0 xs mem size pos (omega arith) (omega arith) d lt)

  pub write_old :
      (i : ℕ)
      → i < t
      → t + length xs ≤ i + cap
      → octet_at cap (write (t % cap) xs mem) i ≡ octet_at cap mem i
  write_old i lt window =
      rw write_as_put
        (put_old cap t 0 xs mem size pos (omega arith) (omega arith) i (omega arith) (omega arith))
