-- ===== src/Shm/Stream/Collect.antt =====
-- What the consumer takes of a record that streams: its octets in order, and the frame once they are all.
use core_network_traffic_gen.Common.{
  ℕ, zero, suc, ◌+◌, ◌-◌, ◌%◌, ◌≤◌, ◌<◌, ◌≡◌, refl, ap, ap₂, ◌∙◌, arith, ltb, min, ◌⊎◌, inl, inr,
  Bool-cases, lt-cases,
}
use core_network_traffic_gen.Common.{
  Option, none, some, List, [], ◌∷◌, ◌++◌, length, length-append, take, get_or, get_or-append,
}
use core_network_traffic_gen.Common.Bytes.{le_bytes, length-le_bytes}
use native.Mathlib.Nat.{mod-lt}
use core_network_traffic_gen.Shm.Memory.{octet_at, contents, length-contents, get_or_past}
use core_network_traffic_gen.Shm.Read.{copy, copy-contents}
use core_network_traffic_gen.Shm.Ring.{Ring, Partial, rec_size, advance, collect}
use core_network_traffic_gen.Shm.Stream.{octets_of}
use core_network_traffic_gen.Shm.Stream.Octets.{Streams, same-Streams}

get_or-contents :
    (cap : ℕ) (mem : List ℕ) (i n d : ℕ)
    → d < n
    → get_or (contents cap mem i n) d 0 ≡ octet_at cap mem (i + d)
unfolding contents
get_or-contents cap mem i zero d h = absurd (omega arith)
get_or-contents cap mem i (suc n) zero h = ap (octet_at cap mem) (omega arith)
get_or-contents cap mem i (suc n) (suc d) h =
    get_or-contents cap mem (i + 1) n d (omega arith) ∙ ap (octet_at cap mem) (omega arith)

-- The first octets of a list that agrees with another.
take_are :
    (xs ys : List ℕ)
    → length ys ≤ length xs
    → ((d : ℕ) → d < length ys → get_or xs d 0 ≡ get_or ys d 0)
    → take (length ys) xs ≡ ys
take_are xs [] h f = refl
take_are [] (y ∷ ys) h f = absurd (omega arith)
take_are (x ∷ xs) (y ∷ ys) h f =
    ap₂ (λ z zs. z ∷ zs) (f 0 (omega arith))
      (take_are xs ys (omega arith) (λ d small. f (suc d) (omega arith)))

module _ (cap : ℕ) (frame : List ℕ) (start : ℕ) where
  -- A part of the record, whose first octets after the length have been taken.
  pub record IsPartOf (p : Partial) (head : ℕ) : Type 0 where
    pub buffer : p.size ≡ rec_size (length frame) - 4
    pub of_frame : p.frame_length ≡ length frame
    pub taken : head ≡ start + 4 + length p.filled
    pub agrees :
        (d : ℕ) → d < length p.filled → d < length frame → get_or p.filled d 0 ≡ get_or frame d 0

  -- What the consumer has of the record: nothing, or a part.
  abbrev pub Collected : Ring → Type 0
  Collected r =
      ((r.partial ≡ none) × (r.head ≡ start) × (r.in_tail ≡ start))
      ⊎ ((p : Partial) × (r.partial ≡ some p) × IsPartOf p r.head × (length p.filled < p.size))

  -- What a turn of the consumer comes to.
  pub data TakeOutcome (at : ℕ) : Option (List ℕ) × Ring → Type 0 where
    whole :
        (r' : Ring)
        → at ≡ rec_size (length frame)
        → r'.head ≡ r'.tail
        → r'.partial ≡ none
        → TakeOutcome at (some frame, r')
    more :
        (r' : Ring)
        → Streams cap frame start at r'
        → Collected r'
        → at < rec_size (length frame)
        → r'.head ≡ r'.tail
        → TakeOutcome at (none, r')

  pub copied :
      (at n : ℕ) (r : Ring)
      → Streams cap frame start at r
      → n ≤ r.tail - r.head
      → copy cap r.mem (r.head % cap) n ≡ contents cap r.mem r.head n
  copied at n r h inside =
      let e : r.head % cap + 0 ≡ r.head % cap = omega arith in
      let e' : r.head + 0 ≡ r.head = omega arith in
      rw (e, e') at
        (copy-contents cap r.head 0 n r.mem h.size h.large (omega (arith, mod-lt r.head h.large))
          (omega (arith, h)))

  -- The octets of the frame, after its length.
  frame_octet : (d : ℕ) → d < length frame → get_or (octets_of frame) (4 + d) 0 ≡ get_or frame d 0
  frame_octet d small =
      get_or_past (le_bytes 4 (length frame)) frame (4 + d)
        (omega (arith, length-le_bytes 4 (length frame)))
      ∙ ap (λ i. get_or frame i 0) (omega (arith, length-le_bytes 4 (length frame)))

  collect_agrees :
      (at n : ℕ) (p : Partial) (r : Ring)
      → Streams cap frame start at r
      → IsPartOf p r.head
      → n ≤ r.tail - r.head
      → (d : ℕ) → d < length p.filled + n
      → d < length frame
      → get_or (p.filled ++ contents cap r.mem r.head n) d 0 ≡ get_or frame d 0
  collect_agrees at n p r h part inside d small short = elim (lt-cases d (length p.filled)) [
    | inl old ↦
        get_or-append d p.filled (contents cap r.mem r.head n) 0 old ∙ part.agrees d old short
    | inr new ↦
        get_or_past p.filled (contents cap r.mem r.head n) d new
        ∙ get_or-contents cap r.mem r.head n (d - length p.filled) (omega arith)
        ∙ ap (octet_at cap r.mem) (omega (arith, part))
        ∙ h.octets (4 + d) (omega arith) (omega (arith, part)) (omega (arith, part))
        ∙ frame_octet d short
  ]

  -- The octets up to `head` are freed.
  freed-Streams :
      (at head : ℕ) (q : Option Partial) (r : Ring)
      → Streams cap frame start at r
      → r.head ≤ head
      → head ≤ r.tail
      → Streams cap frame start at
          (record (advance cap head (record r { in_tail = r.tail })) { partial = q })
  unfolding advance
  freed-Streams at head q r h on inside =
      same-Streams cap frame start at r _ h refl refl refl on inside

  pub collect_lem :
      (at : ℕ) (p : Partial) (r : Ring)
      → Streams cap frame start at r
      → IsPartOf p r.head
      → length p.filled < p.size
      → TakeOutcome at (collect cap p r)
  unfolding collect
  collect_lem at p r h part less =
      let n = min (r.tail - r.head) (p.size - length p.filled) in
      let all : n ≡ r.tail - r.head = omega (arith, h, part) in
      let new : copy cap r.mem (r.head % cap) n ≡ contents cap r.mem r.head n =
        copied at n r h (omega arith) in
      let filled = p.filled ++ copy cap r.mem (r.head % cap) n in
      let count : length filled ≡ length p.filled + n =
        length-append p.filled (copy cap r.mem (r.head % cap) n)
        ∙ ap (λ k. length p.filled + k) (ap length new ∙ length-contents cap r.mem r.head n) in
      let agree : (d : ℕ)
          → d < length filled
          → d < length frame
          → get_or filled d 0 ≡ get_or frame d 0 =
        λ d small short.
          ap (λ xs. get_or (p.filled ++ xs) d 0) new
          ∙ collect_agrees at n p r h part (omega arith) d (omega arith) short in
      elim (Bool-cases (ltb (length p.filled + n) p.size)) [
        | inl short ↦
            let below : length p.filled + n < p.size = ground arith in
            rw short (
              more _
                (freed-Streams at (r.head + n) (some (record p { filled = filled })) r h
                  (omega arith) (omega (arith, h)))
                (inr (
                  record p { filled = filled },
                  refl,
                  record {
                    buffer = part.buffer;
                    of_frame = part.of_frame;
                    taken = unfold advance in omega (arith, part);
                    agrees = agree;
                  },
                  omega arith,
                ))
                (omega (arith, h, part)) (omega (arith, h)))
        | inr full ↦
            let enough : p.size ≤ length p.filled + n = ground arith in
            let frame_taken : take p.frame_length filled ≡ frame =
              ap (λ k. take k filled) part.of_frame
              ∙ take_are filled frame (omega (arith, part))
                  (λ d small. agree d (omega (arith, part)) small) in
            rw (full, frame_taken) (whole _ (omega (arith, h, part)) (omega (arith, h)) refl)
      ]
