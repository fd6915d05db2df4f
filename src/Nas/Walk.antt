-- ===== src/Nas/Walk.antt =====
-- What a walk over a message's IEs gives: values within the message, after as many turns as it has octets.
use core_network_traffic_gen.Common.{
  ℕ, zero, suc, ◌+◌, ◌*◌, ◌/◌, ◌%◌, ◌≤◌, ◌<◌, ◌≡◌, refl, ap, arith, ltb, ltb→lt, leb, ◌==◌,
  if◌then◌else◌,
}
use core_network_traffic_gen.Common.{
  Bool, true, false, not, Bool-cases, Option-cases, inl, inr, Option, none, some, List, [], ◌∷◌,
  length, get_or, get_elem?, All,
}
use core_network_traffic_gen.Common.Bytes.{IsByte}
use core_network_traffic_gen.Nas.Layout.{
  Mandatory, fixed, nibble, v, lv, lve, Optional, tv1, t2, tv, tlv, tlve, Layout, Value, small,
  present, span, Values,
}
use core_network_traffic_gen.Nas.Layout.{
  mand_span, place_span, mand_step, mand_walk, first_unused, opt_value, opt_step, opt_walk, walk,
}

-- A nibble is below 16, and a span's octets are the message's.
abbrev pub Within : List ℕ → ℕ × Value → Type 0
Within buf (name, small n) = n < 16
Within buf (name, present) = Unit {0}
Within buf (name, span start end) = (start ≤ end) × (end ≤ length buf)

carried {ℓ} :
    {A : Type ℓ} (buf : List ℕ) (a b : A) (vals vals' : Values)
    → let one : Option (A × Values) = some (a, vals) in
      one ≡ some (b, vals') → All (Within buf) vals → All (Within buf) vals'
carried buf a b vals vals' h all =
    let same : vals ≡ vals' = ap (λ o. elim o [ none ↦ vals | some p ↦ p.1 ]) h in rw (← same) all

get_or-IsByte : (buf : List ℕ) (i : ℕ) → All IsByte buf → get_or buf i 0 < 256
get_or-IsByte [] i h = omega arith
get_or-IsByte (b ∷ buf) zero h = h.0
get_or-IsByte (b ∷ buf) (suc i) h = get_or-IsByte buf i h.1

module _ (buf : List ℕ) (bytes : All IsByte buf) where
  mand_span_ordered :
      (k : Mandatory) (size o start end : ℕ)
      → mand_span buf k size o ≡ some (start, end)
      → start ≤ end
  unfolding mand_span
  mand_span_ordered v size o start end h = ground arith
  mand_span_ordered lv size o start end h = ground arith
  mand_span_ordered lve size o start end h = ground arith
  mand_span_ordered fixed size o start end h = ground arith
  mand_span_ordered nibble size o start end h = ground arith

  place_span-Within :
      (name bit' : ℕ) (p : Option (ℕ × ℕ)) (vals vals' : Values)
      → All (Within buf) vals
      → ((start end : ℕ) → p ≡ some (start, end) → start ≤ end)
      → place_span buf name p vals ≡ some (bit', vals')
      → All (Within buf) vals'
  unfolding place_span
  place_span-Within name bit' none vals vals' all ordered h = absurd (ground arith)
  place_span-Within name bit' (some (start, end)) vals vals' all ordered h =
      elim (Bool-cases (ltb (length buf) end)) [
        | inl e ↦ absurd (let h' = rw e at h in ground arith)
        | inr e ↦
            carried buf (end * 8) bit' ((name, span start end) ∷ vals) vals' (rw e at h)
              ((ordered start end refl, ground arith), all)
      ]

  spanned :
      (name : ℕ) (k : Mandatory) (size bit bit' : ℕ) (vals vals' : Values)
      → All (Within buf) vals
      → (if not (bit % 8 == 0)
          then none
          else place_span buf name (mand_span buf k size (bit / 8)) vals)
        ≡ some (bit', vals')
      → All (Within buf) vals'
  spanned name k size bit bit' vals vals' all h = elim (Bool-cases (bit % 8 == 0)) [
    | inl e ↦
        place_span-Within name bit' (mand_span buf k size (bit / 8)) vals vals' all
          (λ start end. mand_span_ordered k size (bit / 8) start end) (rw e at h)
    | inr e ↦ absurd (let h' = rw e at h in ground arith)
  ]

  mand_step-Within :
      (ie : ℕ × Mandatory × ℕ) (bit bit' : ℕ) (vals vals' : Values)
      → All (Within buf) vals
      → mand_step buf ie bit vals ≡ some (bit', vals')
      → All (Within buf) vals'
  unfolding mand_step
  mand_step-Within (name, fixed, size) bit bit' vals vals' all h =
      carried buf (bit + size) bit' vals vals' h all
  mand_step-Within (name, nibble, size) bit bit' vals vals' all h =
      elim (Bool-cases (leb (length buf) (bit / 8))) [
        | inl e ↦ absurd (let h' = rw e at h in ground arith)
        | inr e ↦
            let octet = get_or-IsByte buf (bit / 8) bytes in
            carried buf (bit + 4) bit' _ vals' (rw e at h) (ground (arith, octet), all)
      ]
  mand_step-Within (name, v, size) bit bit' vals vals' all h =
      spanned name v size bit bit' vals vals' all h
  mand_step-Within (name, lv, size) bit bit' vals vals' all h =
      spanned name lv size bit bit' vals vals' all h
  mand_step-Within (name, lve, size) bit bit' vals vals' all h =
      spanned name lve size bit bit' vals vals' all h

  mand_walk-Within :
      (ies : List (ℕ × Mandatory × ℕ)) (bit bit' : ℕ) (vals vals' : Values)
      → All (Within buf) vals
      → mand_walk buf ies bit vals ≡ some (bit', vals')
      → All (Within buf) vals'
  unfolding mand_walk
  mand_walk-Within [] bit bit' vals vals' all h = carried buf bit bit' vals vals' h all
  mand_walk-Within (ie ∷ ies) bit bit' vals vals' all h =
      elim (Option-cases (mand_step buf ie bit vals)) [
        | inl e ↦ absurd (ground arith)
        | inr ((b, vs), e) ↦
            mand_walk-Within ies b bit' vs vals' (mand_step-Within ie bit b vals vs all e)
              (ground arith)
      ]

  -- An optional IE takes an octet at least, within the message, and its value is within the message.
  Moved : ℕ → ℕ → ℕ × Value → Type 0
  Moved name o (next, value) = (o < next) × (next ≤ length buf) × Within buf (name, value)

  taken : (name o : ℕ) (p q : ℕ × Value) → some p ≡ some q → Moved name o p → Moved name o q
  taken name o p q h m =
      let same : p ≡ q = ap (λ r. elim r [ none ↦ p | some x ↦ x ]) h in rw (← same) m

  taken_if :
      (name o : ℕ) (b : Bool) (p q : ℕ × Value)
      → (if b then none else some p) ≡ some q
      → (b ≡ false → Moved name o p)
      → Moved name o q
  taken_if name o true p q h m = absurd (ground arith)
  taken_if name o false p q h m = taken name o p q h (m refl)

  opt_value_within :
      (k : Optional) (name size o : ℕ) (p : ℕ × Value)
      → o < length buf
      → opt_value buf k size o ≡ some p
      → Moved name o p
  unfolding opt_value Moved
  opt_value_within tv1 name size o p lt h =
      let octet = get_or-IsByte buf o bytes in
      taken name o _ p h (omega arith, omega arith, omega arith)
  opt_value_within t2 name size o p lt h = taken name o _ p h (omega arith, omega arith, tt)
  opt_value_within tv name size o p lt h =
      taken_if name o _ _ p h (λ e. (omega arith, ground arith, (omega arith, ground arith)))
  opt_value_within tlv name size o p lt h =
      taken_if name o _ _ p h (λ e. (omega arith, ground arith, (omega arith, ground arith)))
  opt_value_within tlve name size o p lt h =
      taken_if name o _ _ p h (λ e. (omega arith, ground arith, (omega arith, ground arith)))

  -- One turn of the loop over the optional IEs.
  opt_step-Within :
      (l : Layout) (o next : ℕ) (used used' : List ℕ) (vals vals' : Values)
      → o < length buf
      → All (Within buf) vals
      → opt_step l buf o used vals ≡ some (next, used', vals')
      → (o < next) × All (Within buf) vals'
  unfolding opt_step Moved
  opt_step-Within l o next used used' vals vals' lt all h =
      elim (Option-cases (first_unused used (l.match (get_or buf o 0)))) [
        | inl e ↦ absurd (ground arith)
        | inr (i, e) ↦ elim (Option-cases (get_elem? l.opts i)) [
          | inl e' ↦ absurd (ground arith)
          | inr ((name, kind, size), e') ↦ elim (Option-cases (opt_value buf kind size o)) [
            | inl e'' ↦ absurd (ground arith)
            | inr ((n, value), e'') ↦
                let m = opt_value_within kind name size o (n, value) lt e'' in
                let same : n ≡ next = ground arith in
                let same' : (name, value) ∷ vals ≡ vals' = ground arith in
                (omega (arith, m), rw (← same') (m.2, all))
          ]
        ]
      ]

  opt_walk-Within :
      (fuel : ℕ) (l : Layout) (o : ℕ) (used : List ℕ) (vals vals' : Values)
      → All (Within buf) vals
      → opt_walk fuel l buf o used vals ≡ some vals'
      → All (Within buf) vals'
  unfolding opt_walk
  opt_walk-Within zero l o used vals vals' all h = elim (Bool-cases (ltb o (length buf))) [
    | inl e ↦ absurd (ground arith)
    | inr e ↦ let same : vals ≡ vals' = ground arith in rw (← same) all
  ]
  opt_walk-Within (suc fuel) l o used vals vals' all h = elim (Bool-cases (ltb o (length buf))) [
    | inr e ↦ let same : vals ≡ vals' = ground arith in rw (← same) all
    | inl e ↦ elim (Option-cases (opt_step l buf o used vals)) [
      | inl e' ↦ absurd (ground arith)
      | inr ((next, used', vs), e') ↦
          opt_walk-Within fuel l next used' vs vals'
            (opt_step-Within l o next used used' vals vs (ltb→lt _ _ e) all e').1 (ground arith)
    ]
  ]

  -- The loop's fuel does not matter once it has a turn for each octet left.
  opt_walk_enough :
      (fuel fuel' : ℕ) (l : Layout) (o : ℕ) (used : List ℕ) (vals : Values)
      → All (Within buf) vals
      → length buf ≤ o + fuel
      → length buf ≤ o + fuel'
      → opt_walk fuel l buf o used vals ≡ opt_walk fuel' l buf o used vals
  unfolding opt_walk
  opt_walk_enough zero zero l o used vals all h k = refl
  opt_walk_enough zero (suc fuel') l o used vals all h k = ground arith
  opt_walk_enough (suc fuel) zero l o used vals all h k = ground arith
  opt_walk_enough (suc fuel) (suc fuel') l o used vals all h k =
      elim (Bool-cases (ltb o (length buf))) [
        | inr e ↦ ground arith
        | inl e ↦ elim (Option-cases (opt_step l buf o used vals)) [
          | inl e' ↦ ground arith
          | inr ((next, used', vs), e') ↦
              let (moves, all') =
                opt_step-Within l o next used used' vals vs (ltb→lt _ _ e) all e' in
              ground
                (arith, opt_walk_enough fuel fuel' l next used' vs all' (omega arith) (omega arith))
        ]
      ]

-- Every value of a walk is within the message: a nibble is below 16, and a span ends with the message
-- at the latest.
pub walk-Within :
    (l : Layout) (buf : List ℕ) (vals : Values)
    → All IsByte buf
    → walk l buf ≡ some vals
    → All (Within buf) vals
unfolding walk
walk-Within l buf vals bytes h = elim (Option-cases (mand_walk buf l.mand 0 [])) [
  | inl e ↦ absurd (ground arith)
  | inr ((bit, vs), e) ↦
      opt_walk-Within buf bytes (length buf) l (bit / 8) [] vs vals
        (mand_walk-Within buf bytes l.mand 0 bit [] vs tt e) (ground arith)
]

-- The walk's loop ends by itself: whatever fuel above the message's length it is given, it gives the
-- walk's answer.
pub walk_enough :
    (l : Layout) (buf : List ℕ) (fuel bit : ℕ) (vals : Values)
    → All IsByte buf
    → length buf ≤ fuel
    → mand_walk buf l.mand 0 [] ≡ some (bit, vals)
    → bit % 8 ≡ 0
    → bit ≤ length buf * 8
    → walk l buf ≡ opt_walk fuel l buf (bit / 8) [] vals
unfolding walk
walk_enough l buf fuel bit vals bytes enough h whole within = ground (
  arith,
  opt_walk_enough buf bytes (length buf) fuel l (bit / 8) [] vals
      (mand_walk-Within buf bytes l.mand 0 bit [] vals tt h) (omega arith) (omega arith),
)
