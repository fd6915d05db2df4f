-- ===== src/Placement/Split.antt =====
-- What `split_ues` of run.py returns: every UE once, in a part and at a place that its place in the
-- gNB's start order gives, and no empty part.
use core_network_traffic_gen.Common.{
  ℕ, zero, suc, ◌+◌, ◌*◌, ◌%◌, ◌≤◌, ◌<◌, ◌≡◌, refl, sym, ap, ap₂, subst, ◌∙◌, arith, inl, inr, min,
}
use core_network_traffic_gen.Common.{
  lt-cases, some, List, [], ◌∷◌, ◌++◌, length, get_elem?, get_or, replicate,
}
use core_network_traffic_gen.Common.Table.{lookup}
use core_network_traffic_gen.Placement.Ues.{Table, non_empty, split_from, split_ues}
use core_network_traffic_gen.Placement.Deal.{
  turn, get_elem?-turn, until, Distinct, get_or-split_from, length-split_from,
}
use native.Mathlib.Nat.{zero-mod}

module _ {ℓ} {A : Type ℓ} where
  pub length-replicate : (n : ℕ) (a : A) → length (replicate n a) ≡ n
  length-replicate zero a = refl
  length-replicate (suc n) a = ap suc (length-replicate n a)

  pub get_or-replicate : (n j : ℕ) (a : A) → get_or (replicate n a) j a ≡ a
  get_or-replicate zero j a = refl
  get_or-replicate (suc n) zero a = refl
  get_or-replicate (suc n) (suc j) a = get_or-replicate n j a

  pub get_or_past : (xs : List A) (j : ℕ) (d : A) → length xs ≤ j → get_or xs j d ≡ d
  get_or_past [] j d h = refl
  get_or_past (x ∷ xs) zero d h = absurd (omega arith)
  get_or_past (x ∷ xs) (suc j) d h = get_or_past xs j d (omega arith)

  turn_some : (k j : ℕ) (xs : List A) → j < length xs → 1 ≤ length (turn k j xs)
  unfolding turn
  turn_some k j [] h = absurd (omega arith)
  turn_some k zero (x ∷ xs) h = omega arith
  turn_some k (suc j) (x ∷ xs) h = turn_some k j xs (omega arith)

  turn_none : (k j : ℕ) (xs : List A) → length xs ≤ j → turn k j xs ≡ []
  unfolding turn
  turn_none k j [] h = refl
  turn_none k zero (x ∷ xs) h = absurd (omega arith)
  turn_none k (suc j) (x ∷ xs) h = turn_none k j xs (omega arith)

  -- The first n parts hold something and the others nothing.
  abbrev pub IsFront : ℕ → List (List A) → Type ℓ
  IsFront n parts =
      ((j : ℕ) → j < n → 1 ≤ length (get_or parts j []))
      × ((j : ℕ) → n ≤ j → get_or parts j [] ≡ [])

  rest_IsFront :
      (part : List A) (parts : List (List A)) → IsFront 0 (part ∷ parts) → IsFront 0 parts
  rest_IsFront part parts h =
      ((λ j small. absurd (omega arith)), λ j big. h.1 (suc j) (omega arith))

  tail_IsFront :
      (n : ℕ) (part : List A) (parts : List (List A))
      → IsFront (suc n) (part ∷ parts)
      → IsFront n parts
  tail_IsFront n part parts h =
      ((λ j small. h.0 (suc j) (omega arith)), λ j big. h.1 (suc j) (omega arith))

  head_or :
      (x : List A) (xs ys : List (List A))
      → ((j : ℕ) → get_or xs j [] ≡ get_or ys j [])
      → (j : ℕ) → get_or (x ∷ xs) j [] ≡ get_or (x ∷ ys) j []
  head_or x xs ys h zero = refl
  head_or x xs ys h (suc j) = h j

  pub non_empty_lem :
      (n : ℕ) (parts : List (List A))
      → IsFront n parts
      → (length (non_empty parts) ≡ n)
        × ((j : ℕ) → get_or (non_empty parts) j [] ≡ get_or parts j [])
  unfolding non_empty
  non_empty_lem zero [] h = (refl, λ j. refl)
  non_empty_lem (suc n) [] h = absurd (omega (arith, h.0 0 (omega arith)))
  non_empty_lem zero ([] ∷ parts) h =
      let ih : (length (non_empty parts) ≡ 0)
          × ((j : ℕ) → get_or (non_empty parts) j [] ≡ get_or parts j []) =
        non_empty_lem zero parts (rest_IsFront [] parts h) in
      (ih.0, λ j. ih.1 j ∙ (rest_IsFront [] parts h).1 j (omega arith) ∙ sym (h.1 j (omega arith)))
  non_empty_lem zero ((x ∷ xs) ∷ parts) h = absurd (omega (arith, ap length (h.1 0 (omega arith))))
  non_empty_lem (suc n) ([] ∷ parts) h = absurd (omega (arith, h.0 0 (omega arith)))
  non_empty_lem (suc n) ((x ∷ xs) ∷ parts) h =
      let ih : (length (non_empty parts) ≡ n)
          × ((j : ℕ) → get_or (non_empty parts) j [] ≡ get_or parts j []) =
        non_empty_lem n parts (tail_IsFront n (x ∷ xs) parts h) in
      (ap suc ih.0, head_or (x ∷ xs) (non_empty parts) parts ih.1)

until_first : (k j : ℕ) → until k (0 % k) j ≡ j
until_first k j = ap (λ c. until k c j) (zero-mod k) ∙ ground arith

module _ {ℓ} {V : Type ℓ} where
  -- The UEs of a part that is dealt out of nothing.
  pub part_of :
      (k j : ℕ) (ues : List (ℕ × V))
      → 1 ≤ k
      → j < k
      → Distinct ues
      → get_or (split_from k 0 ues (replicate k [])) j [] ≡ turn k j ues
  part_of k j ues h small once =
      get_or-split_from k 0 j ues (replicate k []) h small (length-replicate k []) once
        (λ key i fits. inr (ap (lookup key) (get_or-replicate k i []) ∙ unfold lookup in refl))
      ∙ ap₂ (λ part c. part ++ turn k c ues) (get_or-replicate k j []) (until_first k j)

  pub parts-IsFront :
      (k : ℕ) (ues : List (ℕ × V))
      → 1 ≤ k
      → Distinct ues
      → IsFront (min k (length ues)) (split_from k 0 ues (replicate k []))
  parts-IsFront k ues h once = (
    λ j small.
        subst (λ part. 1 ≤ length part) (sym (part_of k j ues h (omega arith) once))
          (turn_some k j ues (omega arith)),
    λ j big. elim (lt-cases j k) [
      | inl small ↦ part_of k j ues h small once ∙ turn_none k j ues (omega arith)
      | inr past ↦ get_or_past (split_from k 0 ues (replicate k [])) j [] (
          omega (
            arith,
            length-split_from k 0 ues (replicate k []),
            length-replicate {A = Table V} k [],
          ))
    ],
  )

  -- A UE's place after the split: with k simulators, the i-th UE of simulator j is the gNB's UE
  -- j + i * k, where either exists; there are as many parts as simulators or, with fewer UEs, as UEs.
  pub split_ues_lem :
      (ues : Table V) (k : ℕ)
      → 1 ≤ k
      → Distinct ues
      → (parts : List (Table V)) × (split_ues ues k ≡ some parts)
        × (length parts ≡ min k (length ues))
        × ((j i : ℕ) → j < k → get_elem? (get_or parts j []) i ≡ get_elem? ues (j + i * k))
  unfolding split_ues
  split_ues_lem ues k h once =
      let all : List (Table V) = split_from k 0 ues (replicate k []) in
      let kept : (length (non_empty all) ≡ min k (length ues))
          × ((j : ℕ) → get_or (non_empty all) j [] ≡ get_or all j []) =
        non_empty_lem (min k (length ues)) all (parts-IsFront k ues h once) in
      (
        non_empty all,
        ground arith,
        kept.0,
        λ j i small.
            ap (λ part. get_elem? part i) (kept.1 j ∙ part_of k j ues h small once)
            ∙ get_elem?-turn k j i ues h,
      )
