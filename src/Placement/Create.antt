-- ===== src/Placement/Create.antt =====
-- What `create_ues` of run.py returns: the UEs of the profiles, in turn over the gNBs, and then over
-- each gNB's UE simulators.
use core_network_traffic_gen.Common.{
  ℕ, zero, suc, ◌+◌, ◌-◌, ◌%◌, ◌≤◌, ◌<◌, ◌≡◌, refl, sym, ap, ap₂, ◌∙◌, arith, inl, inr, min,
}
use core_network_traffic_gen.Common.{
  ◌==◌, ltb, lt→ltb, le→ltb, false, if◌then◌else◌, lt-cases, Option-cases, Option, some, none, List,
  [], ◌∷◌, ◌++◌, length, length-append, length-take, get_or, replicate, take,
}
use mathlib.Core.Option.{some-injective}
use core_network_traffic_gen.Common.Table.{lookup, insert}
use core_network_traffic_gen.Placement.Ues.{
  Table, amend, split_from, Profile, ue_of, create_from, base_of, init_of, create_all, create_ues,
}
use core_network_traffic_gen.Placement.Deal.{turn, Distinct, length-split_from}
use core_network_traffic_gen.Placement.Split.{IsFront, part_of, parts-IsFront, length-replicate}

the_same : (p : ℕ) → p ≡ p + 0
the_same p = omega arith

none_before : (n : ℕ) → 0 + n ≡ n
none_before n = omega arith

shifted : (p m n : ℕ) → p + m + n ≡ p + (m + n)
shifted p m n = omega arith

one_on : (p n : ℕ) → suc p + n ≡ p + suc n
one_on p n = omega arith

module _ {ℓ} {V : Type ℓ} where
  split_from-append :
      (k p : ℕ) (ues more : List (ℕ × V)) (parts : List (Table V))
      → split_from k p (ues ++ more) parts
        ≡ split_from k (p + length ues) more (split_from k p ues parts)
  unfolding split_from
  split_from-append k p [] more parts = ap (λ q. split_from k q more parts) (the_same p)
  split_from-append k p ((ue_id, ue) ∷ ues) more parts =
      split_from-append k (suc p) ues more (amend (p % k) (insert ue_id ue) parts)
      ∙ ap (λ q. split_from k q more (split_from k p ((ue_id, ue) ∷ ues) parts))
          (one_on p (length ues))

  lookup-turn :
      (key k j : ℕ) (ues : List (ℕ × V)) → lookup key ues ≡ none → lookup key (turn k j ues) ≡ none
  unfolding lookup turn
  lookup-turn key k j [] e = refl
  lookup-turn key k zero (entry ∷ ues) e = ground (arith, lookup-turn key k (k - 1) ues)
  lookup-turn key k (suc j) (entry ∷ ues) e = ground (arith, lookup-turn key k j ues)

  pub Distinct-turn : (k j : ℕ) (ues : List (ℕ × V)) → Distinct ues → Distinct (turn k j ues)
  unfolding Distinct turn
  Distinct-turn k j [] once = once
  Distinct-turn k zero (entry ∷ ues) once =
      (lookup-turn entry.0 k (k - 1) ues once.0, Distinct-turn k (k - 1) ues once.1)
  Distinct-turn k (suc j) (entry ∷ ues) once = Distinct-turn k j ues once.1

module _ {ℓ} {C : Type ℓ} {U : Type ℓ} (new : Profile C → U) where
  -- The UEs of a profile with their indices, `n` of them from i on.
  unfoldable pub from_index : Profile C → List ℕ → ℕ → ℕ → List (ℕ × U)
  from_index profile base_imsi zero i = []
  from_index profile base_imsi (suc n) i =
      (i, ue_of new profile base_imsi i) ∷ from_index profile base_imsi n (suc i)

  -- The UEs of the profiles, one after the other.
  unfoldable pub listed : List (Profile C) → Option (List (ℕ × U))
  listed [] = some []
  listed (profile ∷ profiles) = elim (init_of profile) [
    | none ↦ none
    | some i ↦ elim (listed profiles) [
      | none ↦ none
      | some ues ↦ some (from_index profile (base_of profile) profile.count i ++ ues)
    ]
  ]

  create_from-split_from :
      (profile : Profile C) (base_imsi : List ℕ) (x n i p : ℕ) (dicts : List (Table U))
      → create_from new profile base_imsi x n i p dicts
        ≡ (split_from x p (from_index profile base_imsi n i) dicts, p + n)
  unfolding create_from split_from from_index
  create_from-split_from profile base_imsi x zero i p dicts = ap (λ q. (dicts, q)) (the_same p)
  create_from-split_from profile base_imsi x (suc n) i p dicts =
      create_from-split_from profile base_imsi x n (suc i) (suc p)
        (amend (p % x) (insert i (ue_of new profile base_imsi i)) dicts)
      ∙ ap (λ q. (split_from x p (from_index profile base_imsi (suc n) i) dicts, q)) (one_on p n)

  length-from_index :
      (profile : Profile C) (base_imsi : List ℕ) (n i : ℕ)
      → length (from_index profile base_imsi n i) ≡ n
  unfolding from_index
  length-from_index profile base_imsi zero i = refl
  length-from_index profile base_imsi (suc n) i =
      ap suc (length-from_index profile base_imsi n (suc i))

  counted :
      (p : ℕ) (profile : Profile C) (i : ℕ)
      → p + profile.count ≡ p + length (from_index profile (base_of profile) profile.count i)
  counted p profile i =
      ap (λ n. p + n) (sym (length-from_index profile (base_of profile) profile.count i))

  listed_step :
      (profile : Profile C) (profiles : List (Profile C)) (i : ℕ) (rest : List (ℕ × U))
      → init_of profile ≡ some i
      → listed profiles ≡ some rest
      → listed (profile ∷ profiles)
        ≡ some (from_index profile (base_of profile) profile.count i ++ rest)
  unfolding listed
  listed_step profile profiles i rest good more = rw (listed, good, more) refl

  create_all_step :
      (x p : ℕ) (profile : Profile C) (profiles : List (Profile C)) (i : ℕ) (dicts : List (Table U))
      → init_of profile ≡ some i
      → create_all new x (profile ∷ profiles) p dicts
        ≡ create_all new x profiles
            (p + profile.count)
            (split_from x p (from_index profile (base_of profile) profile.count i) dicts)
  unfolding create_all
  create_all_step x p profile profiles i dicts good =
      rw (create_all, good)
        (ap (λ made. create_all new x profiles made.1 made.0)
          (create_from-split_from profile (base_of profile) x profile.count i p dicts))

  -- The loop over the profiles deals out the UEs listed.
  create_all-listed :
      (x p : ℕ) (profiles : List (Profile C)) (ues : List (ℕ × U)) (dicts : List (Table U))
      → listed profiles ≡ some ues
      → create_all new x profiles p dicts ≡ some (split_from x p ues dicts, p + length ues)
  unfolding create_all listed split_from
  create_all-listed x p [] ues dicts e =
      ap (λ q. some (dicts, q)) (the_same p)
      ∙ ap (λ us. some (split_from x p us dicts, p + length us)) (some-injective [] ues e)
  create_all-listed x p (profile ∷ profiles) ues dicts e = elim (Option-cases (init_of profile)) [
    | inl bad ↦ absurd (ground arith)
    | inr (i, good) ↦ elim (Option-cases (listed profiles)) [
      | inl bad ↦ absurd (ground arith)
      | inr (rest, more) ↦
          let new_ues : List (ℕ × U) = from_index profile (base_of profile) profile.count i in
          let all : new_ues ++ rest ≡ ues =
            some-injective (new_ues ++ rest) ues
              (sym (listed_step profile profiles i rest good more) ∙ e) in
          create_all_step x p profile profiles i dicts good
          ∙ create_all-listed x (p + profile.count) profiles rest (split_from x p new_ues dicts)
              more
          ∙ ap₂ (λ parts q. some (parts, q))
              (ap (λ q. split_from x q rest (split_from x p new_ues dicts)) (counted p profile i)
                ∙ sym (split_from-append x p new_ues rest dicts)
                ∙ ap (λ us. split_from x p us dicts) all)
              (ap (λ q. q + length rest) (counted p profile i)
                ∙ shifted p (length new_ues) (length rest)
                ∙ ap (λ n. p + n) (sym (length-append new_ues rest) ∙ ap length all))
    ]
  ]

module _ {ℓ} {A : Type ℓ} where
  -- Leaving out parts that hold nothing changes no place.
  get_or-take :
      (n j : ℕ) (parts : List (List A))
      → ((i : ℕ) → n ≤ i → get_or parts i [] ≡ [])
      → get_or (take n parts) j [] ≡ get_or parts j []
  get_or-take zero j parts h = sym (h j (omega arith))
  get_or-take (suc n) j [] h = refl
  get_or-take (suc n) zero (part ∷ parts) h = refl
  get_or-take (suc n) (suc j) (part ∷ parts) h =
      get_or-take n j parts (λ i big. h (suc i) (omega arith))

module _ {ℓ} {C : Type ℓ} {U : Type ℓ} (new : Profile C → U) where
  create_ues_step :
      (profiles : List (Profile C)) (x n : ℕ) (all : List (Table U))
      → 1 ≤ x
      → create_all new x profiles 0 (replicate x []) ≡ some (all, n)
      → create_ues new profiles x ≡ some ((if ltb n x then take n all else all), n)
  unfolding create_ues
  create_ues_step profiles x n all h made =
      let some_gnb : (x == 0) ≡ false = ground arith in rw (create_ues, made, some_gnb) refl

  -- The gNBs' dictionaries: as many as asked for or, with fewer UEs, as UEs, and in turn the UEs listed.
  pub create_ues-listed :
      (profiles : List (Profile C)) (x : ℕ) (ues : List (ℕ × U))
      → 1 ≤ x
      → listed new profiles ≡ some ues
      → Distinct ues
      → (dicts : List (Table U)) × (create_ues new profiles x ≡ some (dicts, length ues))
        × (length dicts ≡ min x (length ues))
        × ((j : ℕ) → j < x → get_or dicts j [] ≡ turn x j ues)
  create_ues-listed profiles x ues h e once =
      let all : List (Table U) = split_from x 0 ues (replicate x []) in
      let made : create_all new x profiles 0 (replicate x []) ≡ some (all, length ues) =
        create_all-listed new x 0 profiles ues (replicate x []) e
        ∙ ap (λ n. some (all, n)) (none_before (length ues)) in
      let len : length all ≡ x =
        length-split_from x 0 ues (replicate x []) ∙ length-replicate {A = Table U} x [] in
      let front : IsFront (min x (length ues)) all = parts-IsFront x ues h once in
      elim (lt-cases (length ues) x) [
        | inl fewer ↦ (
          take (length ues) all,
          create_ues_step profiles x (length ues) all h made
              ∙ ap (λ b. some ((if b then take (length ues) all else all), length ues))
                  (lt→ltb (length ues) x fewer),
          omega (arith, length-take (length ues) all),
          λ j small.
              get_or-take (length ues) j all (λ i big. front.1 i (omega arith))
              ∙ part_of x j ues h small once,
        )
        | inr more ↦ (
          all,
          create_ues_step profiles x (length ues) all h made
              ∙ ap (λ b. some ((if b then take (length ues) all else all), length ues))
                  (le→ltb (length ues) x more),
          omega arith,
          λ j small. part_of x j ues h small once,
        )
      ]
