-- ===== src/Placement/Deal.antt =====
-- Dealing UEs out in turn: what the loop of `split_ues` leaves in each part.
use core_network_traffic_gen.Common.{
  ℕ, zero, suc, ◌+◌, ◌-◌, ◌*◌, ◌%◌, ◌≤◌, ◌<◌, ◌≡◌, refl, sym, ap, ap₂, ◌∙◌, arith, ◌⊎◌, inl, inr,
}
use core_network_traffic_gen.Common.{
  leb, ◌==◌, if◌then◌else◌, Bool-cases, lt-cases, ==_refl, true, false, none, List, [], ◌∷◌, ◌++◌,
  length, get_elem?, get_or, append-nil, append_assoc,
}
use core_network_traffic_gen.Common.Table.{lookup, insert, lookup-insert}
use core_network_traffic_gen.Placement.Ues.{amend, split_from}
use native.Mathlib.Nat.{mod-lt, suc-mod, mod-eq_of_lt, mod_self}

-- The UEs at places j, j + k, ... of a list.
unfoldable pub turn {ℓ} : {A : Type ℓ} → ℕ → ℕ → List A → List A
turn k j [] = []
turn k zero (x ∷ xs) = x ∷ turn k (k - 1) xs
turn k (suc j) (x ∷ xs) = turn k j xs

start_place : (k : ℕ) → 0 + 0 * k ≡ 0
start_place k = omega arith

later_place : (k j i : ℕ) → suc (j + i * k) ≡ suc j + i * k
later_place k j i = omega arith

one_more : (k i : ℕ) → 1 ≤ k → suc (k - 1 + i * k) ≡ 0 + suc i * k
one_more k i h = omega arith

pub get_elem?-turn {ℓ} :
    {A : Type ℓ} (k j i : ℕ) (xs : List A)
    → 1 ≤ k
    → get_elem? (turn k j xs) i ≡ get_elem? xs (j + i * k)
unfolding turn
get_elem?-turn k j i [] h = refl
get_elem?-turn k zero zero (x ∷ xs) h = sym (ap (get_elem? (x ∷ xs)) (start_place k))
get_elem?-turn k zero (suc i) (x ∷ xs) h =
    get_elem?-turn k (k - 1) i xs h ∙ ap (get_elem? (x ∷ xs)) (one_more k i h)
get_elem?-turn k (suc j) i (x ∷ xs) h =
    get_elem?-turn k j i xs h ∙ ap (get_elem? (x ∷ xs)) (later_place k j i)

-- How many turns after that of simulator c it is simulator j's.
abbrev pub until : ℕ → ℕ → ℕ → ℕ
until k c j = if leb c j then j - c else j + k - c

carried : (k p : ℕ) → suc p % k ≡ suc (p % k) % k
carried k p = suc-mod p k

-- The place after p, of k in turn.
next_place :
    (k p : ℕ)
    → 1 ≤ k
    → ((suc (p % k) < k) × (suc p % k ≡ suc (p % k))) ⊎ ((suc (p % k) ≡ k) × (suc p % k ≡ 0))
next_place k p h = elim (lt-cases (suc (p % k)) k) [
  | inl below ↦ inl (below, carried k p ∙ mod-eq_of_lt below)
  | inr above ↦
      let last : suc (p % k) ≡ k = omega (arith, mod-lt p h) in
      inr (last, carried k p ∙ ap (λ n. n % k) last ∙ mod_self k)
]

module _ {ℓ} {A : Type ℓ} where
  pub length-amend : (i : ℕ) (f : A → A) (xs : List A) → length (amend i f xs) ≡ length xs
  unfolding amend
  length-amend i f [] = refl
  length-amend zero f (x ∷ xs) = refl
  length-amend (suc i) f (x ∷ xs) = ap suc (length-amend i f xs)

  pub get_or-amend :
      (i j : ℕ) (f : A → A) (xs : List A) (d : A)
      → j < length xs
      → get_or (amend i f xs) j d ≡ (if i == j then f (get_or xs j d) else get_or xs j d)
  unfolding amend
  get_or-amend i j f [] d h = absurd (omega arith)
  get_or-amend zero zero f (x ∷ xs) d h = refl
  get_or-amend zero (suc j) f (x ∷ xs) d h = ground arith
  get_or-amend (suc i) zero f (x ∷ xs) d h = ground arith
  get_or-amend (suc i) (suc j) f (x ∷ xs) d h =
      ground (arith, get_or-amend i j f xs d (omega arith))

-- A step of the deal as simulator j sees it: it is its turn, or its turn is one nearer.
turn_step :
    (k p j : ℕ)
    → 1 ≤ k
    → j < k
    → (((p % k == j) ≡ true) × (until k (p % k) j ≡ 0) × (until k (suc p % k) j ≡ k - 1))
      ⊎ (((p % k == j) ≡ false) × (until k (p % k) j ≡ suc (until k (suc p % k) j)))
turn_step k p j h small = elim (next_place k p h) [
  | inl (below, next) ↦ elim (Bool-cases (p % k == j)) [
    | inl here ↦ inl (here, ground arith, ground arith)
    | inr away ↦ inr (away, ground arith)
  ]
  | inr (last, next) ↦ elim (Bool-cases (p % k == j)) [
    | inl here ↦ inl (here, ground arith, ground arith)
    | inr away ↦ inr (away, ground arith)
  ]
]

the_key : (i key : ℕ) → (i == key) ≡ true → key ≡ i
the_key i key e = ground arith

module _ {ℓ} {V : Type ℓ} where
  -- The keys of a dictionary stand once.
  unfoldable pub Distinct : List (ℕ × V) → Type ℓ
  Distinct [] = Unit
  Distinct (entry ∷ entries) = (lookup entry.0 entries ≡ none) × Distinct entries

  insert_fresh :
      (key : ℕ) (value : V) (entries : List (ℕ × V))
      → lookup key entries ≡ none
      → insert key value entries ≡ entries ++ ((key, value) ∷ [])
  unfolding lookup insert
  insert_fresh key value [] e = refl
  insert_fresh key value (entry ∷ entries) e = elim (Bool-cases (entry.0 == key)) [
    | inl same ↦ absurd (ground arith)
    | inr other ↦
        let ih : insert key value entries ≡ entries ++ ((key, value) ∷ []) =
          insert_fresh key value entries (ground arith) in
        ground arith
  ]

  -- No key of the UEs left is in a part yet.
  abbrev pub Apart : List (ℕ × V) → List (List (ℕ × V)) → Type ℓ
  Apart ues parts =
      (key j : ℕ)
      → j < length parts
      → (lookup key ues ≡ none) ⊎ (lookup key (get_or parts j []) ≡ none)

  fresh_key :
      (ue_id j : ℕ) (ue : V) (ues : List (ℕ × V)) (parts : List (List (ℕ × V)))
      → j < length parts
      → Apart ((ue_id, ue) ∷ ues) parts
      → lookup ue_id (get_or parts j []) ≡ none
  unfolding lookup
  fresh_key ue_id j ue ues parts small apart = elim (apart ue_id j small) [
    | inl gone ↦ absurd (ground (arith, ==_refl ue_id))
    | inr free ↦ free
  ]

  -- A part after a UE has been dealt out.
  dealt :
      (i j ue_id : ℕ) (ue : V) (parts : List (List (ℕ × V)))
      → j < length parts
      → lookup ue_id (get_or parts j []) ≡ none
      → get_or (amend i (insert ue_id ue) parts) j []
        ≡ (if i == j then get_or parts j [] ++ ((ue_id, ue) ∷ []) else get_or parts j [])
  dealt i j ue_id ue parts small fresh =
      get_or-amend i j (insert ue_id ue) parts [] small
      ∙ ap (λ part. if i == j then part else get_or parts j [])
          (insert_fresh ue_id ue (get_or parts j []) fresh)

  dealt-Apart :
      (i ue_id : ℕ) (ue : V) (ues : List (ℕ × V)) (parts : List (List (ℕ × V)))
      → lookup ue_id ues ≡ none
      → Apart ((ue_id, ue) ∷ ues) parts
      → Apart ues (amend i (insert ue_id ue) parts)
  unfolding lookup
  dealt-Apart i ue_id ue ues parts once apart key j small =
      let fits : j < length parts = omega (arith, length-amend i (insert ue_id ue) parts) in
      let changed : get_or (amend i (insert ue_id ue) parts) j []
          ≡ (if i == j then insert ue_id ue (get_or parts j []) else get_or parts j []) =
        get_or-amend i j (insert ue_id ue) parts [] fits in
      elim (apart key j fits) [
        | inl gone ↦ inl (ground arith)
        | inr free ↦ elim (Bool-cases (ue_id == key)) [
          | inl same ↦ inl (ap (λ other. lookup other ues) (the_key ue_id key same) ∙ once)
          | inr other ↦ inr (ground (arith, lookup-insert ue_id key ue (get_or parts j [])))
        ]
      ]

  -- What the loop leaves in part j: what was there, and then the UEs whose turn it is.
  pub get_or-split_from :
      (k p j : ℕ) (ues : List (ℕ × V)) (parts : List (List (ℕ × V)))
      → 1 ≤ k
      → j < k
      → length parts ≡ k
      → Distinct ues
      → Apart ues parts
      → get_or (split_from k p ues parts) j [] ≡ get_or parts j [] ++ turn k (until k (p % k) j) ues
  unfolding split_from turn Distinct
  get_or-split_from k p j [] parts h small len once apart = sym (append-nil (get_or parts j []))
  get_or-split_from k p j ((ue_id, ue) ∷ ues) parts h small len once apart =
      let ih : get_or (split_from k p ((ue_id, ue) ∷ ues) parts) j []
          ≡ get_or (amend (p % k) (insert ue_id ue) parts) j []
            ++ turn k (until k (suc p % k) j) ues =
        get_or-split_from k (suc p) j ues (amend (p % k) (insert ue_id ue) parts) h small
          (length-amend (p % k) (insert ue_id ue) parts ∙ len) once.1
          (dealt-Apart (p % k) ue_id ue ues parts once.0 apart) in
      let old : List (ℕ × V) = get_or parts j [] in
      let fits : j < length parts = omega arith in
      let part : get_or (amend (p % k) (insert ue_id ue) parts) j []
          ≡ (if p % k == j then get_or parts j [] ++ ((ue_id, ue) ∷ []) else get_or parts j []) =
        dealt (p % k) j ue_id ue parts fits (fresh_key ue_id j ue ues parts fits apart) in
      elim (turn_step k p j h small) [
        | inl (here, now, next) ↦
            ih
            ∙ ap₂ (λ front c. front ++ turn k c ues)
                (part ∙ ap (λ b. if b then old ++ ((ue_id, ue) ∷ []) else old) here) next
            ∙ append_assoc old ((ue_id, ue) ∷ []) (turn k (k - 1) ues)
            ∙ ap (λ c. old ++ turn k c ((ue_id, ue) ∷ ues)) (sym now)
        | inr (away, nearer) ↦
            ih
            ∙ ap (λ front. front ++ turn k (until k (suc p % k) j) ues)
                (part ∙ ap (λ b. if b then old ++ ((ue_id, ue) ∷ []) else old) away)
            ∙ ap (λ c. old ++ turn k c ((ue_id, ue) ∷ ues)) (sym nearer)
      ]

  pub length-split_from :
      (k p : ℕ) (ues : List (ℕ × V)) (parts : List (List (ℕ × V)))
      → length (split_from k p ues parts) ≡ length parts
  unfolding split_from
  length-split_from k p [] parts = refl
  length-split_from k p ((ue_id, ue) ∷ ues) parts =
      length-split_from k (suc p) ues (amend (p % k) (insert ue_id ue) parts)
      ∙ length-amend (p % k) (insert ue_id ue) parts
