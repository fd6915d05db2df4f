-- ===== src/UeSim/Counts.antt =====
-- The counts of src/UESim.py are those of its UEs: how the stores of a UE and its moves keep them.
use core_network_traffic_gen.Common.{
  ℕ, ◌+◌, ◌-◌, ◌%◌, ◌^◌, ◌≡◌, sym, ap, ap₂, ◌∙◌, arith, ◌==◌, ==_refl, if◌then◌else◌, Bool-cases,
  inl, inr,
}
use core_network_traffic_gen.Common.{true, false, ◌&&◌, some, List, [], ◌∷◌}
use core_network_traffic_gen.Common.Table.{lookup, insert, lookup-insert}
use core_network_traffic_gen.Ue.NextAction.{Ue}
use core_network_traffic_gen.Ue.State.{Emulated}
use core_network_traffic_gen.Ue.Keeps.{is_started}
use core_network_traffic_gen.UeSim.State.{Sim, fgmm_min_type, increment, decrement, store, move}

abbrev pub current : Ue Emulated → ℕ
current ue = ue.rest.current_procedure

-- A UE counts where it is, once it has started.
abbrev pub counts_at : ℕ → Ue Emulated → ℕ
counts_at c ue = if is_started ue && current ue == c then 1 else 0

-- The number of UEs at a message
unfoldable pub ues_at : ℕ → List (ℕ × Ue Emulated) → ℕ
ues_at c [] = 0
ues_at c (entry ∷ entries) = counts_at c entry.1 + ues_at c entries

-- Each count is the number of UEs there, as 32 bits.
abbrev pub IsCounted : Sim → Type 0
IsCounted sim = (c : ℕ) → sim.states c ≡ ues_at c sim.ues % 2 ^ 32

-- Two states of a UE that count alike
abbrev pub Alike : Ue Emulated → Ue Emulated → Type 0
Alike w v = (current w ≡ current v) × (is_started w ≡ is_started v)

ues_at-insert :
    (c k : ℕ) (v w : Ue Emulated) (entries : List (ℕ × Ue Emulated))
    → lookup k entries ≡ some v
    → ues_at c (insert k w entries) + counts_at c v ≡ ues_at c entries + counts_at c w
unfolding lookup insert ues_at
ues_at-insert c k v w [] e = ground arith
ues_at-insert c k v w (entry ∷ entries) e = elim (Bool-cases (entry.0 == k)) [
  | inl h ↦
      let found : entry.1 ≡ v = ground arith in
      let same : counts_at c entry.1 ≡ counts_at c v = ap (counts_at c) found in
      rw h (omega (arith, same))
  | inr h ↦ rw h (omega (arith, ues_at-insert c k v w entries (ground arith)))
]

counts_at-Alike : (c : ℕ) (w v : Ue Emulated) → Alike w v → counts_at c w ≡ counts_at c v
counts_at-Alike c w v (at, on) = ap₂ (λ b n. if b && n == c then 1 else 0) on at

-- Storing a UE that counts alike keeps the counts.
pub store-IsCounted :
    (k : ℕ) (v w : Ue Emulated) (sim : Sim)
    → lookup k sim.ues ≡ some v
    → Alike w v
    → IsCounted sim
    → IsCounted (store k w sim)
store-IsCounted k v w sim e alike counted c =
    let step = ues_at-insert c k v w sim.ues e in
    let same = counts_at-Alike c w v alike in
    let total : ues_at c (insert k w sim.ues) ≡ ues_at c sim.ues = omega (arith, step, same) in
    rw total (counted c)

moved :
    (at to c states total total' : ℕ)
    → states ≡ total % 2 ^ 32
    → total' + (if at == c then 1 else 0) ≡ total + (if to == c then 1 else 0)
    → increment to (decrement at (λ i. states)) c ≡ total' % 2 ^ 32
moved at to c states total total' e step = elim (Bool-cases (at == c)) [
  | inl a ↦ elim (Bool-cases (to == c)) [
    | inl b ↦ let now : total' ≡ total = ground arith in rw (a, b) (omega arith)
    | inr b ↦ let now : total' + 1 ≡ total = ground arith in rw (a, b) (omega arith)
  ]
  | inr a ↦ elim (Bool-cases (to == c)) [
    | inl b ↦ let now : total' ≡ total + 1 = ground arith in rw (a, b) (omega arith)
    | inr b ↦ let now : total' ≡ total = ground arith in rw (a, b) (omega arith)
  ]
]

-- A move of a started UE takes one from the count where it was and adds one where it goes.
pub move-IsCounted :
    (k code : ℕ) (v w : Ue Emulated) (sim : Sim)
    → lookup k sim.ues ≡ some v
    → Alike w v
    → is_started v ≡ true
    → IsCounted sim
    → IsCounted (move k code w sim)
unfolding move
move-IsCounted k code v w sim e alike on counted c =
    let to = code - fgmm_min_type in
    let w' : Ue Emulated = record w { rest = record w.rest { current_procedure = to } } in
    let step = ues_at-insert c k v w' sim.ues e in
    let on' : is_started w ≡ true = alike.1 ∙ on in
    let was : counts_at c v ≡ (if current w == c then 1 else 0) =
      sym (counts_at-Alike c w v alike) ∙ ap (λ b. if b && current w == c then 1 else 0) on' in
    let is : counts_at c w' ≡ (if to == c then 1 else 0) =
      ap (λ b. if b && to == c then 1 else 0) on' in
    moved (current w) to c (sim.states c) (ues_at c sim.ues) (ues_at c (insert k w' sim.ues))
      (counted c)
      (ap (λ n. ues_at c (insert k w' sim.ues) + n) (sym was)
        ∙ step
        ∙ ap (λ n. ues_at c sim.ues + n) is)

-- A UE that the simulator has and that has started
abbrev pub Has : ℕ → Sim → Type 0
Has k sim = (ue : Ue Emulated) × (lookup k sim.ues ≡ some ue) × (is_started ue ≡ true)

pub lookup-store : (k : ℕ) (w : Ue Emulated) (sim : Sim) → lookup k (store k w sim).ues ≡ some w
lookup-store k w sim =
    lookup-insert k k w sim.ues ∙ ap (λ b. if b then some w else lookup k sim.ues) (==_refl k)

-- What the simulator's calls keep: the counts, and the UE that the call is about.
abbrev pub Keeps : ℕ → Sim → Type 0
Keeps k sim = IsCounted sim × Has k sim

pub store-Keeps :
    (k : ℕ) (v w : Ue Emulated) (sim : Sim)
    → lookup k sim.ues ≡ some v
    → Alike w v
    → is_started v ≡ true
    → IsCounted sim
    → Keeps k (store k w sim)
store-Keeps k v w sim e alike on counted =
    (store-IsCounted k v w sim e alike counted, (w, lookup-store k w sim, alike.1 ∙ on))

pub move-Keeps :
    (k code : ℕ) (v w : Ue Emulated) (sim : Sim)
    → lookup k sim.ues ≡ some v
    → Alike w v
    → is_started v ≡ true
    → IsCounted sim
    → Keeps k (move k code w sim)
unfolding move
move-Keeps k code v w sim e alike on counted =
    let w' : Ue Emulated = record w {
      rest = record w.rest { current_procedure = code - fgmm_min_type };
    } in
    (move-IsCounted k code v w sim e alike on counted, (w', lookup-store k w' sim, alike.1 ∙ on))

-- A UE that starts adds one to the count where it is.
pub starts-IsCounted :
    (k to : ℕ) (v w : Ue Emulated) (sim : Sim)
    → lookup k sim.ues ≡ some v
    → is_started v ≡ false
    → is_started w ≡ true
    → current w ≡ to
    → IsCounted sim
    → (c : ℕ) → increment to sim.states c ≡ ues_at c (insert k w sim.ues) % 2 ^ 32
starts-IsCounted k to v w sim e off on at counted c =
    let step = ues_at-insert c k v w sim.ues e in
    let was : counts_at c v ≡ 0 = ap (λ b. if b && current v == c then 1 else 0) off in
    let is : counts_at c w ≡ (if to == c then 1 else 0) =
      ap₂ (λ b n. if b && n == c then 1 else 0) on at in
    elim (Bool-cases (to == c)) [
      | inl h ↦
          let one : counts_at c w ≡ 1 = is ∙ ap (λ b. if b then 1 else 0) h in
          rw h (omega (arith, step, was, one, counted c))
      | inr h ↦
          let none_new : counts_at c w ≡ 0 = is ∙ ap (λ b. if b then 1 else 0) h in
          rw h (omega (arith, step, was, none_new, counted c))
    ]
