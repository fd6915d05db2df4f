-- ===== src/Gnb/Stamps.antt =====
-- The uplink send times of a UE: each is returned once, in its order.
use core_network_traffic_gen.Common.{
  ℕ, ◌≡◌, refl, sym, ap, ◌∙◌, arith, ◌==◌, if◌then◌else◌, Bool-cases, inl, inr,
}
use core_network_traffic_gen.Common.{
  Option, none, some, List, [], ◌∷◌, ◌++◌, append_assoc, append-nil,
}
use core_network_traffic_gen.Common.Table.{lookup-insert, lookup-erase}
use core_network_traffic_gen.RanLink.Event.{Stamp}
use core_network_traffic_gen.Gnb.State.{Gnb, pending, stamp_uplink, take_uplink_stamps}

-- What the two threads do to the stamps.
pub data Change : Type 0 where
  stamp : ℕ → Stamp → Change
  take : ℕ → Change

abbrev pub changed : Change → Gnb → Gnb
changed (stamp ran st) g = stamp_uplink ran st g
changed (take ran) g = (take_uplink_stamps ran g).1

unfoldable pub run : List Change → Gnb → Gnb
run [] g = g
run (c ∷ cs) g = run cs (changed c g)

-- The stamps of a UE that the changes record, and those that they return.
unfoldable pub recorded : ℕ → List Change → List Stamp
recorded ue [] = []
recorded ue (stamp ran st ∷ cs) = if ran == ue then st ∷ recorded ue cs else recorded ue cs
recorded ue (take ran ∷ cs) = recorded ue cs

unfoldable pub returned : ℕ → List Change → Gnb → List Stamp
returned ue [] g = []
returned ue (stamp ran st ∷ cs) g = returned ue cs (stamp_uplink ran st g)
returned ue (take ran ∷ cs) g =
    let rest = returned ue cs (take_uplink_stamps ran g).1 in
    if ran == ue then (take_uplink_stamps ran g).0 ++ rest else rest

abbrev stamps_or : Option (List Stamp) → List Stamp
stamps_or none = []
stamps_or (some stamps) = stamps

pending-stamp_uplink :
    (ran ue : ℕ) (st : Stamp) (g : Gnb)
    → pending ue (stamp_uplink ran st g)
      ≡ (if ran == ue then pending ue g ++ (st ∷ []) else pending ue g)
unfolding stamp_uplink
pending-stamp_uplink ran ue st g = elim (Bool-cases (ran == ue)) [
  | inl e ↦
      let same : ran ≡ ue = ground arith in
      ap stamps_or (rw e at (lookup-insert ran ue (pending ran g ++ (st ∷ [])) g.ul_sent))
      ∙ rw e (ap (λ k. pending k g ++ (st ∷ [])) same)
  | inr e ↦
      ap stamps_or (rw e at (lookup-insert ran ue (pending ran g ++ (st ∷ [])) g.ul_sent))
      ∙ rw e refl
]

pending-take_uplink_stamps :
    (ran ue : ℕ) (g : Gnb)
    → pending ue (take_uplink_stamps ran g).1 ≡ (if ran == ue then [] else pending ue g)
unfolding take_uplink_stamps
pending-take_uplink_stamps ran ue g = elim (Bool-cases (ran == ue)) [
  | inl e ↦ ap stamps_or (rw e at (lookup-erase ran ue g.ul_sent)) ∙ rw e refl
  | inr e ↦ ap stamps_or (rw e at (lookup-erase ran ue g.ul_sent)) ∙ rw e refl
]

taken : (ran : ℕ) (g : Gnb) → (take_uplink_stamps ran g).0 ≡ pending ran g
unfolding take_uplink_stamps
taken ran g = refl

-- The stamps of a UE that were pending, and then those recorded, are those returned, and then those
-- still pending, whatever the order of the changes and whatever is done for other UEs.
pub run-returned :
    (ue : ℕ) (cs : List Change) (g : Gnb)
    → pending ue g ++ recorded ue cs ≡ returned ue cs g ++ pending ue (run cs g)
unfolding run recorded returned
run-returned ue [] g = append-nil (pending ue g)
run-returned ue (stamp ran st ∷ cs) g =
    let rest = run-returned ue cs (stamp_uplink ran st g) in
    let now = pending-stamp_uplink ran ue st g in
    elim (Bool-cases (ran == ue)) [
      | inl e ↦ rw e (
          sym (append_assoc (pending ue g) (st ∷ []) (recorded ue cs))
          ∙ ap (λ xs. xs ++ recorded ue cs) (sym (rw e at now))
          ∙ rest)
      | inr e ↦ rw e (ap (λ xs. xs ++ recorded ue cs) (sym (rw e at now)) ∙ rest)
    ]
run-returned ue (take ran ∷ cs) g =
    let next = (take_uplink_stamps ran g).1 in
    let rest = run-returned ue cs next in
    let now = pending-take_uplink_stamps ran ue g in
    elim (Bool-cases (ran == ue)) [
      | inl e ↦
          let same : ue ≡ ran = ground arith in
          let got : pending ue g ≡ (take_uplink_stamps ran g).0 =
            ap (λ k. pending k g) same ∙ sym (taken ran g) in
          rw e (
            ap (λ xs. xs ++ recorded ue cs) got
            ∙ ap (λ xs. (take_uplink_stamps ran g).0 ++ xs)
                (ap (λ xs. xs ++ recorded ue cs) (sym (rw e at now)) ∙ rest)
            ∙ sym (
                append_assoc (take_uplink_stamps ran g).0 (returned ue cs next)
                  (pending ue (run cs next))))
      | inr e ↦ rw e (ap (λ xs. xs ++ recorded ue cs) (sym (rw e at now)) ∙ rest)
    ]
