-- ===== src/Pacing/InFlight/Release.antt =====
-- Giving a place back.
use core_network_traffic_gen.Common.{ℕ, ◌≤◌, ◌<◌, ◌≡◌, arith, ◌==◌, if◌then◌else◌}
use core_network_traffic_gen.Common.{
  Bool, true, false, none, some, List, [], ◌∷◌, length, Option-cases, inl, inr,
}
use core_network_traffic_gen.Common.Table.{lookup, erase, lookup-erase}
use core_network_traffic_gen.Pacing.InFlight.{InFlight, release}

pub length-erase-le : (k : ℕ) (m : List (ℕ × ℕ)) → length (erase k m) ≤ length m
unfolding erase
length-erase-le k [] = omega arith
length-erase-le k ((j, t) ∷ m) = ground (arith, length-erase-le k m)

erase_shrinks : (k t : ℕ) (m : List (ℕ × ℕ)) → lookup k m ≡ some t → length (erase k m) < length m
unfolding lookup erase
erase_shrinks k t [] h = absurd (ground arith)
erase_shrinks k t ((j, u) ∷ m) h = ground (arith, length-erase-le k m, erase_shrinks k t m)

abbrev pub holds_place : ℕ → InFlight → Bool
holds_place u s = elim (lookup u s.started) [ none ↦ false | some t ↦ true ]

-- `release` says whether the UE held a place, takes that place from it and from no other UE, and
-- where it did, leaves fewer UEs in flight.
pub release_lem :
    (u v : ℕ) (s : InFlight)
    → ((release u s).1 ≡ holds_place u s)
      × (lookup v (release u s).0.started ≡ (if u == v then none else lookup v s.started))
      × ((release u s).1 ≡ true → length (release u s).0.started < length s.started)
unfolding release
release_lem u v s = elim (Option-cases (lookup u s.started)) [
  | inl e ↦ ground arith
  | inr (t, e) ↦ ground (arith, lookup-erase u v s.started, erase_shrinks u t s.started e)
]
