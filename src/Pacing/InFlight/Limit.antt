-- ===== src/Pacing/InFlight/Limit.antt =====
-- At most `limit` UEs are in flight, whatever the threads do and in whatever order.
use core_network_traffic_gen.Common.{ℕ, suc, ◌≤◌, ◌≡◌, refl, arith, ◌==◌, ◌||◌}
use core_network_traffic_gen.Common.{Bool, false, List, [], ◌∷◌, length}
use core_network_traffic_gen.Common.Table.{insert, erase}
use core_network_traffic_gen.Pacing.InFlight.{
  InFlight, has_place, acquire_round, release, remove_all, expire, new, late_ids,
}
use core_network_traffic_gen.Pacing.InFlight.Release.{length-erase-le}
use core_network_traffic_gen.Pacing.InFlight.Expire.{has_key, IsDictionary}

-- A method's step, by any thread, at any time of the clock.
pub data Step : InFlight → InFlight → Type 0 where
  acquires :
      (u now : ℕ) (stopped : Bool) (s t : InFlight)
      → acquire_round u stopped now s ≡ has_place t
      → Step s t
  releases : (u : ℕ) (s : InFlight) → Step s (release u s).0
  expires : (now : ℕ) (s : InFlight) → Step s (expire now s).0

pub data Reach (s : InFlight) : InFlight → Type 0 where
  here : Reach s s
  next : {t u : InFlight} → Reach s t → Step t u → Reach s u

pub record IsValid (limit : ℕ) (s : InFlight) : Type 0 where
  pub same : s.limit ≡ limit
  pub within : length s.started ≤ limit
  pub keyed : IsDictionary s.started

length-insert-le : (k t : ℕ) (m : List (ℕ × ℕ)) → length (insert k t m) ≤ suc (length m)
unfolding insert
length-insert-le k t [] = omega arith
length-insert-le k t ((j, u) ∷ m) = ground (arith, length-insert-le k t m)

has_key-insert : (k j t : ℕ) (m : List (ℕ × ℕ)) → has_key j (insert k t m) ≡ (k == j || has_key j m)
unfolding insert
has_key-insert k j t [] = ground arith
has_key-insert k j t ((i, u) ∷ m) = ground (arith, has_key-insert k j t m)

insert-IsDictionary : (k t : ℕ) (m : List (ℕ × ℕ)) → IsDictionary m → IsDictionary (insert k t m)
unfolding insert
insert-IsDictionary k t [] d = ground arith
insert-IsDictionary k t ((i, u) ∷ m) d =
    ground (arith, has_key-insert k i t m, insert-IsDictionary k t m d.1)

has_key-erase : (k j : ℕ) (m : List (ℕ × ℕ)) → has_key j m ≡ false → has_key j (erase k m) ≡ false
unfolding erase
has_key-erase k j [] h = refl
has_key-erase k j ((i, u) ∷ m) h = ground (arith, has_key-erase k j m)

pub erase-IsDictionary : (k : ℕ) (m : List (ℕ × ℕ)) → IsDictionary m → IsDictionary (erase k m)
unfolding erase
erase-IsDictionary k [] d = tt
erase-IsDictionary k ((i, u) ∷ m) d =
    ground (arith, has_key-erase k i m, erase-IsDictionary k m d.1)

remove_all_lem :
    (us : List ℕ) (m : List (ℕ × ℕ))
    → IsDictionary m
    → IsDictionary (remove_all us m) × (length (remove_all us m) ≤ length m)
unfolding remove_all
remove_all_lem [] m d = (d, omega arith)
remove_all_lem (u ∷ us) m d =
    let (k, l) = remove_all_lem us (erase u m) (erase-IsDictionary u m d) in
    (k, omega (arith, length-erase-le u m, l))

pub acquire-IsValid :
    (limit u now : ℕ) (stopped : Bool) (s t : InFlight)
    → acquire_round u stopped now s ≡ has_place t
    → IsValid limit s
    → IsValid limit t
unfolding acquire_round
acquire-IsValid limit u now stopped s t e v =
    ground (arith, length-insert-le u now s.started, insert-IsDictionary u now s.started v.keyed)

pub release-IsValid : (limit u : ℕ) (s : InFlight) → IsValid limit s → IsValid limit (release u s).0
unfolding release
release-IsValid limit u s v =
    ground (arith, length-erase-le u s.started, erase-IsDictionary u s.started v.keyed)

pub expire-IsValid :
    (limit now : ℕ) (s : InFlight) → IsValid limit s → IsValid limit (expire now s).0
unfolding expire
expire-IsValid limit now s v =
    ground (arith, remove_all_lem (late_ids s.timeout now s.started) s.started v.keyed)

Step-IsValid : {limit : ℕ} {s t : InFlight} → Step s t → IsValid limit s → IsValid limit t
Step-IsValid {limit} (acquires u now b s t e) v = acquire-IsValid limit u now b s t e v
Step-IsValid {limit} (releases u s) v = release-IsValid limit u s v
Step-IsValid {limit} (expires now s) v = expire-IsValid limit now s v

Reach-IsValid : {limit : ℕ} {s t : InFlight} → IsValid limit s → Reach s t → IsValid limit t
Reach-IsValid v here = v
Reach-IsValid v (next r st) = Step-IsValid st (Reach-IsValid v r)

-- From an empty `InFlight`, every sequence of `acquire`, `release` and `expire` leaves at most
-- `limit` UEs in flight, each once.
pub Reach-within_limit :
    (limit timeout : ℕ) (s : InFlight)
    → Reach (new limit timeout) s
    → (length s.started ≤ limit) × IsDictionary s.started
Reach-within_limit limit timeout s r =
    let v = Reach-IsValid (record { same = refl; within = omega arith; keyed = tt }) r in
    (v.within, v.keyed)
