-- ===== src/Pacing/InFlight/Waiting.antt =====
-- The threads that wait for a place of src/pacing.py's InFlight. A thread is in `self.cond.wait(0.5)` or
-- on its way back to the loop's test, woken by `notify` or by the timeout; `notify` wakes a thread that
-- still waits. A thread whose timeout ends stops waiting in one step.
use core_network_traffic_gen.Common.{ℕ, ◌+◌, ◌-◌, ◌≤◌, ◌<◌, ◌≡◌, ◌⊎◌, refl, arith, ltb, Bool-cases}
use core_network_traffic_gen.Common.{
  Bool, false, none, some, List, [], ◌∷◌, length, Option-cases, inl, inr,
}
use core_network_traffic_gen.Common.Table.{lookup, insert, erase, lookup-insert}
use core_network_traffic_gen.Pacing.InFlight.{
  InFlight, new, has_place, gave_up, waits, acquire_round, release, late_ids, remove_all, expire,
}
use core_network_traffic_gen.Pacing.InFlight.Expire.{has_key, IsDictionary}
use core_network_traffic_gen.Pacing.InFlight.Limit.{
  IsValid, acquire-IsValid, release-IsValid, expire-IsValid, erase-IsDictionary,
}

-- The places, the threads in `wait`, and those on their way back to the test.
pub record Waiting : Type 0 where
  pub places : InFlight
  pub asleep : ℕ
  pub woken : ℕ

-- What a call leaves: the condition wakes as many threads as it was asked to, or all that wait.
abbrev pub after : InFlight → Waiting → Waiting
after next w =
    let left = w.asleep - (next.notified - w.places.notified) in
    record { places = next; asleep = left; woken = w.woken + (w.asleep - left) }

-- A step of a thread, at any time of the clock. A thread asks for a place for a UE that has none.
pub data Step : Waiting → Waiting → Type 0 where
  takes :
      (u now : ℕ) (stopped : Bool) (w : Waiting) (t : InFlight)
      → lookup u w.places.started ≡ none
      → acquire_round u stopped now w.places ≡ has_place t
      → Step w (record w { places = t })
  sleeps :
      (u now : ℕ) (stopped : Bool) (w : Waiting)
      → acquire_round u stopped now w.places ≡ waits
      → Step w (record w { asleep = w.asleep + 1 })
  retakes :
      (u now n : ℕ) (stopped : Bool) (w : Waiting) (t : InFlight)
      → w.woken ≡ n + 1
      → lookup u w.places.started ≡ none
      → acquire_round u stopped now w.places ≡ has_place t
      → Step w (record w { places = t; woken = n })
  sleeps_again :
      (u now n : ℕ) (stopped : Bool) (w : Waiting)
      → w.woken ≡ n + 1
      → acquire_round u stopped now w.places ≡ waits
      → Step w (record w { asleep = w.asleep + 1; woken = n })
  gives_up :
      (u now n : ℕ) (stopped : Bool) (w : Waiting)
      → w.woken ≡ n + 1
      → acquire_round u stopped now w.places ≡ gave_up
      → Step w (record w { woken = n })
  times_out :
      (n : ℕ) (w : Waiting)
      → w.asleep ≡ n + 1
      → Step w (record w { asleep = n; woken = w.woken + 1 })
  releases : (u : ℕ) (w : Waiting) → Step w (after (release u w.places).0 w)
  expires : (now : ℕ) (w : Waiting) → Step w (after (expire now w.places).0 w)

pub data Reach (w : Waiting) : Waiting → Type 0 where
  here : Reach w w
  next : {t u : Waiting} → Reach w t → Step t u → Reach w u

-- While a thread sleeps, at least as many threads are on their way as places are free.
pub record IsAwake (limit : ℕ) (w : Waiting) : Type 0 where
  pub valid : IsValid limit w.places
  pub awake : 0 < w.asleep → limit ≤ length w.places.started + w.woken

length-insert_new :
    (k t : ℕ) (m : List (ℕ × ℕ)) → lookup k m ≡ none → length (insert k t m) ≡ length m + 1
unfolding insert lookup
length-insert_new k t [] h = omega arith
length-insert_new k t ((j, u) ∷ m) h = ground (arith, length-insert_new k t m)

erase_missing : (k : ℕ) (m : List (ℕ × ℕ)) → has_key k m ≡ false → length (erase k m) ≡ length m
unfolding erase
erase_missing k [] h = refl
erase_missing k ((j, u) ∷ m) h = ground (arith, erase_missing k m)

-- A key stands once, so that one entry goes at the most.
length-erase-ge : (k : ℕ) (m : List (ℕ × ℕ)) → IsDictionary m → length m ≤ length (erase k m) + 1
unfolding erase
length-erase-ge k [] d = omega arith
length-erase-ge k ((j, u) ∷ m) d = ground (arith, erase_missing j m, length-erase-ge k m d.1)

length-remove_all-ge :
    (us : List ℕ) (m : List (ℕ × ℕ))
    → IsDictionary m
    → length m ≤ length (remove_all us m) + length us
unfolding remove_all
length-remove_all-ge [] m d = omega arith
length-remove_all-ge (u ∷ us) m d =
    let others = length-remove_all-ge us (erase u m) (erase-IsDictionary u m d) in
    omega (arith, length-erase-ge u m d, others)

-- A call asks for at least as many threads as the places that it frees.
release_asks :
    (u : ℕ) (s : InFlight)
    → IsDictionary s.started
    → s.notified + length s.started ≤ (release u s).0.notified + length (release u s).0.started
unfolding release
release_asks u s d = elim (Option-cases (lookup u s.started)) [
  | inl e ↦ ground arith
  | inr (t, e) ↦ ground (arith, length-erase-ge u s.started d)
]

expire_asks :
    (now : ℕ) (s : InFlight)
    → IsDictionary s.started
    → s.notified + length s.started ≤ (expire now s).0.notified + length (expire now s).0.started
unfolding expire
expire_asks now s d =
    ground (arith, length-remove_all-ge (late_ids s.timeout now s.started) s.started d)

after-IsAwake :
    (limit : ℕ) (t : InFlight) (w : Waiting)
    → IsAwake limit w
    → IsValid limit t
    → w.places.notified + length w.places.started ≤ t.notified + length t.started
    → IsAwake limit (after t w)
after-IsAwake limit t w a v h = record { valid = v; awake = λ some_left. ground (arith, a.awake) }

takes_one :
    (u now : ℕ) (stopped : Bool) (s t : InFlight)
    → lookup u s.started ≡ none
    → acquire_round u stopped now s ≡ has_place t
    → length t.started ≡ length s.started + 1
unfolding acquire_round
takes_one u now stopped s t e h = ground (arith, length-insert_new u now s.started e)

full_waits :
    (u now : ℕ) (stopped : Bool) (s : InFlight)
    → acquire_round u stopped now s ≡ waits
    → s.limit ≤ length s.started
unfolding acquire_round
full_waits u now stopped s h = ground arith

full_gave_up :
    (u now : ℕ) (stopped : Bool) (s : InFlight)
    → acquire_round u stopped now s ≡ gave_up
    → s.limit ≤ length s.started
unfolding acquire_round
full_gave_up u now stopped s h = ground arith

Step-IsAwake : {limit : ℕ} {w t : Waiting} → Step w t → IsAwake limit w → IsAwake limit t
Step-IsAwake {limit} (takes u now b w t e h) a = record {
  valid = acquire-IsValid limit u now b w.places t h a.valid;
  awake = λ some_left. omega (arith, takes_one u now b w.places t e h, a.awake some_left);
}
Step-IsAwake {limit} (sleeps u now b w h) a = record {
  valid = a.valid;
  awake = λ some_left. omega (arith, full_waits u now b w.places h, a.valid.same);
}
Step-IsAwake {limit} (retakes u now n b w t k e h) a = record {
  valid = acquire-IsValid limit u now b w.places t h a.valid;
  awake = λ some_left. omega (arith, takes_one u now b w.places t e h, a.awake some_left, k);
}
Step-IsAwake {limit} (sleeps_again u now n b w k h) a = record {
  valid = a.valid;
  awake = λ some_left. omega (arith, full_waits u now b w.places h, a.valid.same);
}
Step-IsAwake {limit} (gives_up u now n b w k h) a = record {
  valid = a.valid;
  awake = λ some_left. omega (arith, full_gave_up u now b w.places h, a.valid.same);
}
Step-IsAwake {limit} (times_out n w k) a = record {
  valid = a.valid;
  awake = λ some_left. omega (arith, a.awake (omega (arith, k)));
}
Step-IsAwake {limit} (releases u w) a =
    after-IsAwake limit (release u w.places).0 w a (release-IsValid limit u w.places a.valid)
      (release_asks u w.places a.valid.keyed)
Step-IsAwake {limit} (expires now w) a =
    after-IsAwake limit (expire now w.places).0 w a (expire-IsValid limit now w.places a.valid)
      (expire_asks now w.places a.valid.keyed)

Reach-IsAwake : {limit : ℕ} {w t : Waiting} → IsAwake limit w → Reach w t → IsAwake limit t
Reach-IsAwake a here = a
Reach-IsAwake a (next r st) = Step-IsAwake st (Reach-IsAwake a r)

abbrev pub none_waiting : ℕ → ℕ → Waiting
none_waiting limit timeout = record { places = new limit timeout; asleep = 0; woken = 0 }

room :
    (u now : ℕ) (stopped : Bool) (s : InFlight)
    → length s.started < s.limit
    → acquire_round u stopped now s ≡ has_place (record s { started = insert u now s.started })
unfolding acquire_round
room u now stopped s h = ground arith

-- The threads that wait sleep only while another is on its way for each free place.
awake_enough :
    (asleep woken used limit : ℕ)
    → (0 < asleep → limit ≤ used + woken)
    → 0 < asleep + woken
    → used < limit
    → (0 < woken) × ((asleep ≡ 0) ⊎ (limit ≤ used + woken))
awake_enough asleep woken used limit awake some_waits free = elim (Bool-cases (ltb 0 asleep)) [
  | inl sleeping ↦ let enough = awake (ground arith) in (omega (arith, enough, free), inr enough)
  | inr none_asleep ↦
      let zero : asleep ≡ 0 = ground arith in (omega (arith, zero, some_waits), inl zero)
]

-- In every interleaving of the threads' steps, where threads ask for UEs that have no place and at
-- first none waits: if a thread waits and a place is free, a thread is on its way to the test; none
-- still sleeps, or at least as many are on their way as places are free; and the test that the next
-- one makes gives its UE the place, within the limit.
pub Reach-awake :
    (limit timeout u now : ℕ) (stopped : Bool) (w : Waiting)
    → Reach (none_waiting limit timeout) w
    → 0 < w.asleep + w.woken
    → length w.places.started < limit
    → lookup u w.places.started ≡ none
    → (0 < w.woken)
      × ((w.asleep ≡ 0) ⊎ (limit ≤ length w.places.started + w.woken))
      × (t : InFlight) × (acquire_round u stopped now w.places ≡ has_place t)
      × (lookup u t.started ≡ some now)
      × (length t.started ≤ limit)
Reach-awake limit timeout u now stopped w r waiting free e =
    let first : IsAwake limit (none_waiting limit timeout) = record {
      valid = record { same = refl; within = omega arith; keyed = tt };
      awake = λ some_left. absurd (omega (arith, some_left));
    } in
    let a = Reach-IsAwake first r in
    let (on_its_way, enough) =
      awake_enough w.asleep w.woken (length w.places.started) limit a.awake waiting free in
    (
      on_its_way,
      enough,
      record w.places { started = insert u now w.places.started },
      room u now stopped w.places (omega (arith, a.valid.same)),
      ground (arith, lookup-insert u u now w.places.started),
      omega (arith, length-insert_new u now w.places.started e),
    )
