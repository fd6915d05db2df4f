-- ===== src/Ngap/Downlink/Learn.antt =====
-- `learn` of src/ngapfast.py: the store only grows, within its bound, and the message that was learnt
-- is then taken by `downlink`.
use core_network_traffic_gen.Common.{
  ℕ, ◌+◌, ◌/◌, ◌%◌, ◌≤◌, ◌<◌, ◌≡◌, refl, ap, arith, ltb, leb, ◌==◌, if◌then◌else◌, Bool-cases, inl,
  inr,
}
use core_network_traffic_gen.Common.{
  Bool, true, false, not, ◌&&◌, ◌||◌, some, List, [], ◌∷◌, length, slice, get_or, All,
}
use core_network_traffic_gen.Ngap.Aper.{guard, length_at}
use core_network_traffic_gen.Ngap.Downlink.Layout.{
  Key, procedure, transfer, same_key, Tables, downlink_layout, transfer_layout,
}
use core_network_traffic_gen.Ngap.Downlink.Container.{
  nothing, Learnt, same_octets, same_ie, is_learnt,
}
use core_network_traffic_gen.Ngap.Downlink.Walk.{
  no_sessions, session_of, read_transfer, read_sessions, Parsed, parsed_of, walk, downlink,
  max_learnt, add_learnt, learn,
}
use core_network_traffic_gen.Ngap.Downlink.Replays.{
  Within, Replays, some-inj, Replays-some, Replays-none, Replays-pure, Replays-if, Replays-bind,
  Replays-container,
}

module _ (t : Tables) where
  Replays-read_transfer :
      (value : List ℕ) (o i : ℕ) (nas : List ℕ)
      → Replays (λ store l. read_transfer t store value o i nas l)
  unfolding read_transfer
  Replays-read_transfer value o i nas =
      Replays-pure (length_at value o (length value)) _ (λ (start, n).
        Replays-pure
          (guard (
            start + n == length value
            && not (leb (length value) start)
            && get_or value start 0 == 0))
          _
          (λ _.
            Replays-bind _ _
              (Replays-container t.session_types (λ store. no_sessions) transfer (λ w. Replays-none)
                value (start + 1) (length value) (transfer_layout t) nothing)
              (λ got. Replays-pure (session_of nas i got) _ (λ s. Replays-some s))))

  Replays-read_sessions : (value : List ℕ) → Replays (λ store l. read_sessions t store value l)
  unfolding read_sessions
  Replays-read_sessions value =
      Replays-if
        (ltb (length value) 4 || not (get_or value 0 0 == 0) || not (get_or value 1 0 == 0x40)) _ _
        Replays-none
        (Replays-pure (length_at value 3 (length value)) _ (λ (start, n).
          let o = start + n in
          let b = get_or value o 0 in
          Replays-pure (guard (leb (o + 2) (length value))) _ (λ _.
            Replays-pure
              (guard (b / 128 == 0 && b / 32 % 2 == 0 && get_or value (o + 1) 0 % 32 == 0)) _
              (λ _.
                Replays-read_transfer value (if b / 64 % 2 == 1 then o + 5 else o + 2)
                  (get_or value 2 0) (slice start o value)))))

  Replays-walk : (buf : List ℕ) → Replays (λ store l. walk t store buf l)
  unfolding walk
  Replays-walk buf =
      let code = get_or buf 1 0 in
      Replays-if (ltb (length buf) 7 || not (get_or buf 0 0 == 0)) _ _ Replays-none (
        Replays-pure (downlink_layout t code) _ (λ (crit, ies).
          Replays-pure (guard (get_or buf 2 0 == crit)) _ (λ _.
            Replays-pure (length_at buf 3 (length buf)) _ (λ (start, n).
              Replays-pure (guard (start + n == length buf)) _ (λ _.
                Replays-pure (guard (leb (start + 3) (length buf) && get_or buf start 0 == 0)) _
                  (λ _.
                    Replays-bind _ _
                      (Replays-container t.session_types (λ store. read_sessions t store)
                        (procedure code) Replays-read_sessions buf (start + 1) (length buf) ies
                        nothing)
                      (λ got. Replays-pure (parsed_of code got) _ (λ p. Replays-some p))))))))

same_octets→≡ : (xs ys : List ℕ) → same_octets xs ys ≡ true → xs ≡ ys
same_octets→≡ [] [] h = refl
same_octets→≡ [] (y ∷ ys) h = absurd (ground arith)
same_octets→≡ (x ∷ xs) [] h = absurd (ground arith)
same_octets→≡ (x ∷ xs) (y ∷ ys) h = ground (arith, same_octets→≡ xs ys)

same_key→≡ : (k l : Key) → same_key k l ≡ true → k ≡ l
same_key→≡ (procedure a) (procedure b) h = ap procedure (ground (arith, h))
same_key→≡ (procedure a) transfer h = absurd (ground arith)
same_key→≡ transfer (procedure b) h = absurd (ground arith)
same_key→≡ transfer transfer h = refl

same_ie→≡ : (a b : Learnt) → same_ie a b ≡ true → a ≡ b
same_ie→≡ (k, i, v) (l, j, w) h = ground (arith, same_key→≡ k l, same_octets→≡ v w)

Within-cons : (ie : Learnt) (l : List Learnt) → Within l (ie ∷ l)
unfolding is_learnt
Within-cons ie l x h = ground arith

module _ (canonical : Learnt → Bool) where
  next_store : Learnt → List Learnt → List Learnt
  next_store ie store = if canonical ie && not (is_learnt ie store) then ie ∷ store else store

  Within-next_store : (ie : Learnt) (store : List Learnt) → Within store (next_store ie store)
  unfolding next_store is_learnt
  Within-next_store ie store x h = ground arith

  length-next_store :
      (ie : Learnt) (store : List Learnt) → length (next_store ie store) ≤ length store + 1
  unfolding next_store
  length-next_store ie store = ground arith

  is_learnt-next_store :
      (ie x : Learnt) (store : List Learnt)
      → canonical ie ≡ true
      → same_ie ie x ≡ true
      → is_learnt x (next_store ie store) ≡ true
  unfolding next_store is_learnt
  is_learnt-next_store ie x store c h =
      let e : ie ≡ x = same_ie→≡ ie x h in
      elim (Bool-cases (is_learnt ie store)) [
        | inl k ↦ rw (c, k) (rw e at k)
        | inr k ↦ rw (c, k) (ground (arith, h))
      ]

  add_learnt_step :
      (ie : Learnt) (new store : List Learnt)
      → add_learnt canonical (ie ∷ new) store ≡ (
          if leb max_learnt (length store)
          then store
          else add_learnt canonical new (next_store ie store))
  unfolding add_learnt next_store
  add_learnt_step ie new store = refl

  add_learnt_bounded :
      (new store : List Learnt)
      → length store ≤ max_learnt
      → Within store (add_learnt canonical new store)
        × (length (add_learnt canonical new store) ≤ max_learnt)
  add_learnt_bounded [] store h = unfold add_learnt in (λ x k. k, h)
  add_learnt_bounded (ie ∷ new) store h =
      rw (add_learnt_step ie new store) (elim (Bool-cases (leb max_learnt (length store))) [
        | inl e ↦ rw e (λ x k. k, h)
        | inr e ↦
            let (in_next, bound) =
              add_learnt_bounded new (next_store ie store)
                (ground (arith, length-next_store ie store)) in
            rw e (λ x k. in_next x (Within-next_store ie store x k), bound)
      ])

  Within-add_learnt :
      (new store : List Learnt)
      → All (λ ie. canonical ie ≡ true) new
      → length store + length new ≤ max_learnt
      → Within new (add_learnt canonical new store)
  unfolding is_learnt
  Within-add_learnt [] store c room x h = absurd (ground arith)
  Within-add_learnt (ie ∷ new) store c room x h =
      let more : leb max_learnt (length store) ≡ false = ground arith in
      let next = length-next_store ie store in
      let (in_next, bound) = add_learnt_bounded new (next_store ie store) (omega (arith, next)) in
      rw (add_learnt_step ie new store, more)
        (elim (Bool-cases (same_ie ie x)) [
          | inl e ↦ in_next x (is_learnt-next_store ie x store c.0 e)
          | inr e ↦
              Within-add_learnt new (next_store ie store) c.1 (omega (arith, next)) x (rw e at h)
        ])

-- A message that was parsed while learning, with every IE met canonical and room for them, is taken by
-- `downlink` afterwards, with the same result.
pub downlink-learn :
    (t : Tables) (canonical : Learnt → Bool) (buf : List ℕ) (store new : List Learnt) (p : Parsed)
    → walk t store buf (some []) ≡ some (p, some new)
    → All (λ ie. canonical ie ≡ true) new
    → length store + length new < max_learnt
    → downlink t (learn t canonical buf store) buf ≡ some p
unfolding learn downlink
downlink-learn t canonical buf store new p h c room =
    let more : leb max_learnt (length store) ≡ false = ground arith in
    let met = Replays-walk t buf store [] p (some new) h in
    let stored = add_learnt canonical new store in
    let known_all : Within met.met stored =
      rw (← some-inj new met.met met.result)
        (Within-add_learnt canonical new store c (omega arith)) in
    rw (more, h)
      (rw (met.again stored (add_learnt_bounded canonical new store (omega arith)).0 known_all)
        refl)
