-- ===== src/Shm/Stream/Progress.antt =====
-- Every turn of either end keeps what holds while a record streams.
use core_network_traffic_gen.Common.{
  ℕ, ◌+◌, ◌-◌, ◌%◌, ◌^◌, ◌<◌, ◌≡◌, refl, sym, ap, subst, ◌∙◌, arith, leb, ◌==◌, if◌then◌else◌, ◌⊎◌,
  inl, inr, true, false, Bool-cases,
}
use core_network_traffic_gen.Common.{none, some, List, [], length, slice}
use core_network_traffic_gen.Common.Bytes.{from_le}
use core_network_traffic_gen.Shm.Memory.{length-contents}
use core_network_traffic_gen.Shm.Ring.{Ring, rec_size, refreshed, recv_idle, recv_frame}
use core_network_traffic_gen.Shm.Ring.Fifo.{Holds}
use core_network_traffic_gen.Shm.Stream.{
  waits_for, goes_on, Step, sends, waits, says, looks, collects, Reach, here, later,
}
use core_network_traffic_gen.Shm.Stream.Octets.{Streams, same-Streams}
use core_network_traffic_gen.Shm.Stream.Chunk.{SendOutcome, went, lacks, send_turn_lem}
use core_network_traffic_gen.Shm.Stream.Collect.{IsPartOf, Collected, TakeOutcome, more}
use core_network_traffic_gen.Shm.Stream.Take.{
  recv_turn_lem, take_record_lem, seen_Streams, word_read,
}

module _ (cap : ℕ) (frame : List ℕ) (start : ℕ) (small : length frame < 2 ^ 32) where
  -- What holds between the turns.
  abbrev pub Both : ℕ × Ring → Type 0
  Both (at, r) = Streams cap frame start at r × Collected cap frame start r

  Collected-same :
      (r s : Ring)
      → Collected cap frame start r
      → s.head ≡ r.head
      → s.partial ≡ r.partial
      → s.in_tail ≡ r.in_tail
      → Collected cap frame start s
  Collected-same r s (inl (idle, first, seen)) head partial in_tail =
      inl (partial ∙ idle, head ∙ first, in_tail ∙ seen)
  Collected-same r s (inr (p, streaming, part, less)) head partial in_tail =
      inr (p, partial ∙ streaming, subst (IsPartOf cap frame start p) (sym head) part, less)

  pub after_send :
      (at at' : ℕ) (r r' : Ring)
      → Collected cap frame start r
      → SendOutcome cap frame start at r (goes_on at' r')
      → Both (at', r')
  after_send at at' r r' have (went n s up streams head partial seen) =
      (streams, Collected-same r s have head partial seen)

  after_wait :
      (at n : ℕ) (r r' : Ring)
      → Collected cap frame start r
      → SendOutcome cap frame start at r (waits_for n r')
      → Both (at, r')
  after_wait at n r r' have (lacks s streams head tail partial seen full) =
      (streams, Collected-same r s have head partial seen)

  pub after_take : (at : ℕ) (r' : Ring) → TakeOutcome cap frame start at (none, r') → Both (at, r')
  after_take at r' (more s streams have left empty) = (streams, have)

  recv_frame_idle :
      (r : Ring)
      → r.partial ≡ none
      → r.in_tail ≡ r.head
      → recv_frame cap r ≡ recv_idle cap (record r { in_tail = r.tail })
  unfolding recv_frame
  recv_frame_idle r idle level =
      ap (λ q. elim q [ some p ↦ (none, r) | none ↦ recv_idle cap (refreshed r) ]) idle
      ∙ (let same : (r.in_tail == r.head) ≡ true = ground arith in
          ap (λ b. recv_idle cap (if b then record r { in_tail = r.tail } else r)) same)

  -- A record larger than the ring is never whole before the ring's end.
  not_whole : (pos n : ℕ) → cap % 8 ≡ 0 → cap < rec_size n → leb (pos + 4 + n) cap ≡ false
  not_whole pos n aligned longer = let past : cap < pos + 4 + n = omega arith in ground arith

  recv_idle_lem :
      (at : ℕ) (r : Ring)
      → Streams cap frame start at r
      → r.partial ≡ none
      → r.head ≡ start
      → r.in_tail ≡ r.tail
      → TakeOutcome cap frame start at (recv_idle cap r)
  unfolding recv_idle
  recv_idle_lem at r h idle first seen = elim (Bool-cases (r.in_tail == r.head)) [
    | inl empty ↦
        let level : r.in_tail ≡ r.head = ground arith in
        rw empty (more r h (inl (idle, first, level ∙ first)) (omega (arith, h)) (omega arith))
    | inr some_octets ↦
        let any : r.head < r.tail = ground (arith, h.behind) in
        let past : leb (r.head % cap + 4 + from_le (slice (r.head % cap) (r.head % cap + 4) r.mem))
              cap
            ≡ false =
          ap (λ n. leb (r.head % cap + 4 + n) cap)
            (word_read cap frame start at r h first any small)
          ∙ not_whole (r.head % cap) (length frame) h.whole h.longer in
        rw (some_octets, past) (take_record_lem cap frame start at r h first any seen small)
  ]

  -- `recv` before it waits: a turn where nothing of the record is taken yet, and nothing otherwise.
  pub recv_frame_lem :
      (at : ℕ) (r : Ring)
      → Both (at, r)
      → TakeOutcome cap frame start at (recv_frame cap r) ⊎ (recv_frame cap r ≡ (none, r))
  recv_frame_lem at r (h, inr (p, streaming, part, less)) = inr (
      unfold recv_frame in
      ap (λ q. elim q [ some p ↦ (none, r) | none ↦ recv_idle cap (refreshed r) ]) streaming)
  recv_frame_lem at r (h, inl (idle, first, seen)) = inl (
      subst (TakeOutcome cap frame start at) (sym (recv_frame_idle r idle (seen ∙ sym first))) (
        recv_idle_lem at (record r { in_tail = r.tail }) (seen_Streams cap frame start at r h) idle
          first refl))

  after_look : (at : ℕ) (r r' : Ring) → Both (at, r) → recv_frame cap r ≡ (none, r') → Both (at, r')
  after_look at r r' both e = elim (recv_frame_lem at r both) [
    | inl turn ↦ after_take at r' (subst (TakeOutcome cap frame start at) e turn)
    | inr same ↦ subst (λ s. Both (at, s)) (ap (λ t. t.1) (sym same ∙ e)) both
  ]

  Step-Both : {s s' : ℕ × Ring} → Step cap frame s s' → Both s → Both s'
  Step-Both (sends at at' r r' e) (h, have) =
      after_send at at' r r' have
        (subst (SendOutcome cap frame start at r) e (send_turn_lem cap frame start at r h))
  Step-Both (waits at n b r r' e) (h, have) =
      let both : Both (at, r') =
        after_wait at n r r' have
          (subst (SendOutcome cap frame start at r) e (send_turn_lem cap frame start at r h)) in
      (
        same-Streams cap frame start at r' (record r' { write_waits = b }) both.0 refl refl refl
            (omega arith) both.0.behind,
        Collected-same r' (record r' { write_waits = b }) both.1 refl refl refl,
      )
  Step-Both (says at b r) (h, have) = (
    same-Streams cap frame start at r (record r { read_waits = b }) h refl refl refl (omega arith)
        h.behind,
    Collected-same r (record r { read_waits = b }) have refl refl refl,
  )
  Step-Both (looks at r r' e) both = after_look at r r' both e
  Step-Both (collects at r r' e) (h, have) =
      after_take at r'
        (subst (TakeOutcome cap frame start at) e (recv_turn_lem cap frame start at r h have small))

  pub Reach-Both : {s s' : ℕ × Ring} → Reach cap frame s s' → Both s → Both s'
  Reach-Both here both = both
  Reach-Both (later run step) both = Step-Both step (Reach-Both run both)

  -- From a ring that holds nothing.
  pub empty-Both :
      (r : Ring) → Holds cap [] r → r.tail ≡ start → cap < rec_size (length frame) → Both (0, r)
  empty-Both r h at_start longer =
      let level : r.tail ≡ r.head =
        omega (
          arith,
          h,
          sym (length-contents cap r.mem r.head (r.tail - r.head)),
          ap length h.records,
        ) in
      (
        record {
          size = h.size;
          whole = h.whole;
          large = h.large;
          aligned = ap (λ q. q % 8) (sym at_start) ∙ h.aligned_tail;
          sent = omega (arith, at_start);
          begun = inl refl;
          bounded = omega arith;
          longer = longer;
          seen_head = h.seen_head;
          behind = omega (arith, level);
          within = h.within;
          octets = λ d less there sent. absurd (omega arith);
        },
        inl (h.idle, sym level ∙ at_start, omega (arith, h)),
      )
