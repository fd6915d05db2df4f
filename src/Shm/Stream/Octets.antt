-- ===== src/Shm/Stream/Octets.antt =====
-- What stands in the ring while a record streams through it.
use core_network_traffic_gen.Common.{ℕ, ◌+◌, ◌%◌, ◌≤◌, ◌<◌, ◌≡◌, sym, ap, ◌∙◌, arith, ◌⊎◌}
use core_network_traffic_gen.Common.{List, length, length-append, get_or}
use core_network_traffic_gen.Common.Bytes.{le_bytes, length-le_bytes}
use native.Mathlib.Nat.{mod-lt}
use core_network_traffic_gen.Shm.Memory.{put, octet_at}
use core_network_traffic_gen.Shm.Put.{length-put, put_new, put_old}
use core_network_traffic_gen.Shm.Ring.{Ring, rec_size}
use core_network_traffic_gen.Shm.Stream.{octets_of}

-- A copy at a position, as it is read there and before it.
module _ (cap t : ℕ) (xs mem : List ℕ) (size : length mem ≡ cap) (pos : 0 < cap)
    (fits : length xs ≤ cap) where
  place_zero : t % cap + 0 ≡ t % cap
  place_zero = omega arith

  pub put_here :
      (d : ℕ) → d < length xs → octet_at cap (put cap (t % cap) xs mem) (t + d) ≡ get_or xs d 0
  put_here d small =
      ap (λ q. octet_at cap (put cap q xs mem) (t + d)) (sym place_zero)
      ∙ ap (octet_at cap (put cap (t % cap + 0) xs mem)) (omega arith)
      ∙ put_new cap t 0 xs mem size pos (omega (arith, mod-lt t pos)) (omega arith) d small

  pub put_kept :
      (i : ℕ)
      → i < t
      → t + length xs ≤ i + cap
      → octet_at cap (put cap (t % cap) xs mem) i ≡ octet_at cap mem i
  put_kept i before window =
      ap (λ q. octet_at cap (put cap q xs mem) i) (sym place_zero)
      ∙ put_old cap t 0 xs mem size pos (omega (arith, mod-lt t pos)) (omega arith) i (omega arith)
          (omega arith)

  pub size_kept : length (put cap (t % cap) xs mem) ≡ cap
  size_kept = length-put cap (t % cap) xs mem size (omega (arith, mod-lt t pos)) fits

module _ (cap : ℕ) (frame : List ℕ) (start : ℕ) where
  -- The record starts at `start`; `at` of its octets are sent, and those not freed stand in the ring.
  pub record Streams (at : ℕ) (r : Ring) : Type 0 where
    pub size : length r.mem ≡ cap
    pub whole : cap % 8 ≡ 0
    pub large : 0 < cap
    pub aligned : start % 8 ≡ 0
    pub sent : r.tail ≡ start + at
    pub begun : (at ≡ 0) ⊎ (8 ≤ at)
    pub bounded : at ≤ rec_size (length frame)
    pub longer : cap < rec_size (length frame)
    pub seen_head : r.out_head ≤ r.head
    pub behind : r.head ≤ r.tail
    pub within : r.tail ≤ r.out_head + cap
    pub octets :
        (d : ℕ)
        → d < 4 + length frame
        → r.head ≤ start + d
        → start + d < r.tail
        → octet_at cap r.mem (start + d) ≡ get_or (octets_of frame) d 0

  -- It depends on the octets, the tail and what the producer saw, and on the head between them.
  pub same-Streams :
      (at : ℕ) (r s : Ring)
      → Streams at r
      → s.mem ≡ r.mem
      → s.tail ≡ r.tail
      → s.out_head ≡ r.out_head
      → r.head ≤ s.head
      → s.head ≤ r.tail
      → Streams at s
  same-Streams at r s h mem tail seen on inside = record {
    size = ap length mem ∙ h.size;
    whole = h.whole;
    large = h.large;
    aligned = h.aligned;
    sent = tail ∙ h.sent;
    begun = h.begun;
    bounded = h.bounded;
    longer = h.longer;
    seen_head = omega (arith, h, seen);
    behind = omega (arith, tail);
    within = omega (arith, h, seen, tail);
    octets = λ d small there sent.
        ap (λ m. octet_at cap m (start + d)) mem
        ∙ h.octets d small (omega arith) (omega (arith, tail));
  }

  pub length-octets_of : length (octets_of frame) ≡ 4 + length frame
  length-octets_of =
      length-append (le_bytes 4 (length frame)) frame
      ∙ ap (λ n. n + length frame) (length-le_bytes 4 (length frame))
