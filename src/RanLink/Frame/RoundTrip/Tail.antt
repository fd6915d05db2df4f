-- ===== src/RanLink/Frame/RoundTrip/Tail.antt =====
-- What stands behind the header: the payload, and the stamps if they are sent.
use core_network_traffic_gen.Common.{ℕ, ◌+◌, ◌/◌, ◌%◌, ◌^◌, ◌<◌, ◌≡◌, refl, sym, ap, ◌∙◌, arith}
use core_network_traffic_gen.Common.{Option, none, some, List, [], ◌++◌, All, ok}
use core_network_traffic_gen.Common.{
  Option-cases, inl, inr, length, length-append, drop, slice-append, drop-append₂,
}
use core_network_traffic_gen.Common.Bytes.{le_bytes}
use core_network_traffic_gen.RanLink.Event.{Stamp, Event}
use core_network_traffic_gen.RanLink.Frame.{
  pack_stamps, stamps_part, uint_at, stamps_at, decode_tail,
}
use core_network_traffic_gen.RanLink.Frame.RoundTrip.Stamps.{
  uint_at-drop, stamps_at-drop, stamps_at-pack_stamps,
}

abbrev pub HasDoubles : Option (List Stamp) → Type 0
HasDoubles none = Unit
HasDoubles (some ss) = All (λ s. s.1 < 2 ^ 64) ss

stamps_part_inv :
    (ss : List Stamp) {f : ℕ} {tail : List ℕ}
    → stamps_part (some ss) ≡ some (f, tail)
    → (ps : List ℕ) × (pack_stamps ss ≡ some ps)
      × (length ss < 2 ^ 16)
      × (tail ≡ le_bytes 2 (length ss) ++ ps)
      × (f ≡ 2)
unfolding stamps_part
stamps_part_inv ss e = elim (Option-cases (pack_stamps ss)) [
  | inl bad ↦ absurd (ground arith)
  | inr (ps, good) ↦ (ps, good, ground arith, ground arith, ground arith)
]

count_fields :
    (n : ℕ) (ps : List ℕ)
    → n < 2 ^ 16
    → (uint_at 2 0 (le_bytes 2 n ++ ps) ≡ n)
      × (stamps_at n 2 (le_bytes 2 n ++ ps) ≡ stamps_at n 0 ps)
      × (length (le_bytes 2 n ++ ps) ≡ 2 + length ps)
unfolding uint_at le_bytes
count_fields n ps h = (omega arith, sym (stamps_at-drop n 2 0 (le_bytes 2 n ++ ps)), omega arith)

module _ (pre payload : List ℕ) where
  abbrev whole : List Stamp → List ℕ → List ℕ
  whole ss ps = pre ++ (payload ++ (le_bytes 2 (length ss) ++ ps))

  behind :
      (ss : List Stamp) (ps : List ℕ)
      → drop (length pre + length payload) (whole ss ps) ≡ le_bytes 2 (length ss) ++ ps
  behind ss ps = drop-append₂ (length pre + length payload) pre payload _ refl

  count_at :
      (ss : List Stamp) (ps : List ℕ)
      → length ss < 2 ^ 16
      → uint_at 2 (length pre + length payload) (whole ss ps) ≡ length ss
  count_at ss ps h =
      let end = length pre + length payload in
      let z : end ≡ end + 0 = omega arith in
      ap (λ k. uint_at 2 k (whole ss ps)) z
      ∙ sym (uint_at-drop 2 end 0 (whole ss ps))
      ∙ ap (uint_at 2 0) (behind ss ps)
      ∙ (count_fields (length ss) ps h).0

  stamps_behind_count :
      (ss : List Stamp) (ps : List ℕ)
      → length ss < 2 ^ 16
      → stamps_at (length ss) (length pre + length payload + 2) (whole ss ps)
        ≡ stamps_at (length ss) 0 ps
  stamps_behind_count ss ps h =
      sym (stamps_at-drop (length ss) (length pre + length payload) 2 (whole ss ps))
      ∙ ap (stamps_at (length ss) 2) (behind ss ps)
      ∙ (count_fields (length ss) ps h).1

module _ (kind flags ue_id code : ℕ) (at : Option ℕ) (pre payload : List ℕ) where
  abbrev event : Option (List Stamp) → Event
  event ss = record {
    kind = kind;
    ue_id = ue_id;
    payload = payload;
    code = code;
    received_at = at;
    stamps = ss;
  }

  pub decode_tail-stamps_part :
      (o : Option (List Stamp)) {f : ℕ} {tail : List ℕ}
      → stamps_part o ≡ some (f, tail)
      → HasDoubles o
      → flags / 2 % 2 ≡ f / 2
      → decode_tail kind flags ue_id code at
          (length pre)
          (length pre + length payload)
          (pre ++ (payload ++ tail))
        ≡ ok (event o)
  unfolding decode_tail
  decode_tail-stamps_part none {f} {tail} e h k =
      let p : (tail ≡ []) × (f ≡ 0) = unfold stamps_part in ground arith in
      ground (
        arith,
        slice-append (length pre) (length pre + length payload) pre payload tail refl refl,
        length-append pre (payload ++ tail),
        length-append payload tail,
      )
  decode_tail-stamps_part (some ss) {f} {tail} e h k =
      let (ps, good, fits, parts, two) = stamps_part_inv ss e in
      let (long, back) = stamps_at-pack_stamps ss h good in
      ground (
        arith,
        slice-append (length pre) (length pre + length payload) pre payload tail refl refl,
        length-append pre (payload ++ tail),
        length-append payload tail,
        count_fields (length ss) ps fits,
        count_at pre payload ss ps fits,
        stamps_behind_count pre payload ss ps fits,
      )
