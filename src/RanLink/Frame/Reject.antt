-- ===== src/RanLink/Frame/Reject.antt =====
-- What `decode` takes and refuses. A frame is exactly as long as its fields say, so no accepted frame is
-- a proper prefix of another.
use core_network_traffic_gen.Common.{
  ℕ, ◌+◌, ◌-◌, ◌*◌, ◌≤◌, ◌≡◌, ap, sym, ◌∙◌, arith, ◌↔◌, if◌then◌else◌,
}
use core_network_traffic_gen.Common.{
  Bool, true, false, ltb, not, ◌==◌, Bool-cases, refl, Result, Option, none, some, inl, inr,
  Result-cases, List, ◌∷◌, ◌++◌, length, length-append, get_or, ok, err,
}
use core_network_traffic_gen.Common.{take-drop-append, get_or-append, take, drop}
use core_network_traffic_gen.Common.Bytes.{from_le}
use core_network_traffic_gen.RanLink.Event.{
  version, is_kind, Event, FrameError, wrong_length, no_received_at, short_header, bad_version,
  unknown_kind,
}
use core_network_traffic_gen.RanLink.Frame.{
  uint_at, decode_tail, decode, encode, has_time, has_stamps, stamps_at, read_event,
}
use core_network_traffic_gen.RanLink.Frame.RoundTrip.{HasDouble, HasDoubles, decode-encode}

uint_at-append :
    (w off : ℕ) (g r : List ℕ) → off + w ≤ length g → uint_at w off (g ++ r) ≡ uint_at w off g
unfolding uint_at
uint_at-append w off g r h = ap from_le (take-drop-append w off g r h)

decode_tail-append :
    (kind flags ue_id code : ℕ) (at : Option ℕ) (off end : ℕ) (g r : List ℕ) (x : ℕ) (e : Event)
    → decode_tail kind flags ue_id code at off end g ≡ ok e
    → decode_tail kind flags ue_id code at off end (g ++ (x ∷ r)) ≡ err wrong_length
unfolding decode_tail
decode_tail-append kind flags ue_id code at off end g r x e h =
    ground (arith, length-append g (x ∷ r), uint_at-append 2 end g (x ∷ r))

-- An accepted frame with anything behind it is refused, as a frame of a wrong length.
pub decode-append :
    (g r : List ℕ) (x : ℕ) (e : Event) → decode g ≡ ok e → decode (g ++ (x ∷ r)) ≡ err wrong_length
unfolding decode
decode-append g r x e h = ground (
  arith,
  length-append g (x ∷ r),
  get_or-append 0 g (x ∷ r) 0,
  get_or-append 1 g (x ∷ r) 0,
  uint_at-append 2 2 g (x ∷ r),
  uint_at-append 4 4 g (x ∷ r),
  uint_at-append 2 8 g (x ∷ r),
  uint_at-append 4 12 g (x ∷ r),
  uint_at-append 8 16 g (x ∷ r),
  decode_tail-append kind flags ue_id code none 16 (16 + len) g r x e,
  decode_tail-append kind flags ue_id code (some (uint_at 8 16 g)) 24 (24 + len) g r x e,
)
  where
    kind : ℕ
    kind = get_or g 1 0

    flags : ℕ
    flags = uint_at 2 2 g

    ue_id : ℕ
    ue_id = uint_at 4 4 g

    code : ℕ
    code = uint_at 2 8 g

    len : ℕ
    len = uint_at 4 12 g

-- Every proper prefix of a frame that `encode` makes is refused.
pub decode_prefix :
    (e : Event) (f front back : List ℕ) (x : ℕ)
    → is_kind e.kind ≡ true
    → HasDouble e.received_at
    → HasDoubles e.stamps
    → encode e ≡ some f
    → f ≡ front ++ (x ∷ back)
    → (why : FrameError) × (decode front ≡ err why)
decode_prefix e f front back x known t ts h parts = elim (Result-cases (decode front)) [
  | inl (e', good) ↦
      let whole : decode (front ++ (x ∷ back)) ≡ ok e =
        ap decode (sym parts) ∙ decode-encode e f known t ts h in
      absurd (ground (arith, whole, decode-append front back x e' good))
  | inr bad ↦ bad
]

-- The octets before the payload, with or without `received_at`, and those of a whole frame.
abbrev pub header_size : Bool → ℕ
header_size timed = if timed then 24 else 16

abbrev pub size_of : Bool → Bool → ℕ → List ℕ → ℕ
size_of timed stamped len g =
    let end = header_size timed + len in if stamped then end + 2 + 10 * uint_at 2 end g else end

-- The event that is written in a frame with these flags.
abbrev pub written_with : Bool → Bool → ℕ → List ℕ → Event
written_with timed stamped len g =
    let end = header_size timed + len in
    record {
      kind = get_or g 1 0;
      ue_id = uint_at 4 4 g;
      payload = take len (drop (header_size timed) g);
      code = uint_at 2 8 g;
      received_at = if timed then some (uint_at 8 16 g) else none;
      stamps = if stamped then some (stamps_at (uint_at 2 end g) (end + 2) g) else none;
    }

-- The octets that a frame has by its own header and count, and its event.
abbrev pub frame_size : List ℕ → ℕ
frame_size g = size_of (has_time (uint_at 2 2 g)) (has_stamps (uint_at 2 2 g)) (uint_at 4 12 g) g

abbrev pub written : List ℕ → Event
written g = written_with (has_time (uint_at 2 2 g)) (has_stamps (uint_at 2 2 g)) (uint_at 4 12 g) g

decode_tail_iff :
    (kind flags ue_id code : ℕ) (at : Option ℕ) (off end : ℕ) (g : List ℕ) (e : Event)
    → (decode_tail kind flags ue_id code at off end g ≡ ok e) ↔ (
        (length g ≡ (if has_stamps flags then end + 2 + 10 * uint_at 2 end g else end))
        × (e
            ≡ read_event kind ue_id code at off end g (
                if has_stamps flags then some (stamps_at (uint_at 2 end g) (end + 2) g) else none)))
unfolding decode_tail
decode_tail_iff kind flags ue_id code at off end g e = (ground arith, ground arith)

-- The end of `decode`, after the header's checks.
abbrev after_header : Bool → ℕ → ℕ → List ℕ → Result FrameError Event
after_header timed flags len g =
    let kind = get_or g 1 0 in
    let ue_id = uint_at 4 4 g in
    let code = uint_at 2 8 g in
    if timed
    then (if ltb (length g) 24
        then err no_received_at
        else decode_tail kind flags ue_id code (some (uint_at 8 16 g)) 24 (24 + len) g)
    else decode_tail kind flags ue_id code none 16 (16 + len) g

after_header_iff :
    (timed : Bool) (flags len : ℕ) (g : List ℕ) (e : Event)
    → (after_header timed flags len g ≡ ok e) ↔ (
        (length g ≡ size_of timed (has_stamps flags) len g)
        × (e ≡ written_with timed (has_stamps flags) len g))
after_header_iff false flags len g e =
    let cut : 16 + len - 16 ≡ len = omega arith in
    let tail =
      decode_tail_iff (get_or g 1 0) flags (uint_at 4 4 g) (uint_at 2 8 g) none 16 (16 + len) g e in
    rw cut at tail
after_header_iff true flags len g e =
    let cut : 24 + len - 24 ≡ len = omega arith in
    let tail =
      decode_tail_iff (get_or g 1 0) flags (uint_at 4 4 g) (uint_at 2 8 g) (some (uint_at 8 16 g))
        24 (24 + len) g e in
    elim (Bool-cases (ltb (length g) 24)) [
      | inl short ↦ (ground arith, λ p. absurd (ground (arith, p.0)))
      | inr long ↦ rw long (rw cut at tail)
    ]

guarded_iff :
    {P : Type 0} (b : Bool) (why : FrameError) (r : Result FrameError Event) (e : Event)
    → (r ≡ ok e) ↔ P
    → ((if b then err why else r) ≡ ok e) ↔ ((b ≡ false) × P)
guarded_iff true why r e h = (λ q. absurd (ground arith), λ p. absurd (ground arith))
guarded_iff false why r e h = (λ q. (refl, h.0 q), λ p. h.1 p.1)

decode_iff :
    (g : List ℕ) (e : Event)
    → (decode g ≡ ok e) ↔ (
        (ltb (length g) 16 ≡ false)
        × ((not (get_or g 0 0 == version) ≡ false)
            × ((not (is_kind (get_or g 1 0)) ≡ false)
                × ((length g ≡ frame_size g) × (e ≡ written g)))))
unfolding decode
decode_iff g e = guarded_iff (ltb (length g) 16) short_header _ e (
    guarded_iff (not (get_or g 0 0 == version)) bad_version _ e (
      guarded_iff (not (is_kind (get_or g 1 0))) unknown_kind _ e
        (after_header_iff (has_time (uint_at 2 2 g)) (uint_at 2 2 g) (uint_at 4 12 g) g e)))

enough :
    (timed stamped : Bool) (len : ℕ) (g : List ℕ)
    → length g ≡ size_of timed stamped len g
    → ltb (length g) 16 ≡ false
enough timed stamped len g h = ground arith

-- decode takes just the frames of this version and of a known kind that have exactly the octets that
-- their header and count announce, and gives the event that is written in them, with all its fields.
pub decode_ok :
    (g : List ℕ) (e : Event)
    → (decode g ≡ ok e) ↔ (
        (length g ≡ frame_size g)
        × (get_or g 0 0 ≡ version)
        × (is_kind (get_or g 1 0) ≡ true)
        × (e ≡ written g))
decode_ok g e =
    let (taken, takes) = decode_iff g e in
    (
      λ h.
          let (long, (same, (known, (size, event)))) = taken h in
          (size, ground (arith, same), ground (arith, known), event),
      λ p. takes (enough _ _ _ g p.0, (ground (arith, p.1), (ground (arith, p.2), (p.0, p.3)))),
    )
