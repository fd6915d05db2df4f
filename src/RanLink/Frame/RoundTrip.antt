-- ===== src/RanLink/Frame/RoundTrip.antt =====
-- A frame that `encode` made decodes to its event.
mod Stamps
mod Tail
pub use Tail.{HasDoubles}
use Tail.{decode_tail-stamps_part}
use core_network_traffic_gen.Common.{
  ℕ, zero, suc, ◌+◌, ◌*◌, ◌/◌, ◌%◌, ◌^◌, ◌≤◌, ◌<◌, ◌≡◌, refl, sym, ap, ◌∙◌, arith,
}
use core_network_traffic_gen.Common.{
  Bool, true, false, Option, none, some, List, [], ◌∷◌, ◌++◌, All,
}
use core_network_traffic_gen.Common.{length, ok, Option-cases, inl, inr, ◌⊎◌}
use core_network_traffic_gen.Common.Bytes.{le_bytes, from_le, from_le-le_bytes, length-le_bytes}
use core_network_traffic_gen.RanLink.Event.{version, is_kind, Stamp, Event}
use core_network_traffic_gen.RanLink.Frame.{
  pack_uint, pack_header, pack_stamp, pack_stamps, time_part,
}
use core_network_traffic_gen.RanLink.Frame.{
  stamps_part, encode, uint_at, stamps_at, decode_tail, decode,
}
use core_network_traffic_gen.RanLink.Frame.{has_time, has_stamps, read_event}

-- The event's times have the 64 bits of a double.
abbrev pub HasDouble : Option ℕ → Type 0
HasDouble none = Unit
HasDouble (some t) = t < 2 ^ 64

-- The header's octets.
pub header : ℕ → ℕ → ℕ → ℕ → ℕ → List ℕ
header kind flags ue_id code len =
    version
    ∷ kind
    ∷ (flags % 256)
    ∷ (flags / 256 % 256)
    ∷ (ue_id % 256)
    ∷ (ue_id / 256 % 256)
    ∷ (ue_id / 256 / 256 % 256)
    ∷ (ue_id / 256 / 256 / 256 % 256)
    ∷ (code % 256)
    ∷ (code / 256 % 256)
    ∷ 0
    ∷ 0
    ∷ (len % 256)
    ∷ (len / 256 % 256)
    ∷ (len / 256 / 256 % 256)
    ∷ (len / 256 / 256 / 256 % 256)
    ∷ []

pub record HeaderFits (kind ue_id code len : ℕ) : Type 0 where
  pub kind_fits : kind < 256
  pub ue_id_fits : ue_id < 2 ^ 32
  pub code_fits : code < 2 ^ 16
  pub len_fits : len < 2 ^ 32

pub pack_header_inv :
    (kind flags ue_id code len : ℕ) {h : List ℕ}
    → pack_header version kind flags ue_id code 0 len ≡ some h
    → (h ≡ header kind flags ue_id code len) × HeaderFits kind ue_id code len
unfolding pack_header header
pack_header_inv kind flags ue_id code len e = ground arith

-- What is read from a frame that begins with these octets.
header_fields :
    (kind flags ue_id code len : ℕ) (rest : List ℕ)
    → flags < 2 ^ 16
    → HeaderFits kind ue_id code len
    → let buf = header kind flags ue_id code len ++ rest in
      (uint_at 2 2 buf ≡ flags)
      × (uint_at 4 4 buf ≡ ue_id)
      × (uint_at 2 8 buf ≡ code)
      × (uint_at 4 12 buf ≡ len)
unfolding uint_at header
header_fields kind flags ue_id code len rest f fits =
    (omega arith, omega arith, omega arith, omega arith)

module _ (kind flags ue_id code len : ℕ) (rest : List ℕ) (known : is_kind kind ≡ true)
    (f : flags < 2 ^ 16) (fits : HeaderFits kind ue_id code len) where
  abbrev frame : List ℕ
  frame = header kind flags ue_id code len ++ rest

  pub decode-header :
      has_time flags ≡ false
      → decode frame ≡ decode_tail kind flags ue_id code none 16 (16 + len) frame
  unfolding decode header
  decode-header t = ground (arith, header_fields kind flags ue_id code len rest f fits)

  pub decode-header_time :
      has_time flags ≡ true
      → 8 ≤ length rest
      → decode frame
        ≡ decode_tail kind flags ue_id code (some (uint_at 8 16 frame)) 24 (24 + len) frame
  unfolding decode header
  decode-header_time t long = ground (arith, header_fields kind flags ue_id code len rest f fits)

time_bytes : (t : ℕ) (rest : List ℕ) → t < 2 ^ 64 → uint_at 8 0 (le_bytes 8 t ++ rest) ≡ t
unfolding uint_at le_bytes
time_bytes t rest h = omega arith

-- The time behind the header, where it is sent.
time_at :
    (kind flags ue_id code len t : ℕ) (rest : List ℕ)
    → t < 2 ^ 64
    → uint_at 8 16 (header kind flags ue_id code len ++ (le_bytes 8 t ++ rest)) ≡ t
unfolding uint_at header
time_at kind flags ue_id code len t rest h = time_bytes t rest h

-- What `encode` has put together.
record Parts (e : Event) (f : List ℕ) : Type 0 where
  fl : ℕ
  tail : List ℕ
  stamped : stamps_part e.stamps ≡ some (fl, tail)
  fits : HeaderFits e.kind e.ue_id e.code (length e.payload)
  whole :
      f
      ≡ header e.kind ((time_part e.received_at).0 + fl) e.ue_id e.code (length e.payload)
        ++ ((time_part e.received_at).1 ++ (e.payload ++ tail))

encode_inv : (e : Event) (f : List ℕ) → encode e ≡ some f → Parts e f
unfolding encode
encode_inv e f h = elim (Option-cases (stamps_part e.stamps)) [
  | inl bad ↦ absurd (ground arith)
  | inr ((fl, tail), good) ↦
      elim (Option-cases (
        pack_header version e.kind ((time_part e.received_at).0 + fl) e.ue_id e.code 0
          (length e.payload))) [
            | inl bad ↦ absurd (ground arith)
            | inr (octets, made) ↦
                let (same, fits) =
                  pack_header_inv e.kind _ e.ue_id e.code (length e.payload) made in
                record { fl = fl; tail = tail; stamped = good; fits = fits; whole = ground arith }
          ]
]

flag_cases :
    (ss : Option (List Stamp)) {fl : ℕ} {tail : List ℕ}
    → stamps_part ss ≡ some (fl, tail)
    → (fl ≡ 0) ⊎ (fl ≡ 2)
unfolding stamps_part
flag_cases none e = ground arith
flag_cases (some ss) e = ground arith

round_trip :
    (kind ue_id code : ℕ) (payload tail : List ℕ) (at : Option ℕ) (ss : Option (List Stamp))
    {fl : ℕ}
    → is_kind kind ≡ true
    → HasDouble at
    → HasDoubles ss
    → stamps_part ss ≡ some (fl, tail)
    → HeaderFits kind ue_id code (length payload)
    → decode (
        header kind ((time_part at).0 + fl) ue_id code (length payload)
        ++ ((time_part at).1 ++ (payload ++ tail)))
      ≡ ok (record {
        kind = kind;
        ue_id = ue_id;
        payload = payload;
        code = code;
        received_at = at;
        stamps = ss;
      })
unfolding time_part header
round_trip kind ue_id code payload tail none ss {fl} known t ts e fits =
    let c = flag_cases ss e in
    decode-header kind (0 + fl) ue_id code (length payload) (payload ++ tail) known
      (omega (arith, c)) fits (ground (arith, c))
    ∙ decode_tail-stamps_part kind (0 + fl) ue_id code none
        (header kind (0 + fl) ue_id code (length payload)) payload ss e ts (omega (arith, c))
round_trip kind ue_id code payload tail (some t) ss {fl} known ht ts e fits =
    let c = flag_cases ss e in
    let front = header kind (1 + fl) ue_id code (length payload) in
    decode-header_time kind (1 + fl) ue_id code (length payload) (le_bytes 8 t ++ (payload ++ tail))
      known (omega (arith, c)) fits (ground (arith, c)) (omega arith)
    ∙ ap
        (λ o.
          decode_tail kind (1 + fl) ue_id code (some o) 24 (24 + length payload)
            (front ++ (le_bytes 8 t ++ (payload ++ tail))))
        (time_at kind (1 + fl) ue_id code (length payload) t (payload ++ tail) ht)
    ∙ decode_tail-stamps_part kind (1 + fl) ue_id code (some t) (front ++ le_bytes 8 t) payload ss e
        ts (omega (arith, c))

-- A frame that `encode` makes of an event of a known kind, whose times are doubles, decodes to that
-- event.
pub decode-encode :
    (e : Event) (f : List ℕ)
    → is_kind e.kind ≡ true
    → HasDouble e.received_at
    → HasDoubles e.stamps
    → encode e ≡ some f
    → decode f ≡ ok e
decode-encode e f known t ts h =
    let p = encode_inv e f h in
    ap decode p.whole
    ∙ round_trip e.kind e.ue_id e.code e.payload p.tail e.received_at e.stamps known t ts p.stamped
        p.fits
