-- ===== src/RanLink/Frame.antt =====
-- `encode` and `decode` of src/ranlink.py. `none` of `encode` is the struct.error of a value that
-- does not fit its field.
pub mod RoundTrip
pub mod Reject
mod Examples
use core_network_traffic_gen.Common.{
  ℕ, zero, suc, ◌+◌, ◌*◌, ◌/◌, ◌%◌, ◌^◌, ltb, ◌==◌, if◌then◌else◌,
}
use core_network_traffic_gen.Common.{
  Bool, true, false, not, ◌&&◌, Option, none, some, List, [], ◌∷◌, ◌++◌,
}
use core_network_traffic_gen.Common.{length, take, drop, slice, get_or, Result, ok, err}
use core_network_traffic_gen.Common.Bytes.{le_bytes, from_le}
use core_network_traffic_gen.RanLink.Event.{version, is_kind, Stamp, Event, FrameError}
use core_network_traffic_gen.RanLink.Event.{short_header, bad_version, unknown_kind, no_received_at}
use core_network_traffic_gen.RanLink.Event.{no_stamps, wrong_length}

infixl 5 ◌>>=◌
abbrev ◌>>=◌ : {A B : Type 0} → Option A → (A → Option B) → Option B
none >>= f = none
some a >>= f = f a

-- struct's packing of an unsigned integer of `width` octets
unfoldable pub pack_uint : ℕ → ℕ → Option (List ℕ)
unfolding le_bytes
pack_uint width v = if ltb v (256 ^ width) then some (le_bytes width v) else none

-- HEADER = struct.Struct('=BBHIHHI')
unfoldable pub pack_header : ℕ → ℕ → ℕ → ℕ → ℕ → ℕ → ℕ → Option (List ℕ)
unfolding le_bytes
pack_header ver kind flags ue_id code reserved len =
    if ltb ver 256
      && ltb kind 256
      && ltb flags (2 ^ 16)
      && ltb ue_id (2 ^ 32)
      && ltb code (2 ^ 16)
      && ltb reserved (2 ^ 16)
      && ltb len (2 ^ 32)
    then some (
        ver ∷ kind ∷ le_bytes 2 flags
        ++ le_bytes 4 ue_id
        ++ le_bytes 2 code
        ++ le_bytes 2 reserved
        ++ le_bytes 4 len)
    else none

-- _STAMP = struct.Struct('=Hd')
unfoldable pub pack_stamp : Stamp → Option (List ℕ)
unfolding le_bytes
pack_stamp (c, t) = if ltb c (2 ^ 16) then some (le_bytes 2 c ++ le_bytes 8 t) else none

unfoldable pub pack_stamps : List Stamp → Option (List ℕ)
unfolding pack_stamp
pack_stamps [] = some []
pack_stamps (s ∷ ss) = do p ← pack_stamp s; ps ← pack_stamps ss; some (p ++ ps)

-- The octets of `received_at`, if it is sent, and the flag that says so.
unfoldable pub time_part : Option ℕ → ℕ × List ℕ
unfolding le_bytes
time_part none = (0, [])
time_part (some t) = (1, le_bytes 8 t)

-- The count and the stamps, if they are sent, and their flag.
unfoldable pub stamps_part : Option (List Stamp) → Option (ℕ × List ℕ)
unfolding pack_uint pack_stamps
stamps_part none = some (0, [])
stamps_part (some ss) = do n ← pack_uint 2 (length ss); ps ← pack_stamps ss; some (2, n ++ ps)

unfoldable pub encode : Event → Option (List ℕ)
unfolding pack_header time_part stamps_part
encode e = do
  (f, tail) ← stamps_part e.stamps
  h ←
      pack_header version e.kind ((time_part e.received_at).0 + f) e.ue_id e.code 0
        (length e.payload)
  some (h ++ ((time_part e.received_at).1 ++ (e.payload ++ tail)))

-- unpack_from of an unsigned integer of `width` octets at `off`
unfoldable pub uint_at : ℕ → ℕ → List ℕ → ℕ
unfolding from_le
uint_at width off buf = from_le (take width (drop off buf))

-- `[_STAMP.unpack_from(buf, off + 10 * i) for i in range(n)]`
unfoldable pub stamps_at : ℕ → ℕ → List ℕ → List Stamp
unfolding uint_at
stamps_at zero off buf = []
stamps_at (suc n) off buf =
    (uint_at 2 off buf, uint_at 8 (off + 2) buf) ∷ stamps_at n (off + 10) buf

-- `flags & F_RECEIVED_AT` and `flags & F_STAMPS`
abbrev pub has_time : ℕ → Bool
has_time flags = flags % 2 == 1

abbrev pub has_stamps : ℕ → Bool
has_stamps flags = flags / 2 % 2 == 1

-- `Event(kind, ue_id, bytes(buf[off:end]), code, received_at, stamps)`
abbrev pub read_event : ℕ → ℕ → ℕ → Option ℕ → ℕ → ℕ → List ℕ → Option (List Stamp) → Event
read_event kind ue_id code received_at off end buf stamps = record {
  kind = kind;
  ue_id = ue_id;
  payload = slice off end buf;
  code = code;
  received_at = received_at;
  stamps = stamps;
}

-- The rest of `decode`, once the payload's place `off .. end` is known.
unfoldable pub decode_tail : ℕ → ℕ → ℕ → ℕ → Option ℕ → ℕ → ℕ → List ℕ → Result FrameError Event
decode_tail kind flags ue_id code received_at off end buf =
    let event = read_event kind ue_id code received_at off end buf in
    let n = uint_at 2 end buf in
    if has_stamps flags
    then (if ltb (length buf) (end + 2)
        then err no_stamps
        else if length buf == end + 2 + 10 * n
        then ok (event (some (stamps_at n (end + 2) buf)))
        else err wrong_length)
    else if length buf == end
    then ok (event none)
    else err wrong_length

unfoldable pub decode : List ℕ → Result FrameError Event
decode buf =
    if ltb (length buf) 16
    then err short_header
    else if not (get_or buf 0 0 == version)
    then err bad_version
    else if not (is_kind (get_or buf 1 0))
    then err unknown_kind
    else let kind = get_or buf 1 0 in
      let flags = uint_at 2 2 buf in
      let ue_id = uint_at 4 4 buf in
      let code = uint_at 2 8 buf in
      let len = uint_at 4 12 buf in
      if has_time flags
      then (if ltb (length buf) 24
          then err no_received_at
          else decode_tail kind flags ue_id code (some (uint_at 8 16 buf)) 24 (24 + len) buf)
      else decode_tail kind flags ue_id code none 16 (16 + len) buf
