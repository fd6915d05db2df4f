-- ===== src/RanLink/Frame/Examples.antt =====
-- Concrete frames.
use core_network_traffic_gen.Common.{ℕ, ◌≡◌, ◌↔◌, refl, arith, List, [], ◌∷◌, some, true, ok, err}
use core_network_traffic_gen.Common.{length, get_or}
use core_network_traffic_gen.RanLink.Event.{Event, FrameError, version, is_kind}
use core_network_traffic_gen.RanLink.Frame.{encode, decode, decode_tail, stamps_at}
use core_network_traffic_gen.RanLink.Frame.RoundTrip.{decode-encode}
use core_network_traffic_gen.RanLink.Frame.Reject.{decode_prefix, decode_ok, frame_size, written}

abbrev answer : Event
answer = record {
  kind = 3;
  ue_id = 258;
  payload = 0x7e ∷ 0 ∷ [];
  code = 65;
  received_at = some 5;
  stamps = some ((67, 9) ∷ []);
}

abbrev answer_front : List ℕ
answer_front =
    1 ∷ 3 ∷ 3 ∷ 0 ∷ 2 ∷ 1 ∷ 0 ∷ 0 ∷ 65 ∷ 0 ∷ 0 ∷ 0 ∷ 2 ∷ 0 ∷ 0 ∷ 0 ∷ 5 ∷ 0 ∷ 0 ∷ 0 ∷ 0 ∷ 0 ∷ 0 ∷ 0
    ∷ 0x7e ∷ 0 ∷ 1 ∷ 0 ∷ 67 ∷ 0 ∷ 9 ∷ 0 ∷ 0 ∷ 0 ∷ 0 ∷ 0 ∷ 0 ∷ []

abbrev answer_frame : List ℕ
answer_frame =
    1 ∷ 3 ∷ 3 ∷ 0 ∷ 2 ∷ 1 ∷ 0 ∷ 0 ∷ 65 ∷ 0 ∷ 0 ∷ 0 ∷ 2 ∷ 0 ∷ 0 ∷ 0 ∷ 5 ∷ 0 ∷ 0 ∷ 0 ∷ 0 ∷ 0 ∷ 0 ∷ 0
    ∷ 0x7e ∷ 0 ∷ 1 ∷ 0 ∷ 67 ∷ 0 ∷ 9 ∷ 0 ∷ 0 ∷ 0 ∷ 0 ∷ 0 ∷ 0 ∷ 0 ∷ []

encode-answer : encode answer ≡ some answer_frame
unfolding encode
encode-answer = refl

decode-answer : decode answer_frame ≡ ok answer
unfolding decode decode_tail stamps_at
decode-answer = refl

decode-encode_example : decode answer_frame ≡ ok answer
decode-encode_example =
    decode-encode answer answer_frame refl (omega arith) (omega arith) encode-answer

decode_prefix_example : (why : FrameError) × (decode answer_front ≡ err why)
decode_prefix_example =
    decode_prefix answer answer_frame answer_front [] 0 refl (omega arith) (omega arith)
      encode-answer refl

decode_ok_example : (decode answer_frame ≡ ok answer) ↔ (
    (length answer_frame ≡ frame_size answer_frame)
    × (get_or answer_frame 0 0 ≡ version)
    × (is_kind (get_or answer_frame 1 0) ≡ true)
    × (answer ≡ written answer_frame))
decode_ok_example = decode_ok answer_frame answer
