-- ===== src/RanLink/Event.antt =====
-- The events of src/ranlink.py and its exceptions. Kinds and codes are the integers of the source;
-- a time is its IEEE double, given by the 64 bits that struct's 'd' writes.
use core_network_traffic_gen.Common.{ℕ, Bool, ◌&&◌, leb, Option, List}

abbrev pub version : ℕ
version = 1

abbrev pub connect : ℕ
connect = 1

abbrev pub ul_nas : ℕ
ul_nas = 2

abbrev pub dl_nas : ℕ
dl_nas = 3

abbrev pub security : ℕ
security = 4

abbrev pub release : ℕ
release = 5

abbrev pub data_kind : ℕ
data_kind = 6

abbrev pub up_control : ℕ
up_control = 7

-- `kind in KIND_NAMES`, whose keys are the seven kinds
abbrev pub is_kind : ℕ → Bool
is_kind k = leb connect k && leb k up_control

-- A message code and the time that it was sent.
abbrev pub Stamp : Type 0
Stamp = ℕ × ℕ

pub record Event : Type 0 where
  pub kind : ℕ
  pub ue_id : ℕ
  pub payload : List ℕ
  pub code : ℕ
  pub received_at : Option ℕ
  pub stamps : Option (List Stamp)

-- FrameError, by the `raise` that raises it; UnicodeDecodeError is `parse_up_control`'s other one.
pub data FrameError : Type 0 where
  short_header bad_version unknown_kind no_received_at no_stamps wrong_length : FrameError
  short_connect short_up_control short_data bad_utf8 : FrameError
