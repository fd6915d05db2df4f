-- ===== src/Nas/Examples.antt =====
-- Concrete NAS messages: an Authentication Request, and an exclusive or as the cipher.
use core_network_traffic_gen.Common.{
  ℕ, ◌+◌, ◌*◌, ◌/◌, ◌%◌, ◌≡◌, refl, arith, none, some, List, [], ◌∷◌, map, length, All, ◌==◌,
  if◌then◌else◌, inl, inr, Bool-cases, ap,
}
use core_network_traffic_gen.Common.Table.{lookup}
use core_network_traffic_gen.Nas.Layout.{
  Layout, small, span, Values, fixed, nibble, lv, tlv, mand_walk, opt_walk, walk,
}
use core_network_traffic_gen.Nas.Walk.{Within, walk-Within, walk_enough}
use core_network_traffic_gen.Nas.Protect.{Algorithm, Algorithms, Security, apply, protect}
use core_network_traffic_gen.Nas.Protect.Receive.{Symmetric, receive, receive-protect}
use core_network_traffic_gen.Nas.Downlink.{Pycrate, security_mode_command, plain, downlink}
use core_network_traffic_gen.Nas.Downlink.Ciphered.{
  sent_by_network, downlink-ciphered, downlink_new_context,
}
use core_network_traffic_gen.Common.{replicate, ◌-◌}
use core_network_traffic_gen.Common.Bytes.{be_bytes}
use core_network_traffic_gen.Nas.Identity.{suci}
use core_network_traffic_gen.Nas.Identity.ReadBack.{read_suci, digits_of, read_suci-suci}
use core_network_traffic_gen.Common.{◌++◌}
use core_network_traffic_gen.Nas.Uplink.{Subscriber}

-- Three octets of header, a nibble of key set and a spare one, a value with its length, and one optional
-- value with the tag 0x20 and its length.
abbrev pub layout : Layout
layout = record {
  mand = (0, fixed, 24) ∷ (1, nibble, 4) ∷ (2, nibble, 4) ∷ (3, lv, 0) ∷ [];
  opts = (4, tlv, 0) ∷ [];
  match = λ b. if b == 0x20 then 0 ∷ [] else [];
}

abbrev request : List ℕ
request = 126 ∷ 0 ∷ 86 ∷ 7 ∷ 2 ∷ 0 ∷ 0 ∷ 0x20 ∷ 1 ∷ 9 ∷ []

abbrev values : Values
values = (4, span 9 10) ∷ (3, span 5 7) ∷ (2, small 7) ∷ (1, small 0) ∷ []

walk-request : walk layout request ≡ some values
unfolding walk
walk-request = refl

walk-Within_example : All (Within request) values
walk-Within_example = walk-Within layout request values (omega arith) walk-request

walk_enough_example :
    walk layout request
    ≡ opt_walk 12 layout request 7 [] ((3, span 5 7) ∷ (2, small 7) ∷ (1, small 0) ∷ [])
walk_enough_example =
    walk_enough layout request 12 56 ((3, span 5 7) ∷ (2, small 7) ∷ (1, small 0) ∷ [])
      (omega arith) (omega arith) (unfold mand_walk in refl) refl (omega arith)

-- The cipher 1 changes the lowest bit of each octet; the MAC 1 is the message's length.
abbrev pub flip : ℕ → ℕ
flip n = if n % 2 == 0 then n + 1 else n / 2 * 2

abbrev pub cipher : Algorithm
cipher key count bearer dir m = some (map flip m)

some-none {ℓ} : {A : Type ℓ} (a : A) → none ≡ some a → ⊥
some-none a h = ground arith

abbrev pub algorithms : Algorithms
algorithms = record {
  fgea = λ n. if n == 1 then some cipher else none;
  fgia = λ n.
      if n == 1 then some (λ key count bearer dir m. some (0 ∷ 0 ∷ 0 ∷ length m ∷ [])) else none;
}

flip-flip : (n : ℕ) → flip (flip n) ≡ n
flip-flip n = ground arith

flips : (xs : List ℕ) → map flip (map flip xs) ≡ xs
flips [] = refl
flips (x ∷ xs) = rw (flip-flip x) (rw (flips xs) refl)

pub algorithms-Symmetric : Symmetric algorithms
algorithms-Symmetric n f key count dir m ciphered h e = elim (Bool-cases (n == 1)) [
  | inr k ↦ absurd (let h' = rw k at h in some-none f h')
  | inl k ↦
      let same : cipher ≡ f = ap (λ o. elim o [ none ↦ cipher | some x ↦ x ]) (rw k at h) in
      let e' : some (map flip m) ≡ some ciphered = rw (← same) at e in
      let q : map flip m ≡ ciphered = ap (λ o. elim o [ none ↦ m | some x ↦ x ]) e' in
      rw (← same) (rw (← q) (ap some (flips m)))
]

abbrev ue : Security
ue = record { ciph_algo = 1; integ_algo = 1; k_nas_enc = []; k_nas_int = []; ul_nas_count = 258 }

protected_request :
    protect algorithms none (126 ∷ 0 ∷ 67 ∷ []) ue
    ≡ some (126 ∷ 2 ∷ 0 ∷ 0 ∷ 0 ∷ 4 ∷ 2 ∷ 127 ∷ 1 ∷ 66 ∷ [], record ue { ul_nas_count = 259 })
unfolding protect
protected_request = refl

receive-protect_example :
    (receive algorithms ue 258 (126 ∷ 2 ∷ 0 ∷ 0 ∷ 0 ∷ 4 ∷ 2 ∷ 127 ∷ 1 ∷ 66 ∷ [])
      ≡ some (126 ∷ 0 ∷ 67 ∷ []))
    × (record ue { ul_nas_count = 259 } ≡ record ue { ul_nas_count = 258 + 1 })
receive-protect_example =
    receive-protect algorithms none (126 ∷ 0 ∷ 67 ∷ [])
      (126 ∷ 2 ∷ 0 ∷ 0 ∷ 0 ∷ 4 ∷ 2 ∷ 127 ∷ 1 ∷ 66 ∷ []) ue (record ue { ul_nas_count = 259 })
      algorithms-Symmetric protected_request

-- A Security Mode Command, whose algorithms stand in its fourth octet.
abbrev pub command_layout : Layout
command_layout = record { mand = (0, fixed, 24) ∷ (1, lv, 0) ∷ []; opts = []; match = λ b. [] }

abbrev pub pycrate : Pycrate
pycrate = record {
  layouts = λ typ. if typ == 93 then command_layout else layout;
  accept = layout;
  rand = 5;
  autn = 6;
  abba = 3;
  nas_sec_algo = 1;
  payload_container_type = 7;
  payload_container = 8;
  pdu_address_ie = 9;
  pdu_address = λ octets. some octets;
}

abbrev command : List ℕ
command = 126 ∷ 0 ∷ 93 ∷ 1 ∷ 0x12 ∷ []

downlink-ciphered_example :
    downlink pycrate algorithms.fgea ue
      (sent_by_network 2 (9 ∷ 9 ∷ 9 ∷ 9 ∷ []) 3 (map flip command))
    ≡ plain pycrate command
downlink-ciphered_example =
    downlink-ciphered pycrate algorithms ue 3 (9 ∷ 9 ∷ 9 ∷ 9 ∷ []) command (map flip command)
      algorithms-Symmetric refl (omega arith) (unfold apply in refl)

taken_command :
    downlink pycrate algorithms.fgea ue (sent_by_network 3 (9 ∷ 9 ∷ 9 ∷ 9 ∷ []) 3 command)
    ≡ some (security_mode_command 1 2)
unfolding downlink walk lookup
taken_command = refl

downlink_new_context_example :
    (c : ℕ) × (i : ℕ) × (security_mode_command 1 2 ≡ security_mode_command c i)
    × (plain pycrate command ≡ some (security_mode_command 1 2))
downlink_new_context_example =
    downlink_new_context pycrate algorithms ue 3 3 (9 ∷ 9 ∷ 9 ∷ 9 ∷ []) command
      (security_mode_command 1 2) (inr refl) refl taken_command

-- Two digits in an octet, the first one in its lower half, and F behind an odd one.
abbrev pub swapped : List ℕ → List ℕ
swapped [] = []
swapped (c ∷ []) = (240 + (c - 48)) ∷ []
swapped (c ∷ d ∷ cs) = ((d - 48) * 16 + (c - 48)) ∷ swapped cs

-- The MCC 208, the MNC 93 and the MSIN 123
abbrev suci_octets : List ℕ
suci_octets = 0 ∷ 10 ∷ 1 ∷ 0x02 ∷ 0xf8 ∷ 0x39 ∷ 0 ∷ 0 ∷ 0 ∷ 0 ∷ 0x21 ∷ 0xf3 ∷ []

suci_written :
    suci swapped (50 ∷ 48 ∷ 56 ∷ []) (57 ∷ 51 ∷ []) (49 ∷ 50 ∷ 51 ∷ []) ≡ some suci_octets
unfolding suci be_bytes
suci_written = refl

abbrev pub subscriber : Subscriber
subscriber = record {
  mcc = 50 ∷ 48 ∷ 56 ∷ [];
  mnc = 57 ∷ 51 ∷ [];
  msin = 49 ∷ 50 ∷ 51 ∷ [];
  imei_sv = replicate 16 48;
  nssai = (1, none) ∷ [];
  session_slice = none;
  session_apn = none;
}

read_suci-suci_example :
    read_suci suci_octets
    ≡ some (digits_of ((50 ∷ 48 ∷ 56 ∷ []) ++ (57 ∷ 51 ∷ [])), swapped (49 ∷ 50 ∷ 51 ∷ []))
read_suci-suci_example =
    read_suci-suci swapped (50 ∷ 48 ∷ 56 ∷ []) (57 ∷ 51 ∷ []) (49 ∷ 50 ∷ 51 ∷ []) suci_octets
      suci_written
