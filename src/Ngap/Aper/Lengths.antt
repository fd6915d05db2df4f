-- ===== src/Ngap/Aper/Lengths.antt =====
-- Length determinants: `_length` reads what `wrap` writes.
use core_network_traffic_gen.Common.{
  ℕ, ◌+◌, ◌≤◌, ◌<◌, ◌≡◌, refl, sym, ap, ◌∙◌, arith, ltb, if◌then◌else◌,
}
use core_network_traffic_gen.Common.{some, List, [], ◌++◌}
use core_network_traffic_gen.Common.{length, length-append, get_or, get_or-drop, drop-append}
use core_network_traffic_gen.Ngap.Aper.{short_length, wrap, length_at, octets}

-- The octets of a determinant below 16384.
abbrev pub det_size : ℕ → ℕ
det_size n = if ltb n 128 then 1 else 2

pub length-short_length : (n : ℕ) → length (short_length n) ≡ det_size n
unfolding short_length
length-short_length n = ground arith

pub get_or-append_at :
    (i : ℕ) (pre xs : List ℕ) → get_or (pre ++ xs) (length pre + i) 0 ≡ get_or xs i 0
get_or-append_at i pre xs =
    sym (get_or-drop (length pre) i (pre ++ xs) 0)
    ∙ ap (λ ys. get_or ys i 0) (drop-append (length pre) pre xs refl)

-- A determinant of `n` at an offset, with at least its octets before `end`.
pub length_at-short_length :
    (pre rest : List ℕ) (n end : ℕ)
    → n < 16384
    → length pre + det_size n ≤ end
    → length_at (pre ++ (short_length n ++ rest)) (length pre) end
      ≡ some (length pre + det_size n, n)
unfolding length_at short_length
length_at-short_length pre rest n end h k = ground (
  arith,
  get_or-append_at 0 pre (short_length n ++ rest),
  get_or-append_at 1 pre (short_length n ++ rest),
)

-- `_octets` gives back the octets of any value below 16384.
pub octets-wrap : (v : List ℕ) → length v < 16384 → octets (wrap v) ≡ some v
unfolding octets wrap
octets-wrap v h =
    let d = short_length (length v) in
    ground (
      arith,
      length-short_length (length v),
      length-append d v,
      length_at-short_length [] v (length v) (length (d ++ v)) h,
      drop-append (det_size (length v)) d v,
    )

-- What `_length` accepts stands before `end`, in two octets only from 128 on.
pub length_at_ok :
    (buf : List ℕ) (o end start n : ℕ)
    → length_at buf o end ≡ some (start, n)
    → (start ≡ o + det_size n) × (start ≤ end)
unfolding length_at
length_at_ok buf o end start n h = ground arith
