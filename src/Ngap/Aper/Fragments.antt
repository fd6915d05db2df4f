-- ===== src/Ngap/Aper/Fragments.antt =====
-- `wrap` against an independent reading of X.691 §11.9.3.8, of any length.
use core_network_traffic_gen.Common.{
  ℕ, zero, suc, ◌+◌, ◌-◌, ◌*◌, ◌/◌, ◌%◌, ◌≤◌, ◌<◌, ◌≡◌, refl, ap, ◌∙◌, arith, ltb, ltb→lt,
  Bool-cases, if◌then◌else◌,
}
use core_network_traffic_gen.Common.{
  Option, none, some, Option-cases, inl, inr, List, [], ◌∷◌, ◌++◌, append_assoc,
}
use core_network_traffic_gen.Common.{
  length, length-append, take, drop, get_or, take-append, drop-append, length-take, length-drop,
  take-append-drop,
}
use native.Mathlib.Nat.{div-add-mod', mod-lt}
use core_network_traffic_gen.Ngap.Aper.{
  ◌>>=◌, fragment_sizes, short_length, cut_fragments, fragments, wrap,
}

-- What a receiver reads: a short length and its octets, or a fragment of 16K to 64K octets and then
-- the rest in the same way.
unfoldable pub unwrap : ℕ → List ℕ → Option (List ℕ × List ℕ)
unwrap zero bs = none
unwrap (suc f) [] = none
unwrap (suc f) (b ∷ bs) =
    let long = b % 64 * 256 + get_or bs 0 0 in
    let size = (b - 192) * 16384 in
    let more = unwrap f (drop size bs) in
    if ltb b 128
    then some (take b bs, drop b bs)
    else if ltb b 192
    then some (take long (drop 1 bs), drop long (drop 1 bs))
    else more >>= λ (v, rest). some (take size bs ++ v, rest)

unwrap_more :
    (f g : ℕ) (bs : List ℕ) (r : List ℕ × List ℕ)
    → f ≤ g
    → unwrap f bs ≡ some r
    → unwrap g bs ≡ some r
unfolding unwrap
unwrap_more zero g bs r h e = absurd (ground arith)
unwrap_more (suc f) zero bs r h e = absurd (omega arith)
unwrap_more (suc f) (suc g) [] r h e = e
unwrap_more (suc f) (suc g) (b ∷ bs) r h e =
    let bs' = drop ((b - 192) * 16384) bs in
    elim (Option-cases (unwrap f bs')) [
      | inl bad ↦ ground arith
      | inr (r', good) ↦ ground (arith, unwrap_more f g bs' r' (omega arith) good)
    ]

unwrap-short_length :
    (f : ℕ) (v rest : List ℕ)
    → length v < 16384
    → unwrap (suc f) ((short_length (length v) ++ v) ++ rest) ≡ some (v, rest)
unfolding unwrap short_length
unwrap-short_length f v rest h =
    ground (arith, take-append (length v) v rest refl, drop-append (length v) v rest refl)

-- One fragment, and what follows it.
unwrap-fragment :
    (f k size : ℕ) (front after v rest : List ℕ)
    → size ≡ k * 16384
    → 1 ≤ k
    → length front ≡ size
    → unwrap f after ≡ some (v, rest)
    → unwrap (suc f) ((192 + size / 16384) ∷ (front ++ after)) ≡ some (front ++ v, rest)
unfolding unwrap
unwrap-fragment f k size front after v rest e one long h =
    let same : (192 + size / 16384 - 192) * 16384 ≡ size = omega arith in
    ground (arith, same, take-append size front after, drop-append size front after)

one_more :
    (f k size : ℕ) (front out after v w rest : List ℕ)
    → size ≡ k * 16384
    → 1 ≤ k
    → length front ≡ size
    → unwrap f (out ++ after) ≡ some (v ++ w, rest)
    → unwrap (suc f) ((192 + size / 16384) ∷ ((front ++ out) ++ after))
      ≡ some ((front ++ v) ++ w, rest)
one_more f k size front out after v w rest e one long h =
    rw (append_assoc front out after, append_assoc front v w)
      (unwrap-fragment f k size front (out ++ after) (v ++ w) rest e one long h)

-- The fragments of one size: `front` is what they carry.
record Cut (size count : ℕ) (v : List ℕ) : Type 0 where
  front : List ℕ
  whole : front ++ (cut_fragments size count v).1 ≡ v
  left : length (cut_fragments size count v).1 + count * size ≡ length v
  reads :
      (f : ℕ) (after w rest : List ℕ)
      → unwrap f after ≡ some (w, rest)
      → unwrap (count + f) ((cut_fragments size count v).0 ++ after) ≡ some (front ++ w, rest)
  small : count ≤ length (cut_fragments size count v).0

cut_lem :
    (k size count : ℕ) (v : List ℕ)
    → size ≡ k * 16384
    → 1 ≤ k
    → count * size ≤ length v
    → Cut size count v
unfolding cut_fragments
cut_lem k size zero v e one h = record {
  front = [];
  whole = refl;
  left = omega arith;
  reads = λ f after w rest r. let z : 0 + f ≡ f = omega arith in rw z r;
  small = omega arith;
}
cut_lem k size (suc count) v e one h =
    let c = cut_lem k size count (drop size v) e one (omega (arith, length-drop size v)) in
    record {
      front = take size v ++ c.front;
      whole =
          append_assoc (take size v) c.front _
          ∙ ap (λ ys. take size v ++ ys) c.whole
          ∙ take-append-drop size v;
      left = omega (arith, c.left, length-drop size v);
      reads = λ f after w rest r.
          let z : suc count + f ≡ suc (count + f) = omega arith in
          rw z (
            one_more (count + f) k size (take size v) (cut_fragments size count (drop size v)).0
              after c.front w rest e one (omega (arith, length-take size v))
              (c.reads f after w rest r));
      small =
          omega (
            arith,
            c.small,
            length-append (take size v) (cut_fragments size count (drop size v)).0,
          );
    }

-- The sizes are multiples of 16384, and what the last one leaves is below 16384.
Good : List ℕ → ℕ → Type 0
Good [] n = n < 16384
Good (s ∷ ss) n = ((k : ℕ) × (s ≡ k * 16384) × (1 ≤ k)) × Good ss (n % s)

record Reads (out v : List ℕ) : Type 0 where
  fuel : ℕ
  enough : fuel ≤ length out
  reads : (rest : List ℕ) → unwrap fuel (out ++ rest) ≡ some (v, rest)

short-Reads : (v : List ℕ) → length v < 16384 → Reads (short_length (length v) ++ v) v
unfolding short_length
short-Reads v h = record {
  fuel = 1;
  enough = ground arith;
  reads = λ rest. unwrap-short_length 0 v rest h;
}

join-Reads :
    (count : ℕ) (out left front v back : List ℕ)
    → count ≤ length out
    → front ++ left ≡ v
    → ((f : ℕ) (after w rest : List ℕ)
        → unwrap f after ≡ some (w, rest)
        → unwrap (count + f) (out ++ after) ≡ some (front ++ w, rest))
    → Reads back left
    → Reads (out ++ back) v
join-Reads count out left front v back small whole reads more = record {
  fuel = count + more.fuel;
  enough = omega (arith, more.enough, length-append out back);
  reads = λ rest.
      rw (append_assoc out back rest, ← whole)
        (reads more.fuel (back ++ rest) left rest (more.reads rest));
}

fragments-Reads :
    (sizes : List ℕ) (v : List ℕ) → Good sizes (length v) → Reads (fragments sizes v) v
unfolding fragments Good
fragments-Reads [] v g = short-Reads v g
fragments-Reads (s ∷ ss) v ((k, e, one), g) =
    let count = length v / s in
    let c = cut_lem k s count v e one (omega (arith, div-add-mod' (length v) s)) in
    let left = (cut_fragments s count v).1 in
    let size : length left ≡ length v % s = omega (arith, c.left, div-add-mod' (length v) s) in
    let more = fragments-Reads ss left (rw size g) in
    join-Reads count (cut_fragments s count v).0 left c.front v (fragments ss left) c.small c.whole
      c.reads more

sizes-Good : (n : ℕ) → Good fragment_sizes n
unfolding Good
sizes-Good n = (
  (4, refl, omega arith),
  (
    (3, refl, omega arith),
    (
      (2, refl, omega arith),
      ((1, refl, omega arith), mod-lt (n % 65536 % 49152 % 32768) (omega arith)),
    ),
  ),
)

wrap-Reads : (v : List ℕ) → Reads (wrap v) v
unfolding wrap
wrap-Reads v = elim (Bool-cases (ltb (length v) 16384)) [
  | inl short ↦ rw short (short-Reads v (ltb→lt (length v) 16384 short))
  | inr long ↦ rw long (fragments-Reads fragment_sizes v (sizes-Good (length v)))
]

-- A receiver that follows the standard reads back any value that `wrap` wrote, of any length, and
-- leaves what follows it.
pub unwrap-wrap : (v rest : List ℕ) → unwrap (length (wrap v)) (wrap v ++ rest) ≡ some (v, rest)
unwrap-wrap v rest =
    let r = wrap-Reads v in
    unwrap_more r.fuel (length (wrap v)) (wrap v ++ rest) (v, rest) r.enough (r.reads rest)

-- The same with any more fuel, as a reader that takes the octets that there are.
pub unwrap-wrap_all :
    (v rest : List ℕ) → unwrap (length (wrap v ++ rest)) (wrap v ++ rest) ≡ some (v, rest)
unwrap-wrap_all v rest =
    unwrap_more (length (wrap v)) (length (wrap v ++ rest)) (wrap v ++ rest) (v, rest)
      (omega (arith, length-append (wrap v) rest)) (unwrap-wrap v rest)
