-- ===== src/Common/Slices.antt =====
-- Python's slices `buf[a:b]` and the laws of `take` and `drop` that readers of a frame use.
use Prim.Native.Nat.{ℕ, zero, suc, ◌+◌, ◌-◌, ◌≤◌, ◌<◌}
use mathlib.Core.Path.{◌≡◌, refl, sym, ap, ◌∙◌}
use mathlib.Core.List.{List, [], ◌∷◌, ◌++◌}
use native.Mathlib.Omega.{arith}
use core_network_traffic_gen.Common.Lists.{length, take, drop, get_or}

module _ {ℓ} {A : Type ℓ} where
  -- `xs[a:b]` for 0 ≤ a: cut at the end of `xs`, empty where `b ≤ a`.
  abbrev pub slice : ℕ → ℕ → List A → List A
  slice a b xs = take (b - a) (drop a xs)

  pub take-all : (n : ℕ) (xs : List A) → length xs ≤ n → take n xs ≡ xs
  take-all zero [] h = refl
  take-all zero (x ∷ xs) h = absurd (omega arith)
  take-all (suc n) [] h = refl
  take-all (suc n) (x ∷ xs) h = ap (λ ys. x ∷ ys) (take-all n xs (omega arith))

  pub take-append : (n : ℕ) (xs ys : List A) → n ≡ length xs → take n (xs ++ ys) ≡ xs
  take-append zero [] ys h = refl
  take-append zero (x ∷ xs) ys h = absurd (omega arith)
  take-append (suc n) [] ys h = absurd (omega arith)
  take-append (suc n) (x ∷ xs) ys h = ap (λ zs. x ∷ zs) (take-append n xs ys (omega arith))

  pub drop-append : (n : ℕ) (xs ys : List A) → n ≡ length xs → drop n (xs ++ ys) ≡ ys
  drop-append zero [] ys h = refl
  drop-append zero (x ∷ xs) ys h = absurd (omega arith)
  drop-append (suc n) [] ys h = absurd (omega arith)
  drop-append (suc n) (x ∷ xs) ys h = drop-append n xs ys (omega arith)

  pub drop-past : (n : ℕ) (xs : List A) → length xs ≤ n → drop n xs ≡ []
  drop-past zero [] h = refl
  drop-past zero (x ∷ xs) h = absurd (omega arith)
  drop-past (suc n) [] h = refl
  drop-past (suc n) (x ∷ xs) h = drop-past n xs (omega arith)

  pub drop-drop : (m n : ℕ) (xs : List A) → drop m (drop n xs) ≡ drop (n + m) xs
  drop-drop m zero xs = ap (λ k. drop k xs) (omega arith)
  drop-drop m (suc n) [] =
      drop-past m [] (omega arith) ∙ sym (drop-past (suc n + m) [] (omega arith))
  drop-drop m (suc n) (x ∷ xs) =
      let e : suc n + m ≡ suc (n + m) = omega arith in rw e (drop-drop m n xs)

  pub get_or-drop : (n i : ℕ) (xs : List A) (d : A) → get_or (drop n xs) i d ≡ get_or xs (n + i) d
  get_or-drop zero i xs d = ap (λ k. get_or xs k d) (omega arith)
  get_or-drop (suc n) i [] d = refl
  get_or-drop (suc n) i (x ∷ xs) d =
      let e : suc n + i ≡ suc (n + i) = omega arith in rw e (get_or-drop n i xs d)

  -- The part of `pre ++ (mid ++ post)` between the two ends of `mid`.
  pub slice-append :
      (off end : ℕ) (pre mid post : List A)
      → off ≡ length pre
      → end ≡ off + length mid
      → slice off end (pre ++ (mid ++ post)) ≡ mid
  slice-append off end pre mid post h k =
      rw (drop-append off pre (mid ++ post) h) (take-append (end - off) mid post (omega arith))

  pub drop-append₂ :
      (n : ℕ) (pre mid post : List A)
      → n ≡ length pre + length mid
      → drop n (pre ++ (mid ++ post)) ≡ post
  drop-append₂ n pre mid post h =
      rw (h, ← drop-drop (length mid) (length pre) (pre ++ (mid ++ post)))
        (rw (drop-append (length pre) pre (mid ++ post) refl)
          (drop-append (length mid) mid post refl))

  -- What is read from a prefix does not change when more follows.
  pub take-drop-append :
      (n off : ℕ) (xs ys : List A)
      → off + n ≤ length xs
      → take n (drop off (xs ++ ys)) ≡ take n (drop off xs)
  take-drop-append zero zero xs ys h = refl
  take-drop-append (suc n) zero [] ys h = absurd (omega arith)
  take-drop-append (suc n) zero (x ∷ xs) ys h =
      ap (λ zs. x ∷ zs) (take-drop-append n zero xs ys (omega arith))
  take-drop-append n (suc off) [] ys h = absurd (omega arith)
  take-drop-append n (suc off) (x ∷ xs) ys h = take-drop-append n off xs ys (omega arith)

  pub get_or-append :
      (i : ℕ) (xs ys : List A) (d : A) → i < length xs → get_or (xs ++ ys) i d ≡ get_or xs i d
  get_or-append i [] ys d h = absurd (omega arith)
  get_or-append zero (x ∷ xs) ys d h = refl
  get_or-append (suc i) (x ∷ xs) ys d h = get_or-append i xs ys d (omega arith)
