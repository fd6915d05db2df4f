-- ===== src/Shm/Ring/Runs.antt =====
-- Sends and receives on a ring in any order: a first-in first-out queue.
use core_network_traffic_gen.Common.{ℕ, ◌^◌, ◌≤◌, ◌<◌, ◌≡◌, refl, sym, ap, ◌∙◌, arith}
use core_network_traffic_gen.Common.{
  false, none, some, List, [], ◌∷◌, ◌++◌, append_assoc, append-nil, length,
}
use core_network_traffic_gen.Shm.Ring.{Ring, Sent, blocked, sent, send_frame, recv_frame}
use core_network_traffic_gen.Shm.Ring.Fifo.{
  Holds, SendOutcome, refused, full, larger, queued, send_frame_lem,
}
use core_network_traffic_gen.Shm.Ring.Receive.{recv_frame_lem, recv_frame_empty, first}

-- A step of either end, with the frames that it sends and receives.
pub data Step (cap : ℕ) : Ring → List (List ℕ) → List (List ℕ) → Ring → Type 0 where
  sends :
      (r r' : Ring) (f : List ℕ) → send_frame cap false f r ≡ sent r' → Step cap r (f ∷ []) [] r'
  waits : (r r' : Ring) (f : List ℕ) → send_frame cap false f r ≡ blocked r' → Step cap r [] [] r'
  receives :
      (r r' : Ring) (f : List ℕ) → recv_frame cap r ≡ (some f, r') → Step cap r [] (f ∷ []) r'
  idles : (r r' : Ring) → recv_frame cap r ≡ (none, r') → Step cap r [] [] r'

-- Steps in a row, with the frames sent and received in their order.
pub data Run (cap : ℕ) : Ring → List (List ℕ) → List (List ℕ) → Ring → Type 0 where
  done : (r : Ring) → Run cap r [] [] r
  then :
      (r r' r'' : Ring) (ins outs ins' outs' : List (List ℕ))
      → Step cap r ins outs r'
      → Run cap r' ins' outs' r''
      → Run cap r (ins ++ ins') (outs ++ outs') r''

-- The frames in the ring after frames came and others went.
abbrev pub Queue : ℕ → List (List ℕ) → List (List ℕ) → List (List ℕ) → Ring → Type 0
Queue cap fs ins outs r = (rest : List (List ℕ)) × Holds cap rest r × (fs ++ ins ≡ outs ++ rest)

sends_queue :
    (cap : ℕ) (fs : List (List ℕ)) (f : List ℕ) (r : Ring) (s : Sent) (r' : Ring)
    → SendOutcome false cap fs f r s
    → s ≡ sent r'
    → Holds cap (fs ++ (f ∷ [])) r'
sends_queue cap fs f r _ r' (refused c) e = absurd (ground arith)
sends_queue cap fs f r _ r' (full b h x y) e = absurd (ground arith)
sends_queue cap fs f r _ r' (larger b h x) e = absurd (ground arith)
sends_queue cap fs f r _ r' (queued b h x) e =
    let same : b ≡ r' = ap (λ s. elim s [ sent z ↦ z | _ ↦ b ]) e in rw (← same) h

waits_queue :
    (cap : ℕ) (fs : List (List ℕ)) (f : List ℕ) (r : Ring) (s : Sent) (r' : Ring)
    → SendOutcome false cap fs f r s
    → s ≡ blocked r'
    → Holds cap fs r'
waits_queue cap fs f r _ r' (refused c) e = absurd (ground arith)
waits_queue cap fs f r _ r' (full b h x y) e =
    let same : b ≡ r' = ap (λ s. elim s [ blocked z ↦ z | _ ↦ b ]) e in rw (← same) h
waits_queue cap fs f r _ r' (larger b h x) e = absurd (ground arith)
waits_queue cap fs f r _ r' (queued b h x) e = absurd (ground arith)

short :
    (cap : ℕ) (g : List ℕ) (fs : List (List ℕ)) (r : Ring)
    → cap ≤ 2 ^ 32
    → Holds cap (g ∷ fs) r
    → length g < 2 ^ 32
short cap g fs r small h = omega (arith, (first cap g fs r h).small)

some-inj {ℓ} : {X : Type ℓ} (a b : X) → some a ≡ some b → a ≡ b
some-inj a b h = ap (λ o. elim o [ none ↦ a | some x ↦ x ]) h

Step-Queue :
    (cap : ℕ) (fs ins outs : List (List ℕ)) (r r' : Ring)
    → cap ≤ 2 ^ 32
    → Holds cap fs r
    → Step cap r ins outs r'
    → Queue cap fs ins outs r'
Step-Queue cap fs _ _ r r' small h (sends _ _ f e) =
    (fs ++ (f ∷ []), sends_queue cap fs f r _ r' (send_frame_lem false cap fs f r h) e, refl)
Step-Queue cap fs _ _ r r' small h (waits _ _ f e) =
    (fs, waits_queue cap fs f r _ r' (send_frame_lem false cap fs f r h) e, append-nil fs)
Step-Queue cap [] _ _ r r' small h (receives _ _ f e) =
    absurd
      (let none_left = (recv_frame_empty cap r h).0 in let got = ap (λ p. p.0) e in ground arith)
Step-Queue cap (g ∷ fs) _ _ r r' small h (receives _ _ f e) =
    let (got, rest) = recv_frame_lem cap g fs r h (short cap g fs r small h) in
    let same : g ≡ f = some-inj g f (sym got ∙ ap (λ p. p.0) e) in
    (fs, rw (ap (λ p. p.1) e) at rest, append-nil (g ∷ fs) ∙ ap (λ x. x ∷ fs) same)
Step-Queue cap [] _ _ r r' small h (idles _ _ e) =
    ([], rw (ap (λ p. p.1) e) at (recv_frame_empty cap r h).1, refl)
Step-Queue cap (g ∷ fs) _ _ r r' small h (idles _ _ e) = absurd (
    let first = (recv_frame_lem cap g fs r h (short cap g fs r small h)).0 in
    let got = ap (λ p. p.0) e in ground arith)

-- Whatever the order of sends and receives, the frames that the consumer got, and then those that the
-- ring still holds, are the frames that it held first and then those that were sent.
pub run-Queue :
    (cap : ℕ) (fs ins outs : List (List ℕ)) (r r' : Ring)
    → cap ≤ 2 ^ 32
    → Holds cap fs r
    → Run cap r ins outs r'
    → Queue cap fs ins outs r'
run-Queue cap fs _ _ r _ small h (done _) = (fs, h, append-nil fs)
run-Queue cap fs _ _ r r'' small h (then _ r' _ ins outs ins' outs' s run) =
    let (mid, h', e) = Step-Queue cap fs ins outs r r' small h s in
    let (rest, h'', e') = run-Queue cap mid ins' outs' r' r'' small h' run in
    (
      rest,
      h'',
      sym (append_assoc fs ins ins')
          ∙ ap (λ xs. xs ++ ins') e
          ∙ append_assoc outs mid ins'
          ∙ ap (λ xs. outs ++ xs) e'
          ∙ sym (append_assoc outs outs' rest),
    )
