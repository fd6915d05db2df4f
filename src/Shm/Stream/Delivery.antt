-- ===== src/Shm/Stream/Delivery.antt =====
-- A streamed record's frame comes out whole in every interleaving of the two ends' turns, and the
-- consumer's turn always makes room for the producer.
use core_network_traffic_gen.Common.{
  ℕ, ◌^◌, ◌<◌, ◌≡◌, refl, sym, ap, ◌∙◌, arith, ◌==◌, if◌then◌else◌, true, false, inl, inr,
}
use core_network_traffic_gen.Common.{Option, none, some, List, [], length}
use mathlib.Core.Option.{some-injective}
use core_network_traffic_gen.Shm.Ring.{Ring, rec_size, recv_frame, recv_turn}
use core_network_traffic_gen.Shm.Ring.Fifo.{Holds}
use core_network_traffic_gen.Shm.Stream.{Turn, goes_on, send_turn, Reach}
use core_network_traffic_gen.Shm.Stream.Octets.{Streams}
use core_network_traffic_gen.Shm.Stream.Chunk.{SendOutcome, ended, went, lacks, send_turn_lem}
use core_network_traffic_gen.Shm.Stream.Collect.{TakeOutcome, whole, more}
use core_network_traffic_gen.Shm.Stream.Take.{recv_turn_lem}
use core_network_traffic_gen.Shm.Stream.Progress.{Reach-Both, empty-Both, recv_frame_lem}

-- The frame once all is sent, and none before.
pub delivered :
    (cap : ℕ) (frame : List ℕ) (start at : ℕ) (got : Option (List ℕ) × Ring)
    → TakeOutcome cap frame start at got
    → got.0 ≡ (if at == rec_size (length frame) then some frame else none)
delivered cap frame start at (f, r) (whole s all empty idle) =
    let same : (at == rec_size (length frame)) ≡ true = ground arith in rw same refl
delivered cap frame start at (f, r) (more s streams have left empty) =
    let other : (at == rec_size (length frame)) ≡ false = ground arith in rw other refl

-- A frame that `recv` gives before it waits is the one sent.
not_another :
    (cap : ℕ) (frame f : List ℕ) (start at : ℕ) (got : Option (List ℕ) × Ring)
    → TakeOutcome cap frame start at got
    → got.0 ≡ some f
    → f ≡ frame
not_another cap frame f start at (g, r) (whole s all empty idle) e = some-injective f frame (sym e)
not_another cap frame f start at (g, r) (more s streams have left empty) e = absurd (ground arith)

none_given : (f g : List ℕ) → none ≡ some f → f ≡ g
none_given f g e = absurd (ground arith)

-- In every interleaving of the turns of the producer, which sends a frame whose record is larger than
-- the ring, and of the consumer, from a ring that holds nothing: a turn of the consumer's loop gives
-- the frame when all of its octets are sent and nothing before, and what recv gives before it waits is
-- that frame.
pub Reach-delivers :
    (cap : ℕ) (frame : List ℕ) (r s : Ring) (at : ℕ)
    → length frame < 2 ^ 32
    → Holds cap [] r
    → cap < rec_size (length frame)
    → Reach cap frame (0, r) (at, s)
    → ((recv_turn cap s).0 ≡ (if at == rec_size (length frame) then some frame else none))
      × ((f : List ℕ) → (recv_frame cap s).0 ≡ some f → f ≡ frame)
Reach-delivers cap frame r s at small h longer run =
    let both =
      Reach-Both cap frame r.tail small run (empty-Both cap frame r.tail small r h refl longer) in
    (
      delivered cap frame r.tail at (recv_turn cap s)
          (recv_turn_lem cap frame r.tail at s both.0 both.1 small),
      λ f e. elim (recv_frame_lem cap frame r.tail small at s both) [
        | inl turn ↦ not_another cap frame f r.tail at (recv_frame cap s) turn e
        | inr nothing ↦ none_given f frame (sym (ap (λ got. got.0) nothing) ∙ e)
      ],
    )

-- With room in an empty ring the producer goes on.
goes_on_empty :
    (cap : ℕ) (frame : List ℕ) (start at : ℕ) (r : Ring) (turn : Turn)
    → Streams cap frame start at r
    → r.head ≡ r.tail
    → at < rec_size (length frame)
    → SendOutcome cap frame start at r turn
    → (at' : ℕ) × (r' : Ring) × (turn ≡ goes_on at' r') × (at < at')
goes_on_empty cap frame start at r turn h empty left (ended all) = absurd (omega arith)
goes_on_empty cap frame start at r turn h empty left (went at' r' up streams head partial seen) =
    (at', r', refl, up)
goes_on_empty cap frame start at r turn h empty left
      (lacks r' streams head tail partial seen full) =
    absurd (omega (arith, h.whole, h.large))

pub unblocked :
    (cap : ℕ) (frame : List ℕ) (start at : ℕ) (got : Option (List ℕ) × Ring)
    → TakeOutcome cap frame start at got
    → at < rec_size (length frame)
    → (at' : ℕ) × (r' : Ring) × (send_turn cap frame at got.1 ≡ goes_on at' r') × (at < at')
unblocked cap frame start at (f, r) (whole s all empty idle) left = absurd (omega arith)
unblocked cap frame start at (f, r) (more s streams have _ empty) left =
    goes_on_empty cap frame start at s (send_turn cap frame at s) streams empty left
      (send_turn_lem cap frame start at s streams)

-- In every such interleaving, with octets left to send, a turn of the consumer's loop leaves a ring
-- in which the producer's next turn sends more of them.
pub Reach-unblocked :
    (cap : ℕ) (frame : List ℕ) (r s : Ring) (at : ℕ)
    → length frame < 2 ^ 32
    → Holds cap [] r
    → cap < rec_size (length frame)
    → Reach cap frame (0, r) (at, s)
    → at < rec_size (length frame)
    → (at' : ℕ) × (s' : Ring) × (send_turn cap frame at (recv_turn cap s).1 ≡ goes_on at' s')
      × (at < at')
Reach-unblocked cap frame r s at small h longer run left =
    let both =
      Reach-Both cap frame r.tail small run (empty-Both cap frame r.tail small r h refl longer) in
    unblocked cap frame r.tail at (recv_turn cap s)
      (recv_turn_lem cap frame r.tail at s both.0 both.1 small) left
