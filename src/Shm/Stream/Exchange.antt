-- ===== src/Shm/Stream/Exchange.antt =====
-- The two ends of src/shmlink.py's ring take turns until a streamed frame is out.
use core_network_traffic_gen.Common.{
  ℕ, zero, suc, ◌+◌, ◌^◌, ◌<◌, ◌≡◌, refl, ap, subst, ◌∙◌, arith, ◌==◌, if◌then◌else◌, true, false,
  lt-cases, inl, inr,
}
use core_network_traffic_gen.Common.{Option, none, some, List, [], length}
use core_network_traffic_gen.Shm.Ring.{Ring, rec_size, recv_turn}
use core_network_traffic_gen.Shm.Ring.Fifo.{Holds}
use core_network_traffic_gen.Shm.Stream.{all_sent, waits_for, goes_on, send_turn}
use core_network_traffic_gen.Shm.Stream.Chunk.{SendOutcome, send_turn_lem}
use core_network_traffic_gen.Shm.Stream.Collect.{TakeOutcome}
use core_network_traffic_gen.Shm.Stream.Take.{recv_turn_lem}
use core_network_traffic_gen.Shm.Stream.Progress.{Both, after_send, after_take, empty-Both}
use core_network_traffic_gen.Shm.Stream.Delivery.{delivered, unblocked}

-- The two ends in turn, the consumer first, on fuel: the frame that comes out.
unfoldable pub exchange : ℕ → List ℕ → ℕ → ℕ → Ring → Option (List ℕ)
exchange cap frame zero at r = none
exchange cap frame (suc fuel) at r = elim (recv_turn cap r).0 [
  | some f ↦ some f
  | none ↦ elim (send_turn cap frame at (recv_turn cap r).1) [
    | all_sent ↦ none
    | waits_for n r' ↦ none
    | goes_on at' r' ↦ exchange cap frame fuel at' r'
  ]
]

-- A turn of both ends.
exchange_step :
    (cap : ℕ) (frame : List ℕ) (fuel at at' : ℕ) (r r' : Ring)
    → (recv_turn cap r).0 ≡ none
    → send_turn cap frame at (recv_turn cap r).1 ≡ goes_on at' r'
    → exchange cap frame (suc fuel) at r ≡ exchange cap frame fuel at' r'
unfolding exchange recv_turn
exchange_step cap frame fuel at at' r r' e e' =
    ap
      (λ o. elim o [
        | some f ↦ some f
        | none ↦ elim (send_turn cap frame at (recv_turn cap r).1) [
          | all_sent ↦ none
          | waits_for n r' ↦ none
          | goes_on at' r' ↦ exchange cap frame fuel at' r'
        ]
      ])
      e
    ∙ ap
        (λ turn. elim turn [
          | all_sent ↦ none
          | waits_for n r' ↦ none
          | goes_on at' r' ↦ exchange cap frame fuel at' r'
        ])
        e'

exchange_done :
    (cap : ℕ) (frame f : List ℕ) (fuel at : ℕ) (r : Ring)
    → (recv_turn cap r).0 ≡ some f
    → exchange cap frame (suc fuel) at r ≡ some f
unfolding exchange recv_turn
exchange_done cap frame f fuel at r e =
    ap
      (λ o. elim o [
        | some g ↦ some g
        | none ↦ elim (send_turn cap frame at (recv_turn cap r).1) [
          | all_sent ↦ none
          | waits_for n r' ↦ none
          | goes_on at' r' ↦ exchange cap frame fuel at' r'
        ]
      ])
      e

module _ (cap : ℕ) (frame : List ℕ) (start : ℕ) (small : length frame < 2 ^ 32) where
  -- With octets left to send, the consumer has no frame yet and the producer sends more.
  more_sent :
      (at : ℕ) (r : Ring)
      → Both cap frame start small (at, r)
      → at < rec_size (length frame)
      → ((recv_turn cap r).0 ≡ none)
        × ((at' : ℕ) × (r' : Ring) × (send_turn cap frame at (recv_turn cap r).1 ≡ goes_on at' r')
            × (at < at')
            × Both cap frame start small (at', r'))
  more_sent at r both left =
      let turn = recv_turn_lem cap frame start at r both.0 both.1 small in
      let other : (at == rec_size (length frame)) ≡ false = ground arith in
      let nothing : (recv_turn cap r).0 ≡ none =
        delivered cap frame start at (recv_turn cap r) turn
        ∙ ap (λ b. if b then some frame else none) other in
      let next : Both cap frame start small (at, (recv_turn cap r).1) =
        after_take cap frame start small at (recv_turn cap r).1 (
          subst (TakeOutcome cap frame start at) (ap (λ o. (o, (recv_turn cap r).1)) nothing)
            turn) in
      let up = unblocked cap frame start at (recv_turn cap r) turn left in
      (
        nothing,
        (
          up.0,
          up.1,
          up.2,
          up.3,
          after_send cap frame start small at up.0 (recv_turn cap r).1 up.1 next.1 (
              subst (SendOutcome cap frame start at (recv_turn cap r).1) up.2
                (send_turn_lem cap frame start at (recv_turn cap r).1 next.0)),
        ),
      )

  exchange_from :
      (fuel at : ℕ) (r : Ring)
      → Both cap frame start small (at, r)
      → rec_size (length frame) < fuel + at
      → exchange cap frame fuel at r ≡ some frame
  exchange_from zero at r both enough = absurd (omega (arith, both.0.bounded))
  exchange_from (suc fuel) at r both enough = elim (lt-cases at (rec_size (length frame))) [
    | inl left ↦
        let (nothing, (at', r', goes, up, next)) = more_sent at r both left in
        exchange_step cap frame fuel at at' r r' nothing goes
        ∙ exchange_from fuel at' r' next (omega arith)
    | inr all ↦
        let done : (at == rec_size (length frame)) ≡ true = ground (arith, both.0.bounded) in
        exchange_done cap frame frame fuel at r (
          delivered cap frame start at (recv_turn cap r)
            (recv_turn_lem cap frame start at r both.0 both.1 small)
          ∙ ap (λ b. if b then some frame else none) done)
  ]

-- From a ring that holds nothing, a frame whose record is larger than the ring comes out of the two
-- ends' turns, one after the other, within as many turns as the record has octets and one more.
pub exchange_delivers :
    (cap : ℕ) (frame : List ℕ) (r : Ring) (fuel : ℕ)
    → length frame < 2 ^ 32
    → Holds cap [] r
    → cap < rec_size (length frame)
    → rec_size (length frame) < fuel
    → exchange cap frame fuel 0 r ≡ some frame
exchange_delivers cap frame r fuel small h longer enough =
    exchange_from cap frame r.tail small fuel 0 r
      (empty-Both cap frame r.tail small r h refl longer) (omega arith)
