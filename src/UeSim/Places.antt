-- ===== src/UeSim/Places.antt =====
-- The closed loop of a UE simulator is used by its own methods only: the places of src/UESim.py are an
-- InFlight of src/pacing.py in every run.
use core_network_traffic_gen.Common.{
  ℕ, ◌≤◌, ◌≡◌, refl, sym, subst, ◌∙◌, arith, Bool-cases, Option-cases, inl, inr,
}
use core_network_traffic_gen.Common.{Bool, Option, none, some, List, [], length}
use core_network_traffic_gen.Common.Table.{lookup}
use core_network_traffic_gen.Pacing.InFlight.{
  InFlight, new, acquire_round, has_place, gave_up, waits,
}
use core_network_traffic_gen.Pacing.InFlight as P
use core_network_traffic_gen.Pacing.InFlight.Limit as L
use core_network_traffic_gen.Pacing.InFlight.Expire.{IsDictionary}
use core_network_traffic_gen.Ue.NextAction.{Ue, next_action}
use core_network_traffic_gen.Ue.State.{Emulated, Setting}
use core_network_traffic_gen.Ue.Handlers.{action}
use core_network_traffic_gen.UeSim.State.{Sim, Output, move}
use core_network_traffic_gen.UeSim.Dispatch.{dispatcher}
use core_network_traffic_gen.UeSim.Events.{
  Queued, is_done, goes_on, supi_of, freed, expired, free_place, settle, send_reply, send_nas,
  follow_up, handle_downlink, Started, stopped, no_room, raised, started, start_procedure, start_ue,
  expire_places,
}
use core_network_traffic_gen.UeSim.Calls.{dispatcher-inflight}
use core_network_traffic_gen.UeSim.Run.{Step, down, start, expiry, Reach, here, later}

-- The places after some calls of the closed loop's methods, where there is a closed loop
abbrev pub Uses : Option InFlight → Option InFlight → Type 0
Uses none g = g ≡ none
Uses (some f) none = ⊥
Uses (some f) (some g) = L.Reach f g

Uses-refl : (o : Option InFlight) → Uses o o
Uses-refl none = refl
Uses-refl (some f) = L.here

pub settle-inflight :
    (k : ℕ) (code : Option ℕ) (sim : Sim)
    → (settle k code sim).inflight ≡ (free_place k code sim).inflight
unfolding settle move
settle-inflight k none sim = refl
settle-inflight k (some code) sim =
    elim (Option-cases (lookup k (free_place k (some code) sim).ues)) [
      | inl e ↦ rw (e, settle) refl
      | inr (ue, e) ↦ rw (e, settle) refl
    ]

freed-Uses : (k : ℕ) (code : Option ℕ) (o : Option InFlight) → Uses o (freed k code o)
freed-Uses k code none = refl
freed-Uses k code (some f) = elim (Bool-cases (is_done code)) [
  | inl d ↦ rw d (L.next L.here (L.releases k f))
  | inr d ↦ rw d L.here
]

expired-Uses : (now : ℕ) (o : Option InFlight) → Uses o (expired now o)
expired-Uses now none = refl
expired-Uses now (some f) = L.next L.here (L.expires now f)

settle-Uses : (k : ℕ) (code : Option ℕ) (sim : Sim) → Uses sim.inflight (settle k code sim).inflight
settle-Uses k code sim = rw (settle-inflight k code sim) (freed-Uses k code sim.inflight)

-- A settlement after a call that left the places alone
settle_after :
    (k : ℕ) (code : Option ℕ) (sim next : Sim)
    → next.inflight ≡ sim.inflight
    → Uses sim.inflight (settle k code next).inflight
settle_after k code sim next e =
    let used = settle-Uses k code next in subst (λ o. Uses o (settle k code next).inflight) e used

unchanged : (sim next : Sim) → next.inflight ≡ sim.inflight → Uses sim.inflight next.inflight
unchanged sim next e = subst (λ o. Uses o next.inflight) e (Uses-refl next.inflight)

module _ (s : Setting) (now : ℕ) where
  follow_up-Uses :
      (k : ℕ) (out : List Output) (first sim : Sim)
      → sim.inflight ≡ first.inflight
      → Uses first.inflight (follow_up s now k out sim).1.inflight
  unfolding follow_up
  follow_up-Uses k out first sim h =
      let after = dispatcher s now none k none [] sim in
      let same = dispatcher-inflight s now none k none [] sim ∙ h in
      elim (Option-cases after.0) [
        | inl e ↦ rw (e, follow_up) (unchanged first after.1 same)
        | inr ((tx, code), e) ↦ elim (Option-cases (send_reply k (supi_of k after.1) tx code)) [
          | inl f ↦ rw (e, f, follow_up) (unchanged first after.1 same)
          | inr (more, f) ↦ rw (e, f, follow_up) (settle_after k code first after.1 same)
        ]
      ]

  handle_downlink-Uses :
      (q : Queued) (sim : Sim) → Uses sim.inflight (handle_downlink s now q sim).1.inflight
  unfolding handle_downlink
  handle_downlink-Uses (buf, k, received_at, ul_sent) sim =
      let after = dispatcher s now (some buf) k received_at ul_sent sim in
      let same = dispatcher-inflight s now (some buf) k received_at ul_sent sim in
      elim (Option-cases after.0) [
        | inl e ↦ rw (e, handle_downlink) (unchanged sim after.1 same)
        | inr ((tx, code), e) ↦ elim (Option-cases (send_reply k (supi_of k after.1) tx code)) [
          | inl f ↦ rw (e, f, handle_downlink) (unchanged sim after.1 same)
          | inr (out, f) ↦ elim (Bool-cases (goes_on code)) [
            | inl g ↦ rw (e, f, g, handle_downlink) (follow_up-Uses k out sim after.1 same)
            | inr g ↦ rw (e, f, g, handle_downlink) (settle_after k code sim after.1 same)
          ]
        ]
      ]

  -- What a start leaves: the places that it found.
  abbrev pub Same : Sim → Started → Type 0
  Same sim stopped = Unit {0}
  Same sim no_room = Unit {0}
  Same sim (raised next) = Unit {0}
  Same sim (started out next) = next.inflight ≡ sim.inflight

  pub start_procedure-Same :
      (k : ℕ) (ue : Ue Emulated) (sim : Sim) → Same sim (start_procedure s now k ue sim)
  unfolding start_procedure
  start_procedure-Same k ue sim =
      let after = next_action (action s now) ue none none in
      elim (Option-cases after.0) [
        | inl h ↦ rw (h, start_procedure) tt
        | inr ((none, code), h) ↦ rw (h, start_procedure) tt
        | inr ((some m, none), h) ↦ rw (h, start_procedure) tt
        | inr ((some m, some code), h) ↦ elim (Option-cases (send_nas k m code)) [
          | inl f ↦ rw (h, f, start_procedure) tt
          | inr (out, f) ↦ rw (h, f, start_procedure) refl
        ]
      ]

  start_open :
      (stop : Bool) (k : ℕ) (ue : Ue Emulated) (sim : Sim)
      → sim.inflight ≡ none
      → start_ue s now stop k ue sim ≡ start_procedure s now k ue sim
  unfolding start_ue
  start_open stop k ue sim e = ground arith

  -- What a start leaves: the places after some calls.
  abbrev Used : Option InFlight → Started → Type 0
  Used o stopped = Unit {0}
  Used o no_room = Unit {0}
  Used o (raised next) = Unit {0}
  Used o (started out next) = Uses o next.inflight

  Used-Same :
      (o : Option InFlight) (sim : Sim) (r : Started) → Uses o sim.inflight → Same sim r → Used o r
  Used-Same o sim stopped u h = tt
  Used-Same o sim no_room u h = tt
  Used-Same o sim (raised next) u h = tt
  Used-Same o sim (started out next) u h = subst (Uses o) (sym h) u

  -- A round of the closed loop, by what acquire gives
  abbrev pub acquired : ℕ → Ue Emulated → Sim → P.Acquired → Started
  acquired k ue sim gave_up = stopped
  acquired k ue sim waits = no_room
  acquired k ue sim (has_place g) = start_procedure s now k ue (record sim { inflight = some g })

  Used-acquired :
      (stop : Bool) (k : ℕ) (ue : Ue Emulated) (f : InFlight) (sim : Sim) (a : P.Acquired)
      → acquire_round k stop now f ≡ a
      → Used (some f) (acquired k ue sim a)
  Used-acquired stop k ue f sim gave_up h = tt
  Used-acquired stop k ue f sim waits h = tt
  Used-acquired stop k ue f sim (has_place g) h =
      Used-Same (some f) (record sim { inflight = some g }) _
        (L.next L.here (L.acquires k now stop f g h))
        (start_procedure-Same k ue (record sim { inflight = some g }))

  pub start_closed :
      (stop : Bool) (k : ℕ) (ue : Ue Emulated) (f : InFlight) (sim : Sim)
      → sim.inflight ≡ some f
      → start_ue s now stop k ue sim ≡ acquired k ue sim (acquire_round k stop now f)
  unfolding start_ue
  start_closed stop k ue f sim e = rw (e, start_ue) (ground arith)

  start_ue-Used :
      (stop : Bool) (k : ℕ) (ue : Ue Emulated) (sim : Sim)
      → Used sim.inflight (start_ue s now stop k ue sim)
  unfolding start_ue
  start_ue-Used stop k ue sim = elim (Option-cases sim.inflight) [
    | inl e ↦
        let kept =
          Used-Same sim.inflight sim _ (Uses-refl sim.inflight) (start_procedure-Same k ue sim) in
        subst (Used sim.inflight) (sym (start_open stop k ue sim e)) kept
    | inr (f, e) ↦
        let closed = Used-acquired stop k ue f sim (acquire_round k stop now f) refl in
        subst (Used sim.inflight) (sym (start_closed stop k ue f sim e))
          (subst (λ o. Used o (acquired k ue sim (acquire_round k stop now f))) (sym e) closed)
  ]

Step-Uses : {s : Setting} {sim next : Sim} → Step s sim next → Uses sim.inflight next.inflight
unfolding expire_places
Step-Uses {s} (down now q sim next has e) =
    subst (λ n. Uses sim.inflight n.inflight) (sym e) (handle_downlink-Uses s now q sim)
Step-Uses {s} (start now stop k ue out sim next e off h) =
    subst (Used s now sim.inflight) h (start_ue-Used s now stop k ue sim)
Step-Uses (expiry now sim next e) =
    subst (λ n. Uses sim.inflight n.inflight) (sym e) (expired-Uses now sim.inflight)

Reach-trans : {f g h : InFlight} → L.Reach f g → L.Reach g h → L.Reach f h
Reach-trans r L.here = r
Reach-trans r (L.next q st) = L.next (Reach-trans r q) st

Uses-trans : (a b c : Option InFlight) → Uses a b → Uses b c → Uses a c
Uses-trans none b c h k = subst (λ o. Uses o c) h k
Uses-trans (some f) (some g) (some h) p q = Reach-trans p q
Uses-trans (some f) (some g) none p q = q
Uses-trans (some f) none c p q = absurd p

-- In every run of a simulator its places change by calls of the closed loop's methods only: the simulator
-- refines the closed loop of src/pacing.py.
pub Reach-Uses :
    {s : Setting} {first sim : Sim} → Reach s first sim → Uses first.inflight sim.inflight
Reach-Uses {first = first} here = Uses-refl first.inflight
Reach-Uses (later {sim} {next} r st) =
    Uses-trans _ sim.inflight next.inflight (Reach-Uses r) (Step-Uses st)

-- A run that starts with an empty closed loop never has more UEs in their procedures than its limit,
-- each once.
pub Reach-inflight :
    {s : Setting} {first sim : Sim} (limit timeout : ℕ) (f : InFlight)
    → Reach s first sim
    → first.inflight ≡ some (new limit timeout)
    → sim.inflight ≡ some f
    → (length f.started ≤ limit) × IsDictionary f.started
Reach-inflight {first = first} {sim = sim} limit timeout f r e h =
    let used = Reach-Uses r in
    let from_new = subst (λ o. Uses o sim.inflight) e used in
    L.Reach-within_limit limit timeout f (subst (Uses (some (new limit timeout))) h from_new)
