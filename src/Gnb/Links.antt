-- ===== src/Gnb/Links.antt =====
-- A RAN UE NGAP ID belongs to the first link that it comes on.
use core_network_traffic_gen.Common.{
  ℕ, ◌≡◌, ◌≢◌, refl, ap, ◌∙◌, arith, ◌==◌, ==_refl, if◌then◌else◌, Bool-cases, Option-cases, inl,
  inr,
}
use core_network_traffic_gen.Common.{true, false, Option, none, some, List, [], ◌∷◌}
use core_network_traffic_gen.Common.Table.{lookup, insert, lookup-insert}
use core_network_traffic_gen.RanLink.Event.{Event}
use core_network_traffic_gen.Gnb.State.{Gnb, claim, elem}
use core_network_traffic_gen.Gnb.Handlers.{Setting, handle_uplink, owned_uplink}

-- The link that owns a UE, after an event of it came on `link`.
abbrev pub owner_after : ℕ → Option ℕ → ℕ
owner_after link none = link
owner_after link (some owner) = owner

abbrev pub reported : ℕ → Gnb → Gnb
reported ran g = record g { clashes = (if elem ran g.clashes then g.clashes else ran ∷ g.clashes) }

claim_first :
    (link ran : ℕ) (g : Gnb)
    → lookup ran g.ue_links ≡ none
    → claim link ran g ≡ (true, record g { ue_links = insert ran link g.ue_links })
unfolding claim
claim_first link ran g e =
    ap
      (λ o. elim o [
        | none ↦ (true, record g { ue_links = insert ran link g.ue_links })
        | some owner ↦ if owner == link then (true, g) else (false, reported ran g)
      ])
      e

claim_owned :
    (link ran owner : ℕ) (g : Gnb)
    → lookup ran g.ue_links ≡ some owner
    → claim link ran g ≡ (if owner == link then (true, g) else (false, reported ran g))
unfolding claim
claim_owned link ran owner g e =
    ap
      (λ o. elim o [
        | none ↦ (true, record g { ue_links = insert ran link g.ue_links })
        | some owner ↦ if owner == link then (true, g) else (false, reported ran g)
      ])
      e

same_entry :
    (ran other owner : ℕ) (m : List (ℕ × ℕ))
    → lookup ran m ≡ some owner
    → lookup other m ≡ (if ran == other then some owner else lookup other m)
same_entry ran other owner m h = elim (Bool-cases (ran == other)) [
  | inl e ↦ let same : other ≡ ran = ground arith in rw e (ap (λ k. lookup k m) same ∙ h)
  | inr e ↦ rw e refl
]

-- A claim succeeds just on the owner's link; the UE then has the owner that it had, or else this link,
-- and no other UE's owner changes.
pub claim_lem :
    (link ran other : ℕ) (g : Gnb)
    → ((claim link ran g).0 ≡ (owner_after link (lookup ran g.ue_links) == link))
      × (lookup other (claim link ran g).1.ue_links ≡ (
          if ran == other
          then some (owner_after link (lookup ran g.ue_links))
          else lookup other g.ue_links))
claim_lem link ran other g = elim (Option-cases (lookup ran g.ue_links)) [
  | inl e ↦
      rw (claim_first link ran g e, e, ==_refl link) (refl, lookup-insert ran other link g.ue_links)
  | inr (owner, e) ↦
      rw (claim_owned link ran owner g e, e)
        (elim (Bool-cases (owner == link)) [
          | inl mine ↦ rw mine (refl, same_entry ran other owner g.ue_links e)
          | inr theirs ↦ rw theirs (refl, same_entry ran other owner g.ue_links e)
        ])
]

-- An event on a link that does not own its UE does nothing to the outside, and changes nothing but the
-- list of clashes.
pub handle_uplink_clash :
    (s : Setting) (now time link owner : ℕ) (e : Event) (g : Gnb)
    → lookup e.ue_id g.ue_links ≡ some owner
    → owner ≢ link
    → handle_uplink s now time link e g ≡ ([], reported e.ue_id g)
unfolding handle_uplink claim
handle_uplink_clash s now time link owner e g h differ =
    let no : (owner == link) ≡ false = ground arith in
    ap (λ c. if c.0 then owned_uplink s now time e c.1 else ([], c.1))
      (rw no at (claim_owned link e.ue_id owner g h))
