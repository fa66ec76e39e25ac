-- ===== src/Dkg/Transition/Edges.antt =====
-- Every operation of src/dkg/state.rs follows the transition table of src/dkg/status.rs.
use drand_rs.Common.{arith, ok, ◌≡◌, Option, none, true, ◌≤◌, ◌⊎◌, map_err-ok, inl, inr, refl}
use drand_rs.Common.Int.{ℤ}
use drand_rs.Dkg.Packet.{
  GossipMetadata, Participant, ProposalTerms, GossipPacket, GossipData, Timestamp,
}
use drand_rs.Dkg.State.{State, from_terms}
use drand_rs.Dkg.Status.{Status, is_valid_state_change}
use drand_rs.Dkg.Transition.{
  change, proposed, executing, joined, accepted, apply, received_acceptance, apply_body,
}
use drand_rs.Dkg.Validate.{is_proposal_phase}
use drand_rs.Dkg.Validate.Proposal.{validate_proposal-bounds}
use drand_rs.Key.Group.{Group}
use drand_rs.Scheme.{Authority, Scheme}

module _ (S : Scheme) (au : Authority) where
  change-ok : (s t : Status) → change s t ≡ ok tt → is_valid_state_change s t ≡ ok tt
  unfolding change is_valid_state_change
  change-ok s t h = ground arith

  pub executing-status :
      (now later : ℤ) (s : State S) (me : Participant) (metadata : GossipMetadata) {t : State S}
      → executing S au now later s me metadata ≡ ok t
      → is_valid_state_change s.status t.status ≡ ok tt
  unfolding executing
  executing-status now later s me metadata h =
      ground (arith, change-ok s.status Status.executing, change-ok s.status Status.left)

  pub proposed-status :
      (now : ℤ) (s : State S) (me : Participant) (terms : ProposalTerms) (metadata : GossipMetadata)
      {t : State S}
      → proposed S au now s me terms metadata ≡ ok t
      → is_valid_state_change s.status t.status ≡ ok tt
  unfolding proposed from_terms
  proposed-status now s me terms metadata h = ground (arith, change-ok s.status Status.proposed)

  pub joined-status :
      (now : ℤ) (s : State S) (me : Participant) (group : Option (Group S)) {t : State S}
      → joined S au now s me group ≡ ok t
      → is_valid_state_change s.status t.status ≡ ok tt
  unfolding joined
  joined-status now s me none h = ground (arith, change-ok s.status Status.joined)
  joined-status now s me group h = ground (arith, change-ok s.status Status.joined)

  pub accepted-status :
      (now : ℤ) (s : State S) (me : Participant) {t : State S}
      → accepted S au now s me ≡ ok t
      → is_valid_state_change s.status t.status ≡ ok tt
  unfolding accepted
  accepted-status now s me h = ground (arith, change-ok s.status Status.accepted)

  -- What `apply` promises of a packet and the state before and after it.
  abbrev Follows : GossipData → State S → State S → Type 0
  Follows body s t =
      (((acceptor : Participant) × (body ≡ GossipData.accept acceptor))
          × (t.status ≡ s.status)
          × (is_proposal_phase s.status ≡ true)
        ⊎ (is_valid_state_change s.status t.status ≡ ok tt))
      × (s.epoch ≤ t.epoch)

  proposed-Follows :
      (now : ℤ) (s : State S) (me : Participant) (terms : ProposalTerms) (metadata : GossipMetadata)
      {t : State S}
      → proposed S au now s me terms metadata ≡ ok t
      → Follows (GossipData.proposal terms) s t
  unfolding proposed from_terms
  proposed-Follows now s me terms metadata h = (
    inr (proposed-status now s me terms metadata h),
    ground (arith, change-ok s.status Status.proposed, validate_proposal-bounds S au now s terms),
  )

  executing-Follows :
      (now later : ℤ) (s : State S) (me : Participant) (metadata : GossipMetadata)
      (time : Timestamp) {t : State S}
      → executing S au now later s me metadata ≡ ok t
      → Follows (GossipData.execute time) s t
  unfolding executing
  executing-Follows now later s me metadata time h = (
    inr (executing-status now later s me metadata h),
    ground (arith, change-ok s.status Status.executing, change-ok s.status Status.left),
  )

  acceptance-Follows :
      (s : State S) (them : Participant) (metadata : GossipMetadata) {t : State S}
      → received_acceptance S au s them metadata ≡ ok t
      → Follows (GossipData.accept them) s t
  unfolding received_acceptance
  acceptance-Follows s them metadata h =
      (inl ((them, refl), ground arith, ground arith), ground arith)

  apply_body-Follows :
      (now later : ℤ) (s : State S) (me : Participant) (metadata : GossipMetadata) (b : GossipData)
      {t : State S}
      → apply_body S au now later s me metadata b ≡ ok t
      → Follows b s t
  unfolding apply_body
  apply_body-Follows now later s me metadata (GossipData.proposal terms) e =
      proposed-Follows now s me terms metadata (map_err-ok _ _ e)
  apply_body-Follows now later s me metadata (GossipData.execute time) e =
      executing-Follows now later s me metadata time (map_err-ok _ _ e)
  apply_body-Follows now later s me metadata (GossipData.accept acceptor) e =
      acceptance-Follows s acceptor metadata (map_err-ok _ _ e)
  apply_body-Follows now later s me metadata _ e = cc

  -- A gossip packet that is applied either is an acceptance, in a proposal phase and with the
  -- status kept, or moves the status along the transition table; the epoch never goes down.
  pub apply-status :
      (now later : ℤ) (s : State S) (me : Participant) (packet : GossipPacket) {t : State S}
      → apply S au now later s me packet ≡ ok t
      → (((acceptor : Participant) × (packet.body ≡ GossipData.accept acceptor))
            × (t.status ≡ s.status)
            × (is_proposal_phase s.status ≡ true)
          ⊎ (is_valid_state_change s.status t.status ≡ ok tt))
        × (s.epoch ≤ t.epoch)
  unfolding apply
  apply-status now later s me packet h =
      apply_body-Follows now later s me packet.metadata packet.body h
