-- ===== src/Dkg/Transition/Invariant.antt =====
-- What holds of every state that the operations of src/dkg/state.rs produce.
use drand_rs.Common.{
  Bytes, Option, [], all, all-append, arith, is_some, length, none, ok, some, true, ◌*◌, ◌+◌, ◌<◌,
  ◌∷◌, ◌≡◌, ◌≢◌, ◌≤◌, ◌⊎◌, map_err-ok,
}
use drand_rs.Common.Int.{ℤ}
use drand_rs.Dkg.Packet.{GossipMetadata, Participant, ProposalTerms, GossipData, GossipPacket}
use drand_rs.Dkg.State.{fresh, State, from_terms}
use drand_rs.Dkg.Status.{Status, is_valid_state_change}
use drand_rs.Dkg.Transition.{
  proposed, executing, left, joined, received_acceptance, apply_body, accepted, complete, apply,
}
use drand_rs.Dkg.Validate.{contains}
use drand_rs.Dkg.Validate.Proposal.{validate_proposal-bounds, validate_proposal-leader}
use drand_rs.Key.Group.{Group, KeyShare}
use drand_rs.Scheme.{Authority, Scheme}

-- A node's state for a proposal, seen by the participant `me`.
pub record IsWellFormed (S : Scheme) (au : Authority) (me : Participant) (s : State S)
    : Type 0 where
  -- The threshold is a majority of the nodes after the DKG, and they can reach it.
  pub not_above : s.status ≢ Status.fresh → s.threshold ≤ length s.joining + length s.remaining
  pub majority : s.status ≢ Status.fresh → length s.joining + length s.remaining < 2 * s.threshold
  pub leader_in :
      s.status ≢ Status.fresh
      → (contains au s.joining s.leader ≡ true) ⊎ (contains au s.remaining s.leader ≡ true)
  pub me_in :
      s.status ≢ Status.fresh
      → (contains au s.joining me ≡ true)
        ⊎ (contains au s.remaining me ≡ true)
        ⊎ (contains au s.leaving me ≡ true)
  -- Only remaining nodes are counted as acceptors.
  pub acceptors_remain : all (contains au s.remaining) s.acceptors ≡ true
  -- Nobody joins after the first epoch without the group that it joins.
  pub joiner_has_group : s.status ≡ Status.joined → (s.epoch ≡ 1) ⊎ (is_some s.final_group ≡ true)
  pub complete_has_output :
      s.status ≡ Status.complete → (is_some s.final_group ≡ true) × (is_some s.key_share ≡ true)

module _ (S : Scheme) (au : Authority) (me : Participant) where
  pub fresh-IsWellFormed : (id : Bytes) → IsWellFormed S au me (fresh S id)
  unfolding fresh all
  fresh-IsWellFormed id = ground arith

  pub proposed-IsWellFormed :
      (now : ℤ) (s : State S) (terms : ProposalTerms) (metadata : GossipMetadata) {t : State S}
      → proposed S au now s me terms metadata ≡ ok t
      → IsWellFormed S au me t
  unfolding proposed from_terms all
  proposed-IsWellFormed now s terms metadata h =
      ground (
        arith,
        validate_proposal-bounds S au now s terms,
        validate_proposal-leader S au now s terms,
      )

  pub left-IsWellFormed :
      (now : ℤ) (s : State S) {t : State S}
      → left S au now s me ≡ ok t
      → s.status ≢ Status.fresh
      → IsWellFormed S au me s
      → IsWellFormed S au me t
  unfolding left
  left-IsWellFormed now s h n v = ground arith

  pub executing-IsWellFormed :
      (now later : ℤ) (s : State S) (metadata : GossipMetadata) {t : State S}
      → executing S au now later s me metadata ≡ ok t
      → s.status ≢ Status.fresh
      → IsWellFormed S au me s
      → IsWellFormed S au me t
  unfolding executing
  executing-IsWellFormed now later s metadata h n v = ground arith

  pub acceptance-IsWellFormed :
      (s : State S) (them : Participant) (metadata : GossipMetadata) {t : State S}
      → received_acceptance S au s them metadata ≡ ok t
      → IsWellFormed S au me s
      → IsWellFormed S au me t
  unfolding received_acceptance all
  acceptance-IsWellFormed s them metadata h v =
      ground (arith, all-append (contains au s.remaining) s.acceptors (them ∷ []))

  pub joined-IsWellFormed :
      (now : ℤ) (s : State S) (group : Option (Group S)) {t : State S}
      → joined S au now s me group ≡ ok t
      → IsWellFormed S au me s
      → IsWellFormed S au me t
  unfolding joined is_valid_state_change
  joined-IsWellFormed now s none h v = ground arith
  joined-IsWellFormed now s (some g) h v = ground arith

  pub accepted-IsWellFormed :
      (now : ℤ) (s : State S) {t : State S}
      → accepted S au now s me ≡ ok t
      → s.status ≢ Status.fresh
      → IsWellFormed S au me s
      → IsWellFormed S au me t
  unfolding accepted all
  accepted-IsWellFormed now s h n v =
      ground (arith, all-append (contains au s.remaining) s.acceptors (me ∷ []))

  pub complete-IsWellFormed :
      (now : ℤ) (s : State S) (group : Group S) (share : KeyShare S) {t : State S}
      → complete S au now s group share ≡ ok t
      → s.status ≢ Status.fresh
      → IsWellFormed S au me s
      → IsWellFormed S au me t
  unfolding complete
  complete-IsWellFormed now s group share h n v = ground arith

  -- A fresh node only takes proposals.
  pub executing-not_fresh :
      (now later : ℤ) (s : State S) (metadata : GossipMetadata) {t : State S}
      → executing S au now later s me metadata ≡ ok t
      → s.status ≢ Status.fresh
  unfolding executing is_valid_state_change
  executing-not_fresh now later s metadata h e = ground arith

  pub accepted-not_fresh :
      (now : ℤ) (s : State S) {t : State S}
      → accepted S au now s me ≡ ok t
      → s.status ≢ Status.fresh
  unfolding accepted is_valid_state_change
  accepted-not_fresh now s h e = ground arith

  pub complete-not_fresh :
      (now : ℤ) (s : State S) (group : Group S) (share : KeyShare S) {t : State S}
      → complete S au now s group share ≡ ok t
      → s.status ≢ Status.fresh
  unfolding complete is_valid_state_change
  complete-not_fresh now s group share h e = ground arith

  -- Applying a gossip packet keeps a state well formed.
  pub apply-IsWellFormed :
      (now later : ℤ) (s : State S) (packet : GossipPacket) {t : State S}
      → apply S au now later s me packet ≡ ok t
      → IsWellFormed S au me s
      → IsWellFormed S au me t
  unfolding apply apply_body
  apply-IsWellFormed now later s packet {t} h v = by_body packet.body h
    where
      by_body :
          (b : GossipData)
          → apply_body S au now later s me packet.metadata b ≡ ok t
          → IsWellFormed S au me t
      by_body (GossipData.proposal terms) e =
          proposed-IsWellFormed now s terms packet.metadata (map_err-ok _ _ e)
      by_body (GossipData.execute time) e =
          executing-IsWellFormed now later s packet.metadata (map_err-ok _ _ e)
            (executing-not_fresh now later s packet.metadata (map_err-ok _ _ e)) v
      by_body (GossipData.accept acceptor) e =
          acceptance-IsWellFormed s acceptor packet.metadata (map_err-ok _ _ e) v
      by_body _ e = cc
