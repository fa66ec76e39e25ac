-- ===== src/Dkg/Transition.antt =====
-- The operations that change the state of a DKG: src/dkg/state.rs. A method on `&mut self` that
-- succeeds returns the new state; no method writes a field before its last check, so on an error
-- the state is the old one. Each reading of SystemTime::now is an argument.
pub mod Edges
pub mod Invariant
use drand_rs.Common.{
  not, ◌&&◌, [], ◌∷◌, ◌++◌, Option, none, some, bytes_eq, retain, is_empty, ◌==◌, if◌then◌else◌,
  Result, ok, err, ◌>>◌, reject_if, map_err, ◌>>=◌,
}
use drand_rs.Common.Int.{ℤ, pos, negsuc}
use drand_rs.Dkg.Packet.{
  Participant, participant_eq, ProposalTerms, GossipMetadata, GossipData, GossipPacket,
}
use drand_rs.Dkg.State.{State, DbStateError, from_terms}
use drand_rs.Dkg.Status.{Status, is_valid_state_change}
use drand_rs.Dkg.Validate.{contains, reached, is_proposal_phase, validate_proposal}
use drand_rs.Key.Group.{Group, KeyShare}
use drand_rs.Scheme.{Scheme, Authority}

-- The errors of a command, or the panic of an `unwrap`.
pub data Failure : Type 0 where
  db_state : DbStateError → Failure
  panic : Failure

pub data ActionsError : Type 0 where
  db_state : DbStateError → ActionsError
  todo : ActionsError

change : Status → Status → Result DbStateError (Unit {0})
unfolding is_valid_state_change
change self next = map_err DbStateError.invalid_state_change (is_valid_state_change self next)

module _ (S : Scheme) (au : Authority) where
  unfoldable pub proposed :
      ℤ → State S → Participant → ProposalTerms → GossipMetadata → Result DbStateError (State S)
  unfolding change
  proposed now self me terms metadata = do
    change self.status Status.proposed
    reject_if (not (au.same metadata.address terms.leader.address))
        DbStateError.cannot_propose_as_non_leader
    validate_proposal S au now self terms
    reject_if
        (not (contains au terms.joining me)
          && (not (contains au terms.remaining me) && not (contains au terms.leaving me)))
        DbStateError.self_missing_from_proposal
    ok (from_terms S terms)

  -- `u64::try_from(seconds).unwrap()` panics on a negative genesis time.
  unfoldable pub validate_previous_group_for_joiners :
      State S → Option (Group S) → Result Failure (Unit {0})
  validate_previous_group_for_joiners d none =
      if d.epoch == 1
      then ok tt
      else err (Failure.db_state DbStateError.joining_after_first_epoch_needs_group_file)
  validate_previous_group_for_joiners d (some prev_group) = elim d.genesis_time.seconds [
    | negsuc n ↦ err Failure.panic
    | pos seconds ↦ (do
      reject_if (not (prev_group.genesis_time == seconds))
          (Failure.db_state DbStateError.genesis_time_not_consistent_with_proposal)
      reject_if (not (bytes_eq prev_group.genesis_seed d.genesis_seed))
          (Failure.db_state DbStateError.genesis_seed_cannot_change))
  ]

  unfoldable pub joined : ℤ → State S → Participant → Option (Group S) → Result Failure (State S)
  unfolding change validate_previous_group_for_joiners
  joined now self me prev_group = do
    map_err Failure.db_state (change self.status Status.joined)
    reject_if (reached now self.timeout) (Failure.db_state DbStateError.timeout_reached)
    reject_if (not (contains au self.joining me))
        (Failure.db_state DbStateError.cannot_join_if_not_in_joining)
    validate_previous_group_for_joiners self prev_group
    ok (record self { final_group = prev_group; status = Status.joined })

  unfoldable pub left : ℤ → State S → Participant → Result DbStateError (State S)
  unfolding change
  left now self me = do
    change self.status Status.left
    reject_if (reached now self.timeout) DbStateError.timeout_reached
    reject_if (not (contains au self.leaving me) && not (contains au self.joining me))
        DbStateError.cannot_leave_if_not_a_leaver
    ok (record self { status = Status.left })

  -- A leaver reads the clock a second time, in `left`.
  unfoldable pub executing :
      ℤ → ℤ → State S → Participant → GossipMetadata → Result DbStateError (State S)
  unfolding change left
  executing now later self me metadata = do
    reject_if (reached now self.timeout) DbStateError.timeout_reached
    if contains au self.leaving me then left later self me else (do
      change self.status Status.executing
      reject_if (not (au.same self.leader.address metadata.address))
          DbStateError.only_leader_can_trigger_execute
      ok (record self { status = Status.executing }))

  unfoldable pub complete : ℤ → State S → Group S → KeyShare S → Result DbStateError (State S)
  unfolding change
  complete now self final_group share = do
    change self.status Status.complete
    reject_if (reached now self.timeout) DbStateError.timeout_reached
    ok (record self {
      status = Status.complete;
      genesis_seed =
          if is_empty self.genesis_seed then final_group.genesis_seed else self.genesis_seed;
      final_group = some final_group;
      key_share = some share;
    })

  unfoldable pub received_acceptance :
      State S → Participant → GossipMetadata → Result DbStateError (State S)
  received_acceptance self them metadata = do
    reject_if (not (is_proposal_phase self.status)) DbStateError.received_acceptance
    reject_if (not (contains au self.remaining them)) DbStateError.unknown_acceptor
    reject_if (contains au self.acceptors them) DbStateError.duplicate_acceptance
    reject_if (not (au.same metadata.address them.address)) DbStateError.invalid_acceptor
    ok (record self {
      rejectors = retain (λ r. not (participant_eq au r them)) self.rejectors;
      acceptors = self.acceptors ++ them ∷ [];
    })

  unfoldable pub accepted : ℤ → State S → Participant → Result DbStateError (State S)
  unfolding change
  accepted now self me = do
    change self.status Status.accepted
    reject_if (reached now self.timeout) DbStateError.timeout_reached
    reject_if (contains au self.leaving me) DbStateError.cannot_accept_proposal_where_leaving
    reject_if (contains au self.joining me) DbStateError.cannot_accept_proposal_where_joining
    ok (record self {
      rejectors = retain (λ r. not (participant_eq au r me)) self.rejectors;
      acceptors = self.acceptors ++ me ∷ [];
      status = Status.accepted;
    })

  -- The `match` of `apply`.
  unfoldable pub apply_body :
      ℤ → ℤ → State S → Participant → GossipMetadata → GossipData → Result ActionsError (State S)
  apply_body now later self me metadata (GossipData.proposal terms) =
      map_err ActionsError.db_state (proposed now self me terms metadata)
  apply_body now later self me metadata (GossipData.execute time) =
      map_err ActionsError.db_state (executing now later self me metadata)
  apply_body now later self me metadata (GossipData.accept acceptor) =
      map_err ActionsError.db_state (received_acceptance self acceptor metadata)
  apply_body _ _ _ _ _ (GossipData.reject r) = err ActionsError.todo
  apply_body _ _ _ _ _ (GossipData.abort reason) = err ActionsError.todo
  apply_body _ _ _ _ _ (GossipData.dkg id bundle) = err ActionsError.todo

  unfoldable pub apply :
      ℤ → ℤ → State S → Participant → GossipPacket → Result ActionsError (State S)
  unfolding apply_body
  apply now later self me packet = apply_body now later self me packet.metadata packet.body
