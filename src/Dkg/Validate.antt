-- ===== src/Dkg/Validate.antt =====
-- The checks of a proposal: src/dkg/state.rs (`validate_*`) and src/dkg/utils.rs
-- (`Participant::is_valid_signature`). SystemTime::now is the argument `now`, in seconds.
pub mod Admissible
pub mod Proposal
use drand_rs.Common.{
  ◌+◌, Bool, true, false, not, ◌&&◌, ◌||◌, List, ◌++◌, map, none, some, Bytes, bytes_eq, any, all,
  length, is_empty, ltb, ◌==◌, if◌then◌else◌, Result, ok, ◌>>=◌, ◌>>◌, reject_if, ok_or, add_u32,
}
use drand_rs.Common.Int.{ℤ, leb_ℤ}
use drand_rs.Dkg.Packet.{Participant, participant_eq, ProposalTerms, Timestamp, timestamp_eq}
use drand_rs.Dkg.State.{State, DbStateError}
use drand_rs.Dkg.Status.{Status, status_eq, is_terminal}
use drand_rs.Key.Group.{Node, minimum_t}
use drand_rs.Scheme.{Scheme, Authority}

unfoldable pub is_valid_signature : Scheme → Participant → Bool
is_valid_signature S p = elim (S.deserialize_key p.key) [
  | none ↦ false
  | some key ↦ elim (S.deserialize_sig p.signature) [
    | none ↦ false
    | some signature ↦ S.bls_verify key signature (S.id ++ S.blake2b p.key)
  ]
]

-- `slice.contains`, and the `iter().any(|p| *p == x)` of the checks.
unfoldable pub contains : Authority → List Participant → Participant → Bool
unfolding any
contains au ps p = any (λ q. participant_eq au q p) ps

-- `contains` on the texts of addresses.
unfoldable pub contains_text : List Bytes → Bytes → Bool
unfolding any
contains_text texts t = any (λ u. bytes_eq u t) texts

abbrev pub addresses : List Participant → List Bytes
addresses = map (λ p. p.address)

unfoldable pub is_proposal_phase : Status → Bool
is_proposal_phase Status.proposed = true
is_proposal_phase Status.proposing = true
is_proposal_phase Status.accepted = true
is_proposal_phase Status.rejected = true
is_proposal_phase Status.joined = true
is_proposal_phase _ = false

-- `true` where the time is reached, at the resolution of seconds.
abbrev pub reached : ℤ → Timestamp → Bool
reached now t = leb_ℤ t.seconds now

module _ (S : Scheme) where
  unfoldable pub validate_for_all_dkgs :
      ℤ → State S → ProposalTerms → Result DbStateError (Unit {0})
  unfolding minimum_t status_eq is_terminal all
  validate_for_all_dkgs now current terms = do
    reject_if (not (bytes_eq current.beacon_id terms.beacon_id)) DbStateError.invalid_beacon_id
    reject_if (not (all (is_valid_signature S) terms.joining)) DbStateError.participant_signature
    reject_if (reached now terms.timeout) DbStateError.timeout_reached
    let node_count = length terms.joining + length terms.remaining
    reject_if (ltb node_count terms.threshold) DbStateError.threshold_higher_than_node_count
    reject_if (ltb terms.threshold (minimum_t node_count)) DbStateError.threshold_too_low
    reject_if (ltb terms.epoch current.epoch) DbStateError.invalid_epoch
    reject_if (terms.epoch == current.epoch && not (is_terminal current.status))
        DbStateError.invalid_epoch
    reject_if
        (ltb (add_u32 current.epoch 1) terms.epoch
          && (not (status_eq current.status Status.left)
              && not (status_eq current.status Status.fresh)))
        DbStateError.invalid_epoch_leftover

  -- `a.all(..) && b.all(..)` with the source's `!` on the first call only.
  unfoldable pub validate_reshare_for_remainers :
      State S → ProposalTerms → Result DbStateError (Unit {0})
  unfolding timestamp_eq contains_text all
  validate_reshare_for_remainers current terms = do
    reject_if (not (timestamp_eq terms.genesis_time current.genesis_time))
        DbStateError.genesis_time_not_equal
    reject_if (not (bytes_eq terms.genesis_seed current.genesis_seed))
        DbStateError.genesis_seed_cannot_change
    final_group ← ok_or current.final_group DbStateError.missing_final_group_for_remainers
    let last_epoch = map (λ (n : Node S). n.identity.address) final_group.nodes
    let remaining = addresses terms.remaining
    let leaving = addresses terms.leaving
    reject_if (not (all (λ a. contains_text remaining a || contains_text leaving a) last_epoch))
        DbStateError.remaining_and_leaving_nodes_must_exist_in_current_epoch
    reject_if
        (not (all (contains_text last_epoch) remaining) && all (contains_text last_epoch) leaving)
        DbStateError.missing_nodes_in_proposal
    reject_if (ltb (length terms.remaining) current.threshold) DbStateError.node_count_too_low

unfoldable pub validate_first_epoch : Authority → ProposalTerms → Result DbStateError (Unit {0})
unfolding contains
validate_first_epoch au terms = do
  reject_if (not (is_empty terms.genesis_seed)) DbStateError.no_genesis_seed_for_first_epoch
  reject_if (not (is_empty terms.remaining) || not (is_empty terms.leaving))
      DbStateError.only_joiners_allowed_for_first_epoch
  reject_if (not (contains au terms.joining terms.leader)) DbStateError.leader_not_joining
  reject_if (ltb (length terms.joining) terms.threshold)
      DbStateError.threshold_higher_than_node_count

module _ (S : Scheme) (au : Authority) where
  unfoldable pub validate_reshare_terms : State S → ProposalTerms → Result DbStateError (Unit {0})
  unfolding contains
  validate_reshare_terms current terms = do
    reject_if (is_empty terms.remaining) DbStateError.no_nodes_remaining
    reject_if (contains au terms.joining terms.leader)
        DbStateError.leader_cant_join_after_first_epoch
    reject_if
        (contains au terms.leaving terms.leader || not (contains au terms.remaining terms.leader))
        DbStateError.leader_not_remaining
    reject_if (ltb (length terms.remaining) current.threshold) DbStateError.node_count_too_low

  unfoldable pub validate_proposal : ℤ → State S → ProposalTerms → Result DbStateError (Unit {0})
  validate_proposal now current terms = do
    validate_for_all_dkgs S now current terms
    if terms.epoch == 1 then validate_first_epoch au terms else (do
      validate_reshare_terms current terms
      if not (status_eq current.status Status.fresh)
          then validate_reshare_for_remainers S current terms
          else ok tt)
