-- ===== src/Dkg/State.antt =====
-- The state of a DKG and its errors: src/dkg/state.rs. `fresh` and the conversion of a proposal.
use drand_rs.Common.{ℕ, List, [], ◌∷◌, Option, none, Bytes}
use drand_rs.Common.Int.{pos, negsuc}
use drand_rs.Dkg.Packet.{Timestamp, Participant, ProposalTerms}
use drand_rs.Dkg.Status.{Status, StateError}
use drand_rs.Key.Group.{Group, KeyShare}
use drand_rs.Scheme.{Scheme}

pub data PointSerDeError : Type 0 where
  key_point sig_point : PointSerDeError

pub data DbStateError : Type 0 where
  missing_terms timeout_reached invalid_beacon_id invalid_scheme : DbStateError
  genesis_time_not_equal no_genesis_seed_for_first_epoch : DbStateError
  genesis_time_not_consistent_with_proposal genesis_seed_cannot_change : DbStateError
  self_missing_from_proposal cannot_join_if_not_in_joining : DbStateError
  joining_after_first_epoch_needs_group_file : DbStateError
  invalid_epoch invalid_epoch_leftover leader_cant_join_after_first_epoch : DbStateError
  leader_not_remaining leader_not_joining only_joiners_allowed_for_first_epoch : DbStateError
  no_nodes_remaining missing_nodes_in_proposal cannot_propose_as_non_leader : DbStateError
  threshold_higher_than_node_count node_count_too_low threshold_too_low : DbStateError
  remaining_and_leaving_nodes_must_exist_in_current_epoch : DbStateError
  cannot_accept_proposal_where_leaving cannot_accept_proposal_where_joining : DbStateError
  cannot_reject_proposal_where_leaving cannot_reject_proposal_where_joining : DbStateError
  cannot_leave_if_not_a_leaver only_leader_can_trigger_execute : DbStateError
  only_leader_can_remote_abort cannot_execute_if_not_joiner_or_remainer : DbStateError
  unknown_acceptor duplicate_acceptance invalid_acceptor : DbStateError
  invalid_rejector unknown_rejector duplicate_rejection : DbStateError
  final_group_cannot_be_empty key_share_cannot_be_empty : DbStateError
  received_acceptance received_rejection : DbStateError
  invalid_state_change : StateError → DbStateError
  conversion_error : PointSerDeError → DbStateError
  participant_signature missing_final_group_for_remainers : DbStateError

pub record State (S : Scheme) : Type 0 where
  pub beacon_id : Bytes
  pub epoch : ℕ  -- u32
  pub status : Status
  pub threshold : ℕ  -- u32
  pub timeout : Timestamp
  pub genesis_time : Timestamp
  pub genesis_seed : Bytes
  pub catchup_period : ℕ  -- Seconds, u32
  pub beacon_period : ℕ  -- Seconds, u32
  pub leader : Participant
  pub remaining : List Participant
  pub joining : List Participant
  pub leaving : List Participant
  pub acceptors : List Participant
  pub rejectors : List Participant
  pub final_group : Option (Group S)
  pub key_share : Option (KeyShare S)

-- Participant::default: the address "default:1", with no key and no signature.
abbrev pub default_participant : Participant
default_participant = record {
  address = 100 ∷ 101 ∷ 102 ∷ 97 ∷ 117 ∷ 108 ∷ 116 ∷ 58 ∷ 49 ∷ [];
  key = [];
  signature = [];
}

abbrev pub zero_time : Timestamp
zero_time = record { seconds = pos 0; nanos = pos 0 }

-- The genesis time is the year 1, -62135596800 seconds.
unfoldable pub fresh : (S : Scheme) → Bytes → State S
fresh S beacon_id = record {
  beacon_id = beacon_id;
  epoch = 0;
  status = Status.fresh;
  threshold = 0;
  timeout = zero_time;
  genesis_time = record { seconds = negsuc 62135596799; nanos = pos 0 };
  genesis_seed = [];
  catchup_period = 0;
  beacon_period = 0;
  leader = default_participant;
  remaining = [];
  joining = [];
  leaving = [];
  acceptors = [];
  rejectors = [];
  final_group = none;
  key_share = none;
}

-- TryFrom<ProposalTerms>, which never fails.
unfoldable pub from_terms : (S : Scheme) → ProposalTerms → State S
from_terms S p = record {
  beacon_id = p.beacon_id;
  epoch = p.epoch;
  status = Status.proposed;
  threshold = p.threshold;
  timeout = p.timeout;
  genesis_time = p.genesis_time;
  genesis_seed = p.genesis_seed;
  catchup_period = p.catchup_period_seconds;
  beacon_period = p.beacon_period_seconds;
  leader = p.leader;
  remaining = p.remaining;
  joining = p.joining;
  leaving = p.leaving;
  acceptors = [];
  rejectors = [];
  final_group = none;
  key_share = none;
}
