-- ===== src/Dkg/Actions.antt =====
-- What a node does with a gossip packet and with a command of its operator:
-- src/dkg/actions_passive.rs and src/dkg/actions_active.rs.
pub mod Signed
pub mod Reach
use drand_rs.Dkg.Transition
use drand_rs.Common.{
  Bytes, Option, Result, err, if◌then◌else◌, is_empty, ltb, map_err, none, ok, some, ◌>>=◌, ◌>>◌,
}
use drand_rs.Common.Int.{ℤ}
use drand_rs.Dkg.Packet.{GossipPacket, Participant, Timestamp, get_execute}
use drand_rs.Dkg.Signing.{VerifyError, verify_msg}
use drand_rs.Dkg.State.{DbStateError, State}
use drand_rs.Dkg.Store.{DkgStore, DkgStoreError, get_last_succesful, save_current}
use drand_rs.Dkg.Transition.{joined, accepted, apply, Failure}
use drand_rs.Key.Group.{Group}
use drand_rs.Scheme.{Authority, Scheme}

pub data ActionsError : Type 0 where
  db_state : DbStateError → ActionsError
  dkg_store : DkgStoreError → ActionsError
  missing_participant invalid_signature : ActionsError
  protocol_is_not_running protocol_already_running invalid_proto_bundle : ActionsError
  groupfile_is_missing group_file_parse : ActionsError
  participants_to_new_nodes dkg_error : ActionsError
  start_execution_time_not_canonical start_execution_time_is_passed : ActionsError
  reshare_prev_group_required reshare_prev_share_required : ActionsError
  todo : ActionsError
  panic : ActionsError

-- `Command`, with what the modelled commands read.
pub data Command : Type 0 where
  initial resharing : Command
  join : (group_file : Bytes) → Command
  accept : Command
  reject execute abort : Command

of_apply : Transition.ActionsError → ActionsError
of_apply (Transition.ActionsError.db_state e) = ActionsError.db_state e
of_apply Transition.ActionsError.todo = ActionsError.todo

of_verify : VerifyError → ActionsError
of_verify VerifyError.missing_participant = ActionsError.missing_participant
of_verify VerifyError.invalid_signature = ActionsError.invalid_signature

of_failure : Failure → ActionsError
of_failure (Failure.db_state e) = ActionsError.db_state e
of_failure Failure.panic = ActionsError.panic

-- `me` is the node as a participant, `id` its beacon, `now` and `later` the readings of the clock.
module _ (S : Scheme) (au : Authority) (id : Bytes) (me : Participant) where
  unfoldable pub apply_packet_to_state :
      ℤ → ℤ → DkgStore S → GossipPacket → Result ActionsError (DkgStore S × Option Timestamp)
  unfolding of_apply of_verify
  apply_packet_to_state now later store packet = do
    last ← map_err ActionsError.dkg_store (get_last_succesful store id)
    state ← map_err of_apply (apply S au now later last me packet)
    map_err of_verify (verify_msg S au packet state)
    saved ← map_err ActionsError.dkg_store (save_current store state)
    ok (saved, get_execute packet.body)

  unfoldable pub start_accept : ℤ → DkgStore S → State S → Result ActionsError (DkgStore S)
  start_accept now store state = do
    next ← map_err ActionsError.db_state (accepted S au now state me)
    map_err ActionsError.dkg_store (save_current store next)

  -- `parse` reads a group file: its UTF-8, its TOML and the group in it.
  module _ (parse : Bytes → Option (Group S)) where
    previous_group : State S → Bytes → Result ActionsError (Option (Group S))
    previous_group state group_file =
        if ltb 1 state.epoch
        then if is_empty group_file
          then err ActionsError.groupfile_is_missing
          else elim (parse group_file) [
            | none ↦ err ActionsError.group_file_parse
            | some group ↦ ok (some group)
          ]
        else ok none

    unfoldable pub start_join : ℤ → DkgStore S → State S → Bytes → Result ActionsError (DkgStore S)
    unfolding previous_group of_failure
    start_join now store state group_file = do
      prev_group ← previous_group state group_file
      next ← map_err of_failure (joined S au now state me prev_group)
      map_err ActionsError.dkg_store (save_current store next)

    unfoldable pub command : ℤ → DkgStore S → Command → Result ActionsError (DkgStore S)
    unfolding start_join start_accept
    command now store cmd = do
      state ← map_err ActionsError.dkg_store (get_last_succesful store id)
      elim cmd [
        | Command.join group_file ↦ start_join now store state group_file
        | Command.accept ↦ start_accept now store state
        | _ ↦ err ActionsError.todo
      ]
