-- ===== src/Tests/DkgRuns.antt =====
-- Runs of the DKG's states under the toy scheme: src/dkg.
use drand_rs.Common.{arith, bytes_eq, false, none, ok, refl, some, true, ◌≡◌, find, ◌≤◌, ◌⊎◌}
use drand_rs.Common.Int.{ℤ}
use drand_rs.Common.Text.{text}
use drand_rs.Dkg.Actions.{apply_packet_to_state}
use drand_rs.Dkg.Actions.Reach.{Reach, Step, NodeState, Reach-IsConsistent, IsConsistent}
use drand_rs.Dkg.Actions.Signed.{apply_packet_to_state-IsSigned, IsSigned}
use drand_rs.Dkg.Packet.{GossipData, Participant, get_execute, participant_eq}
use drand_rs.Dkg.Signing.{is_valid_signature as is_valid_message, verify_msg, sender, enc_state}
use drand_rs.Dkg.Signing.Timestamps.{enc_timestamp_injective}
use drand_rs.Dkg.State.{State, fresh, from_terms}
use drand_rs.Dkg.Status.{is_terminal, status_eq, is_valid_state_change, Status}
use drand_rs.Dkg.Store.{DkgStore, init, get_last_succesful, save_current}
use drand_rs.Dkg.Store.History.{init-Restarted, get_last_succesful_lem, Starts}
use drand_rs.Dkg.Transition.{apply, proposed}
use drand_rs.Dkg.Transition.Edges.{apply-status}
use drand_rs.Dkg.Transition.Invariant.{IsWellFormed, apply-IsWellFormed, fresh-IsWellFormed}
use drand_rs.Dkg.Validate.{
  is_proposal_phase, is_valid_signature, contains, validate_first_epoch, validate_for_all_dkgs,
  validate_proposal,
}
use drand_rs.Dkg.Validate.Proposal.{IsAdmissible, validate_proposal-IsAdmissible}
use drand_rs.Key.Group.{minimum_t}
use drand_rs.Tests.DkgData.{
  me, at_second, terms, start, proposed_state, proposal, new_folder, proposed_folder,
}
use drand_rs.Tests.Toy.{toy, exact}

validate_first : validate_proposal toy exact (ℤ.pos 0) start terms ≡ ok tt
unfolding validate_proposal validate_for_all_dkgs validate_first_epoch is_valid_signature fresh
    bytes_eq minimum_t status_eq is_terminal contains participant_eq
validate_first = refl

validate_proposal-IsAdmissible_example : IsAdmissible toy exact (ℤ.pos 0) start terms
unfolding fresh
validate_proposal-IsAdmissible_example =
    (validate_proposal-IsAdmissible toy exact (ℤ.pos 0) start terms (omega arith)).0 validate_first

applied : apply toy exact (ℤ.pos 0) (ℤ.pos 0) start me proposal ≡ ok proposed_state
unfolding apply proposed validate_proposal validate_for_all_dkgs validate_first_epoch
    is_valid_signature fresh bytes_eq minimum_t status_eq is_terminal contains participant_eq
    is_valid_state_change
applied = refl

saved :
    apply_packet_to_state toy exact (text "default") me (ℤ.pos 0) (ℤ.pos 0) new_folder proposal
    ≡ ok (proposed_folder, none)
unfolding apply_packet_to_state apply proposed validate_proposal validate_for_all_dkgs
    validate_first_epoch is_valid_signature fresh bytes_eq minimum_t status_eq is_terminal contains
    participant_eq is_valid_state_change get_last_succesful save_current verify_msg is_valid_message
    sender find from_terms enc_state get_execute
saved = refl

apply_packet_to_state-IsSigned_example :
    (s t : State toy) × (get_last_succesful new_folder (text "default") ≡ ok s)
    × (apply toy exact (ℤ.pos 0) (ℤ.pos 0) s me proposal ≡ ok t)
    × (proposed_folder ≡ record new_folder { current = some t })
    × (none ≡ get_execute proposal.body)
    × ((p : Participant) × IsSigned toy exact proposal t p)
apply_packet_to_state-IsSigned_example =
    apply_packet_to_state-IsSigned toy exact (text "default") me (ℤ.pos 0) (ℤ.pos 0) new_folder
      proposal saved

abbrev no_folder : DkgStore toy
no_folder = record { exists = false; current = none; finished = none }

started : init (ℤ.pos 0) no_folder true (text "default") ≡ ok new_folder
unfolding init fresh save_current
started = refl

apply-status_example :
    (((acceptor : Participant) × (proposal.body ≡ GossipData.accept acceptor))
        × (proposed_state.status ≡ start.status)
        × (is_proposal_phase start.status ≡ true)
      ⊎ (is_valid_state_change start.status proposed_state.status ≡ ok tt))
    × (start.epoch ≤ proposed_state.epoch)
apply-status_example = apply-status toy exact (ℤ.pos 0) (ℤ.pos 0) start me proposal applied

apply-IsWellFormed_example : IsWellFormed toy exact me proposed_state
apply-IsWellFormed_example =
    apply-IsWellFormed toy exact me (ℤ.pos 0) (ℤ.pos 0) start proposal applied
      (fresh-IsWellFormed toy exact me (text "default"))

-- A node that starts with no files and receives the proposal.
abbrev node : DkgStore toy → NodeState toy
node store = record { store = store; running = none }

a_life : Reach toy exact (text "default") me (node no_folder) (node proposed_folder)
a_life =
    Reach.next (Reach.next Reach.here (Step.restart (ℤ.pos 0) true started))
      (Step.packet (ℤ.pos 0) (ℤ.pos 0) proposal saved)

Reach-IsConsistent_example : IsConsistent toy exact (text "default") me (node proposed_folder)
Reach-IsConsistent_example = Reach-IsConsistent toy exact (text "default") me a_life

init-Restarted_example :
    (t : State toy) × (new_folder.exists ≡ true)
    × (new_folder.current ≡ some t)
    × Starts (ℤ.pos 0) true (text "default") no_folder new_folder t
init-Restarted_example = init-Restarted (ℤ.pos 0) no_folder true (text "default") started

-- The files after a DKG that timed out, with none that finished.
abbrev timed_out_folder : DkgStore toy
timed_out_folder = record new_folder {
  current = some (record proposed_state { status = Status.timed_out });
}

after_time_out : get_last_succesful timed_out_folder (text "default") ≡ ok start
unfolding get_last_succesful is_terminal
after_time_out = refl

get_last_succesful_lem_example :
    (timed_out_folder.exists ≡ true)
    × ((timed_out_folder.current ≡ some start) × (is_terminal start.status ≡ false)
        ⊎ ((c : State toy) × (timed_out_folder.current ≡ some c) × (is_terminal c.status ≡ true))
          × ((timed_out_folder.finished ≡ some start)
              ⊎ (timed_out_folder.finished ≡ none) × (start ≡ fresh toy (text "default"))))
get_last_succesful_lem_example =
    get_last_succesful_lem timed_out_folder (text "default") after_time_out

enc_timestamp_injective_example : at_second 7 ≡ at_second 7
enc_timestamp_injective_example =
    enc_timestamp_injective (at_second 7) (at_second 7) (omega arith) (omega arith) (omega arith)
      (omega arith) refl
