-- ===== src/Tests/ProcessRuns.antt =====
-- A run of a beacon process that starts a DKG: src/core/beacon.rs.
use drand_rs.Common.{
  Bytes, Option, Result, [], none, refl, some, true, ◌∷◌, ◌≡◌, any, bytes_eq, enumerate, find, ok,
}
use drand_rs.Common.Int.{ℤ}
use drand_rs.Common.Text.{text}
use drand_rs.Core.Process.{Process, process_gossip}
use drand_rs.Core.Process.Starts.{process_gossip-IsSigned}
use drand_rs.Dkg.Actions.{ActionsError, apply_packet_to_state}
use drand_rs.Dkg.Actions.Signed.{IsSigned}
use drand_rs.Dkg.Bundle.{map_all}
use drand_rs.Dkg.Execution.{
  setup_and_run_dkg, config_of, initial_config, prior, sorted_participants, sort_by_public_key,
  insert_by_key, bytes_le, new_nodes_of, deserialize_node, nonce_for_epoch, Config, Running,
}
use drand_rs.Dkg.Gate.{open_gate, short_sig, seen, is_new_packet, gossip, BundleSender}
use drand_rs.Dkg.Packet.{GossipData, GossipPacket, Timestamp, get_execute, Participant}
use drand_rs.Dkg.Signing.{verify_msg, sender, msg_for_signing, enc_state, is_valid_signature}
use drand_rs.Dkg.State.{State, from_terms}
use drand_rs.Dkg.Status.{is_terminal, is_valid_state_change, Status}
use drand_rs.Dkg.Store.{get_current, get_finished, get_last_succesful, save_current}
use drand_rs.Dkg.Transition.{apply, executing}
use drand_rs.Dkg.Validate.{contains}
use drand_rs.Key.Group.{Identity}
use drand_rs.Tests.DkgData.{me, proposed_state, at_second}
use drand_rs.Tests.Toy.{toy, exact}

abbrev accepted_state : State toy
accepted_state = record proposed_state { status = Status.accepted }

abbrev next_state : State toy
next_state = record proposed_state { status = Status.executing }

abbrev execute_signed : Bytes → GossipPacket
execute_signed signature = record {
  metadata = record { beacon_id = text "default"; address = text "a:1"; signature = signature };
  body = GossipData.execute (at_second 50);
}

abbrev execute : GossipPacket
execute = execute_signed (msg_for_signing (execute_signed []) (enc_state toy next_state))

abbrev identity : Identity toy
identity = record { address = me.address; key = me.key; signature = me.signature }

abbrev process : Process toy me.key identity
process = record {
  gate = record { seen_gossip = []; bundle_sender = none };
  store = record { exists = true; current = some accepted_state; finished = none };
  dkg_run = none;
}

abbrev new_dkg : Config toy → Option (BundleSender toy)
new_dkg config = some (record { open_rx = true; sent = [] })

abbrev system_time : Timestamp → Option ℤ
system_time t = some t.seconds

abbrev after : Process toy me.key identity × Result ActionsError (Unit {0})
after =
    process_gossip toy me.key identity system_time new_dkg exact (text "default") me (ℤ.pos 0)
      (ℤ.pos 0) (ℤ.pos 10) process execute

abbrev started : Running toy me.key identity
started = record {
  config = record {
    long_term = me.key;
    old_nodes = [];
    new_nodes = record { index = 0; public = me.key } ∷ [];
    public_coeffs = [];
    share = none;
    threshold = 1;
    old_threshold = 0;
    nonce = nonce_for_epoch toy 1;
  };
  peers = me ∷ [];
  wait = 40;
  current = next_state;
}

is_started : after.0.dkg_run ≡ some started
unfolding process_gossip gossip is_new_packet short_sig seen apply_packet_to_state apply executing
    get_last_succesful get_current get_finished is_terminal save_current verify_msg sender find
    is_valid_signature enc_state from_terms is_valid_state_change contains any get_execute bytes_eq
    setup_and_run_dkg config_of initial_config prior sorted_participants sort_by_public_key
    insert_by_key bytes_le new_nodes_of deserialize_node nonce_for_epoch enumerate map_all open_gate
is_started = refl

process_gossip-IsSigned_example :
    ((is_new_packet toy process.gate execute).1 ≡ true)
    × ((time : Timestamp) × (get_execute execute.body ≡ some time))
    × ((s : State toy) × (get_last_succesful process.store (text "default") ≡ ok s)
        × (apply toy exact (ℤ.pos 0) (ℤ.pos 0) s me execute ≡ ok next_state))
    × (after.0.store ≡ record process.store { current = some next_state })
    × ((q : Participant) × IsSigned toy exact execute next_state q)
process_gossip-IsSigned_example =
    process_gossip-IsSigned toy me.key identity system_time new_dkg exact (text "default") me
      (ℤ.pos 0) (ℤ.pos 0) (ℤ.pos 10) process execute refl is_started
