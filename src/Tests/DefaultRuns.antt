-- ===== src/Tests/DefaultRuns.antt =====
-- A run of a node without a DKG that follows a chain, under the toy scheme: src/chain/handler.rs.
use drand_rs.Chain.Beacon.{is_valid_signature, unchained}
use drand_rs.Chain.Commands.{ChainCmd, FollowRequest}
use drand_rs.Chain.Default.{
  DefaultChain, DefaultMove, default_start, run_chain_default, default_step, default_receive,
  follow_chain, run_sync,
}
use drand_rs.Chain.Default.Followed.{default_start-IsFollowing}
use drand_rs.Chain.Default.Loop.{run_chain_default-Held}
use drand_rs.Chain.Default.Seeds.{Seeded}
use drand_rs.Chain.Info.{from_packet, hash_packet, ChainInfoPacket}
use drand_rs.Chain.Store.{put, get, last, check_genesis, insert_row, last_row}
use drand_rs.Chain.Store.Held.{Extends, Held}
use drand_rs.Chain.Sync.{has_id}
use drand_rs.Chain.Sync.Follow.{
  from_config, start_follow_chain, chain_info_from_peers, process_follow_request, follow_peers,
  follow_stream, is_next,
}
use drand_rs.Chain.Time.{
  floor_quotient, as_f64, round_div, scale_up, current_round, float_div, next_round,
}
use drand_rs.Common.{
  List, [], bytes_eq, false, find, is_empty, length, none, refl, some, true, ◌∷◌, ◌≡◌,
}
use drand_rs.Common.Int.{ℤ}
use drand_rs.Common.Text.{text}
use drand_rs.Tests.Toy.{toy}

abbrev packet : ChainInfoPacket
packet = record {
  public_key = 9 ∷ [];
  period = 3;
  genesis_time = ℤ.pos 100;
  hash = [];
  group_hash = text "seed";
  scheme_id = toy.id;
  metadata = some (record { beacon_id = text "default"; chain_hash = [] });
}

-- The second peer has a stream with the first beacon.
abbrev request : FollowRequest
request = record {
  up_to = 1;
  chain_hash = hash_packet toy packet (text "default");
  peers = none ∷ some packet ∷ [];
  streams =
      none
      ∷ some (
          record {
            previous_signature = [];
            round = 1;
            signature = 1 ∷ [];
            metadata = some (record { beacon_id = text "default"; chain_hash = [] });
          }
          ∷ [])
      ∷ [];
  room = 5;
}

abbrev moves : List DefaultMove
moves =
    DefaultMove.new_partial
    ∷ DefaultMove.cmd 1000 (ChainCmd.follow request)
    ∷ DefaultMove.sync_turn
    ∷ DefaultMove.cmd 1001 ChainCmd.latest_stored
    ∷ []

abbrev at_start : DefaultChain toy unchained
at_start = default_start toy unchained (0 ∷ []) (record { rows = []; alive = true })

seeded : Seeded request.peers
unfolding Seeded
seeded = (refl, tt)

run_chain_default-Held_example :
    Held toy unchained
      (run_chain_default toy unchained (text "default") at_start moves).chain_info.public_key
      (run_chain_default toy unchained (text "default") at_start moves).store.rows
    × Extends unchained at_start.store.rows
        (run_chain_default toy unchained (text "default") at_start moves).store.rows
    × (is_empty at_start.chain_info.genesis_seed ≡ false
        → (run_chain_default toy unchained (text "default") at_start moves).chain_info
          ≡ at_start.chain_info)
run_chain_default-Held_example =
    run_chain_default-Held toy unchained (text "default") at_start moves
      (tt, (seeded, (tt, (tt, tt))))
      (default_start-IsFollowing toy unchained (0 ∷ []) (record { rows = []; alive = true }) refl)

follows : length (run_chain_default toy unchained (text "default") at_start moves).store.rows ≡ 2
unfolding run_chain_default default_start default_step default_receive follow_chain
    start_follow_chain chain_info_from_peers hash_packet check_genesis from_packet from_config
    run_sync process_follow_request follow_peers follow_stream is_next has_id last last_row put
    insert_row get find bytes_eq is_valid_signature current_round next_round float_div
    floor_quotient as_f64 round_div scale_up
follows = refl
