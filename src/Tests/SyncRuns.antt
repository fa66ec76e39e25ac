-- ===== src/Tests/SyncRuns.antt =====
-- Runs of the rounds, the store, the syncs and the chain's information under the toy scheme: src/chain.
use drand_rs.Chain.Beacon.{unchained, BeaconPacket, is_valid_signature, with_id}
use drand_rs.Chain.Info.{ChainInfoPacket, as_packet, from_packet, hash, hash_packet}
use drand_rs.Chain.Info.Packets.{from_packet-as_packet, hash_packet-as_packet}
use drand_rs.Chain.Store.{last, sync, StreamItem, put, insert_row, last_row}
use drand_rs.Chain.Store.Streams.{sync_stream, packets}
use drand_rs.Chain.Store.Verified.{put-IsChain, Puts}
use drand_rs.Chain.Sync.{resync, SyncError, has_id}
use drand_rs.Chain.Sync.Follow.{process_follow_request, follow_peers, follow_stream, is_next}
use drand_rs.Chain.Sync.Follow.Kept.{Kept, process_follow_request-Kept}
use drand_rs.Chain.Sync.Resync.{resync_lem, Finishes}
use drand_rs.Chain.Sync.Runs.{IsRun}
use drand_rs.Chain.Time.{
  current_round, next_round, time_of_round, float_div, as_f64, floor_quotient, round_div, scale_up,
}
use drand_rs.Chain.Time.Rounds.{
  IsTimely, current_round-brackets, current_round-time_of_round, next_round-time_of_round,
}
use drand_rs.Common.{
  [], arith, none, refl, ◌∷◌, ◌≡◌, List, Option, bytes_eq, length, some, ◌++◌, ◌+◌, ◌<◌, ◌≤◌, err,
}
use drand_rs.Common.Int.{ℤ}
use drand_rs.Common.Text.{text}
use drand_rs.Tests.ChainData.{genesis, first, info, at_genesis, at_genesis-IsSound}
use drand_rs.Tests.Toy.{toy}

-- Round 22 of a chain of period 3, as in the tests of the source.
timely : IsTimely 1745308647 3 1745308582
timely = record {
  started = omega arith;
  near = omega arith;
  period_pos = omega arith;
  period_u32 = omega arith;
  genesis_fits = omega arith;
}

current_round-brackets_example :
    (time_of_round 3 1745308582 (current_round 1745308647 3 1745308582) ≤ 1745308647)
    × (1745308647 < time_of_round 3 1745308582 (current_round 1745308647 3 1745308582 + 1))
current_round-brackets_example = current_round-brackets 1745308647 3 1745308582 timely

round_22 : current_round 1745308647 3 1745308582 ≡ 22
unfolding current_round next_round float_div as_f64 floor_quotient round_div scale_up
round_22 = refl

current_round-time_of_round_example :
    current_round (time_of_round 3 1745308582 22) 3 1745308582 ≡ 22
current_round-time_of_round_example =
    current_round-time_of_round 3 1745308582 21 (omega arith) (omega arith) (omega arith)
      (omega arith)

next_round-time_of_round_example :
    ((next_round 1745308647 3 1745308582).1
      ≡ time_of_round 3 1745308582 (next_round 1745308647 3 1745308582).0)
    × (1745308647 < (next_round 1745308647 3 1745308582).1)
    × ((next_round 1745308647 3 1745308582).0 ≡ current_round 1745308647 3 1745308582 + 1)
next_round-time_of_round_example = next_round-time_of_round 1745308647 3 1745308582 timely

sync_stream_example :
    sync unchained at_genesis.store (text "default") 0
    ≡ packets unchained (text "default") (genesis ∷ []) ++ StreamItem.no_beacons_above 0 ∷ []
sync_stream_example =
    sync_stream unchained (text "default") at_genesis.store 0 (refl, tt) (omega arith) (omega arith)
      (omega arith)

abbrev packet_1 : BeaconPacket
packet_1 = record {
  previous_signature = [];
  round = 1;
  signature = 1 ∷ [];
  metadata = with_id (text "default");
}

-- A peer without a stream, and one that sends round 1.
abbrev peers : List (Option (List BeaconPacket))
peers = none ∷ some (packet_1 ∷ []) ∷ []

resync_lem_example :
    IsRun (text "default") 2 0 (resync 1 2 peers (text "default") 64).0
    × Finishes
        (text "default")
        2
        0
        64
        peers
        (length (resync 1 2 peers (text "default") 64).0)
        (resync 1 2 peers (text "default") 64).1
resync_lem_example =
    resync_lem (text "default") 2 1 peers 64 (omega arith) (omega arith) (omega arith)

abbrev pub info_packet : ChainInfoPacket
info_packet = record {
  public_key = [];
  period = 3;
  genesis_time = ℤ.pos 1000;
  hash = 0 ∷ 0 ∷ 0 ∷ 3 ∷ 0 ∷ 0 ∷ 0 ∷ 0 ∷ 0 ∷ 0 ∷ 3 ∷ 232 ∷ [];
  group_hash = [];
  scheme_id = text "toy";
  metadata = some (record {
    beacon_id = text "default";
    chain_hash = 0 ∷ 0 ∷ 0 ∷ 3 ∷ 0 ∷ 0 ∷ 0 ∷ 0 ∷ 0 ∷ 0 ∷ 3 ∷ 232 ∷ [];
  });
}

as_packet-info : as_packet toy info ≡ some info_packet
unfolding as_packet bytes_eq
as_packet-info = refl

from_packet-as_packet_example : from_packet toy info_packet (text "default") ≡ some info
from_packet-as_packet_example =
    from_packet-as_packet toy info info_packet (omega arith) as_packet-info

hash_packet-as_packet_example : hash toy info ≡ some (hash_packet toy info_packet (text "default"))
hash_packet-as_packet_example = hash_packet-as_packet toy info info_packet as_packet-info

put-IsChain_example : Puts toy unchained [] at_genesis.store first
unfolding bytes_eq is_valid_signature
put-IsChain_example =
    put-IsChain toy unchained [] at_genesis.store genesis first at_genesis-IsSound refl
      (record { point = 1 ∷ []; decodes = refl; valid = refl })

process_follow_request-Kept_example :
    Kept toy unchained info 2
      (genesis ∷ [])
      6
      genesis
      peers
      (process_follow_request toy unchained info 2 at_genesis.store peers 5).0
      (process_follow_request toy unchained info 2 at_genesis.store peers 5).1
process_follow_request-Kept_example =
    process_follow_request-Kept toy unchained info 2 at_genesis.store genesis peers 5 (omega arith)
      (omega arith) at_genesis-IsSound

-- The peer that has round 1 only is not enough for a target of round 2.
follow_falls_short :
    (process_follow_request toy unchained info 2 at_genesis.store peers 5).1
    ≡ err (SyncError.tried_all_pers 1)
unfolding process_follow_request follow_peers follow_stream is_next has_id last last_row put
    insert_row bytes_eq is_valid_signature
follow_falls_short = refl
