-- ===== src/Tests/ChainRuns.antt =====
-- Runs of the chain's loop and its cache under the toy scheme: src/chain.
use mathlib.Core.List.{Perm}
use drand_rs.Chain.Beacon.{
  chained, ChainedBeacon, unchained, PartialBeaconPacket, is_valid_signature,
}
use drand_rs.Chain.Cache.{
  align, get_partial_index, is_share_present, add_prechecked, add_packet, sort_by_index, update,
}
use drand_rs.Chain.Cache.Aligned.{
  IsAligned, update-IsAligned, update_short_gap, HandsOn, AreOfRound,
}
use drand_rs.Chain.Cache.Shares.{add_prechecked_lem, IsSortedFrom}
use drand_rs.Chain.Epoch.{verify_partial, our_index, SigShare}
use drand_rs.Chain.Handler.{
  Fault, Chain, ChainHandler, Event, run_event, process_partial, process_share, add_share,
  save_recovered, stored, start_catchup_task,
}
use drand_rs.Chain.Handler.Grows.{Grows}
use drand_rs.Chain.Handler.Sound.{run_event-Grows}
use drand_rs.Chain.Handler.Stores.{Completes, process_partial-stores, process_partial-panics}
use drand_rs.Chain.Registry.{align_cache, update_latest_stored}
use drand_rs.Chain.Store.{put, insert_row}
use drand_rs.Common.{
  [], arith, false, none, refl, true, ◌∷◌, ◌≡◌, any, bytes_eq, find, inl, length, ◌++◌, ◌+◌, ◌≤◌,
  err, ok, some,
}
use drand_rs.Common.Text.{text}
use drand_rs.Scheme.{Scheme}
use drand_rs.Tests.ChainData.{
  genesis, first, handler, cache, at_genesis, partial_1, at_genesis-IsSound,
}
use drand_rs.Tests.Toy.{toy}
use drand_rs.Chain.Cache

run_event-Grows_example :
    Grows toy unchained handler at_genesis
      (run_event toy unchained handler 0 at_genesis (Event.partial partial_1)).0
run_event-Grows_example =
    run_event-Grows toy unchained handler 0 at_genesis (Event.partial partial_1) at_genesis-IsSound

-- The partial signature completes the threshold, and the beacon is stored.
partial_stores :
    (run_event toy unchained handler 0 at_genesis (Event.partial partial_1)).0.store.rows
    ≡ genesis ∷ first ∷ []
unfolding run_event process_partial process_share add_share save_recovered stored align_cache align
    get_partial_index is_share_present verify_partial add_prechecked is_valid_signature put bytes_eq
    start_catchup_task add_packet our_index any find insert_row sort_by_index update_latest_stored
partial_stores = refl

-- The cache has room for round 2 while round 1 is being aggregated.
abbrev partial_2 : PartialBeaconPacket
partial_2 = record {
  round = 2;
  previous_signature = [];
  partial_sig = 0 ∷ 1 ∷ 2 ∷ [];
  metadata = none;
}

cache-IsAligned : IsAligned cache
cache-IsAligned = record { rounds = refl; filed = (tt, (tt, (tt, tt))) }

update-IsAligned_example :
    IsAligned (Cache.update toy cache 1).0
    × ((Cache.update toy cache 1).0.height ≡ 1)
    × HandsOn 2 (Cache.update toy cache 1).1
update-IsAligned_example =
    update-IsAligned toy cache 1 (omega arith) cache-IsAligned (inl (omega arith))

abbrev partial_5 : PartialBeaconPacket
partial_5 = record {
  round = 5;
  previous_signature = [];
  partial_sig = 0 ∷ 1 ∷ 5 ∷ [];
  metadata = none;
}

-- The packet for round 2 is kept while round 1 is being aggregated.
abbrev with_partial_2 : Cache.PartialCache toy
with_partial_2 = record cache {
  rounds_cache =
      record { round = 2; packets = partial_2 ∷ [] }
      ∷ Cache.empty_round 3
      ∷ Cache.empty_round 4
      ∷ [];
}

with_partial_2-IsAligned : IsAligned with_partial_2
with_partial_2-IsAligned = record { rounds = refl; filed = ((refl, tt), (tt, (tt, tt))) }

update_short_gap_example :
    ((Cache.update toy with_partial_2 2).1 ≡ some (partial_2 ∷ []))
    × AreOfRound 2 (partial_2 ∷ [])
    × (2 ≤ 2)
    × ((add_packet toy (Cache.update toy with_partial_2 2).0 partial_5).1 ≡ none)
update_short_gap_example =
    update_short_gap toy with_partial_2 (record { round = 2; packets = partial_2 ∷ [] })
      (Cache.empty_round 3 ∷ Cache.empty_round 4 ∷ []) 2 partial_5 (omega arith)
      with_partial_2-IsAligned refl refl (inl refl) refl

abbrev share_1 : SigShare toy
share_1 = (1, 1 ∷ [])

add_prechecked_lem_example :
    (cache.thr ≤ length cache.valid_sigs + 1)
    × IsSortedFrom toy 0 (share_1 ∷ [])
    × Perm (share_1 ∷ []) (share_1 ∷ [])
    × ((add_prechecked toy cache share_1).0 ≡ record cache { valid_sigs = share_1 ∷ [] })
unfolding add_prechecked sort_by_index
add_prechecked_lem_example = add_prechecked_lem toy cache share_1 {sigs = share_1 ∷ []} refl

partial_1-Completes : Completes toy unchained handler true at_genesis partial_1
unfolding align_cache align update get_partial_index is_share_present any verify_partial find
    bytes_eq add_prechecked sort_by_index is_valid_signature
partial_1-Completes = record {
  next_round = refl;
  near = omega arith;
  clock = omega arith;
  round_fits = omega arith;
  index = 1;
  has_index = refl;
  absent = refl;
  share = share_1;
  peer = text "b:1";
  verified = refl;
  shares = share_1 ∷ [];
  threshold = refl;
  point = 1 ∷ [];
  recovered = refl;
  valid = refl;
  sig = 1 ∷ [];
  serialized = refl;
  alive = refl;
}

process_partial-stores_example :
    ((process_partial toy unchained handler at_genesis partial_1).1 ≡ ok tt)
    × ((process_partial toy unchained handler at_genesis partial_1).0.store.rows
        ≡ genesis ∷ first ∷ [])
    × ((process_partial toy unchained handler at_genesis partial_1).0.reg.latest_stored ≡ first)
unfolding partial_1-Completes
process_partial-stores_example =
    process_partial-stores toy unchained handler at_genesis partial_1 partial_1-Completes
      at_genesis-IsSound

-- A chained scheme: the digest is the previous signature and the round.
abbrev chained_toy : Scheme
chained_toy = record toy {
  is_chained = true;
  point_size = 2;
  digest = λ prev round. prev ++ round ∷ [];
}

abbrev chained_handler : ChainHandler chained_toy
chained_handler = record {
  chain_info = record {
    public_key = [];
    beacon_id = text "default";
    period = 3;
    genesis_time = 1000;
    genesis_seed = [];
  };
  ec = record {
    share = record { commits = [] ∷ []; pri_share = 7 };
    remote_nodes = record { peer = text "b:1"; share_i = 1; share_v = [] } ∷ [];
  };
}

abbrev chained_genesis : ChainedBeacon
chained_genesis = record { round = 0; signature = []; previous_signature = 0 ∷ [] }

abbrev chained_at_genesis : Chain chained_toy chained
chained_at_genesis = record {
  store = record { rows = chained_genesis ∷ []; alive = true };
  reg = record {
    latest_stored = chained_genesis;
    current_round = 1;
    p_cache = record {
      thr = 1;
      height = 0;
      valid_sigs = [];
      rounds_cache = Cache.empty_round 2 ∷ Cache.empty_round 3 ∷ Cache.empty_round 4 ∷ [];
    };
    catchup_enabled = false;
    h_resync = none;
  };
  spawned = [];
  broadcasts = [];
  pool_open = true;
}

-- The share of node 1 over another previous signature than the stored one.
abbrev stray : PartialBeaconPacket
stray = record {
  round = 1;
  previous_signature = 9 ∷ [];
  partial_sig = 0 ∷ 1 ∷ 9 ∷ 1 ∷ [];
  metadata = none;
}

stray-Completes : Completes chained_toy chained chained_handler false chained_at_genesis stray
unfolding align_cache align update get_partial_index is_share_present any verify_partial find
    bytes_eq add_prechecked sort_by_index is_valid_signature
stray-Completes = record {
  next_round = refl;
  near = omega arith;
  clock = omega arith;
  round_fits = omega arith;
  index = 1;
  has_index = refl;
  absent = refl;
  share = (1, 9 ∷ 1 ∷ []);
  peer = text "b:1";
  verified = refl;
  shares = (1, 9 ∷ 1 ∷ []) ∷ [];
  threshold = refl;
  point = 9 ∷ 1 ∷ [];
  recovered = refl;
  valid = refl;
  sig = 9 ∷ 1 ∷ [];
  serialized = refl;
  alive = refl;
}

process_partial-panics_example :
    (process_partial chained_toy chained chained_handler chained_at_genesis stray).1
    ≡ err Fault.panic
process_partial-panics_example =
    process_partial-panics chained_toy chained chained_handler chained_at_genesis stray
      stray-Completes
