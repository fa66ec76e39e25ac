-- ===== src/Tests/ChainData.antt =====
-- A chain of one beacon, its node and a partial signature under the toy scheme: src/chain.
use drand_rs.Chain.Beacon.{unchained, UnChainedBeacon, PartialBeaconPacket}
use drand_rs.Chain.Cache.{
  align, get_partial_index, is_share_present, add_prechecked, add_packet, sort_by_index, update,
}
use drand_rs.Chain.Handler.{Chain, ChainHandler}
use drand_rs.Chain.Handler.Grows.{IsSound}
use drand_rs.Chain.Info.{ChainInfo}
use drand_rs.Chain.Store.{last_row}
use drand_rs.Common.{[], arith, false, none, refl, true, ◌∷◌}
use drand_rs.Common.Text.{text}
use drand_rs.Tests.Toy.{toy}
use drand_rs.Chain.Cache

abbrev pub genesis : UnChainedBeacon
genesis = record { round = 0; signature = [] }

abbrev pub first : UnChainedBeacon
first = record { round = 1; signature = 1 ∷ [] }

abbrev pub info : ChainInfo toy
info = record {
  public_key = [];
  beacon_id = text "default";
  period = 3;
  genesis_time = 1000;
  genesis_seed = [];
}

-- A node of index 7 with one other node, of index 1, and threshold 1.
abbrev pub handler : ChainHandler toy
handler = record {
  chain_info = info;
  ec = record {
    share = record { commits = [] ∷ []; pri_share = 7 };
    remote_nodes = record { peer = text "b:1"; share_i = 1; share_v = [] } ∷ [];
  };
}

abbrev pub cache : Cache.PartialCache toy
cache = record {
  thr = 1;
  height = 0;
  valid_sigs = [];
  rounds_cache = Cache.empty_round 2 ∷ Cache.empty_round 3 ∷ Cache.empty_round 4 ∷ [];
}

abbrev pub at_genesis : Chain toy unchained
at_genesis = record {
  store = record { rows = genesis ∷ []; alive = true };
  reg = record {
    latest_stored = genesis;
    current_round = 1;
    p_cache = cache;
    catchup_enabled = false;
    h_resync = none;
  };
  spawned = [];
  broadcasts = [];
  pool_open = true;
}

-- A valid partial signature of node 1 for round 1.
abbrev pub partial_1 : PartialBeaconPacket
partial_1 = record {
  round = 1;
  previous_signature = [];
  partial_sig = 0 ∷ 1 ∷ 1 ∷ [];
  metadata = none;
}

pub at_genesis-IsSound : IsSound toy unchained handler at_genesis
unfolding last_row
at_genesis-IsSound = record {
  contiguous = (refl, tt);
  signed = tt;
  ends = refl;
  fits = omega arith;
}
