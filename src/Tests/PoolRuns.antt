-- ===== src/Tests/PoolRuns.antt =====
-- Runs of the connection pool: src/net/pool.rs.
use drand_rs.Chain.Beacon.{Metadata, PartialBeaconPacket}
use drand_rs.Common.{
  get_elem?, Bytes, List, [], any, ap, bytes_eq, false, map, none, refl, some, true, ℕ, ◌++◌, ◌∷◌,
  ◌≡◌,
}
use drand_rs.Common.Text.{text}
use drand_rs.Net.Pool.{
  Move, run, step, receive, contains, empty, Pool, PoolCmd, Subscription, add_beacon_id,
  add_connection, add_peer, add_peers, add_pending, broadcast_msg, offer, spawn, subscribe_all,
  subscribe_client,
}
use drand_rs.Net.Pool.Delivered.{run-sent}
use drand_rs.Net.Pool.Faults.{run-lagged, run-overwritten}
use drand_rs.Net.Pool.Sent.{Named, run-Named}

abbrev default_id : Bytes
default_id = text "default"

abbrev quicknet : Bytes
quicknet = text "quicknet"

abbrev peer_a : Bytes
peer_a = text "a.com:1"

abbrev peer_b : Bytes
peer_b = text "b.com:1"

abbrev metadata : Metadata
metadata = record { beacon_id = default_id; chain_hash = [] }

abbrev msg : ℕ → PartialBeaconPacket
msg round = record {
  round = round;
  previous_signature = [];
  partial_sig = 1 ∷ [];
  metadata = some metadata;
}

abbrev moves : List Move
moves =
    Move.command (PoolCmd.add_id default_id (peer_a ∷ peer_b ∷ []))
    ∷ Move.connected peer_b
    ∷ Move.command (PoolCmd.partial (msg 1))
    ∷ Move.task 0
    ∷ []

moves_sent : (run empty moves).sent ≡ (peer_b, msg 1) ∷ []
unfolding run step empty add_beacon_id add_peers add_peer add_pending add_connection subscribe_all
    subscribe_client spawn broadcast_msg offer receive bytes_eq
moves_sent = refl

run-Named_example : (m : Metadata) × ((msg 1).metadata ≡ some m) × Named moves m.beacon_id peer_b
run-Named_example = run-Named moves 0 peer_b (msg 1) (ap (λ l. get_elem? l 0) moves_sent)

is_empty_there : (id : Bytes) → (empty.enabled_beacons id ≡ none) × (empty.active id ≡ none)
unfolding empty
is_empty_there id = (refl, refl)

has_a : contains (peer_a ∷ []) peer_a ≡ true
unfolding contains any bytes_eq
has_a = refl

run-sent_example :
    (run empty (
      Move.command (PoolCmd.add_id default_id (peer_a ∷ []))
      ∷ Move.connected peer_a
      ∷ Move.command (PoolCmd.partial (msg 1))
      ∷ Move.task 0
      ∷ [])).sent
    ≡ empty.sent ++ (peer_a, msg 1) ∷ []
run-sent_example =
    run-sent empty default_id peer_a (peer_a ∷ []) (msg 1) metadata (is_empty_there default_id).0
      (is_empty_there peer_a).1 has_a refl refl

abbrev two_ids : Pool
two_ids = run empty (
    Move.command (PoolCmd.add_id default_id (peer_a ∷ []))
    ∷ Move.command (PoolCmd.add_id quicknet (peer_a ∷ []))
    ∷ Move.connected peer_a
    ∷ [])

are_different : bytes_eq quicknet default_id ≡ false
unfolding bytes_eq
are_different = refl

run-overwritten_example :
    (two_ids.active peer_a ≡ some (quicknet ∷ [])) × (two_ids.pending peer_a ≡ none)
run-overwritten_example =
    run-overwritten empty default_id quicknet peer_a (peer_a ∷ []) (peer_a ∷ []) are_different
      (is_empty_there default_id).0 (is_empty_there quicknet).0 (is_empty_there peer_a).1 has_a
      has_a

abbrev connected : Pool
connected =
    run empty (Move.command (PoolCmd.add_id default_id (peer_a ∷ [])) ∷ Move.connected peer_a ∷ [])

abbrev waiting : Subscription
waiting = record { channel = 0; peer = peer_a; queued = none; lagged = false }

connected_task : connected.subscriptions ≡ waiting ∷ []
unfolding run step empty add_beacon_id add_peers add_peer add_pending add_connection subscribe_all
    subscribe_client spawn bytes_eq
connected_task = refl

connected_channel : connected.enabled_beacons default_id ≡ some 0
unfolding run step empty add_beacon_id add_peers add_peer add_pending add_connection subscribe_all
    subscribe_client spawn bytes_eq
connected_channel = refl

abbrev lagged : Pool
lagged = run connected (
    Move.command (PoolCmd.partial (msg 1))
    ∷ Move.command (PoolCmd.partial (msg 2))
    ∷ Move.task 0
    ∷ [])

run-lagged_example :
    (lagged.sent ≡ connected.sent)
    × (lagged.subscriptions ≡ map (λ x. offer 0 (msg 2) (offer 0 (msg 1) x)) ([] ++ []))
run-lagged_example =
    run-lagged connected [] [] waiting (msg 1) (msg 2) metadata connected_task refl refl
      connected_channel
