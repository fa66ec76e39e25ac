-- ===== src/Chain/Sync.antt =====
-- Synchronisation with the peers: src/chain/sync.rs. A peer is what it answers: `none` where no
-- stream is got, or the packets of the stream until it ends or fails. A channel is the number of
-- sends that it takes before its receiver is gone.
pub mod Handle
pub mod Runs
pub mod Resync
pub mod Follow
use drand_rs.Chain.Beacon.{BeaconPacket}
use drand_rs.Chain.Store.{StoreError}
use drand_rs.Common.{
  Bool, Bytes, List, Option, Result, [], add_u64, bytes_eq, err, false, if◌then◌else◌, leb, ltb,
  none, not, ok, some, sub_u64, suc, two_32, zero, ℕ, ◌%◌, ◌*◌, ◌++◌, ◌-◌, ◌==◌, ◌∷◌,
}

pub data SyncError : Type 0 where
  invalid_info_packet info_packet_mismatch already_syncing peers_invalid_format : SyncError
  failed_info_from_all_peers chain_hash_mismatch internal : SyncError
  chain_store : StoreError → SyncError
  invalid_target : (from target : ℕ) → SyncError
  sync_closed_tx : SyncError
  tried_all_pers : ℕ → SyncError
  forbidden_to_follow : SyncError

-- How the stream of one peer ends: with the next peer, or with the task.
pub data StreamEnd : Type 0 where
  next_peer : (last_sent room : ℕ) → StreamEnd
  done : Result SyncError (Unit {0}) → StreamEnd

-- Whether the packet has metadata with the beacon's id.
unfoldable pub has_id : Bytes → BeaconPacket → Bool
has_id id p = elim p.metadata [ none ↦ false | some m ↦ bytes_eq id m.beacon_id ]

-- The packets of one stream that are passed on to the chain.
unfoldable pub resync_stream : Bytes → ℕ → List BeaconPacket → ℕ → ℕ → List BeaconPacket × StreamEnd
unfolding has_id
resync_stream id up_to [] last_sent room = ([], next_peer last_sent room)
resync_stream id up_to (p ∷ ps) last_sent zero =
    if not (has_id id p)
    then ([], next_peer last_sent 0)
    else if not (p.round == add_u64 last_sent 1)
    then ([], next_peer last_sent 0)
    else ([], done (err SyncError.sync_closed_tx))
resync_stream id up_to (p ∷ ps) last_sent (suc room) =
    let (sent, end) = resync_stream id up_to ps (add_u64 last_sent 1) room in
    if not (has_id id p)
    then ([], next_peer last_sent (suc room))
    else if not (p.round == add_u64 last_sent 1)
    then ([], next_peer last_sent (suc room))
    else if add_u64 last_sent 1 == up_to
    then (p ∷ [], done (ok tt))
    else (p ∷ sent, end)

-- `'peers: for peer in peers`.
unfoldable pub resync_peers :
    Bytes
    → ℕ
    → List (Option (List BeaconPacket))
    → ℕ
    → ℕ
    → List BeaconPacket × Result SyncError (Unit {0})
unfolding resync_stream
resync_peers id up_to [] last_sent room = ([], err (SyncError.tried_all_pers last_sent))
resync_peers id up_to (none ∷ peers) last_sent room =
    let rest = resync_peers id up_to peers last_sent room in
    if leb up_to last_sent
    then ([], err (SyncError.invalid_target (add_u64 last_sent 1) up_to))
    else rest
resync_peers id up_to (some stream ∷ peers) last_sent room =
    let (sent, end) = resync_stream id up_to stream last_sent room in
    if leb up_to last_sent
    then ([], err (SyncError.invalid_target (add_u64 last_sent 1) up_to))
    else elim end [
      | next_peer last_sent' room' ↦
          let (sent', result) = resync_peers id up_to peers last_sent' room' in
          (sent ++ sent', result)
      | done result ↦ (sent, result)
    ]

-- What the task sends to the chain, and its result.
unfoldable pub resync :
    (start_from up_to : ℕ)
    → List (Option (List BeaconPacket))
    → Bytes
    → ℕ
    → List BeaconPacket × Result SyncError (Unit {0})
unfolding resync_peers
resync start_from up_to peers id room = resync_peers id up_to peers (sub_u64 start_from 1) room
