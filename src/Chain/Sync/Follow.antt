-- ===== src/Chain/Sync/Follow.antt =====
-- The follow request of a node without a DKG: src/chain/sync.rs. A peer answers as for a resync;
-- the client's channel takes `room` reports of progress.
use drand_rs.Chain.Beacon.{BeaconPacket, BeaconRepr, is_valid_signature}
use drand_rs.Chain.Info.{ChainInfo, ChainInfoPacket, from_packet, hash_packet}
use drand_rs.Chain.Store.{ChainStore, put, last, check_genesis}
use drand_rs.Chain.Sync.{SyncError, has_id}
use drand_rs.Common.{
  Bool, Bytes, List, Option, Result, [], add_u64, bytes_eq, err, false, if◌then◌else◌, is_empty,
  leb, ltb, none, not, ok, ok_or, some, suc, zero, ℕ, ◌&&◌, ◌==◌, ◌∷◌,
}
use drand_rs.Scheme.{Scheme}
pub mod Streams
pub mod Kept

module _ (S : Scheme) (R : BeaconRepr) (info : ChainInfo S) (target : ℕ) where
  -- What one stream leaves: the store and the last stored beacon, with the next peer to try or the
  -- result of the task.
  pub data FollowEnd : Type 0 where
    next_peer : ChainStore R → R.Beacon → (room : ℕ) → FollowEnd
    done : ChainStore R → Result SyncError (Unit {0}) → FollowEnd

  -- Whether a packet is the next beacon, with a valid signature.
  unfoldable pub is_next : R.Beacon → BeaconPacket → Bool
  is_next last_stored p =
      has_id info.beacon_id p
      && p.round == add_u64 (R.round last_stored) 1
      && elim (S.deserialize_sig p.signature) [
        | none ↦ false
        | some new_sig ↦
            is_valid_signature S info.public_key (R.signature last_stored) p.round new_sig
      ]

  unfoldable pub follow_stream : ChainStore R → R.Beacon → List BeaconPacket → ℕ → FollowEnd
  follow_stream store last_stored [] room = next_peer store last_stored room
  follow_stream store last_stored (p ∷ ps) zero =
      let valid_beacon = R.from_packet p in
      let (store', res) = put R store valid_beacon in
      if not (is_next last_stored p) then next_peer store last_stored zero else elim res [
        | err e ↦ done store' (err (SyncError.chain_store e))
        | ok u ↦ done store' (ok tt)
      ]
  follow_stream store last_stored (p ∷ ps) (suc room) =
      let valid_beacon = R.from_packet p in
      let (store', res) = put R store valid_beacon in
      let rest = follow_stream store' valid_beacon ps room in
      if not (is_next last_stored p) then next_peer store last_stored (suc room) else elim res [
        | err e ↦ done store' (err (SyncError.chain_store e))
        | ok u ↦ if R.round valid_beacon == target then done store' (ok tt) else rest
      ]

  -- `'peers: for peer in &self.peers`, and what follows it.
  unfoldable pub follow_peers :
      ChainStore R
      → R.Beacon
      → List (Option (List BeaconPacket))
      → ℕ
      → ChainStore R × Result SyncError (Unit {0})
  follow_peers store last_stored [] room =
      if R.round last_stored == target
      then (store, ok tt)
      else (store, err (SyncError.tried_all_pers (R.round last_stored)))
  follow_peers store last_stored (none ∷ peers) room =
      let from = add_u64 (R.round last_stored) 1 in
      let rest = follow_peers store last_stored peers room in
      if ltb target from then (store, err (SyncError.invalid_target from target)) else rest
  follow_peers store last_stored (some stream ∷ peers) room =
      let from = add_u64 (R.round last_stored) 1 in
      if ltb target from
      then (store, err (SyncError.invalid_target from target))
      else elim (follow_stream store last_stored stream room) [
        | next_peer store' last_stored' room' ↦ follow_peers store' last_stored' peers room'
        | done store' result ↦ (store', result)
      ]

  unfoldable pub process_follow_request :
      ChainStore R
      → List (Option (List BeaconPacket))
      → ℕ
      → ChainStore R × Result SyncError (Unit {0})
  process_follow_request store peers room = elim (last R store) [
    | err e ↦ (store, err (SyncError.chain_store e))
    | ok last_stored ↦
        if leb target (R.round last_stored)
        then (store, ok tt)
        else follow_peers store last_stored peers room
  ]

-- What a peer answers to the request for the chain's information: `none` on an error.
unfoldable pub chain_info_from_peers :
    Bytes → List (Option ChainInfoPacket) → Result SyncError ChainInfoPacket
chain_info_from_peers beacon_id [] = err SyncError.failed_info_from_all_peers
chain_info_from_peers beacon_id (none ∷ peers) = chain_info_from_peers beacon_id peers
chain_info_from_peers beacon_id (some packet ∷ peers) =
    let rest = chain_info_from_peers beacon_id peers in
    elim packet.metadata [
      | none ↦ rest
      | some m ↦ if bytes_eq m.beacon_id beacon_id then ok packet else rest
    ]

module _ (S : Scheme) (R : BeaconRepr) where
  -- The peers whose addresses pass the check, with the hash that the request names. The order of
  -- the peers is random: it is that of the list.
  unfoldable pub start_follow_chain :
      (chain_hash beacon_id : Bytes)
      → ChainStore R
      → List (Option ChainInfoPacket)
      → ChainStore R × Result SyncError ChainInfoPacket
  start_follow_chain chain_hash beacon_id store peers =
      if is_empty peers
      then (store, err SyncError.peers_invalid_format)
      else elim (chain_info_from_peers beacon_id peers) [
        | err e ↦ (store, err e)
        | ok packet ↦
            let (store', res) = check_genesis R store packet.group_hash in
            if not (bytes_eq (hash_packet S packet beacon_id) chain_hash)
            then (store, err SyncError.chain_hash_mismatch)
            else elim res [
              | err e ↦ (store', err (SyncError.chain_store e))
              | ok u ↦ (store', ok packet)
            ]
      ]

  -- `DefaultSyncer::from_config`.
  unfoldable pub from_config : ChainInfoPacket → Bytes → Result SyncError (ChainInfo S)
  from_config packet beacon_id =
      if not (bytes_eq packet.scheme_id S.id)
      then err SyncError.invalid_info_packet
      else ok_or (from_packet S packet beacon_id) SyncError.invalid_info_packet
