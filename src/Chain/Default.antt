-- ===== src/Chain/Default.antt =====
-- The chain of a node without a DKG: `run_chain_default` and `follow_chain` of src/chain/handler.rs.
-- A sync task is run in one move, at any time after the request, and the order of the select is that
-- of the moves.
pub mod Seeds
pub mod Followed
pub mod Loop
use drand_rs.Chain.Beacon.{BeaconPacket, BeaconRepr}
use drand_rs.Chain.Commands.{Exit, Reply, FollowRequest, ChainCmd}
use drand_rs.Chain.Epoch.{ChainError}
use drand_rs.Chain.Handler.{Fault}
use drand_rs.Chain.Info.{ChainInfo, from_packet, ChainInfoPacket}
use drand_rs.Chain.Store.{last, ChainStore, StoreError}
use drand_rs.Chain.Sync.{SyncError}
use drand_rs.Chain.Sync.Follow.{from_config, start_follow_chain, process_follow_request}
use drand_rs.Chain.Time.{current_round}
use drand_rs.Common.{
  Bool, Bytes, List, Option, Result, [], bytes_eq, err, false, if◌then◌else◌, is_empty, is_some,
  ltb, none, not, ok, some, ℕ, ◌&&◌, ◌++◌, ◌==◌, ◌>>=◌, ◌∷◌,
}
use drand_rs.Dkg.Actions.{command}
use drand_rs.Scheme.{Scheme}

-- A partial packet, a command, or the sync task.
pub data DefaultMove : Type 0 where
  new_partial : DefaultMove
  cmd : (now : ℕ) → ChainCmd → DefaultMove
  sync_turn : DefaultMove

module _ (S : Scheme) (R : BeaconRepr) where
  -- `DefaultSyncer`, with the target and the peers' streams and the room of the client's channel.
  pub record SyncTask : Type 0 where
    pub info : ChainInfo S
    pub target : ℕ
    pub streams : List (Option (List BeaconPacket))
    pub room : ℕ

  pub data DefaultReply : Type 0 where
    partial_reply : ChainError → DefaultReply
    cmd_reply : Reply R → DefaultReply

  -- The store, the known information, the sync task where one is not finished, the replies so far,
  -- and how the loop has ended.
  pub record DefaultChain : Type 0 where
    pub store : ChainStore R
    pub chain_info : ChainInfo S
    pub sync_handle : Option SyncTask
    pub replies : List DefaultReply
    pub exit : Option Exit

  same_info : ChainInfo S → ChainInfo S → Bool
  same_info a b =
      S.same_key a.public_key b.public_key
      && bytes_eq a.beacon_id b.beacon_id
      && a.period == b.period
      && a.genesis_time == b.genesis_time
      && bytes_eq a.genesis_seed b.genesis_seed

  pub target_of : ℕ → ℕ → ℕ
  target_of up_to current = if ltb 0 up_to && ltb up_to current then up_to else current

  -- The request is accepted for the chain with the information.
  start_sync :
      ℕ
      → DefaultChain
      → FollowRequest
      → Bytes
      → ChainInfoPacket
      → ChainInfo S
      → DefaultChain × Result SyncError (Unit {0})
  unfolding target_of
  start_sync now c req beacon_id packet info =
      let target = target_of req.up_to (current_round now info.period info.genesis_time) in
      elim (from_config S R packet beacon_id) [
        | err e ↦ (c, err e)
        | ok task_info ↦ (
          record c {
            sync_handle = some (record {
              info = task_info;
              target = target;
              streams = req.streams;
              room = req.room;
            });
          },
          ok tt,
        )
      ]

  -- The information is taken where there is none yet, and is compared where there is.
  check_info :
      ℕ
      → DefaultChain
      → FollowRequest
      → Bytes
      → ChainInfoPacket
      → ChainInfo S
      → DefaultChain × Result SyncError (Unit {0})
  unfolding same_info start_sync
  check_info now c req beacon_id packet new_ci =
      if is_empty c.chain_info.genesis_seed
      then start_sync now (record c { chain_info = new_ci }) req beacon_id packet new_ci
      else if not (same_info c.chain_info new_ci)
      then (c, err SyncError.info_packet_mismatch)
      else start_sync now c req beacon_id packet new_ci

  pub with_packet :
      ℕ
      → DefaultChain
      → FollowRequest
      → Bytes
      → ChainInfoPacket
      → DefaultChain × Result SyncError (Unit {0})
  unfolding check_info
  with_packet now c req beacon_id packet = elim (from_packet S packet beacon_id) [
    | none ↦ (c, err SyncError.invalid_info_packet)
    | some new_ci ↦ check_info now c req beacon_id packet new_ci
  ]

  unfoldable pub follow_chain :
      ℕ → DefaultChain → FollowRequest → Bytes → DefaultChain × Result SyncError (Unit {0})
  unfolding with_packet
  follow_chain now c req beacon_id =
      if is_some c.sync_handle
      then (c, err SyncError.already_syncing)
      else let (store, started) =
          start_follow_chain S R req.chain_hash beacon_id c.store req.peers in
        elim started [
          | err e ↦ (record c { store = store }, err e)
          | ok packet ↦ with_packet now (record c { store = store }) req beacon_id packet
        ]

  answer : DefaultChain → DefaultReply → DefaultChain
  answer c r = record c { replies = c.replies ++ r ∷ [] }

  default_round : DefaultChain → Result StoreError ℕ
  default_round c = last R c.store >>= λ b. ok (R.round b)

  module _ (beacon_id : Bytes) where
    -- A Reload is unreachable code.
    unfoldable pub default_receive : ℕ → DefaultChain → ChainCmd → DefaultChain
    unfolding follow_chain answer default_round
    default_receive now c (ChainCmd.new_epoch first_round) = record c {
      exit = some Exit.next_epoch;
    }
    default_receive now c ChainCmd.shutdown =
        record (answer c (DefaultReply.cmd_reply Reply.shut_down)) { exit = some Exit.shut_down }
    default_receive now c (ChainCmd.follow req) =
        let (c', res) = follow_chain now c req beacon_id in
        answer c' (DefaultReply.cmd_reply (Reply.follow res))
    default_receive now c ChainCmd.latest_stored =
        answer c (DefaultReply.cmd_reply (Reply.latest_stored (default_round c)))
    default_receive now c ChainCmd.reload = record c { exit = some (Exit.failed Fault.panic) }
    default_receive now c (ChainCmd.resync from_round) =
        answer c (DefaultReply.cmd_reply (Reply.stream (err StoreError.internal)))
    default_receive now c ChainCmd.chain_info =
        answer c (DefaultReply.cmd_reply (Reply.chain_info (err ChainError.dkg_setup_required)))

    run_task : DefaultChain → Option SyncTask → DefaultChain
    run_task c none = c
    run_task c (some t) =
        let (store, result) = process_follow_request S R t.info t.target c.store t.streams t.room in
        record c { store = store; sync_handle = none }

    -- The task is not aborted where the loop has ended.
    unfoldable pub run_sync : DefaultChain → DefaultChain
    unfolding run_task
    run_sync c = run_task c c.sync_handle

    default_live : DefaultChain → DefaultMove → DefaultChain
    unfolding default_receive answer
    default_live c DefaultMove.new_partial =
        answer c (DefaultReply.partial_reply ChainError.dkg_setup_required)
    default_live c (DefaultMove.cmd now command) = default_receive now c command
    default_live c DefaultMove.sync_turn = c

    unfoldable pub default_step : DefaultChain → DefaultMove → DefaultChain
    unfolding run_sync default_live
    default_step c DefaultMove.sync_turn = run_sync c
    default_step c m = if is_some c.exit then c else default_live c m

    unfoldable pub run_chain_default : DefaultChain → List DefaultMove → DefaultChain
    unfolding default_step
    run_chain_default c [] = c
    run_chain_default c (m ∷ ms) = run_chain_default (default_step c m) ms

  -- `ChainInfo::default()`, with the default key of `energon`.
  abbrev pub default_info : S.KeyPoint → ChainInfo S
  default_info default_key = record {
    public_key = default_key;
    beacon_id = [];
    period = 0;
    genesis_time = 0;
    genesis_seed = [];
  }

  unfoldable pub default_start : S.KeyPoint → ChainStore R → DefaultChain
  default_start default_key store = record {
    store = store;
    chain_info = default_info default_key;
    sync_handle = none;
    replies = [];
    exit = none;
  }
