-- ===== src/Chain/Commands.antt =====
-- The loop of `run_chain` with its commands, and the wait for the last round of an epoch:
-- src/chain/handler.rs. A channel's reply is a value; the order of the select is that of the moves.
pub mod Waits
pub mod Turns
pub mod Epochs
use drand_rs.Chain.Beacon.{BeaconPacket, BeaconRepr}
use drand_rs.Chain.Epoch.{ChainError}
use drand_rs.Chain.Handler.{Chain, ChainHandler, Event, Fault, run_event}
use drand_rs.Chain.Info.{ChainInfoPacket, as_packet}
use drand_rs.Chain.Store.{StreamItem, StoreError, last, sync}
use drand_rs.Chain.Sync.{SyncError}
use drand_rs.Common.{
  length, Bool, Bytes, List, Option, Result, [], err, false, if◌then◌else◌, leb, none, ok, some,
  sub_u64, suc, true, zero, ℕ, ◌++◌, ◌>>=◌, ◌∷◌,
}
use drand_rs.Scheme.{Scheme}

-- A follow request: how far, the hash that it names, what the peers answer to the request for the
-- chain's information and to that for a stream, and the room of the client's channel.
pub record FollowRequest : Type 0 where
  pub up_to : ℕ  -- u64
  pub chain_hash : Bytes
  pub peers : List (Option ChainInfoPacket)
  pub streams : List (Option (List BeaconPacket))
  pub room : ℕ

pub data ChainCmd : Type 0 where
  shutdown : ChainCmd
  new_epoch : (first_round : ℕ) → ChainCmd
  reload : ChainCmd
  chain_info : ChainCmd
  resync : (from_round : ℕ) → ChainCmd
  follow : FollowRequest → ChainCmd
  latest_stored : ChainCmd

pub data Reply (R : BeaconRepr) : Type 0 where
  shut_down : Reply R
  chain_info : Result ChainError ChainInfoPacket → Reply R
  stream : Result StoreError (List (StreamItem R)) → Reply R
  follow : Result SyncError (Unit {0}) → Reply R
  latest_stored : Result StoreError ℕ → Reply R

-- How a loop ends: with the configuration for the next epoch, with none, or with an error.
pub data Exit : Type 0 where
  next_epoch shut_down : Exit
  failed : Fault → Exit

-- A task of `wait_last_round` with the round that it waits for; it has finished or not.
pub record Wait : Type 0 where
  pub want_round : ℕ
  pub finished : Bool

-- The chain, the tasks that wait, the Reload commands in the channel, whether the nodes are in the
-- pool, the replies so far, and how the loop has ended.
pub record Loop (S : Scheme) (R : BeaconRepr) : Type 0 where
  pub chain : Chain S R
  pub waits : List Wait
  pub reloads : ℕ
  pub registered : Bool
  pub replies : List (Reply R)
  pub exit : Option Exit

-- What happens next: an event, a command of the beacon process, a look of a waiting task at the
-- store, or the receipt of a Reload.
pub data Move (S : Scheme) (R : BeaconRepr) (h : ChainHandler S) : Type 0 where
  event : (now : ℕ) → Event S R h → Move S R h
  command : ChainCmd → Move S R h
  poll : (task : ℕ) → Move S R h
  take_reload : Move S R h

module _ (S : Scheme) (R : BeaconRepr) (h : ChainHandler S) where
  abbrev reply : Loop S R → Reply R → Loop S R
  reply l r = record l { replies = l.replies ++ r ∷ [] }

  abbrev pub closed : Exit
  closed = Exit.failed (Fault.fail ChainError.pool_closed_rx)

  -- `h.pool.remove_id(..)`, and the end of the loop.
  unfoldable pub leave : Loop S R → Exit → Loop S R
  leave l exit =
      if l.chain.pool_open
      then record l { registered = false; exit = some exit }
      else record l { exit = some closed }

  -- ChainCmd::LatestStored.
  unfoldable pub latest_round : Loop S R → Result StoreError ℕ
  latest_round l = last R l.chain.store >>= λ b. ok (R.round b)

  unfoldable pub receive : Loop S R → ChainCmd → Loop S R
  unfolding leave latest_round
  receive l (ChainCmd.new_epoch first_round) = record l {
    waits = l.waits ++ record { want_round = sub_u64 first_round 1; finished = false } ∷ [];
  }
  receive l ChainCmd.reload = leave l Exit.next_epoch
  receive l (ChainCmd.resync from_round) =
      if l.chain.store.alive
      then reply l (Reply.stream (ok (sync R l.chain.store h.chain_info.beacon_id from_round)))
      else reply l (Reply.stream (err StoreError.internal))
  receive l (ChainCmd.follow req) = reply l (Reply.follow (err SyncError.forbidden_to_follow))
  receive l ChainCmd.shutdown =
      if l.chain.pool_open
      then leave (reply l Reply.shut_down) Exit.shut_down
      else leave l Exit.shut_down
  receive l ChainCmd.chain_info = elim (as_packet S h.chain_info) [
    | none ↦ record (reply l (Reply.chain_info (err ChainError.failed_to_get_info))) {
      exit = some (Exit.failed (Fault.fail ChainError.failed_to_get_info));
    }
    | some packet ↦ reply l (Reply.chain_info (ok packet))
  ]
  receive l ChainCmd.latest_stored = reply l (Reply.latest_stored (latest_round l))

  unfoldable pub turn : ℕ → Loop S R → Event S R h → Loop S R
  turn now l e =
      let (chain, res) = run_event S R h now l.chain e in
      elim res [
        | ok u ↦ record l { chain = chain }
        | err fault ↦ record l { chain = chain; exit = some (Exit.failed fault) }
      ]

  -- One attempt of `wait_last_round`: a Reload where the round is stored, another attempt where it
  -- is not, and the end of the task on an error.
  unfoldable pub attempt : Loop S R → Wait → Wait × Bool
  unfolding latest_round
  attempt l w = elim (latest_round l) [
    | err e ↦ (record w { finished = true }, false)
    | ok round ↦ if leb w.want_round round then (record w { finished = true }, true) else (w, false)
  ]

  unfoldable pub poll_task : Loop S R → Wait → Wait × Bool
  unfolding attempt
  poll_task l w = if w.finished then (w, false) else attempt l w

  -- The task at a place of the list is polled.
  unfoldable pub poll_at : Loop S R → List Wait → ℕ → List Wait × Bool
  unfolding poll_task
  poll_at l [] task = ([], false)
  poll_at l (w ∷ ws) zero = let (w', sent) = poll_task l w in (w' ∷ ws, sent)
  poll_at l (w ∷ ws) (suc task) = let (ws', sent) = poll_at l ws task in (w ∷ ws', sent)

  unfoldable pub wait_last_round : Loop S R → ℕ → Loop S R
  unfolding poll_at
  wait_last_round l task =
      let (waits, sent) = poll_at l l.waits task in
      record l { waits = waits; reloads = if sent then suc l.reloads else l.reloads }

  -- The beacon process sends every command but Reload, which is that of `wait_last_round` alone.
  unfoldable pub live_step : Loop S R → Move S R h → Loop S R
  unfolding turn receive wait_last_round
  live_step l (Move.event now e) = turn now l e
  live_step l (Move.command ChainCmd.reload) = l
  live_step l (Move.command c) = receive l c
  live_step l (Move.poll task) = wait_last_round l task
  live_step l Move.take_reload = elim l.reloads [
    | zero ↦ l
    | suc n ↦ receive (record l { reloads = n }) ChainCmd.reload
  ]

  -- Nothing is received any more once the loop has ended.
  unfoldable pub step : Loop S R → Move S R h → Loop S R
  unfolding live_step
  step l m = elim l.exit [ none ↦ live_step l m | some e ↦ l ]

  unfoldable pub run : Loop S R → List (Move S R h) → Loop S R
  unfolding step
  run l [] = l
  run l (m ∷ ms) = run (step l m) ms

  -- `h.register_in_pool().await?`, before the loop. The tasks that wait are detached and the channel
  -- of the commands is handed on: those of the epochs before are still there.
  unfoldable pub start : Chain S R → List Wait → (reloads : ℕ) → Loop S R
  start c waits reloads = record {
    chain = c;
    waits = waits;
    reloads = reloads;
    registered = c.pool_open;
    replies = [];
    exit = if c.pool_open then none else some closed;
  }
