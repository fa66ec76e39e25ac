-- ===== src/Chain/Life.antt =====
-- The life of a chain: its set-up from the files of a DKG, the chain of a node without a DKG, and
-- the loop over the epochs, src/chain/handler.rs. The file of a group or a share is what it decodes to.
pub mod Setup
use drand_rs.Chain.Beacon.{BeaconRepr}
use drand_rs.Chain.Commands.{Exit, Move, Wait, run, start}
use drand_rs.Chain.Epoch.{ChainError}
use drand_rs.Chain.Handler.{Chain, ChainHandler, Fault}
use drand_rs.Chain.Info.{ChainInfo}
use drand_rs.Chain.Registry.{Registry}
use drand_rs.Chain.Store.{StreamItem, StoreError, last, sync, ChainStore, check_genesis}
use drand_rs.Common.{
  Bool, Bytes, List, Option, Result, [], bytes_eq, err, if◌then◌else◌, ltb, none, not, ok, some,
  sub_u64, ℕ, ◌+◌, ◌-◌, ◌∷◌,
}
use drand_rs.Dkg.Validate.Proposal.{Epoch}
use drand_rs.Key.Group.{Group, KeyShare}
use drand_rs.Scheme.{Scheme}
use drand_rs.Chain.Epoch
use drand_rs.Chain.Registry

pub data FileStoreError : Type 0 where
  toml_error invalid_data : FileStoreError
  chain_store : StoreError → FileStoreError

-- A group without a commitment panics, and so does a file that cannot be read here.
pub data SetupError : Type 0 where
  file_store : FileStoreError → SetupError
  panic : SetupError

pub record EpochFiles (S : Scheme) : Type 0 where
  pub group : Option (Group S)
  pub share : Option (KeyShare S)

-- The seconds that a node sleeps which starts before the last round of the finished epoch.
unfoldable pub check_transition : (period transition_time now : ℕ) → ℕ
check_transition period transition_time now =
    let epoch_last_round = sub_u64 transition_time period in
    if ltb now epoch_last_round then epoch_last_round - now + 1 else 0

module _ (S : Scheme) (R : BeaconRepr) where
  chain_info_of : Group S → S.KeyPoint → ChainInfo S
  chain_info_of group public_key = record {
    public_key = public_key;
    beacon_id = group.beacon_id;
    period = group.period;
    genesis_time = group.genesis_time;
    genesis_seed = group.genesis_seed;
  }

  handler_of : Group S → S.KeyPoint → KeyShare S → ChainHandler S
  unfolding chain_info_of
  handler_of group public_key share = record {
    chain_info = chain_info_of group public_key;
    ec = Epoch.new S group.nodes share;
  }

  -- `Registry::new` at the latest stored beacon. `now` is the clock after the sleep.
  chain_of : ℕ → Bool → Group S → ChainHandler S → ChainStore R → R.Beacon → Chain S R
  chain_of now pool_open group h store latest = record {
    store = store;
    reg = Registry.new S R now group.period group.genesis_time latest (Epoch.thr S h.ec);
    spawned = [];
    broadcasts = [];
    pool_open = pool_open;
  }

  -- The check of the genesis beacon and the read of the latest one.
  open_chain :
      ℕ
      → Bool
      → Group S
      → ChainHandler S
      → ChainStore R
      → ChainStore R × Result SetupError (Chain S R)
  unfolding chain_of
  open_chain now pool_open group h store =
      let (store', checked) = check_genesis R store group.genesis_seed in
      elim checked [
        | err e ↦ (store', err (SetupError.file_store FileStoreError.invalid_data))
        | ok u ↦ elim (last R store') [
          | err e ↦ (store', err (SetupError.file_store (FileStoreError.chain_store e)))
          | ok latest ↦ (store', ok (chain_of now pool_open group h store' latest))
        ]
      ]

  with_key :
      ℕ
      → Bool
      → Group S
      → S.KeyPoint
      → KeyShare S
      → ChainStore R
      → ChainStore R × Result SetupError (ChainHandler S × Chain S R)
  unfolding open_chain handler_of
  with_key now pool_open group public_key share store =
      let h = handler_of group public_key share in
      let (store', opened) = open_chain now pool_open group h store in
      elim opened [ err e ↦ (store', err e) | ok c ↦ (store', ok (h, c)) ]

  from_group :
      ℕ
      → Bool
      → Group S
      → Option (KeyShare S)
      → ChainStore R
      → ChainStore R × Result SetupError (ChainHandler S × Chain S R)
  unfolding with_key
  from_group now pool_open group none store =
      (store, err (SetupError.file_store FileStoreError.toml_error))
  from_group now pool_open group (some share) store = elim group.dist_key [
    | [] ↦ (store, err SetupError.panic)
    | public_key ∷ commits ↦ with_key now pool_open group public_key share store
  ]

  unfoldable pub from_config :
      (now : ℕ)
      → (pool_open : Bool) → (beacon_id : Bytes) → EpochFiles S
      → ChainStore R
      → ChainStore R × Result SetupError (ChainHandler S × Chain S R)
  unfolding from_group
  from_config now pool_open beacon_id files store = elim files.group [
    | none ↦ (store, err (SetupError.file_store FileStoreError.toml_error))
    | some group ↦
        if not (bytes_eq group.beacon_id beacon_id)
        then (store, err (SetupError.file_store FileStoreError.invalid_data))
        else from_group now pool_open group files.share store
  ]

  -- What an epoch leaves to the next one: the store, the tasks that wait, and the Reload commands in
  -- the channel.
  pub record Carried : Type 0 where
    pub store : ChainStore R
    pub waits : List Wait
    pub reloads : ℕ

  -- What happens in one epoch: the clock and the files at its start, and the moves under the handler
  -- that is set up.
  pub record EpochRun : Type 0 where
    pub now : ℕ
    pub pool_open : Bool
    pub files : EpochFiles S
    pub moves : (h : ChainHandler S) → List (Move S R h)

  run_set_up :
      ((h : ChainHandler S) → List (Move S R h))
      → Carried
      → ChainStore R × Result SetupError (ChainHandler S × Chain S R)
      → Carried × Option Exit
  run_set_up moves k (store, err (SetupError.file_store e)) =
      (record k { store = store }, some (Exit.failed (Fault.fail ChainError.file_store_error)))
  run_set_up moves k (store, err SetupError.panic) =
      (record k { store = store }, some (Exit.failed Fault.panic))
  run_set_up moves k (store, ok (h, c)) =
      let l = run S R h (start S R h c k.waits k.reloads) (moves h) in
      (record { store = l.chain.store; waits = l.waits; reloads = l.reloads }, l.exit)

  -- `run_chain`: what it leaves, and how it ended; nothing where it still runs.
  unfoldable pub run_chain : Bytes → Carried → EpochRun → Carried × Option Exit
  unfolding run_set_up
  run_chain beacon_id k e =
      run_set_up e.moves k (from_config e.now e.pool_open beacon_id e.files k.store)

  -- The next epoch starts where one has ended with its configuration.
  and_then : Carried × Option Exit → Carried × Option Exit → Carried × Option Exit
  and_then (k, some Exit.next_epoch) rest = rest
  and_then (k, some Exit.shut_down) rest = (k, some Exit.shut_down)
  and_then (k, some (Exit.failed e)) rest = (k, some (Exit.failed e))
  and_then (k, none) rest = (k, none)

  -- The loop of `init_chain` over the epochs of a node with a DKG.
  unfoldable pub run_epochs : Bytes → Carried → List EpochRun → Carried × Option Exit
  unfolding run_chain and_then
  run_epochs beacon_id k [] = (k, none)
  run_epochs beacon_id k (e ∷ es) =
      let ended = run_chain beacon_id k e in and_then ended (run_epochs beacon_id ended.0 es)
