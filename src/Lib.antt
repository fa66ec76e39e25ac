-- ===== src/Lib.antt =====
-- A model of drand-rs, a node of a randomness beacon network, and theorems about it.
--
-- The program. A group of nodes runs a distributed key generation (DKG), and then signs one beacon
-- per period together. src/dkg is the DKG: a leader proposes a group, the nodes answer with signed
-- gossip packets and their operators with commands, and each node keeps its state in two files.
-- src/chain is the chain of beacons: a ticker gives the rounds, each node broadcasts its partial
-- signature, a threshold of them is recovered to the beacon, and a late node takes stored beacons
-- from its peers. src/core starts one DKG and one chain per beacon id, src/net and src/transport
-- carry the messages.
--
-- The model.
--   Scheme        what is taken from other crates: the curve, the hash functions, the recovery of
--                 a signature, and the equality of addresses. All theorems hold for every scheme
--                 whose points decode to what they were encoded from.
--   Key.Group     src/key/keys.rs, src/key/node.rs, src/key/group.rs
--   Dkg.Status    src/dkg/status.rs: is_valid_state_change is the transition table
--   Dkg.Packet    src/transport/dkg.rs: the messages after their validation
--   Dkg.Proto     src/transport/dkg.rs and src/transport/utils.rs: the gossip messages from and to
--                 protobuf, over a parser of addresses
--   Dkg.State     src/dkg/state.rs: State, and a state from a proposal
--   Dkg.Validate  src/dkg/state.rs: the validate_ functions, with the names of the source
--   Dkg.Transition  src/dkg/state.rs: the operations. A method that succeeds returns the new state
--   Dkg.Signing   src/dkg/actions_signing.rs: the signed bytes and verify_msg
--   Dkg.Store     src/dkg/store.rs: current.toml and finished.toml as optional states
--   Dkg.Actions   src/dkg/actions_passive.rs and src/dkg/actions_active.rs
--   Dkg.Bundle    src/dkg/broadcast.rs: the bundles of a running DKG and their messages
--   Dkg.Execution src/dkg/execution.rs: the configuration of a run and the start of it
--   Dkg.Execution.Finish  src/dkg/execution.rs: from the output of a run to the next epoch
--   Dkg.Gate      src/dkg/utils.rs: GateKeeper, and the gossip handler of src/core/beacon.rs
--   Chain.Beacon  src/chain/store.rs: BeaconRepr is an interface that both kinds of beacon fill
--   Chain.Store   src/chain/store.rs: the table as the list of its rows, and the sync stream
--   Chain.Epoch   src/chain/epoch.rs
--   Chain.Cache   src/chain/cache.rs
--   Chain.Time    src/chain/time.rs
--   Chain.Sync    src/chain/sync.rs: the resync task, its handle, and the follow request
--   Chain.Info    src/chain/info.rs
--   Chain.Registry  src/chain/registry.rs
--   Chain.Handler src/chain/handler.rs: the store, the registry and the effects as one state, and
--                 run_event as one turn of the loop of run_chain
--   Chain.Commands  src/chain/handler.rs: the loop of run_chain with its commands and the tasks of
--                 wait_last_round, whose order is that of a list of moves
--   Chain.Default src/chain/handler.rs: run_chain_default and follow_chain, the chain of a node
--                 without a DKG
--   Chain.Life    src/chain/handler.rs: from_config, and the epochs of init_chain one after another,
--                 each with the store, the waiting tasks and the Reloads that the one before leaves
--   Net.Pool      src/net/pool.rs: the pool, its tasks and their channels
--   Core.Daemon   src/core/daemon.rs and src/core/multibeacon.rs: the handlers of the beacon ids
--   Core.Folder   src/key/store.rs: the beacon id of a folder, with the parts of std::path for it
--   Core.Process  src/core/beacon.rs: a gossip packet through the gate and the state to the start of a
--                 DKG
--   Tests         a toy scheme, and runs of the model under it
--
-- Conventions. A u64 or u32 wraps as in a release build, in add_u64 and the like. A clock is an
-- argument, once for every reading. A task that is spawned, a packet that is broadcast and a panic
-- are values. Logging is left out. A f64 is its significant bits over or times a power of two.
--
-- Bounds and fuel. sync_loop runs on one batch more than the rows fill, after which the source's
-- loop has ended. scale_up doubles at most 84 times, enough for a quotient above 1 / 2 ^ 32;
-- scale_down at most 12 times, enough from 2 ^ 64 on.
--
-- Not modelled: TOML and other file formats, SQLite beyond the order and the key of its table, the
-- other network services and the command line, the DKG protocol of the energon crate.
pub mod Common
pub mod Scheme
pub mod Key
pub mod Dkg
pub mod Chain
pub mod Net
pub mod Core
pub mod Tests
