-- ===== src/Dkg/Execution.antt =====
-- The run of a DKG: src/dkg/execution.rs. The protocol itself is of the crate `energon`: its
-- configuration is built here, and its output is an argument. Logging is left out.
pub mod Finish
pub mod Order
pub mod Setup
use drand_rs.Chain.Info.{to_be_bytes}
use drand_rs.Common.{
  Bool, Bytes, List, Option, Result, [], any, enumerate, err, false, if◌then◌else◌, ltb, map,
  map_err, none, not, ok, ok_or, reject_if, some, true, two_32, ℕ, ◌&&◌, ◌++◌, ◌+◌, ◌-◌, ◌==◌,
  ◌>>=◌, ◌>>◌, ◌||◌, ◌∷◌,
}
use drand_rs.Common.Int.{leb_ℤ, neg_part, pos_part, ℤ}
use drand_rs.Dkg.Actions.{ActionsError}
use drand_rs.Dkg.Bundle.{map_all}
use drand_rs.Dkg.Gate.{BundleSender, GateKeeper, open_gate}
use drand_rs.Dkg.Packet.{Participant, Timestamp}
use drand_rs.Dkg.Proto.{participant}
use drand_rs.Dkg.State.{State}
use drand_rs.Dkg.Store.{DkgStore, DkgStoreError, get_current, get_finished}
use drand_rs.Key.Group.{Group, Identity, KeyShare, Node}
use drand_rs.Scheme.{Scheme}

-- `energon`'s node, configuration and output.
pub record DkgNode (S : Scheme) : Type 0 where
  pub index : ℕ  -- u32
  pub public : S.KeyPoint

pub record Config (S : Scheme) : Type 0 where
  pub long_term : S.Scalar
  pub old_nodes : List (DkgNode S)
  pub new_nodes : List (DkgNode S)
  pub public_coeffs : List S.KeyPoint
  pub share : Option (KeyShare S)
  pub threshold : ℕ  -- u32
  pub old_threshold : ℕ  -- u32
  pub nonce : Bytes

-- The order of `Vec<u8>`.
unfoldable pub bytes_le : Bytes → Bytes → Bool
bytes_le [] ys = true
bytes_le (x ∷ xs) [] = false
bytes_le (x ∷ xs) (y ∷ ys) = ltb x y || (x == y && bytes_le xs ys)

-- `sort_by_key(|p| &p.key)`, which is stable.
unfoldable pub insert_by_key : Participant → List Participant → List Participant
insert_by_key p [] = p ∷ []
insert_by_key p (q ∷ qs) =
    let rest = insert_by_key p qs in if bytes_le p.key q.key then p ∷ q ∷ qs else q ∷ rest

unfoldable pub sort_by_public_key : List Participant → List Participant
unfolding insert_by_key
sort_by_public_key [] = []
sort_by_public_key (p ∷ ps) = insert_by_key p (sort_by_public_key ps)

module _ (S : Scheme) where
  unfoldable pub sorted_participants : State S → List Participant
  sorted_participants current = sort_by_public_key (current.joining ++ current.remaining)

  -- The node of a participant: `u32::try_from(index)` and `DkgNode::deserialize`.
  unfoldable pub deserialize_node : ℕ × Participant → Option (DkgNode S)
  deserialize_node (index, participant) =
      if ltb index two_32
      then elim (S.deserialize_key participant.key) [
        | none ↦ none
        | some public ↦ some (record { index = index; public = public })
      ]
      else none

  unfoldable pub new_nodes_of : List Participant → Result ActionsError (List (DkgNode S))
  new_nodes_of sorted =
      ok_or (map_all deserialize_node (enumerate 0 sorted)) ActionsError.participants_to_new_nodes

  unfoldable pub old_node : Node S → DkgNode S
  old_node n = record { index = n.index; public = n.identity.key }

  -- The first 4 bytes are those of the epoch, the most significant first.
  unfoldable pub nonce_for_epoch : ℕ → Bytes
  nonce_for_epoch epoch = S.sha256 (to_be_bytes 4 epoch)

  -- What a group brings into a first run: its threshold, its commitments and its nodes.
  unfoldable pub prior : Option (Group S) → ℕ × List S.KeyPoint × List (DkgNode S)
  prior none = (0, [], [])
  prior (some group) = (group.threshold, group.dist_key, map old_node group.nodes)

  module _ (private_key : S.Scalar) (identity : Identity S) where
    -- A node that is not among the new ones panics.
    unfoldable pub initial_config : State S → List Participant → Result ActionsError (Config S)
    initial_config current sorted = do
      new_nodes ← new_nodes_of sorted
      let (old_threshold, public_coeffs, old_nodes) = prior current.final_group
      reject_if (not (any (λ n. S.same_key n.public identity.key) new_nodes)) ActionsError.panic
      ok (record {
        long_term = private_key;
        old_nodes = old_nodes;
        new_nodes = new_nodes;
        public_coeffs = public_coeffs;
        share = none;
        threshold = current.threshold;
        old_threshold = old_threshold;
        nonce = nonce_for_epoch current.epoch;
      })

    unfoldable pub reshare_config :
        State S → State S → List Participant → Result ActionsError (Config S)
    reshare_config current previous sorted = do
      new_nodes ← new_nodes_of sorted
      group ← ok_or previous.final_group ActionsError.reshare_prev_group_required
      share ← ok_or previous.key_share ActionsError.reshare_prev_share_required
      ok (record {
        long_term = private_key;
        old_nodes = map old_node group.nodes;
        new_nodes = new_nodes;
        public_coeffs = group.dist_key;
        share = some share;
        threshold = current.threshold;
        old_threshold = previous.threshold;
        nonce = nonce_for_epoch current.epoch;
      })

    unfoldable pub config_of :
        State S → Option (State S) → List Participant → Result ActionsError (Config S)
    config_of current (some previous) sorted = reshare_config current previous sorted
    config_of current none sorted = initial_config current sorted

    -- What is running afterwards: the protocol, after a wait in nanoseconds, and the exchange of
    -- bundles with the nodes.
    pub record Running : Type 0 where
      pub config : Config S
      pub peers : List Participant
      pub wait : ℕ
      pub current : State S

    last_completed : DkgStore S → Result ActionsError (Option (State S))
    last_completed store = elim (get_finished store) [
      | ok state ↦ ok (some state)
      | err DkgStoreError.not_found ↦ ok none
      | err e ↦ err (ActionsError.dkg_store e)
    ]

    -- `system_time` is SystemTime::try_from of `prost_types`, in nanoseconds after the epoch, `now`
    -- the time at the same scale, and `new_dkg` Protocol::new_dkg, which gives the bundles' sender.
    module _ (system_time : Timestamp → Option ℤ)
        (new_dkg : Config S → Option (BundleSender S)) where
      time_until : ℤ → Timestamp → Result ActionsError ℕ
      time_until now start = do
        at ← ok_or (system_time start) ActionsError.start_execution_time_not_canonical
        reject_if (not (leb_ℤ now at)) ActionsError.start_execution_time_is_passed
        ok ((pos_part at + neg_part now) - (pos_part now + neg_part at))

      unfoldable pub setup_and_run_dkg :
          ℤ → DkgStore S → GateKeeper S → Timestamp → Result ActionsError (GateKeeper S × Running)
      unfolding last_completed time_until
      setup_and_run_dkg now store gk start = do
        current ← map_err ActionsError.dkg_store (get_current store)
        completed ← last_completed store
        let sorted = sorted_participants current
        wait ← time_until now start
        config ← config_of current completed sorted
        bundles_tx ← ok_or (new_dkg config) ActionsError.dkg_error
        opened ← open_gate S gk bundles_tx
        ok (opened, record { config = config; peers = sorted; wait = wait; current = current })
