-- ===== src/Chain/Epoch.antt =====
-- The nodes of an epoch and the check of their partial signatures: src/chain/epoch.rs, with the
-- errors of the chain, src/chain/handler.rs.
use drand_rs.Chain.Beacon.{PartialBeaconPacket}
use drand_rs.Chain.Store.{StoreError}
use drand_rs.Common.{
  Bytes, List, Result, err, find, if◌then◌else◌, length, map, not, ok, ok_or, retain, ℕ, ◌==◌,
  ◌>>=◌,
}
use drand_rs.Key.Group.{KeyShare, Node}
use drand_rs.Scheme.{Scheme}

pub data ChainError : Type 0 where
  partial_closed_tx cmd_closed_tx cmd_closed_rx ticker_closed_tx pool_closed_rx : ChainError
  invalid_share_lenght : (expected received : ℕ) → ChainError
  unknown_index : ℕ → ChainError
  invalid_partial_signature failed_to_get_info : ChainError
  invalid_round : (invalid current : ℕ) → ChainError
  serialize_recovered invalid_recovered : ChainError
  chain_store_error : StoreError → ChainError
  t_bls_error file_store_error dkg_setup_required : ChainError

-- `SigShare<S>`: an index and a signature point.
abbrev pub SigShare : Scheme → Type 0
SigShare S = ℕ × S.SigPoint

pub record EpochNode (S : Scheme) : Type 0 where
  pub peer : Bytes
  pub share_i : ℕ  -- u32
  pub share_v : S.KeyPoint

pub record EpochConfig (S : Scheme) : Type 0 where
  pub share : KeyShare S
  pub remote_nodes : List (EpochNode S)

module _ (S : Scheme) where
  unfoldable pub our_index : EpochConfig S → ℕ
  our_index ec = S.share_index ec.share.pri_share

  unfoldable pub thr : EpochConfig S → ℕ
  thr ec = length ec.share.commits

  into_epoch_node : KeyShare S → Node S → EpochNode S
  into_epoch_node share n = record {
    peer = n.identity.address;
    share_i = n.index;
    share_v = S.share_point share.commits n.index;
  }

  -- Our own index is skipped.
  unfoldable pub new : List (Node S) → KeyShare S → EpochConfig S
  unfolding into_epoch_node retain
  new nodes share = record {
    share = share;
    remote_nodes =
        map (into_epoch_node share)
          (retain (λ (n : Node S). not (n.index == S.share_index share.pri_share)) nodes);
  }

  -- A partial signature with the address of the node whose share it verifies under.
  unfoldable pub verify_partial :
      EpochConfig S → PartialBeaconPacket → Result ChainError (SigShare S × Bytes)
  unfolding find
  verify_partial ec p = do
    sig_share ← ok_or (S.deserialize_share p.partial_sig) ChainError.t_bls_error
    node ←
        ok_or (find (λ (n : EpochNode S). n.share_i == sig_share.0) ec.remote_nodes)
          (ChainError.unknown_index sig_share.0)
    if S.bls_verify node.share_v sig_share.1 (S.digest p.previous_signature p.round)
        then ok (sig_share, node.peer)
        else err ChainError.invalid_partial_signature
