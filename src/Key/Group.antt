-- ===== src/Key/Group.antt =====
-- Identities, nodes and groups: src/key/keys.rs, src/key/node.rs and src/key/group.rs.
use drand_rs.Chain.Info.{hashed_id}
use drand_rs.Common.{
  ℕ, ◌+◌, ◌/◌, List, Bytes, Option, [], if◌then◌else◌, map, none, some, suc, zero, ◌%◌, ◌++◌, ◌==◌,
  ◌∷◌,
}
use drand_rs.Scheme.{Scheme}
use mathlib.Core.Option

-- `Identity<S>`, with the address as the text that it was parsed from.
pub record Identity (S : Scheme) : Type 0 where
  pub address : Bytes
  pub key : S.KeyPoint
  pub signature : S.SigPoint

pub record Node (S : Scheme) : Type 0 where
  pub identity : Identity S
  pub index : ℕ  -- u32

pub record Group (S : Scheme) : Type 0 where
  pub threshold : ℕ  -- u32
  pub period : ℕ  -- Seconds, u32
  pub catchup_period : ℕ  -- Seconds, u32
  pub genesis_time : ℕ  -- u64
  pub transition_time : ℕ  -- u64
  pub genesis_seed : Bytes
  pub beacon_id : Bytes
  pub nodes : List (Node S)
  pub dist_key : List S.KeyPoint

-- `energon`'s DistKeyShare: the commitments and the private share.
pub record KeyShare (S : Scheme) : Type 0 where
  pub commits : List S.KeyPoint
  pub pri_share : S.PriShare

-- `to_le_bytes` of a number of the given count of bytes.
unfoldable pub to_le_bytes_of : ℕ → ℕ → Bytes
to_le_bytes_of zero n = []
to_le_bytes_of (suc k) n = (n % 256) ∷ to_le_bytes_of k (n / 256)

module _ (S : Scheme) where
  -- The inner hash of a node: its index and its key.
  unfoldable pub hash_node : Node S → Option Bytes
  unfolding to_le_bytes_of
  hash_node n =
      Option.map (λ key. S.blake2b (to_le_bytes_of 4 n.index ++ key))
        (S.serialize_key n.identity.key)

  -- The bytes that a list of updates hashes, with the `unwrap` of each part.
  unfoldable pub concat_all : List (Option Bytes) → Option Bytes
  concat_all [] = some []
  concat_all (none ∷ rest) = none
  concat_all (some b ∷ rest) = Option.map (λ bs. b ++ bs) (concat_all rest)

  hashed_nodes : List (Node S) → Option Bytes
  unfolding concat_all hash_node
  hashed_nodes nodes = concat_all (map hash_node nodes)

  hashed_commits : List S.KeyPoint → Option Bytes
  unfolding concat_all
  hashed_commits [] = some []
  hashed_commits (c ∷ cs) = Option.map S.blake2b (concat_all (map S.serialize_key (c ∷ cs)))

  -- `hash`: nothing where an `unwrap` panics.
  unfoldable pub hash : Group S → Option Bytes
  unfolding to_le_bytes_of hashed_nodes hashed_commits hashed_id concat_all
  hash g = Option.map S.blake2b (
      concat_all (
        hashed_nodes g.nodes
        ∷ some (to_le_bytes_of 4 g.threshold)
        ∷ some (to_le_bytes_of 8 g.genesis_time)
        ∷ some (if g.transition_time == 0 then [] else to_le_bytes_of 8 g.transition_time)
        ∷ hashed_commits g.dist_key
        ∷ some (hashed_id g.beacon_id)
        ∷ []))

-- (n >> 1) + 1
unfoldable pub minimum_t : ℕ → ℕ
minimum_t n = n / 2 + 1
