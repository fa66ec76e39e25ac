-- ===== src/Chain/Info.antt =====
-- The public information of a chain: src/chain/info.rs, with `is_default_beacon_id` of
-- src/core/beacon.rs and `ChainInfoPacket` of src/protobuf/drand.rs. The fields of the packet's
-- metadata that are not read are left out.
use drand_rs.Chain.Beacon.{Metadata}
use drand_rs.Common.{
  Bool, Bytes, Option, [], bytes_eq, if◌then◌else◌, is_empty, leb, none, not, some, suc, two_64,
  zero, ℕ, ◌%◌, ◌++◌, ◌/◌, ◌^◌, ◌||◌, ◌∷◌,
}
use drand_rs.Common.Int.{ℤ, pos, negsuc, pattern_of}
use drand_rs.Common.Text.{text}
use drand_rs.Scheme.{Scheme}
pub mod Packets

pub record ChainInfoPacket : Type 0 where
  pub public_key : Bytes
  pub period : ℕ  -- u32
  pub genesis_time : ℤ  -- i64
  pub hash : Bytes
  pub group_hash : Bytes
  pub scheme_id : Bytes
  pub metadata : Option Metadata

pub record ChainInfo (S : Scheme) : Type 0 where
  pub public_key : S.KeyPoint
  pub beacon_id : Bytes
  pub period : ℕ  -- Seconds, u32
  pub genesis_time : ℕ  -- u64
  pub genesis_seed : Bytes

unfoldable pub is_default_beacon_id : Bytes → Bool
is_default_beacon_id id = bytes_eq id (text "default") || is_empty id

-- `to_be_bytes` of a number of the given count of bytes.
unfoldable pub to_be_bytes : ℕ → ℕ → Bytes
to_be_bytes zero n = []
to_be_bytes (suc k) n = to_be_bytes k (n / 256) ++ (n % 256) ∷ []

unfoldable pub check_genesis_time : ℤ → Option ℕ
check_genesis_time (pos zero) = none
check_genesis_time (pos (suc n)) = some (suc n)
check_genesis_time (negsuc n) = none

-- The bytes of the beacon's id, unless it is the default one.
unfoldable pub hashed_id : Bytes → Bytes
unfolding is_default_beacon_id
hashed_id id = if is_default_beacon_id id then [] else id

module _ (S : Scheme) where
  unfoldable pub from_packet : ChainInfoPacket → Bytes → Option (ChainInfo S)
  unfolding check_genesis_time
  from_packet packet id =
      if not (bytes_eq S.id packet.scheme_id)
      then none
      else elim (S.deserialize_key packet.public_key) [
        | none ↦ none
        | some public_key ↦ elim (check_genesis_time packet.genesis_time) [
          | none ↦ none
          | some genesis_time ↦ some (record {
            public_key = public_key;
            beacon_id = id;
            period = packet.period;
            genesis_time = genesis_time;
            genesis_seed = packet.group_hash;
          })
        ]
      ]

  unfoldable pub hash : ChainInfo S → Option Bytes
  unfolding to_be_bytes hashed_id
  hash info = elim (S.serialize_key info.public_key) [
    | none ↦ none
    | some pk_bytes ↦ some (
        S.sha256 (
          to_be_bytes 4 info.period
          ++ (to_be_bytes 8 info.genesis_time
              ++ (pk_bytes ++ (info.genesis_seed ++ hashed_id info.beacon_id)))))
  ]

  -- i64::try_from(u64).
  unfoldable pub as_packet : ChainInfo S → Option ChainInfoPacket
  unfolding hash
  as_packet info = elim (S.serialize_key info.public_key) [
    | none ↦ none
    | some public_key ↦ elim (hash info) [
      | none ↦ none
      | some h ↦
          if leb (2 ^ 63) info.genesis_time
          then none
          else some (record {
            public_key = public_key;
            period = info.period;
            genesis_time = pos info.genesis_time;
            hash = h;
            group_hash = info.genesis_seed;
            scheme_id = S.id;
            metadata = some (record { beacon_id = info.beacon_id; chain_hash = h });
          })
    ]
  ]

  unfoldable pub hash_packet : ChainInfoPacket → Bytes → Bytes
  unfolding to_be_bytes hashed_id
  hash_packet proto beacon_id = S.sha256 (
      to_be_bytes 4 proto.period
      ++ (to_be_bytes 8 (pattern_of two_64 proto.genesis_time)
          ++ (proto.public_key ++ (proto.group_hash ++ hashed_id beacon_id))))
