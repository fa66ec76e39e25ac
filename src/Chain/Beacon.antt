-- ===== src/Chain/Beacon.antt =====
-- Beacons and the packets that carry them: src/chain/store.rs (BeaconRepr and its two
-- implementations), src/chain/mod.rs and src/protobuf/drand.rs.
use drand_rs.Common.{Bool, Bytes, Option, [], add_u64, none, refl, some, ℕ, ◌∷◌, ◌≡◌}
use drand_rs.Scheme.{Scheme}

-- `Metadata`, with the fields that the chain reads.
pub record Metadata : Type 0 where
  pub beacon_id : Bytes
  pub chain_hash : Bytes

pub record BeaconPacket : Type 0 where
  pub previous_signature : Bytes
  pub round : ℕ  -- u64
  pub signature : Bytes
  pub metadata : Option Metadata

pub record PartialBeaconPacket : Type 0 where
  pub round : ℕ  -- u64
  pub previous_signature : Bytes
  pub partial_sig : Bytes
  pub metadata : Option Metadata

-- The trait, with `next` for its `new`, the row mapping of `get_batch_proto` as `to_packet`, and
-- the laws that its users rest on.
pub record BeaconRepr : Type 1 where
  pub Beacon : Type 0
  pub next : Beacon → Bytes → Beacon
  pub round : Beacon → ℕ
  pub signature : Beacon → Bytes
  pub prev_signature : Beacon → Option Bytes
  pub from_packet : BeaconPacket → Beacon
  pub from_seed : Bytes → Beacon
  pub to_packet : Bytes → Beacon → BeaconPacket
  pub round-next : (b : Beacon) (s : Bytes) → round (next b s) ≡ add_u64 (round b) 1
  pub signature-next : (b : Beacon) (s : Bytes) → signature (next b s) ≡ s
  pub round-from_seed : (s : Bytes) → round (from_seed s) ≡ 0
  pub signature-from_seed : (s : Bytes) → signature (from_seed s) ≡ s
  pub round-from_packet : (p : BeaconPacket) → round (from_packet p) ≡ p.round
  pub signature-from_packet : (p : BeaconPacket) → signature (from_packet p) ≡ p.signature
  pub round-to_packet : (id : Bytes) (b : Beacon) → (to_packet id b).round ≡ round b

pub record ChainedBeacon : Type 0 where
  pub round : ℕ  -- u64
  pub signature : Bytes
  pub previous_signature : Bytes

pub record UnChainedBeacon : Type 0 where
  pub round : ℕ  -- u64
  pub signature : Bytes

abbrev pub with_id : Bytes → Option Metadata
with_id id = some (record { beacon_id = id; chain_hash = [] })

abbrev pub chained : BeaconRepr
chained = record {
  Beacon = ChainedBeacon;
  next = λ prev new_sig. record {
    round = add_u64 prev.round 1;
    signature = new_sig;
    previous_signature = prev.signature;
  };
  round = λ b. b.round;
  signature = λ b. b.signature;
  prev_signature = λ b. some b.previous_signature;
  from_packet = λ p. record {
    round = p.round;
    signature = p.signature;
    previous_signature = p.previous_signature;
  };
  from_seed =
      λ genesis_seed. record { round = 0; signature = genesis_seed; previous_signature = 0 ∷ [] };
  to_packet = λ id b. record {
    round = b.round;
    signature = b.signature;
    previous_signature = b.previous_signature;
    metadata = with_id id;
  };
  round-next = λ b s. refl;
  signature-next = λ b s. refl;
  round-from_seed = λ s. refl;
  signature-from_seed = λ s. refl;
  round-from_packet = λ p. refl;
  signature-from_packet = λ p. refl;
  round-to_packet = λ id b. refl;
}

abbrev pub unchained : BeaconRepr
unchained = record {
  Beacon = UnChainedBeacon;
  next = λ prev new_sig. record { round = add_u64 prev.round 1; signature = new_sig };
  round = λ b. b.round;
  signature = λ b. b.signature;
  prev_signature = λ b. none;
  from_packet = λ p. record { round = p.round; signature = p.signature };
  from_seed = λ genesis_seed. record { round = 0; signature = genesis_seed };
  to_packet = λ id b. record {
    round = b.round;
    signature = b.signature;
    previous_signature = [];
    metadata = with_id id;
  };
  round-next = λ b s. refl;
  signature-next = λ b s. refl;
  round-from_seed = λ s. refl;
  signature-from_seed = λ s. refl;
  round-from_packet = λ p. refl;
  signature-from_packet = λ p. refl;
  round-to_packet = λ id b. refl;
}

-- The check of an aggregated or received signature: src/chain/mod.rs.
unfoldable pub is_valid_signature : (S : Scheme) → S.KeyPoint → Bytes → ℕ → S.SigPoint → Bool
is_valid_signature S pub_key prev_sig new_round new_sig =
    S.bls_verify pub_key new_sig (S.digest prev_sig new_round)
