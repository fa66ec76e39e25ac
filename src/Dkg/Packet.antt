-- ===== src/Dkg/Packet.antt =====
-- The DKG messages after validation: src/transport/dkg.rs, with the timestamp of `prost_types`.
use drand_rs.Common.{
  ℕ, ◌≡◌, ◌↔◌, true, arith, bytes_eq_refl, Bool, ◌&&◌, List, Bytes, bytes_eq, Option, none, some,
}
use drand_rs.Common.Int.{ℤ, eq_ℤ}
use drand_rs.Dkg.Bundle.{ProtoBundle}
use drand_rs.Scheme.{Authority}

pub record Timestamp : Type 0 where
  pub seconds : ℤ  -- i64
  pub nanos : ℤ  -- i32

unfoldable pub timestamp_eq : Timestamp → Timestamp → Bool
timestamp_eq a b = eq_ℤ a.seconds b.seconds && eq_ℤ a.nanos b.nanos

pub record Participant : Type 0 where
  pub address : Bytes
  pub key : Bytes
  pub signature : Bytes

-- The derived equality: addresses by that of Authority, the rest byte by byte.
unfoldable pub participant_eq : Authority → Participant → Participant → Bool
participant_eq au a b =
    au.same a.address b.address && bytes_eq a.key b.key && bytes_eq a.signature b.signature

pub record GossipMetadata : Type 0 where
  pub beacon_id : Bytes
  pub address : Bytes
  pub signature : Bytes

pub record ProposalTerms : Type 0 where
  pub beacon_id : Bytes
  pub epoch : ℕ  -- u32
  pub leader : Participant
  pub threshold : ℕ  -- u32
  pub timeout : Timestamp
  pub catchup_period_seconds : ℕ  -- Seconds, u32
  pub beacon_period_seconds : ℕ  -- Seconds, u32
  pub scheme_id : Bytes
  pub genesis_time : Timestamp
  pub genesis_seed : Bytes
  pub joining : List Participant
  pub remaining : List Participant
  pub leaving : List Participant

pub record RejectProposal : Type 0 where
  pub rejector : Participant
  pub reason : Bytes
  pub secret : Bytes
  pub previous_group_hash : Bytes
  pub proposal_hash : Bytes

-- `GossipData`, each variant with the fields of its struct; a DKG packet with the beacon's id of its
-- metadata and its bundle.
pub data GossipData : Type 0 where
  proposal : ProposalTerms → GossipData
  accept : (acceptor : Participant) → GossipData
  reject : RejectProposal → GossipData
  abort : (reason : Bytes) → GossipData
  execute : (time : Timestamp) → GossipData
  dkg : (id : Bytes) → ProtoBundle → GossipData

pub record GossipPacket : Type 0 where
  pub metadata : GossipMetadata
  pub body : GossipData

unfoldable pub get_execute : GossipData → Option Timestamp
get_execute (execute time) = some time
get_execute _ = none

pub timestamp_eq_iff : (a b : Timestamp) → (timestamp_eq a b ≡ true) ↔ (a ≡ b)
unfolding timestamp_eq
timestamp_eq_iff a b = (λ h. ground arith, λ h. ground arith)

pub participant_eq_refl : (au : Authority) (p : Participant) → participant_eq au p p ≡ true
unfolding participant_eq
participant_eq_refl au p =
    ground (arith, au.same_refl p.address, bytes_eq_refl p.key, bytes_eq_refl p.signature)
