-- ===== src/Dkg/Proto.antt =====
-- The protobuf messages of the gossip and their conversions: src/transport/dkg.rs and
-- src/transport/utils.rs, with the messages of src/protobuf/dkg.rs. A field of a message type is
-- optional in them.
use drand_rs.Common.{
  Bool, Bytes, List, Option, Result, [], err, if◌then◌else◌, ok, ok_or, some, ℕ, ◌>>=◌, ◌∷◌,
}
use drand_rs.Dkg.Bundle.{ProtoBundle}
use drand_rs.Dkg.Packet.{
  Timestamp, Participant, GossipMetadata, ProposalTerms, RejectProposal, GossipData, GossipPacket,
}
pub mod Addressed
pub mod Exact

pub record ProtoTerms : Type 0 where
  pub beacon_id : Bytes
  pub epoch : ℕ  -- u32
  pub leader : Option Participant
  pub threshold : ℕ  -- u32
  pub timeout : Option Timestamp
  pub catchup_period_seconds : ℕ  -- u32
  pub beacon_period_seconds : ℕ  -- u32
  pub scheme_id : Bytes
  pub genesis_time : Option Timestamp
  pub genesis_seed : Bytes
  pub joining : List Participant
  pub remaining : List Participant
  pub leaving : List Participant

pub record ProtoReject : Type 0 where
  pub rejector : Option Participant
  pub reason : Bytes
  pub secret : Bytes
  pub previous_group_hash : Bytes
  pub proposal_hash : Bytes

-- The body of a gossip message. A DKG packet has optional metadata and an optional bundle, and is
-- optional itself.
pub data ProtoData : Type 0 where
  proposal : ProtoTerms → ProtoData
  accept : (acceptor : Option Participant) → ProtoData
  reject : ProtoReject → ProtoData
  execute : (time : Option Timestamp) → ProtoData
  abort : (reason : Bytes) → ProtoData
  dkg : Option (Option Bytes × Option ProtoBundle) → ProtoData

pub record ProtoPacket : Type 0 where
  pub metadata : Option GossipMetadata
  pub packet : Option ProtoData

pub data TransportError : Type 0 where
  invalid_address data_is_missing : TransportError

-- RequireSome::require_some.
abbrev pub require_some {ℓ} : {A : Type ℓ} → Option A → Result TransportError A
require_some o = ok_or o TransportError.data_is_missing

-- `is_address` is whether a text parses as an Authority with a host and a port, which keeps the
-- text. The message of a participant has the participant's fields.
module _ (is_address : Bytes → Bool) where
  unfoldable pub precheck : Bytes → Result TransportError Bytes
  precheck address = if is_address address then ok address else err TransportError.invalid_address

  unfoldable pub participant : Participant → Result TransportError Participant
  participant p = do
    address ← precheck p.address
    ok (record { address = address; key = p.key; signature = p.signature })

  -- `try_from_vec` of participants.
  unfoldable pub participants : List Participant → Result TransportError (List Participant)
  participants [] = ok []
  participants (p ∷ ps) = do q ← participant p; qs ← participants ps; ok (q ∷ qs)

  unfoldable pub gossip_metadata : GossipMetadata → Result TransportError GossipMetadata
  gossip_metadata m = do
    address ← precheck m.address
    ok (record { beacon_id = m.beacon_id; address = address; signature = m.signature })

  unfoldable pub proposal_terms : ProtoTerms → Result TransportError ProposalTerms
  proposal_terms p = do
    some_leader ← require_some p.leader
    leader ← participant some_leader
    timeout ← require_some p.timeout
    genesis_time ← require_some p.genesis_time
    joining ← participants p.joining
    remaining ← participants p.remaining
    leaving ← participants p.leaving
    ok (record {
      beacon_id = p.beacon_id;
      epoch = p.epoch;
      leader = leader;
      threshold = p.threshold;
      timeout = timeout;
      catchup_period_seconds = p.catchup_period_seconds;
      beacon_period_seconds = p.beacon_period_seconds;
      scheme_id = p.scheme_id;
      genesis_time = genesis_time;
      genesis_seed = p.genesis_seed;
      joining = joining;
      remaining = remaining;
      leaving = leaving;
    })

  unfoldable pub reject_proposal : ProtoReject → Result TransportError RejectProposal
  reject_proposal r = do
    some_rejector ← require_some r.rejector
    rejector ← participant some_rejector
    ok (record {
      rejector = rejector;
      reason = r.reason;
      secret = r.secret;
      previous_group_hash = r.previous_group_hash;
      proposal_hash = r.proposal_hash;
    })

  unfoldable pub gossip_data : ProtoData → Result TransportError GossipData
  gossip_data (ProtoData.proposal terms) = do t ← proposal_terms terms; ok (GossipData.proposal t)
  gossip_data (ProtoData.accept acceptor) = do
    some_acceptor ← require_some acceptor
    a ← participant some_acceptor
    ok (GossipData.accept a)
  gossip_data (ProtoData.reject r) = do
    rejection ← reject_proposal r
    ok (GossipData.reject rejection)
  gossip_data (ProtoData.execute time) = do t ← require_some time; ok (GossipData.execute t)
  gossip_data (ProtoData.abort reason) = ok (GossipData.abort reason)
  gossip_data (ProtoData.dkg packet) = do
    p ← require_some packet
    metadata ← require_some p.0
    bundle ← require_some p.1
    ok (GossipData.dkg metadata bundle)

  unfoldable pub validate : ProtoPacket → Result TransportError GossipPacket
  validate p = do
    packet ← require_some p.packet
    body ← gossip_data packet
    some_metadata ← require_some p.metadata
    metadata ← gossip_metadata some_metadata
    ok (record { metadata = metadata; body = body })

-- The `From` conversions.
unfoldable pub from_proposal_terms : ProposalTerms → ProtoTerms
from_proposal_terms t = record {
  beacon_id = t.beacon_id;
  epoch = t.epoch;
  leader = some t.leader;
  threshold = t.threshold;
  timeout = some t.timeout;
  catchup_period_seconds = t.catchup_period_seconds;
  beacon_period_seconds = t.beacon_period_seconds;
  scheme_id = t.scheme_id;
  genesis_time = some t.genesis_time;
  genesis_seed = t.genesis_seed;
  joining = t.joining;
  remaining = t.remaining;
  leaving = t.leaving;
}

unfoldable pub from_gossip_data : GossipData → ProtoData
from_gossip_data (GossipData.proposal terms) = ProtoData.proposal (from_proposal_terms terms)
from_gossip_data (GossipData.accept acceptor) = ProtoData.accept (some acceptor)
from_gossip_data (GossipData.reject r) = ProtoData.reject (record {
  rejector = some r.rejector;
  reason = r.reason;
  secret = r.secret;
  previous_group_hash = r.previous_group_hash;
  proposal_hash = r.proposal_hash;
})
from_gossip_data (GossipData.execute time) = ProtoData.execute (some time)
from_gossip_data (GossipData.abort reason) = ProtoData.abort reason
from_gossip_data (GossipData.dkg id bundle) = ProtoData.dkg (some (some id, some bundle))

unfoldable pub from_gossip_packet : GossipPacket → ProtoPacket
from_gossip_packet p = record {
  metadata = some p.metadata;
  packet = some (from_gossip_data p.body);
}
