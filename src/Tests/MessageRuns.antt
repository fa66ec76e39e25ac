-- ===== src/Tests/MessageRuns.antt =====
-- Runs of the DKG's messages, the gate and a reshare under the toy scheme: src/dkg and src/transport.
use drand_rs.Common.{
  Bytes, [], arith, bytes_eq, false, none, ok, refl, some, true, ◌++◌, ◌∷◌, ◌≡◌, all, any, Bool,
  ◌==◌, ◌||◌,
}
use drand_rs.Common.Int.{ℤ}
use drand_rs.Common.Text.{text}
use drand_rs.Dkg.Bundle.{Bundle, DkgPacket, ProtoBundle, into_proto, bundle_into, bundle_from_proto}
use drand_rs.Dkg.Bundle.Convert.{bundle_from_proto-into_proto}
use drand_rs.Dkg.Gate.{GateKeeper, BundleSender, gossip, short_sig, broadcast}
use drand_rs.Dkg.Gate.Once.{gossip_once, broadcast-into_proto}
use drand_rs.Dkg.Packet.{GossipPacket, Participant, ProposalTerms}
use drand_rs.Dkg.Proto.{validate, from_gossip_packet}
use drand_rs.Dkg.Proto.Addressed.{validate-from_gossip_packet}
use drand_rs.Dkg.Proto.Exact.{IsAddressed, IsAddressedData, IsAddressedTerms, HasAddresses}
use drand_rs.Dkg.State.{State, from_terms}
use drand_rs.Dkg.Status.{Status}
use drand_rs.Dkg.Validate.{validate_reshare_for_remainers, contains_text}
use drand_rs.Dkg.Validate.Proposal.{remainers_outsiders_accepted}
use drand_rs.Key.Group.{Group, Node}
use drand_rs.Tests.Toy.{toy, exact}
use drand_rs.Tests.DkgData.{me, terms, proposed_state, proposal, new_folder}

-- A reshare of a group of one node, in which a node that is not of the group remains, and another
-- one leaves.
abbrev stranger : Bytes → Participant
stranger address = record { address = address; key = []; signature = [] }

abbrev member : Node toy
member = record {
  identity = record { address = text "a:1"; key = 5 ∷ []; signature = text "toy" ++ 5 ∷ [] };
  index = 0;
}

abbrev old_group : Group toy
old_group = record {
  threshold = 1;
  period = 3;
  catchup_period = 1;
  genesis_time = 200;
  transition_time = 200;
  genesis_seed = [];
  beacon_id = text "default";
  nodes = member ∷ [];
  dist_key = [];
}

abbrev completed : State toy
completed = record proposed_state { status = Status.complete; final_group = some old_group }

abbrev reshare : ProposalTerms
reshare = record terms {
  epoch = 2;
  joining = [];
  remaining = me ∷ stranger (text "evil:1") ∷ [];
  leaving = stranger (text "gone:1") ∷ [];
}

remainers_outsiders_accepted_example : validate_reshare_for_remainers toy completed reshare ≡ ok tt
unfolding bytes_eq contains_text from_terms all any
remainers_outsiders_accepted_example =
    remainers_outsiders_accepted toy completed reshare old_group refl refl refl refl refl
      (omega arith)

-- A packet that is refused, since its sender is not the leader, with the proposal's signature.
abbrev forged : GossipPacket
forged = record proposal {
  metadata = record {
    beacon_id = text "default";
    address = text "evil:1";
    signature = proposal.metadata.signature;
  };
}

abbrev gate : GateKeeper toy
gate = record { seen_gossip = []; bundle_sender = none }

gossip_once_example :
    gossip toy exact
      (text "default")
      me
      (ℤ.pos 0)
      (ℤ.pos 0)
      (gossip toy exact (text "default") me (ℤ.pos 0) (ℤ.pos 0) gate new_folder forged).0
      new_folder
      proposal
    ≡ (
      (gossip toy exact (text "default") me (ℤ.pos 0) (ℤ.pos 0) gate new_folder forged).0,
      new_folder,
      ok none,
    )
unfolding short_sig
gossip_once_example =
    gossip_once toy exact (text "default") me (ℤ.pos 0) (ℤ.pos 0) (ℤ.pos 0) (ℤ.pos 0) gate
      new_folder new_folder forged proposal refl

abbrev response : Bundle toy
response = Bundle.response (record {
  share_index = 1;
  responses = record { dealer_index = 0; status = true } ∷ [];
  session_id = 9 ∷ [];
  signature = [];
})

abbrev response_packet : DkgPacket
response_packet = record {
  dkg = some (record {
    beacon_id = some (text "default");
    bundle = some (
        ProtoBundle.response (record {
          share_index = 1;
          responses = record { dealer_index = 0; status = true } ∷ [];
          session_id = 9 ∷ [];
          signature = [];
        }));
  });
}

abbrev sender_rx : BundleSender toy
sender_rx = record { open_rx = true; sent = [] }

abbrev open_gatekeeper : GateKeeper toy
open_gatekeeper = record { seen_gossip = []; bundle_sender = some sender_rx }

broadcast-into_proto_example :
    ((broadcast toy open_gatekeeper response_packet).1 ≡ ok tt)
    × ((broadcast toy open_gatekeeper response_packet).0 ≡ record open_gatekeeper {
      bundle_sender = some (record sender_rx { sent = response ∷ [] });
    })
unfolding into_proto bundle_into
broadcast-into_proto_example =
    broadcast-into_proto toy open_gatekeeper sender_rx response (text "default")
      {p = response_packet} refl refl refl

bundle_from_proto-into_proto_example : bundle_from_proto toy response_packet ≡ some response
unfolding into_proto bundle_into
bundle_from_proto-into_proto_example =
    bundle_from_proto-into_proto toy response (text "default") {p = response_packet} refl

-- A host and a port.
abbrev has_port : Bytes → Bool
has_port [] = false
has_port (b ∷ bs) = b == 58 || has_port bs

validate-from_gossip_packet_example : validate has_port (from_gossip_packet proposal) ≡ ok proposal
unfolding IsAddressed IsAddressedData IsAddressedTerms HasAddresses
validate-from_gossip_packet_example =
    (validate-from_gossip_packet has_port (from_gossip_packet proposal) proposal).1
      (refl, (refl, (refl, (refl, tt), tt, tt)))
