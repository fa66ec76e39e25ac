-- ===== src/Dkg/Proto/Addressed.antt =====
-- A gossip message passes the validation exactly when it is the message of the packet that comes
-- out, with addresses that parse: src/transport/dkg.rs.
use drand_rs.Common.{
  >>=-ok, Bool, Bytes, List, [], ok, some, ◌∷◌, ◌≡◌, ap, ok_injective, ok_or-ok, refl, true, subst,
  ◌↔◌, ◌∙◌,
}
use drand_rs.Dkg.Packet.{Participant, GossipMetadata, ProposalTerms, GossipData, GossipPacket}
use drand_rs.Dkg.Proto.{
  ProtoPacket, precheck, participant, participants, gossip_metadata, proposal_terms,
  reject_proposal, gossip_data, validate, from_proposal_terms, from_gossip_data, from_gossip_packet,
  require_some,
}
use drand_rs.Dkg.Proto.Exact.{
  HasAddresses, IsAddressedTerms, IsAddressedData, IsAddressed, gossip_metadata-ok, gossip_data-ok,
}

module _ (is_address : Bytes → Bool) where
  precheck-true : (a : Bytes) → is_address a ≡ true → precheck is_address a ≡ ok a
  unfolding precheck
  precheck-true a h = rw (h) refl

  participant-true :
      (p : Participant) → is_address p.address ≡ true → participant is_address p ≡ ok p
  unfolding participant
  participant-true p h = rw (precheck-true p.address h) refl

  participants-true :
      (ps : List Participant) → HasAddresses is_address ps → participants is_address ps ≡ ok ps
  unfolding participants HasAddresses
  participants-true [] h = refl
  participants-true (p ∷ ps) (h, hs) = rw (participant-true p h, participants-true ps hs) refl

  gossip_metadata-true :
      (m : GossipMetadata) → is_address m.address ≡ true → gossip_metadata is_address m ≡ ok m
  unfolding gossip_metadata
  gossip_metadata-true m h = rw (precheck-true m.address h) refl

  proposal_terms-from_proposal_terms :
      (t : ProposalTerms)
      → IsAddressedTerms is_address t
      → proposal_terms is_address (from_proposal_terms t) ≡ ok t
  unfolding proposal_terms from_proposal_terms IsAddressedTerms
  proposal_terms-from_proposal_terms t (l, j, r, v) =
      rw
        (
          participant-true t.leader l,
          participants-true t.joining j,
          participants-true t.remaining r,
          participants-true t.leaving v,
        )
        refl

  gossip_data-from_gossip_data :
      (d : GossipData)
      → IsAddressedData is_address d
      → gossip_data is_address (from_gossip_data d) ≡ ok d
  unfolding gossip_data from_gossip_data IsAddressedData reject_proposal
  gossip_data-from_gossip_data (GossipData.proposal t) h =
      rw (proposal_terms-from_proposal_terms t h) refl
  gossip_data-from_gossip_data (GossipData.accept a) h = rw (participant-true a h) refl
  gossip_data-from_gossip_data (GossipData.reject r) h = rw (participant-true r.rejector h) refl
  gossip_data-from_gossip_data (GossipData.execute time) h = refl
  gossip_data-from_gossip_data (GossipData.abort reason) h = refl
  gossip_data-from_gossip_data (GossipData.dkg id bundle) h = refl

  -- The validation of a gossip message comes out with a packet exactly when the message is the one
  -- that the packet converts to and every address of the packet, of the sender and of the
  -- participants, is accepted by the parser: nothing that is accepted is changed or lost.
  pub validate-from_gossip_packet :
      (q : ProtoPacket) (p : GossipPacket)
      → (validate is_address q ≡ ok p) ↔ ((q ≡ from_gossip_packet p) × IsAddressed is_address p)
  unfolding validate from_gossip_packet IsAddressed
  validate-from_gossip_packet q p = (there, back)
    where
      there : validate is_address q ≡ ok p → (q ≡ from_gossip_packet p) × IsAddressed is_address p
      there h =
          let (packet, e, h1) = >>=-ok (require_some q.packet) _ h in
          let (d, f, h2) = >>=-ok (gossip_data is_address packet) _ h1 in
          let (m, g, h3) = >>=-ok (require_some q.metadata) _ h2 in
          let (n, k, h4) = >>=-ok (gossip_metadata is_address m) _ h3 in
          let (same, good) = gossip_data-ok is_address packet f in
          let (same', good') = gossip_metadata-ok is_address m k in
          let first = ok_or-ok q.metadata _ g ∙ ap some same' in
          let second = ok_or-ok q.packet _ e ∙ ap some same in
          subst (λ p. (q ≡ from_gossip_packet p) × IsAddressed is_address p) (ok_injective h4)
            ((λ i. record { metadata = first i; packet = second i }), (good', good))

      back : (q ≡ from_gossip_packet p) × IsAddressed is_address p → validate is_address q ≡ ok p
      back (same, (good, goods)) =
          rw (same, gossip_data-from_gossip_data p.body goods, gossip_metadata-true p.metadata good)
            refl
