-- ===== src/Dkg/Proto/Exact.antt =====
-- What the validation of a gossip message accepts: src/transport/dkg.rs.
use drand_rs.Common.{
  >>=-ok, Bool, Bool-cases, Bytes, List, Option, [], inl, inr, ok, some, ◌∷◌, ◌≡◌, ap, ok_injective,
  ok_or-ok, refl, true, subst, ◌∙◌,
}
use drand_rs.Dkg.Packet.{
  Timestamp, Participant, GossipMetadata, ProposalTerms, RejectProposal, GossipData, GossipPacket,
}
use drand_rs.Dkg.Proto.{
  ProtoTerms, ProtoReject, ProtoData, precheck, participant, participants, gossip_metadata,
  proposal_terms, reject_proposal, gossip_data, from_proposal_terms, from_gossip_data, require_some,
}

module _ (is_address : Bytes → Bool) where
  -- Every participant's address is one.
  unfoldable pub HasAddresses : List Participant → Type 0
  HasAddresses [] = Unit
  HasAddresses (p ∷ ps) = (is_address p.address ≡ true) × HasAddresses ps

  unfoldable pub IsAddressedTerms : ProposalTerms → Type 0
  IsAddressedTerms t =
      (is_address t.leader.address ≡ true)
      × HasAddresses t.joining
      × HasAddresses t.remaining
      × HasAddresses t.leaving

  unfoldable pub IsAddressedData : GossipData → Type 0
  IsAddressedData (GossipData.proposal t) = IsAddressedTerms t
  IsAddressedData (GossipData.accept a) = is_address a.address ≡ true
  IsAddressedData (GossipData.reject r) = is_address r.rejector.address ≡ true
  IsAddressedData (GossipData.execute _) = Unit
  IsAddressedData (GossipData.abort _) = Unit
  IsAddressedData (GossipData.dkg _ _) = Unit

  unfoldable pub IsAddressed : GossipPacket → Type 0
  IsAddressed p = (is_address p.metadata.address ≡ true) × IsAddressedData p.body

  precheck-ok :
      (a : Bytes) {b : Bytes} → precheck is_address a ≡ ok b → (a ≡ b) × (is_address b ≡ true)
  unfolding precheck
  precheck-ok a {b} h = elim (Bool-cases (is_address a)) [
    | inl e ↦
        let same = ok_injective (rw (e, precheck) at h) in
        (same, subst (λ x. is_address x ≡ true) same e)
    | inr e ↦ absurd (cc (rw (e, precheck) at h))
  ]

  participant-ok :
      (p : Participant) {q : Participant}
      → participant is_address p ≡ ok q
      → (p ≡ q) × (is_address q.address ≡ true)
  unfolding participant
  participant-ok p {q} h =
      let (a, e, h1) = >>=-ok (precheck is_address p.address) _ h in
      let (same, good) = precheck-ok p.address e in
      let back = ok_injective h1 in
      let whole : p ≡ record { address = a; key = p.key; signature = p.signature } =
        ap {B = Participant} (λ x. record { address = x; key = p.key; signature = p.signature })
          same in
      (cc, subst (λ x. is_address x.address ≡ true) back good)

  pub gossip_metadata-ok :
      (m : GossipMetadata) {n : GossipMetadata}
      → gossip_metadata is_address m ≡ ok n
      → (m ≡ n) × (is_address n.address ≡ true)
  unfolding gossip_metadata
  gossip_metadata-ok m {n} h =
      let (a, e, h1) = >>=-ok (precheck is_address m.address) _ h in
      let (same, good) = precheck-ok m.address e in
      let back = ok_injective h1 in
      let whole : m ≡ record { beacon_id = m.beacon_id; address = a; signature = m.signature } =
        λ i. record { beacon_id = m.beacon_id; address = same i; signature = m.signature } in
      (cc, subst (λ x. is_address x.address ≡ true) back good)

  participants-ok :
      (ps : List Participant) {qs : List Participant}
      → participants is_address ps ≡ ok qs
      → (ps ≡ qs) × HasAddresses qs
  unfolding participants HasAddresses
  participants-ok [] h = subst (λ l. ([] ≡ l) × HasAddresses l) (ok_injective h) (refl, tt)
  participants-ok (p ∷ ps) h =
      let (q, e, h1) = >>=-ok (participant is_address p) _ h in
      let (qs, e', h2) = >>=-ok (participants is_address ps) _ h1 in
      let (same, good) = participant-ok p e in
      let (sames, goods) = participants-ok ps e' in
      subst (λ l. (p ∷ ps ≡ l) × HasAddresses l) (ok_injective h2) (cc, (good, goods))

  reject_proposal-ok :
      (q : ProtoReject) {r : RejectProposal}
      → reject_proposal is_address q ≡ ok r
      → (ProtoData.reject q ≡ from_gossip_data (GossipData.reject r))
        × (is_address r.rejector.address ≡ true)
  unfolding reject_proposal from_gossip_data
  reject_proposal-ok q h =
      let (l, e, h1) = >>=-ok (require_some q.rejector) _ h in
      let e' = ok_or-ok q.rejector _ e in
      let (p, f, h2) = >>=-ok (participant is_address l) _ h1 in
      let (same, good) = participant-ok l f in
      subst
        (λ r.
          (ProtoData.reject q ≡ from_gossip_data (GossipData.reject r))
          × (is_address r.rejector.address ≡ true))
        (ok_injective h2) (ap ProtoData.reject (cc), good)

  with_fields :
      (q : ProtoTerms) {leader : Option Participant} {timeout genesis_time : Option Timestamp}
      {joining remaining leaving : List Participant}
      → q.leader ≡ leader
      → q.timeout ≡ timeout
      → q.genesis_time ≡ genesis_time
      → q.joining ≡ joining
      → q.remaining ≡ remaining
      → q.leaving ≡ leaving
      → q ≡ record {
        beacon_id = q.beacon_id;
        epoch = q.epoch;
        leader = leader;
        threshold = q.threshold;
        timeout = timeout;
        catchup_period_seconds = q.catchup_period_seconds;
        beacon_period_seconds = q.beacon_period_seconds;
        scheme_id = q.scheme_id;
        genesis_time = genesis_time;
        genesis_seed = q.genesis_seed;
        joining = joining;
        remaining = remaining;
        leaving = leaving;
      }
  with_fields q h1 h2 h3 h4 h5 h6 = λ i. record {
    beacon_id = q.beacon_id;
    epoch = q.epoch;
    leader = h1 i;
    threshold = q.threshold;
    timeout = h2 i;
    catchup_period_seconds = q.catchup_period_seconds;
    beacon_period_seconds = q.beacon_period_seconds;
    scheme_id = q.scheme_id;
    genesis_time = h3 i;
    genesis_seed = q.genesis_seed;
    joining = h4 i;
    remaining = h5 i;
    leaving = h6 i;
  }

  proposal_terms-ok :
      (q : ProtoTerms) {t : ProposalTerms}
      → proposal_terms is_address q ≡ ok t
      → (q ≡ from_proposal_terms t) × IsAddressedTerms t
  unfolding proposal_terms from_proposal_terms IsAddressedTerms
  proposal_terms-ok q h =
      let (l, e1, h1) = >>=-ok (require_some q.leader) _ h in
      let (leader, e2, h2) = >>=-ok (participant is_address l) _ h1 in
      let (timeout, e3, h3) = >>=-ok (require_some q.timeout) _ h2 in
      let (genesis, e4, h4) = >>=-ok (require_some q.genesis_time) _ h3 in
      let (joining, e5, h5) = >>=-ok (participants is_address q.joining) _ h4 in
      let (remaining, e6, h6) = >>=-ok (participants is_address q.remaining) _ h5 in
      let (leaving, e7, h7) = >>=-ok (participants is_address q.leaving) _ h6 in
      let f1 = ok_or-ok q.leader _ e1 in
      let f3 = ok_or-ok q.timeout _ e3 in
      let f4 = ok_or-ok q.genesis_time _ e4 in
      let (same2, good2) = participant-ok l e2 in
      let (same5, good5) = participants-ok q.joining e5 in
      let (same6, good6) = participants-ok q.remaining e6 in
      let (same7, good7) = participants-ok q.leaving e7 in
      subst (λ t. (q ≡ from_proposal_terms t) × IsAddressedTerms t) (ok_injective h7)
        (with_fields q (f1 ∙ ap some same2) f3 f4 same5 same6 same7, (good2, good5, good6, good7))

  pub gossip_data-ok :
      (q : ProtoData) {d : GossipData}
      → gossip_data is_address q ≡ ok d
      → (q ≡ from_gossip_data d) × IsAddressedData d
  unfolding gossip_data from_gossip_data IsAddressedData
  gossip_data-ok (ProtoData.proposal q) h =
      let (t, e, h1) = >>=-ok (proposal_terms is_address q) _ h in
      let (same, good) = proposal_terms-ok q e in
      subst (λ d. (ProtoData.proposal q ≡ from_gossip_data d) × IsAddressedData d) (ok_injective h1)
        (ap ProtoData.proposal same, good)
  gossip_data-ok (ProtoData.accept acceptor) h =
      let (l, e, h1) = >>=-ok (require_some acceptor) _ h in
      let (p, f, h2) = >>=-ok (participant is_address l) _ h1 in
      let (same, good) = participant-ok l f in
      subst (λ d. (ProtoData.accept acceptor ≡ from_gossip_data d) × IsAddressedData d)
        (ok_injective h2) (ap ProtoData.accept (ok_or-ok acceptor _ e ∙ ap some same), good)
  gossip_data-ok (ProtoData.reject r) h =
      let (rejection, e, h1) = >>=-ok (reject_proposal is_address r) _ h in
      subst (λ d. (ProtoData.reject r ≡ from_gossip_data d) × IsAddressedData d) (ok_injective h1)
        (reject_proposal-ok r e)
  gossip_data-ok (ProtoData.execute time) h =
      let (t, e, h1) = >>=-ok (require_some time) _ h in
      subst (λ d. (ProtoData.execute time ≡ from_gossip_data d) × IsAddressedData d)
        (ok_injective h1) (ap ProtoData.execute (ok_or-ok time _ e), tt)
  gossip_data-ok (ProtoData.abort reason) h =
      subst (λ d. (ProtoData.abort reason ≡ from_gossip_data d) × IsAddressedData d)
        (ok_injective h) (refl, tt)
  gossip_data-ok (ProtoData.dkg packet) h =
      let ((id, bundle), e, h1) = >>=-ok (require_some packet) _ h in
      let (m, f, h2) = >>=-ok (require_some id) _ h1 in
      let (b, g, h3) = >>=-ok (require_some bundle) _ h2 in
      let e' = ok_or-ok packet _ e in
      let f' = ok_or-ok id _ f in
      let g' = ok_or-ok bundle _ g in
      subst (λ d. (ProtoData.dkg packet ≡ from_gossip_data d) × IsAddressedData d) (ok_injective h3)
        (ap ProtoData.dkg (e' ∙ (λ i. some (f' i, g' i))), tt)
