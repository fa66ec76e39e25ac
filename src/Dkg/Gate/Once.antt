-- ===== src/Dkg/Gate/Once.antt =====
-- What passes the gate: src/dkg/utils.rs.
use drand_rs.Common.{
  Bool-cases, Bytes, Option-cases, [], any, bytes_eq_refl, false, inl, inr, none, ok, refl, some,
  true, ◌++◌, ◌∷◌, ◌≡◌, ◌⊎◌,
}
use drand_rs.Common.Int.{ℤ}
use drand_rs.Dkg.Bundle.{Bundle, DkgPacket, into_proto}
use drand_rs.Dkg.Bundle.Convert.{bundle_from_proto-into_proto}
use drand_rs.Dkg.Gate.{GateKeeper, BundleSender, short_sig, seen, is_new_packet, gossip, broadcast}
use drand_rs.Dkg.Packet.{GossipPacket, Participant}
use drand_rs.Dkg.Store.{DkgStore}
use drand_rs.Scheme.{Authority, Scheme}

module _ (S : Scheme) where
  -- The gate knows the signature's first bytes, or there are too few.
  abbrev IsKnown : GateKeeper S → GossipPacket → Type 0
  IsKnown g p =
      (short_sig p ≡ none)
      ⊎ ((sig : Bytes) × (short_sig p ≡ some sig) × (seen g.seen_gossip sig ≡ true))

  is_new_packet-IsKnown : (g : GateKeeper S) (p : GossipPacket) → IsKnown (is_new_packet S g p).0 p
  unfolding is_new_packet
  is_new_packet-IsKnown g p = elim (Option-cases (short_sig p)) [
    | inl short ↦ inl short
    | inr (sig, long) ↦ inr (
      sig,
      long,
      elim (Bool-cases (seen g.seen_gossip sig)) [
        | inl old ↦ rw (long, old, is_new_packet) old
        | inr young ↦
            rw (long, young, is_new_packet) (unfold seen any in rw (bytes_eq_refl sig) refl)
      ],
    )
  ]

  IsKnown-is_new_packet :
      (g : GateKeeper S) (p : GossipPacket) → IsKnown g p → is_new_packet S g p ≡ (g, false)
  unfolding is_new_packet
  IsKnown-is_new_packet g p (inl short) = rw (short, is_new_packet) refl
  IsKnown-is_new_packet g p (inr (sig, long, old)) = rw (long, old, is_new_packet) refl

  gossip-gate :
      (au : Authority) (id : Bytes) (me : Participant) (now later : ℤ) (g : GateKeeper S)
      (store : DkgStore S) (q : GossipPacket)
      → (gossip S au id me now later g store q).0 ≡ (is_new_packet S g q).0
  unfolding gossip
  gossip-gate au id me now later g store q = elim (Bool-cases (is_new_packet S g q).1) [
    | inl young ↦ rw (young, gossip) refl
    | inr old ↦ rw (old, gossip) refl
  ]

  -- After a gossip packet, whatever became of it, a packet whose signature begins with the same
  -- three bytes changes nothing and gets no error.
  pub gossip_once :
      (au : Authority) (id : Bytes) (me : Participant) (now later now' later' : ℤ)
      (g : GateKeeper S) (store store' : DkgStore S) (q p : GossipPacket)
      → short_sig p ≡ short_sig q
      → gossip S au id me now' later' (gossip S au id me now later g store q).0 store' p
        ≡ ((gossip S au id me now later g store q).0, store', ok none)
  unfolding gossip
  gossip_once au id me now later now' later' g store store' q p e =
      let g' = (is_new_packet S g q).0 in
      let known : IsKnown g' p = rw e (is_new_packet-IsKnown g q) in
      let again = IsKnown-is_new_packet g' p known in
      let same : (gossip S au id me now later g store q).0 ≡ g' =
        gossip-gate au id me now later g store q in
      rw same (rw (again, gossip) refl)

  -- While the gate is open, the packet of a bundle arrives as that bundle.
  pub broadcast-into_proto :
      (g : GateKeeper S) (tx : BundleSender S) (b : Bundle S) (id : Bytes) {p : DkgPacket}
      → g.bundle_sender ≡ some tx
      → tx.open_rx ≡ true
      → into_proto S b id ≡ ok p
      → ((broadcast S g p).1 ≡ ok tt)
        × ((broadcast S g p).0
            ≡ record g { bundle_sender = some (record tx { sent = tx.sent ++ b ∷ [] }) })
  unfolding broadcast
  broadcast-into_proto g tx b id e live h =
      rw (e, bundle_from_proto-into_proto S b id h, broadcast) (rw live (refl, refl))
