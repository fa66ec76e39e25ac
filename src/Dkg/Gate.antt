-- ===== src/Dkg/Gate.antt =====
-- The gate to the DKG of a beacon: GateKeeper of src/dkg/utils.rs, and the handling of a gossip
-- packet behind it, src/core/beacon.rs. The set of hexadecimal prefixes is a list of the bytes.
use drand_rs.Common.{
  Bool, Bytes, List, Option, Result, [], any, bytes_eq, err, false, if◌then◌else◌, length, ltb,
  none, ok, some, take, true, ℕ, ◌++◌, ◌∷◌,
}
use drand_rs.Common.Int.{ℤ}
use drand_rs.Dkg.Actions.{ActionsError, apply_packet_to_state}
use drand_rs.Dkg.Bundle.{Bundle, DkgPacket, bundle_from_proto}
use drand_rs.Dkg.Packet.{GossipPacket, Participant, Timestamp}
use drand_rs.Dkg.Store.{DkgStore}
use drand_rs.Scheme.{Authority, Scheme}
pub mod Once

-- `SHORT_SIG_BYTES`.
abbrev pub short_sig_bytes : ℕ
short_sig_bytes = 3

-- The sender of a channel: whether its receiver is there, and what it has sent.
pub record BundleSender (S : Scheme) : Type 0 where
  pub open_rx : Bool
  pub sent : List (Bundle S)

pub record GateKeeper (S : Scheme) : Type 0 where
  pub seen_gossip : List Bytes
  pub bundle_sender : Option (BundleSender S)

-- signature.get(..SHORT_SIG_BYTES).
unfoldable pub short_sig : GossipPacket → Option Bytes
short_sig p =
    if ltb (length p.metadata.signature) short_sig_bytes
    then none
    else some (take short_sig_bytes p.metadata.signature)

-- HashSet::contains.
unfoldable pub seen : List Bytes → Bytes → Bool
unfolding any
seen set sig = any (λ x. bytes_eq x sig) set

module _ (S : Scheme) where
  unfoldable pub open_gate : GateKeeper S → BundleSender S → Result ActionsError (GateKeeper S)
  open_gate g tx = elim g.bundle_sender [
    | some old ↦ err ActionsError.protocol_already_running
    | none ↦ ok (record g { bundle_sender = some tx })
  ]

  unfoldable pub set_empty : GateKeeper S → GateKeeper S
  set_empty g = record { seen_gossip = []; bundle_sender = none }

  unfoldable pub is_new_packet : GateKeeper S → GossipPacket → GateKeeper S × Bool
  is_new_packet g p = elim (short_sig p) [
    | none ↦ (g, false)
    | some sig ↦
        if seen g.seen_gossip sig
        then (g, false)
        else (record g { seen_gossip = sig ∷ g.seen_gossip }, true)
  ]

  unfoldable pub broadcast :
      GateKeeper S → DkgPacket → GateKeeper S × Result ActionsError (Unit {0})
  broadcast g proto = elim g.bundle_sender [
    | none ↦ (g, err ActionsError.protocol_is_not_running)
    | some tx ↦ elim (bundle_from_proto S proto) [
      | none ↦ (g, err ActionsError.invalid_proto_bundle)
      | some bundle ↦
          if tx.open_rx
          then (
            record g { bundle_sender = some (record tx { sent = tx.sent ++ bundle ∷ [] }) },
            ok tt,
          )
          else (g, err ActionsError.protocol_is_not_running)
    ]
  ]

  -- The files after a packet, and the time at which a DKG is to be started.
  stored_after :
      DkgStore S
      → Result ActionsError (DkgStore S × Option Timestamp)
      → DkgStore S × Result ActionsError (Option Timestamp)
  stored_after store (ok (saved, time)) = (saved, ok time)
  stored_after store (err e) = (store, err e)

  -- `BeaconProcess::gossip`, up to the run of the DKG that an execute packet starts.
  unfoldable pub gossip :
      Authority
      → Bytes
      → Participant
      → (now later : ℤ) → GateKeeper S
      → DkgStore S
      → GossipPacket
      → GateKeeper S × DkgStore S × Result ActionsError (Option Timestamp)
  unfolding stored_after
  gossip au id me now later g store p =
      let (g', is_new) = is_new_packet g p in
      let (saved, result) =
        stored_after store (apply_packet_to_state S au id me now later store p) in
      if is_new then (g', saved, result) else (g', store, ok none)
