-- ===== src/Core/Process.antt =====
-- What a beacon process does with a gossip packet: src/core/beacon.rs, over the gate, the state and the
-- start of a DKG.
pub mod Starts
use drand_rs.Chain.Commands.{start}
use drand_rs.Common.{Bytes, Option, Result, err, none, ok, some}
use drand_rs.Common.Int.{ℤ}
use drand_rs.Dkg.Actions.{ActionsError}
use drand_rs.Dkg.Execution.{Config, Running, setup_and_run_dkg}
use drand_rs.Dkg.Gate.{gossip, BundleSender, GateKeeper}
use drand_rs.Dkg.Packet.{GossipPacket, Participant, Timestamp}
use drand_rs.Dkg.Store.{DkgStore}
use drand_rs.Key.Group.{Identity}
use drand_rs.Scheme.{Authority, Scheme}

module _ (S : Scheme) (private_key : S.Scalar) (identity : Identity S) where
  -- The gate, the files of the DKG, and the run that has been started last.
  pub record Process : Type 0 where
    pub gate : GateKeeper S
    pub store : DkgStore S
    pub dkg_run : Option (Running S private_key identity)

  module _ (system_time : Timestamp → Option ℤ) (new_dkg : Config S → Option (BundleSender S)) where
    -- The run starts at the time of an accepted execute packet.
    start_dkg : ℤ → Process → Timestamp → Process × Result ActionsError (Unit {0})
    start_dkg now p time =
        elim (setup_and_run_dkg S private_key identity system_time new_dkg now p.store p.gate
          time) [
            | err e ↦ (p, err e)
            | ok (gate, running) ↦ (record p { gate = gate; dkg_run = some running }, ok tt)
          ]

    after_packet :
        ℤ
        → Process
        → Result ActionsError (Option Timestamp)
        → Process × Result ActionsError (Unit {0})
    unfolding start_dkg
    after_packet now p (err e) = (p, err e)
    after_packet now p (ok none) = (p, ok tt)
    after_packet now p (ok (some time)) = start_dkg now p time

    -- `BeaconProcess::gossip`. The clock is read by the validation, by `apply` and by the start.
    unfoldable pub process_gossip :
        Authority
        → Bytes
        → Participant
        → (now later start : ℤ) → Process
        → GossipPacket
        → Process × Result ActionsError (Unit {0})
    unfolding after_packet
    process_gossip au id me now later start p packet =
        let (gate, store, result) = gossip S au id me now later p.gate p.store packet in
        after_packet start (record p { gate = gate; store = store }) result
