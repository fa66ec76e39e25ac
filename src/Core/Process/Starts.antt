-- ===== src/Core/Process/Starts.antt =====
-- When a beacon process starts a DKG: src/core/beacon.rs.
use drand_rs.Chain.Commands.{start}
use drand_rs.Common.{
  Bool-cases, Bytes, Option, Result, Result-cases, ap, err, inl, inr, none, ok, ok_injective, refl,
  some, some_injective, subst, sym, true, ◌∙◌, ◌≡◌,
}
use drand_rs.Common.Int.{ℤ}
use drand_rs.Core.Process.{Process, start_dkg, after_packet, process_gossip}
use drand_rs.Dkg.Actions.{ActionsError, apply_packet_to_state}
use drand_rs.Dkg.Actions.Signed.{IsSigned, apply_packet_to_state-IsSigned}
use drand_rs.Dkg.Execution.{setup_and_run_dkg, Running, Config}
use drand_rs.Dkg.Execution.Setup.{setup_and_run_dkg-current}
use drand_rs.Dkg.Gate.{gossip, is_new_packet, BundleSender, GateKeeper}
use drand_rs.Dkg.Packet.{GossipPacket, Participant, Timestamp, get_execute}
use drand_rs.Dkg.State.{State}
use drand_rs.Dkg.Store.{DkgStore, get_current, get_last_succesful}
use drand_rs.Dkg.Transition.{apply}
use drand_rs.Key.Group.{Identity}
use drand_rs.Scheme.{Authority, Scheme}

module _ (S : Scheme) where
  stored_current :
      (store saved : DkgStore S) (t : State S) {u : State S}
      → saved ≡ record store { current = some t }
      → get_current saved ≡ ok u
      → t ≡ u
  unfolding get_current
  stored_current store saved t {u} e h =
      let there : get_current (record store { current = some t }) ≡ ok u =
        subst (λ (x : DkgStore S). get_current x ≡ ok u) e h in
      elim (Bool-cases store.exists) [
        | inl folder ↦ ok_injective (rw (folder, get_current) at there)
        | inr no_folder ↦ absurd (cc (rw (no_folder, get_current) at there))
      ]

  -- A new packet whose application has a result is what gossip gives on.
  gossip-executes :
      (au : Authority) (id : Bytes) (me : Participant) (now later : ℤ) (g : GateKeeper S)
      (store : DkgStore S) (packet : GossipPacket) {time : Timestamp}
      → (gossip S au id me now later g store packet).2 ≡ ok (some time)
      → ((is_new_packet S g packet).1 ≡ true)
        × (apply_packet_to_state S au id me now later store packet
            ≡ ok ((gossip S au id me now later g store packet).1, some time))
  unfolding gossip
  gossip-executes au id me now later g store packet {time} h =
      elim (Bool-cases (is_new_packet S g packet).1) [
        | inr old ↦ absurd (cc (rw (old, gossip) at h))
        | inl new ↦ elim (Result-cases (apply_packet_to_state S au id me now later store packet)) [
          | inr (e, bad) ↦ absurd (cc (rw (new, bad, gossip) at h))
          | inl (x, fine) ↦
              let t : x.1 ≡ some time = ok_injective (rw (new, fine, gossip) at h) in
              (new, rw (new, fine, gossip) (ap ok (ap (λ z. (x.0, z)) t)))
        ]
      ]

  module _ (private_key : S.Scalar) (identity : Identity S) (system_time : Timestamp → Option ℤ)
      (new_dkg : Config S → Option (BundleSender S)) where
    after_packet-starts :
        (now : ℤ) (p : Process S private_key identity)
        (result : Result ActionsError (Option Timestamp)) {r : Running S private_key identity}
        → p.dkg_run ≡ none
        → (after_packet S private_key identity system_time new_dkg now p result).0.dkg_run ≡ some r
        → (time : Timestamp) × (result ≡ ok (some time))
          × (get_current p.store ≡ ok r.current)
          × ((after_packet S private_key identity system_time new_dkg now p result).0.store
              ≡ p.store)
    unfolding after_packet start_dkg
    after_packet-starts now p (err e) idle h = absurd (cc (idle, h))
    after_packet-starts now p (ok none) idle h = absurd (cc (idle, h))
    after_packet-starts now p (ok (some time)) {r} idle h =
        elim (Result-cases
          (setup_and_run_dkg S private_key identity system_time new_dkg now p.store p.gate time)) [
            | inr (e, bad) ↦ absurd (cc (idle, rw (bad, start_dkg) at h))
            | inl (x, fine) ↦
                let same : x.1 ≡ r = some_injective (rw (fine, start_dkg) at h) in
                (
                  time,
                  refl,
                  setup_and_run_dkg-current S private_key identity system_time new_dkg now p.store
                        p.gate time fine
                      ∙ ap (λ (y : Running S private_key identity). ok y.current) same,
                  rw (fine, start_dkg) refl,
                )
          ]

    -- A process without a run starts one only for a new execute packet that is accepted: the run
    -- takes the state that `apply` gives, which is now in current.toml, and the packet is signed by a
    -- joining or remaining node of that state at the address that it claims to be from.
    pub process_gossip-IsSigned :
        (au : Authority) (id : Bytes) (me : Participant) (now later start : ℤ)
        (p : Process S private_key identity) (packet : GossipPacket)
        {r : Running S private_key identity}
        → p.dkg_run ≡ none
        → (process_gossip S private_key identity system_time new_dkg au id me now later start p
            packet).0.dkg_run
          ≡ some r
        → ((is_new_packet S p.gate packet).1 ≡ true)
          × ((time : Timestamp) × (get_execute packet.body ≡ some time))
          × ((s : State S) × (get_last_succesful p.store id ≡ ok s)
              × (apply S au now later s me packet ≡ ok r.current))
          × ((process_gossip S private_key identity system_time new_dkg au id me now later start p
                packet).0.store
              ≡ record p.store { current = some r.current })
          × ((q : Participant) × IsSigned S au packet r.current q)
    unfolding process_gossip
    process_gossip-IsSigned au id me now later start p packet {r} idle h =
        let g = gossip S au id me now later p.gate p.store packet in
        let (time, result, current, kept) =
          after_packet-starts start (record p { gate = g.0; store = g.1 }) g.2 idle h in
        let (new, accepted) = gossip-executes au id me now later p.gate p.store packet result in
        let (s, t, last, applied, saved, execute, (q, signed)) =
          apply_packet_to_state-IsSigned S au id me now later p.store packet accepted in
        let same : t ≡ r.current = stored_current p.store g.1 t saved current in
        (
          new,
          (time, sym execute),
          (s, last, applied ∙ ap ok same),
          kept ∙ saved ∙ ap (λ x. record p.store { current = some x }) same,
          (q, subst (λ x. IsSigned S au packet x q) same signed),
        )
