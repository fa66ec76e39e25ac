-- ===== src/Dkg/Actions/Signed.antt =====
-- A gossip packet changes the files only under a valid signature: src/dkg/actions_passive.rs.
use drand_rs.Common.{
  Bytes, Option-cases, arith, find, inl, inr, ok, some, true, ◌∙◌, ◌≡◌, ◌⊎◌, >>-ok, >>=-ok, Option,
  find-test, map_err-ok,
}
use drand_rs.Common.Int.{ℤ}
use drand_rs.Dkg.Actions.{apply_packet_to_state}
use drand_rs.Dkg.Packet.{GossipPacket, Participant, Timestamp, get_execute}
use drand_rs.Dkg.Signing.{is_valid_signature, enc_state, msg_for_signing, sender, verify_msg}
use drand_rs.Dkg.State.{State}
use drand_rs.Dkg.Store.{DkgStore, get_last_succesful, save_current}
use drand_rs.Dkg.Transition.{apply}
use drand_rs.Scheme.{Authority, Scheme}

-- What a verified packet shows of its sender.
pub record IsSigned (S : Scheme) (au : Authority) (packet : GossipPacket) (t : State S)
    (p : Participant) : Type 0 where
  pub from : au.same p.address packet.metadata.address ≡ true
  pub member :
      (find (λ (q : Participant). au.same q.address packet.metadata.address) t.joining ≡ some p)
      ⊎ (find (λ (q : Participant). au.same q.address packet.metadata.address) t.remaining ≡ some p)
  pub signed :
      is_valid_signature S p.key packet.metadata.signature (msg_for_signing packet (enc_state S t))
      ≡ true

module _ (S : Scheme) (au : Authority) where
  sender-member :
      (t : State S) (address : Bytes) {p : Participant}
      → sender au t address ≡ some p
      → (find (λ (q : Participant). au.same q.address address) t.joining ≡ some p)
        ⊎ (find (λ (q : Participant). au.same q.address address) t.remaining ≡ some p)
  unfolding sender
  sender-member t address h =
      elim (Option-cases (find (λ (q : Participant). au.same q.address address) t.joining)) [
        | inl e ↦ inr (rw e at h)
        | inr (q, e) ↦ inl (e ∙ (rw e at h))
      ]

  verify_msg-IsSigned :
      (packet : GossipPacket) (t : State S)
      → verify_msg S au packet t ≡ ok tt
      → (p : Participant) × IsSigned S au packet t p
  unfolding verify_msg
  verify_msg-IsSigned packet t h = elim (Option-cases (sender au t packet.metadata.address)) [
    | inl e ↦ absurd (ground arith)
    | inr (p, e) ↦
        let member = sender-member t packet.metadata.address e in
        (
          p,
          record {
            from = elim member [
              | inl f ↦
                  find-test (λ (q : Participant). au.same q.address packet.metadata.address)
                    t.joining f
              | inr f ↦
                  find-test (λ (q : Participant). au.same q.address packet.metadata.address)
                    t.remaining f
            ];
            member = member;
            signed = ground arith;
          },
        )
  ]

  -- A gossip packet that is accepted writes to current.toml the state that `apply` gives, which
  -- follows the transition table, and leaves finished.toml alone. Its signature is valid under
  -- the key of a joining or remaining node of that state at the address that it claims to be from.
  pub apply_packet_to_state-IsSigned :
      (id : Bytes) (me : Participant) (now later : ℤ) (store : DkgStore S) (packet : GossipPacket)
      {saved : DkgStore S} {time : Option Timestamp}
      → apply_packet_to_state S au id me now later store packet ≡ ok (saved, time)
      → (s t : State S) × (get_last_succesful store id ≡ ok s)
        × (apply S au now later s me packet ≡ ok t)
        × (saved ≡ record store { current = some t })
        × (time ≡ get_execute packet.body)
        × ((p : Participant) × IsSigned S au packet t p)
  unfolding apply_packet_to_state save_current
  apply_packet_to_state-IsSigned id me now later store packet h =
      let (s, last, h1) = >>=-ok _ _ h in
      let (t, applied, h2) = >>=-ok _ _ h1 in
      let parts = >>-ok _ _ h2 in
      (
        s,
        t,
        map_err-ok _ _ last,
        map_err-ok _ _ applied,
        ground arith,
        ground arith,
        verify_msg-IsSigned packet t (map_err-ok _ _ parts.0),
      )
