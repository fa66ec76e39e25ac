-- ===== src/Net/Pool/Awaited.antt =====
-- The peers of a new beacon id that are not connected yet: src/net/pool.rs.
use drand_rs.Common.{
  Bool-cases, Bytes, List, Option-cases, [], ap, arith, bytes_eq, bytes_eq_refl, bytes_eq→eq, false,
  inl, inr, none, refl, some, ◌∷◌, ◌≡◌, any, subst, suc, sym, true, ◌∙◌,
}
use drand_rs.Net.Pool.{
  contains, Pool, add_peer, add_pending, spawn, subscribe_client, add_beacon_id, add_peers, insert,
  set,
}

module _ (id peer : Bytes) where
  -- A peer that is not connected stays so while others are added; the channels and the sent packets
  -- are as they were.
  record IsApart (p p' : Pool) : Type 0 where
    active : p'.active peer ≡ none
    enabled : p'.enabled_beacons ≡ p.enabled_beacons
    sent : p'.sent ≡ p.sent

  other_peer :
      (p : Pool) (q : Bytes) {ids : List Bytes}
      → p.active peer ≡ none
      → p.active q ≡ some ids
      → bytes_eq peer q ≡ false
  other_peer p q {ids} apart there = elim (Bool-cases (bytes_eq peer q)) [
    | inr other ↦ other
    | inl same ↦ absurd (cc (ap p.active (bytes_eq→eq peer q same), apart, there))
  ]

  -- A connected peer that subscribes is another one.
  subscribe_client-IsApart :
      (q : Bytes) (p : Pool) {ids : List Bytes}
      → p.active peer ≡ none
      → p.active q ≡ some ids
      → IsApart p (subscribe_client id q p)
  unfolding subscribe_client spawn
  subscribe_client-IsApart q p {ids} apart e =
      let other = other_peer p q apart e in
      let still : (set q (some (insert id ids)) p.active) peer ≡ none = rw other apart in
      elim (Option-cases (p.enabled_beacons id)) [
        | inl e' ↦
            rw (e', e, subscribe_client) (record { active = still; enabled = refl; sent = refl })
        | inr (c, e') ↦
            rw (e', e, subscribe_client) (record { active = still; enabled = refl; sent = refl })
      ]

  add_peer-IsApart : (q : Bytes) (p : Pool) → p.active peer ≡ none → IsApart p (add_peer id q p)
  unfolding add_peer add_pending
  add_peer-IsApart q p apart = elim (Option-cases (p.active q)) [
    | inl e ↦ rw (e, add_peer) (record { active = apart; enabled = refl; sent = refl })
    | inr (ids, e) ↦ rw (e, add_peer) (subscribe_client-IsApart q p apart e)
  ]

  unfoldable pub IsAwaited : Pool → Type 0
  IsAwaited p = p.pending peer ≡ some (id ∷ [])

  add_peer-kept :
      (q : Bytes) (p : Pool) → p.active peer ≡ none → IsAwaited p → IsAwaited (add_peer id q p)
  unfolding add_peer add_pending subscribe_client spawn IsAwaited
  add_peer-kept q p apart awaited = ground arith

  add_peer-IsAwaited : (p : Pool) → p.active peer ≡ none → IsAwaited (add_peer id peer p)
  unfolding add_peer add_pending IsAwaited
  add_peer-IsAwaited p apart = rw (apart, add_peer, bytes_eq_refl peer) refl

  -- The peers that are added, with the peer among them.
  add_peers-IsApart :
      (peers : List Bytes) (p : Pool) → p.active peer ≡ none → IsApart p (add_peers id peers p)
  unfolding add_peers
  add_peers-IsApart [] p apart = record { active = apart; enabled = refl; sent = refl }
  add_peers-IsApart (q ∷ peers) p apart =
      let one = add_peer-IsApart q p apart in
      let rest = add_peers-IsApart peers (add_peer id q p) one.active in
      record {
        active = rest.active;
        enabled = rest.enabled ∙ one.enabled;
        sent = rest.sent ∙ one.sent;
      }

  add_peers-kept :
      (peers : List Bytes) (p : Pool)
      → p.active peer ≡ none
      → IsAwaited p
      → IsAwaited (add_peers id peers p)
  unfolding add_peers
  add_peers-kept [] p apart awaited = awaited
  add_peers-kept (q ∷ peers) p apart awaited =
      add_peers-kept peers (add_peer id q p) (add_peer-IsApart q p apart).active
        (add_peer-kept q p apart awaited)

  add_peers-IsAwaited :
      (peers : List Bytes) (p : Pool)
      → p.active peer ≡ none
      → contains peers peer ≡ true
      → IsAwaited (add_peers id peers p)
  unfolding add_peers contains any
  add_peers-IsAwaited [] p apart there = absurd (cc)
  add_peers-IsAwaited (q ∷ peers) p apart there =
      let one = add_peer-IsApart q p apart in
      elim (Bool-cases (bytes_eq q peer)) [
        | inl same ↦ add_peers-kept peers (add_peer id q p) one.active (
            subst (λ k. IsAwaited (add_peer id k p)) (sym (bytes_eq→eq q peer same))
              (add_peer-IsAwaited p apart))
        | inr other ↦ add_peers-IsAwaited peers (add_peer id q p) one.active (rw other at there)
      ]

  -- A new beacon id, with the peer among its peers.
  pub add_beacon_id-IsAwaited :
      (peers : List Bytes) (p : Pool)
      → p.enabled_beacons id ≡ none
      → p.active peer ≡ none
      → contains peers peer ≡ true
      → IsAwaited (add_beacon_id id peers p)
        × ((add_beacon_id id peers p).active peer ≡ none)
        × ((add_beacon_id id peers p).enabled_beacons
            ≡ set id (some p.next_channel) p.enabled_beacons)
        × ((add_beacon_id id peers p).sent ≡ p.sent)
  unfolding add_beacon_id
  add_beacon_id-IsAwaited peers p new apart there =
      let p' : Pool = record p {
        enabled_beacons = set id (some p.next_channel) p.enabled_beacons;
        next_channel = suc p.next_channel;
      } in
      let a = add_peers-IsApart peers p' apart in
      rw (new, add_beacon_id)
        (add_peers-IsAwaited peers p' apart there, a.active, a.enabled, a.sent)
