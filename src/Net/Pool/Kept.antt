-- ===== src/Net/Pool/Kept.antt =====
-- The peers that a beacon id may reach stay so through the commands and the tasks of the pool:
-- src/net/pool.rs.
use drand_rs.Chain.Beacon.{PartialBeaconPacket}
use drand_rs.Common.{
  ==_iff, Bool-cases, Bytes, List, Option-cases, [], ap, arith, bytes_eq, bytes_eq→eq, inl, inr,
  none, some, some_injective, subst, suc, sym, zero, ℕ, ◌==◌, ◌∙◌, ◌∷◌, ◌≡◌,
}
use drand_rs.Net.Pool.{
  receive, Keyed, Pool, Subscription, add_beacon_id, broadcast_msg, offer, remove_beacon_id, set,
}
use drand_rs.Net.Pool.Confined.{IsConfined, IsFor, IsTaskFor, add_peers-IsConfined}
use drand_rs.Net.Pool.Each.{Each, Each-map, Each-weaken, without-Each}

module _ (P : Bytes → Bytes → Type 0) where
  -- The new channel is no task's.
  pub add_beacon_id-IsConfined :
      (id : Bytes) (peers : List Bytes) (p : Pool)
      → Each (P id) peers
      → IsConfined P p
      → IsConfined P (add_beacon_id id peers p)
  unfolding add_beacon_id
  add_beacon_id-IsConfined id peers p n v =
      let enabled : Keyed ℕ = set id (some p.next_channel) p.enabled_beacons in
      let opened : IsConfined P
          (record p { enabled_beacons = enabled; next_channel = suc p.next_channel }) =
        record {
          active = v.active;
          pending = v.pending;
          old = λ i c e. elim (Bool-cases (bytes_eq i id)) [
            | inl same ↦ omega (arith, some_injective (rw same at e))
            | inr other ↦ omega (arith, v.old i c (rw other at e))
          ];
          own = λ a b c e e'. elim (Bool-cases (bytes_eq a id)) [
            | inl x ↦ elim (Bool-cases (bytes_eq b id)) [
              | inl y ↦ bytes_eq→eq a id x ∙ sym (bytes_eq→eq b id y)
              | inr y ↦ absurd (omega (arith, some_injective (rw x at e), v.old b c (rw y at e')))
            ]
            | inr x ↦ elim (Bool-cases (bytes_eq b id)) [
              | inl y ↦ absurd (omega (arith, some_injective (rw y at e'), v.old a c (rw x at e)))
              | inr y ↦ v.own a b c (rw x at e) (rw y at e')
            ]
          ];
          tasks =
              Each-weaken _ (IsTaskFor P enabled (suc p.next_channel)) p.subscriptions
                (λ s t. record {
                  old = omega (arith, t.old);
                  serves = λ i e. elim (Bool-cases (bytes_eq i id)) [
                    | inl same ↦ absurd (omega (arith, some_injective (rw same at e), t.old))
                    | inr other ↦ t.serves i (rw other at e)
                  ];
                  holds = t.holds;
                })
                v.tasks;
          sent = v.sent;
        } in
      elim (Option-cases (p.enabled_beacons id)) [
        | inr (c, e) ↦ rw (e, add_beacon_id) opened
        | inl e ↦ rw (e, add_beacon_id) (add_peers-IsConfined P id peers _ n opened)
      ]

  pub remove_beacon_id-IsConfined :
      (id : Bytes) (p : Pool) → IsConfined P p → IsConfined P (remove_beacon_id id p)
  unfolding remove_beacon_id
  remove_beacon_id-IsConfined id p v =
      let still : (i : Bytes) (c : ℕ)
          → set id none p.enabled_beacons i ≡ some c
          → p.enabled_beacons i ≡ some c =
        λ i c e. elim (Bool-cases (bytes_eq i id)) [
          | inl same ↦ absurd (cc (rw same at e))
          | inr other ↦ rw other at e
        ] in
      record {
        active = λ peer ids e. without-Each (λ i. P i peer) id (p.active peer) (v.active peer) e;
        pending = λ peer ids e. without-Each (λ i. P i peer) id (p.pending peer) (v.pending peer) e;
        old = λ i c e. v.old i c (still i c e);
        own = λ a b c e e'. v.own a b c (still a c e) (still b c e');
        tasks =
            Each-weaken _ (IsTaskFor P (set id none p.enabled_beacons) p.next_channel)
              p.subscriptions
              (λ s t. record {
                old = t.old;
                serves = λ i e. t.serves i (still i s.channel e);
                holds = t.holds;
              })
              v.tasks;
        sent = v.sent;
      }

  -- A message is offered on the channel of its own beacon id.
  pub broadcast_msg-IsConfined :
      (msg : PartialBeaconPacket) (p : Pool) → IsConfined P p → IsConfined P (broadcast_msg msg p)
  unfolding broadcast_msg offer
  broadcast_msg-IsConfined msg p v = elim (Option-cases msg.metadata) [
    | inl e ↦ rw (e, broadcast_msg) v
    | inr (metadata, e) ↦ elim (Option-cases (p.enabled_beacons metadata.beacon_id)) [
      | inl e' ↦ rw (e, e', broadcast_msg) v
      | inr (c, e') ↦
          rw (e, e', broadcast_msg)
            (record {
              active = v.active;
              pending = v.pending;
              old = v.old;
              own = v.own;
              tasks =
                  Each-map _ (IsTaskFor P p.enabled_beacons p.next_channel) (offer c msg)
                    p.subscriptions
                    (λ s t. elim (Bool-cases (s.channel == c)) [
                      | inr other ↦ rw (other, offer) t
                      | inl same ↦
                          rw (same, offer)
                            (record {
                              old = t.old;
                              serves = t.serves;
                              holds = λ m q. subst (IsFor P s.peer) (some_injective q) (
                                metadata,
                                e,
                                t.serves metadata.beacon_id
                                    (e' ∙ ap some (sym ((==_iff s.channel c).0 same))),
                              );
                            })
                    ])
                    v.tasks;
              sent = v.sent;
            })
    ]
  ]

  pub receive-IsConfined :
      (enabled : Keyed ℕ) (next : ℕ) (subs : List Subscription) (task : ℕ)
      → Each (IsTaskFor P enabled next) subs
      → Each (IsTaskFor P enabled next) (receive subs task).0
        × Each (λ (x : Bytes × PartialBeaconPacket). IsFor P x.0 x.1) (receive subs task).1
  unfolding receive Each
  receive-IsConfined enabled next [] task t = (tt, tt)
  receive-IsConfined enabled next (s ∷ rest) (suc task) (t, ts) =
      let (kept, sent) = receive-IsConfined enabled next rest task ts in ((t, kept), sent)
  receive-IsConfined enabled next (s ∷ rest) zero (t, ts) = elim (Bool-cases s.lagged) [
    | inl late ↦ rw (late, receive) (ts, tt)
    | inr fine ↦ elim (Option-cases s.queued) [
      | inl e ↦ rw (fine, e, receive) ((t, ts), tt)
      | inr (msg, e) ↦
          rw (fine, e, receive)
            (
              (record { old = t.old; serves = t.serves; holds = λ m q. absurd (cc) }, ts),
              (t.holds msg e, tt),
            )
    ]
  ]
