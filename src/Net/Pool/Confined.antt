-- ===== src/Net/Pool/Confined.antt =====
-- The peers that a beacon id may reach stay so through each step of the pool: src/net/pool.rs.
use drand_rs.Chain.Beacon.{Metadata, PartialBeaconPacket}
use drand_rs.Common.{
  Bool-cases, Bytes, List, Option, Option-cases, [], bytes_eq, bytes_eq→eq, inl, inr, none, some,
  some_injective, subst, sym, ℕ, ◌<◌, ◌∷◌, ◌≡◌,
}
use drand_rs.Net.Pool.{
  Keyed, Pool, Subscription, add_connection, add_peer, add_peers, add_pending, insert, set, spawn,
  subscribe_all, subscribe_client,
}
use drand_rs.Net.Pool.Each.{Each, insert-Each}

-- `P` relates a beacon id to the peers that it may reach.
module _ (P : Bytes → Bytes → Type 0) where
  abbrev pub AllNamed : Keyed (List Bytes) → Type 0
  AllNamed m = (peer : Bytes) (ids : List Bytes) → m peer ≡ some ids → Each (λ id. P id peer) ids

  -- The packet's beacon id may reach the peer.
  abbrev pub IsFor : Bytes → PartialBeaconPacket → Type 0
  IsFor peer msg =
      (metadata : Metadata) × (msg.metadata ≡ some metadata) × P metadata.beacon_id peer

  pub record IsTaskFor (enabled : Keyed ℕ) (next_channel : ℕ) (s : Subscription) : Type 0 where
    pub old : s.channel < next_channel
    pub serves : (id : Bytes) → enabled id ≡ some s.channel → P id s.peer
    pub holds : (msg : PartialBeaconPacket) → s.queued ≡ some msg → IsFor s.peer msg

  pub record IsConfined (p : Pool) : Type 0 where
    pub active : AllNamed p.active
    pub pending : AllNamed p.pending
    pub old : (id : Bytes) (c : ℕ) → p.enabled_beacons id ≡ some c → c < p.next_channel
    pub own :
        (a b : Bytes) (c : ℕ) → p.enabled_beacons a ≡ some c → p.enabled_beacons b ≡ some c → a ≡ b
    pub tasks : Each (IsTaskFor p.enabled_beacons p.next_channel) p.subscriptions
    pub sent : Each (λ (x : Bytes × PartialBeaconPacket). IsFor x.0 x.1) p.sent

  pub set-AllNamed :
      (m : Keyed (List Bytes)) (k : Bytes) (v : Option (List Bytes))
      → AllNamed m
      → ((ids : List Bytes) → v ≡ some ids → Each (λ id. P id k) ids)
      → AllNamed (set k v m)
  set-AllNamed m k v named new peer ids e = elim (Bool-cases (bytes_eq peer k)) [
    | inl same ↦
        subst (λ q. Each (λ id. P id q) ids) (sym (bytes_eq→eq peer k same))
          (new ids (rw same at e))
    | inr other ↦ named peer ids (rw other at e)
  ]

  subscribed-AllNamed :
      (p : Pool) (id peer : Bytes)
      → P id peer
      → AllNamed p.active
      → AllNamed (elim (p.active peer) [
        | none ↦ p.active
        | some ids ↦ set peer (some (insert id ids)) p.active
      ])
  subscribed-AllNamed p id peer named h = elim (Option-cases (p.active peer)) [
    | inl e ↦ rw e h
    | inr (ids, e) ↦ rw e (
        set-AllNamed p.active peer (some (insert id ids)) h (λ ids' e'.
          subst (Each (λ i. P i peer)) (some_injective e')
            (insert-Each (λ i. P i peer) id ids named (h peer ids e))))
  ]

  pub subscribe_client-IsConfined :
      (id peer : Bytes) (p : Pool)
      → P id peer
      → IsConfined p
      → IsConfined (subscribe_client id peer p)
  unfolding subscribe_client spawn Each
  subscribe_client-IsConfined id peer p named v =
      let act = subscribed-AllNamed p id peer named v.active in
      elim (Option-cases (p.enabled_beacons id)) [
        | inl e ↦
            rw (e, subscribe_client)
              (record {
                active = act;
                pending = v.pending;
                old = v.old;
                own = v.own;
                tasks = v.tasks;
                sent = v.sent;
              })
        | inr (c, e) ↦
            rw (e, subscribe_client)
              (record {
                active = act;
                pending = v.pending;
                old = v.old;
                own = v.own;
                tasks = (
                  record {
                    old = v.old id c e;
                    serves = λ i e'. subst (λ j. P j peer) (v.own id i c e e') named;
                    holds = λ msg e'. absurd (cc);
                  },
                  v.tasks,
                );
                sent = v.sent;
              })
      ]

  pub subscribe_all-IsConfined :
      (peer : Bytes) (ids : List Bytes) (p : Pool)
      → Each (λ id. P id peer) ids
      → IsConfined p
      → IsConfined (subscribe_all peer ids p)
  unfolding subscribe_all Each
  subscribe_all-IsConfined peer [] p named v = v
  subscribe_all-IsConfined peer (id ∷ ids) p (n, named) v =
      subscribe_all-IsConfined peer ids (subscribe_client id peer p) named
        (subscribe_client-IsConfined id peer p n v)

  -- A list of connections that nothing is known of yet is not there.
  pub AllNamed-removed : (m : Keyed (List Bytes)) (k : Bytes) → AllNamed m → AllNamed (set k none m)
  AllNamed-removed m k h = set-AllNamed m k none h (λ ids e. absurd (cc))

  pub AllNamed-replaced :
      (m : Keyed (List Bytes)) (k : Bytes) (ids : List Bytes)
      → AllNamed m
      → Each (λ id. P id k) ids
      → AllNamed (set k (some ids) m)
  AllNamed-replaced m k ids h n =
      set-AllNamed m k (some ids) h (λ ids' e. subst (Each (λ id. P id k)) (some_injective e) n)

  pub add_connection-IsConfined :
      (peer : Bytes) (p : Pool) → IsConfined p → IsConfined (add_connection peer p)
  unfolding add_connection
  add_connection-IsConfined peer p v = elim (Option-cases (p.pending peer)) [
    | inl e ↦ rw (e, add_connection) v
    | inr (ids, e) ↦
        let n = v.pending peer ids e in
        let base : IsConfined (record p { pending = set peer none p.pending }) = record {
          active = v.active;
          pending = AllNamed-removed p.pending peer v.pending;
          old = v.old;
          own = v.own;
          tasks = v.tasks;
          sent = v.sent;
        } in
        let w =
          subscribe_all-IsConfined peer ids (record p { pending = set peer none p.pending }) n
            base in
        rw (e, add_connection)
          (record {
            active =
                AllNamed-replaced
                  (subscribe_all peer ids (record p { pending = set peer none p.pending })).active
                  peer ids w.active n;
            pending = w.pending;
            old = w.old;
            own = w.own;
            tasks = w.tasks;
            sent = w.sent;
          })
  ]

  pub add_peer-IsConfined :
      (id peer : Bytes) (p : Pool) → P id peer → IsConfined p → IsConfined (add_peer id peer p)
  unfolding add_peer add_pending Each
  add_peer-IsConfined id peer p n v = elim (Option-cases (p.active peer)) [
    | inr (ids, e) ↦ rw (e, add_peer) (subscribe_client-IsConfined id peer p n v)
    | inl e ↦
        rw (e, add_peer)
          (record {
            active = v.active;
            pending = AllNamed-replaced p.pending peer (id ∷ []) v.pending (n, tt);
            old = v.old;
            own = v.own;
            tasks = v.tasks;
            sent = v.sent;
          })
  ]

  pub add_peers-IsConfined :
      (id : Bytes) (peers : List Bytes) (p : Pool)
      → Each (P id) peers
      → IsConfined p
      → IsConfined (add_peers id peers p)
  unfolding add_peers Each
  add_peers-IsConfined id [] p n v = v
  add_peers-IsConfined id (peer ∷ peers) p (n, ns) v =
      add_peers-IsConfined id peers (add_peer id peer p) ns (add_peer-IsConfined id peer p n v)
