-- ===== src/Net/Pool/Sent.antt =====
-- To whom the pool sends: src/net/pool.rs.
use mathlib.Core.List.{Mem}
use drand_rs.Chain.Beacon.{Metadata, PartialBeaconPacket}
use drand_rs.Common.{Bytes, List, [], inl, inr, refl, some, ◌∷◌, ◌≡◌, ◌⊎◌, get_elem?, ℕ}
use drand_rs.Net.Pool.{Move, receive, run, step, Pool, PoolCmd, empty}
use drand_rs.Net.Pool.Confined.{IsConfined, add_connection-IsConfined}
use drand_rs.Net.Pool.Each.{Each, Each-append, Each-mem, each_at}
use drand_rs.Net.Pool.Kept.{
  add_beacon_id-IsConfined, broadcast_msg-IsConfined, receive-IsConfined,
  remove_beacon_id-IsConfined,
}

-- A command of the moves has added the beacon id with the peer.
abbrev pub Named : List Move → Bytes → Bytes → Type 0
Named [] id peer = ⊥
Named (m ∷ ms) id peer =
    ((peers : List Bytes) × (m ≡ Move.command (PoolCmd.add_id id peers)) × Mem peer peers)
    ⊎ Named ms id peer

module _ (P : Bytes → Bytes → Type 0) where
  step-IsConfined :
      (p : Pool) (m : Move)
      → ((id : Bytes) (peers : List Bytes)
          → m ≡ Move.command (PoolCmd.add_id id peers)
          → (peer : Bytes) → Mem peer peers
          → P id peer)
      → IsConfined P p
      → IsConfined P (step p m)
  unfolding step
  step-IsConfined p (Move.command (PoolCmd.partial msg)) n v = broadcast_msg-IsConfined P msg p v
  step-IsConfined p (Move.command (PoolCmd.add_id id peers)) n v =
      add_beacon_id-IsConfined P id peers p (Each-mem (P id) peers (n id peers refl)) v
  step-IsConfined p (Move.command (PoolCmd.remove_id id)) n v = remove_beacon_id-IsConfined P id p v
  step-IsConfined p (Move.connected peer) n v = add_connection-IsConfined P peer p v
  step-IsConfined p (Move.task index) n v =
      let (kept, new) =
        receive-IsConfined P p.enabled_beacons p.next_channel p.subscriptions index v.tasks in
      record {
        active = v.active;
        pending = v.pending;
        old = v.old;
        own = v.own;
        tasks = kept;
        sent = Each-append _ p.sent (receive p.subscriptions index).1 v.sent new;
      }

  run-IsConfined :
      (p : Pool) (ms : List Move)
      → ((id peer : Bytes) → Named ms id peer → P id peer)
      → IsConfined P p
      → IsConfined P (run p ms)
  unfolding run
  run-IsConfined p [] n v = v
  run-IsConfined p (m ∷ ms) n v =
      run-IsConfined (step p m) ms (λ id peer a. n id peer (inr a))
        (step-IsConfined p m (λ id peers e peer a. n id peer (inl (peers, e, a))) v)

-- Whatever the pool has been told, and in whatever order connections are established and tasks run:
-- every packet that it has sent has gone to a peer that was named when the packet's beacon id was
-- added.
pub run-Named :
    (ms : List Move) (i : ℕ) (peer : Bytes) (msg : PartialBeaconPacket)
    → get_elem? (run empty ms).sent i ≡ some (peer, msg)
    → (metadata : Metadata) × (msg.metadata ≡ some metadata) × Named ms metadata.beacon_id peer
unfolding empty Each
run-Named ms i peer msg sent =
    let start : IsConfined (Named ms) empty = record {
      active = λ x ids e. absurd (cc);
      pending = λ x ids e. absurd (cc);
      old = λ id c e. absurd (cc);
      own = λ a b c e e'. absurd (cc);
      tasks = tt;
      sent = tt;
    } in
    each_at _ (run empty ms).sent i (run-IsConfined (Named ms) empty ms (λ id x a. a) start).sent
      sent
