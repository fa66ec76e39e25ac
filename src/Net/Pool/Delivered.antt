-- ===== src/Net/Pool/Delivered.antt =====
-- What a new connection is sent: src/net/pool.rs.
use drand_rs.Chain.Beacon.{Metadata, PartialBeaconPacket}
use drand_rs.Common.{
  Bytes, List, [], ap, bytes_eq_refl, false, none, refl, some, ◌∷◌, ◌≡◌, true, ℕ, ◌∙◌, ◌++◌, ◌==◌,
  ==_iff, map,
}
use drand_rs.Net.Pool.{
  receive, contains, Move, run, step, Pool, spawn, subscribe_client, Keyed, add_beacon_id, set,
  add_connection, subscribe_all, Subscription, broadcast_msg, offer, PoolCmd,
}
use drand_rs.Net.Pool.Awaited.{IsAwaited, add_beacon_id-IsAwaited}

unfoldable pub new_task_of : ℕ → Bytes → Subscription
new_task_of c peer = record { channel = c; peer = peer; queued = none; lagged = false }

-- A peer that is awaited for one beacon id, and is not connected: the connection serves that id.
module _ (id peer : Bytes) (p : Pool) (awaited : IsAwaited id peer p)
    (apart : p.active peer ≡ none) where
  add_connection-one : add_connection peer p ≡ (
      let p' = subscribe_client id peer (record p { pending = set peer none p.pending }) in
      record p' { active = set peer (some (id ∷ [])) p'.active })
  unfolding add_connection subscribe_all IsAwaited
  add_connection-one = rw (awaited, add_connection) refl

  -- What is connected has one task more, on the channel of the id.
  module _ (c : ℕ) (enabled : p.enabled_beacons id ≡ some c) where
    pub add_connection-new :
        ((add_connection peer p).subscriptions ≡ new_task_of c peer ∷ p.subscriptions)
        × ((add_connection peer p).enabled_beacons ≡ p.enabled_beacons)
        × ((add_connection peer p).sent ≡ p.sent)
        × ((add_connection peer p).active peer ≡ some (id ∷ []))
        × ((add_connection peer p).pending peer ≡ none)
    unfolding subscribe_client spawn new_task_of
    add_connection-new =
        let here = bytes_eq_refl peer in
        rw add_connection-one
          (rw (enabled, subscribe_client) (refl, refl, refl, rw here refl, rw here refl))

pub broadcast_msg-offers :
    (p : Pool) (msg : PartialBeaconPacket) (c : ℕ) {metadata : Metadata}
    → msg.metadata ≡ some metadata
    → p.enabled_beacons metadata.beacon_id ≡ some c
    → broadcast_msg msg p ≡ record p { subscriptions = map (offer c msg) p.subscriptions }
unfolding broadcast_msg
broadcast_msg-offers p msg c meta enabled = simp (meta, enabled, broadcast_msg)

-- What a task sends that takes the message which is broadcast on its channel.
offered-received :
    (c : ℕ) (peer : Bytes) (msg : PartialBeaconPacket) (rest : List Subscription)
    → (receive (map (offer c msg) (new_task_of c peer ∷ rest)) 0).1 ≡ (peer, msg) ∷ []
unfolding offer receive new_task_of
offered-received c peer msg rest =
    let mine : (c == c) ≡ true = (==_iff c c).1 refl in
    let there : offer c msg (new_task_of c peer)
        ≡ record (new_task_of c peer) { queued = some msg } =
      rw (mine, offer) refl in
    ap (λ s. (receive (s ∷ map (offer c msg) rest) 0).1) there

-- A task that has nothing yet takes the message that is broadcast on its channel.
broadcast_msg-sent :
    (p : Pool) (c : ℕ) (peer : Bytes) (rest : List Subscription) (msg : PartialBeaconPacket)
    {metadata : Metadata}
    → p.subscriptions ≡ new_task_of c peer ∷ rest
    → msg.metadata ≡ some metadata
    → p.enabled_beacons metadata.beacon_id ≡ some c
    → (step (broadcast_msg msg p) (Move.task 0)).sent ≡ p.sent ++ (peer, msg) ∷ []
unfolding step
broadcast_msg-sent p c peer rest msg tasks meta enabled =
    rw (broadcast_msg-offers p msg c meta enabled) (
      ap (λ l. p.sent ++ (receive (map (offer c msg) l) 0).1) tasks
      ∙ ap (λ l. p.sent ++ l) (offered-received c peer msg rest))

-- A beacon id that is added with a peer that is not connected yet: once the connection is there, a
-- message for the id is sent to the peer by the connection's task at its next turn.
pub run-sent :
    (p : Pool) (id peer : Bytes) (peers : List Bytes) (msg : PartialBeaconPacket)
    (metadata : Metadata)
    → p.enabled_beacons id ≡ none
    → p.active peer ≡ none
    → contains peers peer ≡ true
    → msg.metadata ≡ some metadata
    → metadata.beacon_id ≡ id
    → (run p (
        Move.command (PoolCmd.add_id id peers)
        ∷ Move.connected peer
        ∷ Move.command (PoolCmd.partial msg)
        ∷ Move.task 0
        ∷ [])).sent
      ≡ p.sent ++ (peer, msg) ∷ []
unfolding run step
run-sent p id peer peers msg metadata new apart there meta same =
    let (awaited, still, enabled, sent) = add_beacon_id-IsAwaited id peer peers p new apart there in
    let p' = add_beacon_id id peers p in
    let mine : p'.enabled_beacons id ≡ some p.next_channel =
      ap (λ (m : Keyed ℕ). m id) enabled ∙ rw (bytes_eq_refl id) refl in
    let (tasks, kept, sent', _, _) =
      add_connection-new id peer p' awaited still p.next_channel mine in
    let own : (add_connection peer p').enabled_beacons metadata.beacon_id ≡ some p.next_channel =
      ap (λ (m : Keyed ℕ). m metadata.beacon_id) kept ∙ ap p'.enabled_beacons same ∙ mine in
    broadcast_msg-sent (add_connection peer p') p.next_channel peer p'.subscriptions msg tasks meta
      own
    ∙ ap (λ l. l ++ (peer, msg) ∷ []) (sent' ∙ sent)
