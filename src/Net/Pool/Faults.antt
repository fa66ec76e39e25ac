-- ===== src/Net/Pool/Faults.antt =====
-- Where a peer is not sent a packet of a beacon id that it was added for: src/net/pool.rs.
use mathlib.Core.List.{append-nil}
use drand_rs.Chain.Beacon.{PartialBeaconPacket, Metadata}
use drand_rs.Common.{
  map, length, ==_iff, Bytes, List, [], ap, arith, bytes_eq, bytes_eq_refl, false, none, refl, some,
  true, ℕ, ◌++◌, ◌==◌, ◌∙◌, ◌∷◌, ◌≡◌,
}
use drand_rs.Net.Pool.{
  receive, contains, Move, run, step, Keyed, Pool, PoolCmd, Subscription, add_beacon_id, offer,
}
use drand_rs.Net.Pool.Awaited.{add_beacon_id-IsAwaited}
use drand_rs.Net.Pool.Delivered.{add_connection-new, broadcast_msg-offers}

-- Two beacon ids that are not in the pool, added one after the other with a peer that is not
-- connected: the connection serves only the second one, and nothing is left that would make it
-- serve the first.
pub run-overwritten :
    (p : Pool) (a b peer : Bytes) (peers_a peers_b : List Bytes)
    → bytes_eq b a ≡ false
    → p.enabled_beacons a ≡ none
    → p.enabled_beacons b ≡ none
    → p.active peer ≡ none
    → contains peers_a peer ≡ true
    → contains peers_b peer ≡ true
    → let p' = run p (
        Move.command (PoolCmd.add_id a peers_a)
        ∷ Move.command (PoolCmd.add_id b peers_b)
        ∷ Move.connected peer
        ∷ []) in
      (p'.active peer ≡ some (b ∷ [])) × (p'.pending peer ≡ none)
unfolding run step
run-overwritten p a b peer peers_a peers_b apart new_a new_b idle in_a in_b =
    let (_, still, enabled, _) = add_beacon_id-IsAwaited a peer peers_a p new_a idle in_a in
    let p' = add_beacon_id a peers_a p in
    let free : p'.enabled_beacons b ≡ none = ap (λ (m : Keyed ℕ). m b) enabled ∙ rw apart new_b in
    let (awaited, still', enabled', _) =
      add_beacon_id-IsAwaited b peer peers_b p' free still in_b in
    let mine : (add_beacon_id b peers_b p').enabled_beacons b ≡ some p'.next_channel =
      ap (λ (m : Keyed ℕ). m b) enabled' ∙ rw (bytes_eq_refl b) refl in
    let (_, _, _, active, pending) =
      add_connection-new b peer (add_beacon_id b peers_b p') awaited still' p'.next_channel mine in
    (active, pending)

-- The task at a place of the list misses a message where it has not taken the one before.
offer-lagged :
    (c : ℕ) (s : Subscription) (m n : PartialBeaconPacket)
    → s.channel ≡ c
    → (offer c n (offer c m s)).lagged ≡ true
unfolding offer
offer-lagged c s m n e =
    let mine : (s.channel == c) ≡ true = (==_iff s.channel c).1 e in ground (arith)

split_at :
    (f : Subscription → Subscription) (before after : List Subscription) (s : Subscription)
    → (f s).lagged ≡ true
    → receive (map f (before ++ s ∷ after)) (length before) ≡ (map f (before ++ after), [])
unfolding receive
split_at f [] after s late = rw (late, receive) refl
split_at f (x ∷ before) after s late = rw (split_at f before after s late) refl

map-map :
    (f g : Subscription → Subscription) (l : List Subscription)
    → map f (map g l) ≡ map (λ s. f (g s)) l
map-map f g [] = refl
map-map f g (x ∷ l) = ap (◌∷◌ (f (g x))) (map-map f g l)

-- Two messages of a beacon id that are broadcast before the task of one of its connections takes
-- its turn: the task then ends and sends nothing, and the other tasks go on.
pub run-lagged :
    (p : Pool) (before after : List Subscription) (s : Subscription) (m n : PartialBeaconPacket)
    (metadata : Metadata)
    → p.subscriptions ≡ before ++ s ∷ after
    → m.metadata ≡ some metadata
    → n.metadata ≡ some metadata
    → p.enabled_beacons metadata.beacon_id ≡ some s.channel
    → let p' = run p (
        Move.command (PoolCmd.partial m)
        ∷ Move.command (PoolCmd.partial n)
        ∷ Move.task (length before)
        ∷ []) in
      (p'.sent ≡ p.sent)
      × (p'.subscriptions ≡ map (λ x. offer s.channel n (offer s.channel m x)) (before ++ after))
unfolding run step
run-lagged p before after s m n metadata tasks meta_m meta_n enabled =
    let both : Subscription → Subscription = λ x. offer s.channel n (offer s.channel m x) in
    let p' = record p { subscriptions = map (offer s.channel m) p.subscriptions } in
    let turn : receive (map (offer s.channel n) (map (offer s.channel m) p.subscriptions))
          (length before)
        ≡ (map both (before ++ after), []) =
      ap (λ l. receive l (length before))
        (map-map (offer s.channel n) (offer s.channel m) p.subscriptions ∙ ap (map both) tasks)
      ∙ split_at both before after s (offer-lagged s.channel s m n refl) in
    rw (broadcast_msg-offers p m s.channel meta_m enabled) (
      rw (broadcast_msg-offers p' n s.channel meta_n enabled)
        (ap (λ r. p.sent ++ r.1) turn ∙ append-nil p.sent, ap (λ r. r.0) turn))
