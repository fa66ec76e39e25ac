-- ===== src/Net/Pool.antt =====
-- The connection pool for partial beacons: src/net/pool.rs. A BTreeMap is the function from its keys;
-- addresses are ordered, and so told apart, byte by byte. A broadcast channel has room for one
-- message: a receiver that has not taken the last one before the next is sent gets an error for
-- what it has missed, as `tokio` documents. A connection is its peer.
-- The `shutdown` flag is never set, and is left out.
pub mod Each
pub mod Confined
pub mod Kept
pub mod Sent
pub mod Awaited
pub mod Delivered
pub mod Faults
use drand_rs.Chain.Beacon.{PartialBeaconPacket}
use drand_rs.Common.{
  Bool, Bytes, List, Option, [], any, bytes_eq, false, if◌then◌else◌, is_empty, is_some, map, none,
  not, retain, some, suc, zero, ℕ, ◌&&◌, ◌++◌, ◌==◌, ◌||◌, ◌∷◌,
}

-- BTreeSet<BeaconID>: contains, insert and remove.
unfoldable pub contains : List Bytes → Bytes → Bool
contains ids id = any (λ x. bytes_eq x id) ids

unfoldable pub insert : Bytes → List Bytes → List Bytes
unfolding contains
insert id ids = if contains ids id then ids else id ∷ ids

unfoldable pub remove : Bytes → List Bytes → List Bytes
remove id ids = retain (λ x. not (bytes_eq x id)) ids

-- BTreeMap::insert and BTreeMap::remove.
abbrev pub Keyed : Type 0 → Type 0
Keyed V = Bytes → Option V

abbrev pub set : {V : Type 0} → Bytes → Option V → Keyed V → Keyed V
set k v m = λ x. if bytes_eq x k then v else m x

-- The task that sends to one peer what it takes from a channel.
pub record Subscription : Type 0 where
  pub channel : ℕ
  pub peer : Bytes
  pub queued : Option PartialBeaconPacket
  pub lagged : Bool

-- `Pool`, with the tasks that it has spawned, the packets that they have sent, and the number of
-- the next channel. The active and the pending connections have their beacon ids.
pub record Pool : Type 0 where
  pub active : Keyed (List Bytes)
  pub pending : Keyed (List Bytes)
  pub enabled_beacons : Keyed ℕ
  pub subscriptions : List Subscription
  pub sent : List (Bytes × PartialBeaconPacket)
  pub next_channel : ℕ

pub data PoolCmd : Type 0 where
  partial : PartialBeaconPacket → PoolCmd
  add_id : (id : Bytes) → (peers : List Bytes) → PoolCmd
  remove_id : (id : Bytes) → PoolCmd

unfoldable pub empty : Pool
empty = record {
  active = λ x. none;
  pending = λ x. none;
  enabled_beacons = λ x. none;
  subscriptions = [];
  sent = [];
  next_channel = 0;
}

unfoldable pub spawn : ℕ → Bytes → Pool → Pool
spawn channel peer p = record p {
  subscriptions =
      record { channel = channel; peer = peer; queued = none; lagged = false } ∷ p.subscriptions;
}

unfoldable pub subscribe_client : Bytes → Bytes → Pool → Pool
unfolding insert spawn
subscribe_client id peer p =
    let p' = record p {
      active = elim (p.active peer) [
        | none ↦ p.active
        | some ids ↦ set peer (some (insert id ids)) p.active
      ];
    } in
    elim (p.enabled_beacons id) [ none ↦ p' | some channel ↦ spawn channel peer p' ]

unfoldable pub subscribe_all : Bytes → List Bytes → Pool → Pool
unfolding subscribe_client
subscribe_all peer [] p = p
subscribe_all peer (id ∷ ids) p = subscribe_all peer ids (subscribe_client id peer p)

-- A connection that is not awaited is dropped.
unfoldable pub add_connection : Bytes → Pool → Pool
unfolding subscribe_all
add_connection peer p = elim (p.pending peer) [
  | none ↦ p
  | some ids ↦
      let p' = subscribe_all peer ids (record p { pending = set peer none p.pending }) in
      record p' { active = set peer (some ids) p'.active }
]

unfoldable pub add_pending : Bytes → Bytes → Pool → Pool
add_pending id peer p = record p { pending = set peer (some (id ∷ [])) p.pending }

unfoldable pub add_peer : Bytes → Bytes → Pool → Pool
unfolding subscribe_client add_pending
add_peer id peer p = elim (p.active peer) [
  | some ids ↦ subscribe_client id peer p
  | none ↦ add_pending id peer p
]

unfoldable pub add_peers : Bytes → List Bytes → Pool → Pool
unfolding add_peer
add_peers id [] p = p
add_peers id (peer ∷ peers) p = add_peers id peers (add_peer id peer p)

-- A new channel for the id. Where the id is there already, its channel is replaced all the same.
unfoldable pub add_beacon_id : Bytes → List Bytes → Pool → Pool
unfolding add_peers
add_beacon_id id peers p =
    let p' = record p {
      enabled_beacons = set id (some p.next_channel) p.enabled_beacons;
      next_channel = suc p.next_channel;
    } in
    elim (p.enabled_beacons id) [ some channel ↦ p' | none ↦ add_peers id peers p' ]

-- A connection without the id is as it was; one that has no other id is dropped.
unfoldable pub without : Bytes → Option (List Bytes) → Option (List Bytes)
unfolding contains remove
without id none = none
without id (some ids) =
    if contains ids id && is_empty (remove id ids) then none else some (remove id ids)

unfoldable pub remove_beacon_id : Bytes → Pool → Pool
unfolding without
remove_beacon_id id p = record p {
  enabled_beacons = set id none p.enabled_beacons;
  pending = λ peer. without id (p.pending peer);
  active = λ peer. without id (p.active peer);
}

-- A message on a channel, at one of its receivers.
unfoldable pub offer : ℕ → PartialBeaconPacket → Subscription → Subscription
offer channel msg s =
    if s.channel == channel
    then record s { queued = some msg; lagged = s.lagged || is_some s.queued }
    else s

unfoldable pub broadcast_msg : PartialBeaconPacket → Pool → Pool
unfolding offer
broadcast_msg msg p = elim msg.metadata [
  | none ↦ p
  | some metadata ↦ elim (p.enabled_beacons metadata.beacon_id) [
    | none ↦ p
    | some channel ↦ record p { subscriptions = map (offer channel msg) p.subscriptions }
  ]
]

-- A turn of a task: it ends on an error, and else sends what it has taken to its peer. One whose
-- channel is gone and empty waits here for ever, where the source's ends: neither sends anything.
unfoldable pub receive :
    List Subscription → ℕ → List Subscription × List (Bytes × PartialBeaconPacket)
receive [] task = ([], [])
receive (s ∷ rest) zero = if s.lagged then (rest, []) else elim s.queued [
  | none ↦ (s ∷ rest, [])
  | some msg ↦ (record s { queued = none } ∷ rest, (s.peer, msg) ∷ [])
]
receive (s ∷ rest) (suc task) = let (rest', sent) = receive rest task in (s ∷ rest', sent)

-- What the pool and its tasks do: a command, a connection that is established, a turn of a task.
pub data Move : Type 0 where
  command : PoolCmd → Move
  connected : (peer : Bytes) → Move
  task : (index : ℕ) → Move

unfoldable pub step : Pool → Move → Pool
unfolding broadcast_msg add_beacon_id remove_beacon_id add_connection receive
step p (Move.command (PoolCmd.partial msg)) = broadcast_msg msg p
step p (Move.command (PoolCmd.add_id id peers)) = add_beacon_id id peers p
step p (Move.command (PoolCmd.remove_id id)) = remove_beacon_id id p
step p (Move.connected peer) = add_connection peer p
step p (Move.task index) =
    let (subscriptions, sent) = receive p.subscriptions index in
    record p { subscriptions = subscriptions; sent = p.sent ++ sent }

unfoldable pub run : Pool → List Move → Pool
unfolding step
run p [] = p
run p (m ∷ ms) = run (step p m) ms
