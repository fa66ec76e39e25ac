-- ===== src/Core/Daemon.antt =====
-- The beacons of a daemon: src/core/multibeacon.rs and src/core/daemon.rs. A process is its number, in
-- the order of the starts. An operation is one step of the daemon's snapshot.
pub mod Processes
use drand_rs.Chain.Beacon.{Metadata, PartialBeaconPacket}
use drand_rs.Common.{
  none, some, List, find, retain, Bool, Bytes, Result, [], any, bytes_eq, err, false, if◌then◌else◌,
  is_empty, map, not, ok, ok_or, suc, true, ℕ, ◌&&◌, ◌++◌, ◌>>=◌, ◌∷◌,
}
use drand_rs.Core.Folder.{get_beacon_id, path_join}

pub record BeaconHandler : Type 0 where
  pub beacon_id : Bytes
  pub process : ℕ

pub data BeaconHandlerError : Type 0 where
  unknown_id send_error already_loaded metadata_required : BeaconHandlerError

-- The handlers, the processes that a Shutdown command is sent to, whether the daemon stops, and the
-- number of the processes that were started.
pub record Daemon : Type 0 where
  pub beacons : List BeaconHandler
  pub shut_down : List ℕ
  pub stopping : Bool
  pub started : ℕ

unfoldable pub has_beacon_id : Bytes → BeaconHandler → Bool
has_beacon_id id h = bytes_eq h.beacon_id id

unfoldable pub handler_of_id : Daemon → Bytes → Result BeaconHandlerError BeaconHandler
unfolding has_beacon_id
handler_of_id d id = ok_or (find (has_beacon_id id) d.beacons) BeaconHandlerError.unknown_id

-- `cmd` and `send_partial`: the process that the command or the packet goes to. `receives` tells which
-- processes have not dropped their receivers.
unfoldable pub send_to : (ℕ → Bool) → BeaconHandler → Result BeaconHandlerError ℕ
send_to receives h = if receives h.process then ok h.process else err BeaconHandlerError.send_error

unfoldable pub cmd : (ℕ → Bool) → Daemon → Bytes → Result BeaconHandlerError ℕ
unfolding handler_of_id send_to
cmd receives d id = handler_of_id d id >>= send_to receives

unfoldable pub send_partial :
    (ℕ → Bool) → Daemon → PartialBeaconPacket → Result BeaconHandlerError ℕ
unfolding cmd
send_partial receives d packet =
    ok_or packet.metadata BeaconHandlerError.metadata_required >>= λ (metadata : Metadata).
    cmd receives d metadata.beacon_id

unfoldable pub stop_daemon : Daemon → Daemon
stop_daemon d = record d {
  beacons = [];
  shut_down = map (λ (h : BeaconHandler). h.process) d.beacons ++ d.shut_down;
  stopping = true;
}

-- Only the handler with the id is there.
unfoldable pub is_last : Daemon → Bytes → Bool
unfolding has_beacon_id
is_last d id = elim d.beacons [ [] ↦ false | h ∷ rest ↦ is_empty rest && has_beacon_id id h ]

-- One handler is stopped, and all with its id are taken out.
unfoldable pub stop_handler : Daemon → BeaconHandler → Daemon
unfolding has_beacon_id
stop_handler d h = record d {
  beacons = retain (λ x. not (has_beacon_id h.beacon_id x)) d.beacons;
  shut_down = h.process ∷ d.shut_down;
}

-- `true` where the daemon stops.
unfoldable pub stop_id : Daemon → Bytes → Daemon × Result BeaconHandlerError Bool
unfolding stop_daemon is_last stop_handler handler_of_id
stop_id d id =
    if is_last d id
    then (stop_daemon d, ok true)
    else elim (handler_of_id d id) [ err e ↦ (d, err e) | ok h ↦ (stop_handler d h, ok false) ]

-- A process that is started and put last, with the id of its folder.
unfoldable pub push_handler : Daemon → Bytes → Daemon
push_handler d id = record d {
  beacons = d.beacons ++ record { beacon_id = id; process = d.started } ∷ [];
  started = suc d.started;
}

-- `valid` tells whether the store's folder is valid and the process can be set up. The request's id
-- is what the loaded ids are compared with; the handler has the id of the folder, from its path.
unfoldable pub load_id :
    (multibeacon_path : Bytes)
    → Bool
    → Daemon
    → Bytes
    → Daemon × Result BeaconHandlerError (Unit {0})
unfolding push_handler has_beacon_id
load_id multibeacon_path valid d id =
    if any (has_beacon_id id) d.beacons
    then (d, err BeaconHandlerError.already_loaded)
    else if not valid
    then (d, err BeaconHandlerError.unknown_id)
    else elim (get_beacon_id (path_join multibeacon_path id)) [
      | none ↦ (d, err BeaconHandlerError.unknown_id)
      | some beacon_id ↦ (push_handler d beacon_id, ok tt)
    ]

pub data DaemonOp : Type 0 where
  load : (valid : Bool) → (id : Bytes) → DaemonOp
  stop : (id : Bytes) → DaemonOp
  stop_all : DaemonOp

unfoldable pub daemon_step : (multibeacon_path : Bytes) → Daemon → DaemonOp → Daemon
unfolding load_id stop_id stop_daemon
daemon_step multibeacon_path d (DaemonOp.load valid id) = (load_id multibeacon_path valid d id).0
daemon_step multibeacon_path d (DaemonOp.stop id) = (stop_id d id).0
daemon_step multibeacon_path d DaemonOp.stop_all = stop_daemon d

unfoldable pub daemon_run : (multibeacon_path : Bytes) → Daemon → List DaemonOp → Daemon
unfolding daemon_step
daemon_run multibeacon_path d [] = d
daemon_run multibeacon_path d (op ∷ ops) =
    daemon_run multibeacon_path (daemon_step multibeacon_path d op) ops

unfoldable pub no_beacons : Daemon
no_beacons = record { beacons = []; shut_down = []; stopping = false; started = 0 }

unfoldable pub push_all : Daemon → List Bytes → Daemon
unfolding push_handler
push_all d [] = d
push_all d (id ∷ ids) = push_all (push_handler d id) ids

-- `MultiBeacon::new`: the handlers of the folders, in their order, each with the id of
-- its folder.
unfoldable pub daemon_new : List Bytes → Daemon
unfolding push_all no_beacons
daemon_new ids = push_all no_beacons ids
