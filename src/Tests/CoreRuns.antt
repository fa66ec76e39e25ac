-- ===== src/Tests/CoreRuns.antt =====
-- A run of a daemon: src/core/daemon.rs.
use drand_rs.Common.{Bytes, List, [], any, bytes_eq, find, refl, retain, true, ◌∷◌, ◌≡◌}
use drand_rs.Common.Text.{text}
use drand_rs.Core.Daemon.{
  daemon_run, no_beacons, DaemonOp, daemon_step, handler_of_id, has_beacon_id, is_last, load_id,
  push_handler, stop_handler, stop_id,
}
use drand_rs.Core.Daemon.Processes.{
  ArePlain, IsAccounted, daemon_run-IsAccounted, no_beacons-IsAccounted,
}
use drand_rs.Core.Folder.{
  get_beacon_id, path_join, file_name, last_part, end_part, is_absolute, is_plain,
}

abbrev home : Bytes
home = text "/home/multibeacon"

abbrev ops : List DaemonOp
ops =
    DaemonOp.load true (text "default")
    ∷ DaemonOp.load true (text "quicknet")
    ∷ DaemonOp.load true (text "default")
    ∷ DaemonOp.stop (text "default")
    ∷ []

one_is_left :
    (daemon_run home no_beacons ops).beacons
    ≡ record { beacon_id = text "quicknet"; process = 1 } ∷ []
unfolding daemon_run daemon_step load_id stop_id no_beacons is_last handler_of_id push_handler
    stop_handler has_beacon_id any find retain bytes_eq get_beacon_id path_join file_name last_part
    end_part is_absolute
one_is_left = refl

daemon_run-IsAccounted_example : IsAccounted (daemon_run home no_beacons ops)
unfolding is_plain any bytes_eq ArePlain
daemon_run-IsAccounted_example =
    daemon_run-IsAccounted home no_beacons ops (refl, (refl, (refl, tt))) no_beacons-IsAccounted

-- A second load of the folder with a slash behind its name gives a second handler with the id.
one_id_twice :
    (daemon_run home no_beacons
      (DaemonOp.load true (text "foo") ∷ DaemonOp.load true (text "foo/") ∷ [])).beacons
    ≡ record { beacon_id = text "foo"; process = 0 }
      ∷ record { beacon_id = text "foo"; process = 1 }
      ∷ []
unfolding daemon_run daemon_step load_id no_beacons push_handler has_beacon_id any bytes_eq
    get_beacon_id path_join file_name last_part end_part is_absolute
one_id_twice = refl
