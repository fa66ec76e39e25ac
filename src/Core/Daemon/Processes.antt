-- ===== src/Core/Daemon/Processes.antt =====
-- Every process of a daemon is running or shut down: src/core/daemon.rs.
use mathlib.Core.List.Perm
use mathlib.Core.List.{Perm, perm_middle}
use drand_rs.Common.{
  find-test, any-append, any-retain, Bool, Bool-cases, Bytes, List, [], any, ap, arith, bytes_eq,
  bytes_eq_refl, bytes_eq→eq, false, find, inl, inr, map, not, refl, retain, some, some_injective,
  subst, suc, true, zero, ℕ, ◌++◌, ◌∙◌, ◌∷◌, ◌≡◌, Option-cases, append_assoc, map-append,
}
use drand_rs.Core.Daemon.{
  BeaconHandler, Daemon, has_beacon_id, DaemonOp, daemon_run, daemon_step, handler_of_id, is_last,
  load_id, no_beacons, push_handler, stop_daemon, stop_handler, stop_id,
}
use drand_rs.Core.Folder.{get_beacon_id-path_join, is_plain}

abbrev processes : List BeaconHandler → List ℕ
processes hs = map (λ (h : BeaconHandler). h.process) hs

-- No two handlers have one id.
unfoldable pub AreDistinct : List BeaconHandler → Type 0
AreDistinct [] = Unit
AreDistinct (h ∷ hs) = (any (has_beacon_id h.beacon_id) hs ≡ false) × AreDistinct hs

-- The numbers of the processes that were started, the last one first.
unfoldable pub below : ℕ → List ℕ
below zero = []
below (suc n) = n ∷ below n

-- No two handlers have one id, and each process that was started has a handler or was sent one
-- Shutdown command, and not both.
pub record IsAccounted (d : Daemon) : Type 0 where
  pub distinct : AreDistinct d.beacons
  pub accounts : Perm (processes d.beacons ++ d.shut_down) (below d.started)

has_id_sym :
    (a b : BeaconHandler)
    → has_beacon_id a.beacon_id b ≡ false
    → has_beacon_id b.beacon_id a ≡ false
unfolding has_beacon_id
has_id_sym a b h = elim (Bool-cases (bytes_eq a.beacon_id b.beacon_id)) [
  | inr other ↦ other
  | inl same ↦ absurd (cc (h, bytes_eq_refl a.beacon_id, bytes_eq→eq a.beacon_id b.beacon_id same))
]

AreDistinct-append :
    (hs : List BeaconHandler) (h : BeaconHandler)
    → AreDistinct hs
    → any (has_beacon_id h.beacon_id) hs ≡ false
    → AreDistinct (hs ++ h ∷ [])
unfolding AreDistinct any
AreDistinct-append [] h d new = (refl, tt)
AreDistinct-append (x ∷ hs) h (first, d) new =
    let apart : has_beacon_id h.beacon_id x ≡ false = ground arith in
    let rest : any (has_beacon_id h.beacon_id) hs ≡ false = ground arith in
    (
      any-append (has_beacon_id x.beacon_id) hs (h ∷ [])
          ∙ ground (arith, first, has_id_sym h x apart),
      AreDistinct-append hs h d rest,
    )

AreDistinct-retain :
    (keep : BeaconHandler → Bool) (hs : List BeaconHandler)
    → AreDistinct hs
    → AreDistinct (retain keep hs)
unfolding AreDistinct retain
AreDistinct-retain keep [] d = tt
AreDistinct-retain keep (x ∷ hs) (first, d) =
    let rest = AreDistinct-retain keep hs d in
    let absent : any (has_beacon_id x.beacon_id) (retain keep hs) ≡ false =
      elim (Bool-cases (any (has_beacon_id x.beacon_id) (retain keep hs))) [
        | inr absent ↦ absent
        | inl there ↦ absurd (cc (first, any-retain keep (has_beacon_id x.beacon_id) hs there))
      ] in
    elim (Bool-cases (keep x)) [
      | inl kept ↦ rw (kept, retain) (absent, rest)
      | inr dropped ↦ rw (dropped, retain) rest
    ]

-- Where no handler has the id, all are kept.
retain_others :
    (id : Bytes) (hs : List BeaconHandler)
    → any (has_beacon_id id) hs ≡ false
    → retain (λ x. not (has_beacon_id id x)) hs ≡ hs
unfolding retain any
retain_others id [] h = refl
retain_others id (x ∷ hs) h =
    let apart : has_beacon_id id x ≡ false = ground arith in
    let rest : any (has_beacon_id id) hs ≡ false = ground arith in
    rw apart (ap (◌∷◌ x) (retain_others id hs rest))

-- The handler that is found is the only one that goes.
found-perm :
    (id : Bytes) (hs : List BeaconHandler) {h : BeaconHandler}
    → AreDistinct hs
    → find (has_beacon_id id) hs ≡ some h
    → Perm
        (h.process ∷ processes (retain (λ x. not (has_beacon_id h.beacon_id x)) hs))
        (processes hs)
unfolding AreDistinct find retain
found-perm id [] d e = absurd (cc)
found-perm id (x ∷ hs) {h} (first, d) e = elim (Bool-cases (has_beacon_id id x)) [
  | inl here ↦
      let x_is : x ≡ h = some_injective (rw (here, find) at e) in
      let own : has_beacon_id x.beacon_id x ≡ true =
        unfold has_beacon_id in bytes_eq_refl x.beacon_id in
      subst
        (λ (h : BeaconHandler).
          Perm (h.process ∷ processes (retain (λ x. not (has_beacon_id h.beacon_id x)) (x ∷ hs)))
            (processes (x ∷ hs)))
        x_is
        (rw (own, retain)
          (rw (retain_others x.beacon_id hs first) (Perm.refl (x.process ∷ processes hs))))
  | inr later ↦
      let there : find (has_beacon_id id) hs ≡ some h = rw (later, find) at e in
      let h_id : h.beacon_id ≡ id =
        unfold has_beacon_id in
        bytes_eq→eq h.beacon_id id (find-test (has_beacon_id id) hs there) in
      let apart : has_beacon_id h.beacon_id x ≡ false = rw h_id later in
      rw (apart, retain)
        (Perm.trans (Perm.swap x.process h.process _)
          (Perm.cons x.process (found-perm id hs d there)))
]

push_handler-IsAccounted :
    (d : Daemon) (id : Bytes)
    → any (has_beacon_id id) d.beacons ≡ false
    → IsAccounted d
    → IsAccounted (push_handler d id)
unfolding push_handler below
push_handler-IsAccounted d id new v = record {
  distinct = AreDistinct-append d.beacons _ v.distinct new;
  accounts =
      rw
        (
          map-append (λ (h : BeaconHandler). h.process) d.beacons
              (record { beacon_id = id; process = d.started } ∷ []),
          append_assoc (processes d.beacons) (d.started ∷ []) d.shut_down,
        )
        (Perm.trans (perm_middle (processes d.beacons) d.shut_down)
          (Perm.cons d.started v.accounts));
}

stop_handler-IsAccounted :
    (d : Daemon) (id : Bytes) {h : BeaconHandler}
    → find (has_beacon_id id) d.beacons ≡ some h
    → IsAccounted d
    → IsAccounted (stop_handler d h)
unfolding stop_handler
stop_handler-IsAccounted d id {h} there v = record {
  distinct = AreDistinct-retain _ d.beacons v.distinct;
  accounts = Perm.trans (perm_middle _ d.shut_down) (
      Perm.trans (Perm.append_right d.shut_down (found-perm id d.beacons v.distinct there))
        v.accounts);
}

stop_daemon-IsAccounted : (d : Daemon) → IsAccounted d → IsAccounted (stop_daemon d)
unfolding stop_daemon AreDistinct
stop_daemon-IsAccounted d v = record { distinct = tt; accounts = v.accounts }

stop_id-IsAccounted : (d : Daemon) (id : Bytes) → IsAccounted d → IsAccounted (stop_id d id).0
unfolding stop_id handler_of_id
stop_id-IsAccounted d id v = elim (Bool-cases (is_last d id)) [
  | inl last_one ↦ rw (last_one, stop_id) (stop_daemon-IsAccounted d v)
  | inr more ↦ elim (Option-cases (find (has_beacon_id id) d.beacons)) [
    | inl absent ↦ rw (more, absent, stop_id) v
    | inr (h, there) ↦ rw (more, there, stop_id) (stop_handler-IsAccounted d id there v)
  ]
]

-- The ids of all the loads name folders of their own.
unfoldable pub ArePlain : List DaemonOp → Type 0
ArePlain [] = Unit
ArePlain (DaemonOp.load valid id ∷ ops) = (is_plain id ≡ true) × ArePlain ops
ArePlain (DaemonOp.stop id ∷ ops) = ArePlain ops
ArePlain (DaemonOp.stop_all ∷ ops) = ArePlain ops

module _ (multibeacon_path : Bytes) where
  load_id-IsAccounted :
      (valid : Bool) (d : Daemon) (id : Bytes)
      → is_plain id ≡ true
      → IsAccounted d
      → IsAccounted (load_id multibeacon_path valid d id).0
  unfolding load_id
  load_id-IsAccounted valid d id plain v = elim (Bool-cases (any (has_beacon_id id) d.beacons)) [
    | inl loaded ↦ rw (loaded, load_id) v
    | inr new ↦ elim (Bool-cases valid) [
      | inl fine ↦
          rw (new, fine, get_beacon_id-path_join multibeacon_path id plain, load_id)
            (push_handler-IsAccounted d id new v)
      | inr bad ↦ rw (new, bad, load_id) v
    ]
  ]

  -- After any loads and stops, one after the other, where the ids to load are single names: no two
  -- handlers have one id, and each process that was started has a handler or was sent one Shutdown
  -- command, and not both.
  pub daemon_run-IsAccounted :
      (d : Daemon) (ops : List DaemonOp)
      → ArePlain ops
      → IsAccounted d
      → IsAccounted (daemon_run multibeacon_path d ops)
  unfolding daemon_run daemon_step ArePlain
  daemon_run-IsAccounted d [] plain v = v
  daemon_run-IsAccounted d (DaemonOp.load valid id ∷ ops) (one, plain) v =
      daemon_run-IsAccounted (load_id multibeacon_path valid d id).0 ops plain
        (load_id-IsAccounted valid d id one v)
  daemon_run-IsAccounted d (DaemonOp.stop id ∷ ops) plain v =
      daemon_run-IsAccounted (stop_id d id).0 ops plain (stop_id-IsAccounted d id v)
  daemon_run-IsAccounted d (DaemonOp.stop_all ∷ ops) plain v =
      daemon_run-IsAccounted (stop_daemon d) ops plain (stop_daemon-IsAccounted d v)

-- A daemon without beacons.
pub no_beacons-IsAccounted : IsAccounted no_beacons
unfolding no_beacons AreDistinct below
no_beacons-IsAccounted = record { distinct = tt; accounts = Perm.refl [] }
