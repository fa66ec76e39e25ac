-- ===== src/Chain/Sync/Resync.antt =====
-- What a resync task passes on: src/chain/sync.rs.
use drand_rs.Chain.Beacon.{BeaconPacket}
use drand_rs.Chain.Sync.{resync_stream, resync_peers, resync, StreamEnd, SyncError}
use drand_rs.Chain.Sync.Runs.{
  End-cases, IsRun, EndsAt, advance, reach, reach-le, resync_stream_lem, IsRun-append,
}
use drand_rs.Common.{
  ap, Bytes, List, Result, [], arith, err, inl, inr, length, ok, two_64, ℕ, ◌+◌, ◌<◌, ◌∷◌, ◌≡◌, ◌⊎◌,
  Option, false, leb, none, some, sub_u64, subst, sym, ◌++◌, ◌-◌, ◌∙◌, ◌≤◌, length-append,
}

module _ (id : Bytes) (up_to : ℕ) where
  -- The result of the task after `n` packets: it is done where the target is passed on; else it has
  -- filled the channel, whose receiver is gone, and a further packet is there, or all the peers
  -- together reach no further.
  abbrev pub Finishes :
      (last room : ℕ) → List (Option (List BeaconPacket)) → ℕ → Result SyncError (Unit {0}) → Type 0
  Finishes last room peers n (ok u) = last + n ≡ up_to
  Finishes last room peers n (err e) =
      (last + n < up_to)
      × ((e ≡ SyncError.sync_closed_tx) × (n ≡ room) × (last + n < reach id up_to last peers)
          ⊎ (e ≡ SyncError.tried_all_pers (last + n)) × (last + n ≡ reach id up_to last peers))

  EndsAt-Finishes :
      (last room n : ℕ) (stream : List BeaconPacket) (peers : List (Option (List BeaconPacket)))
      (r : Result SyncError (Unit {0}))
      → EndsAt id up_to last room stream n (StreamEnd.done r)
      → Finishes last room (some stream ∷ peers) n r
  EndsAt-Finishes last room n stream peers (ok u) f = f
  EndsAt-Finishes last room n stream peers (err e) (f, less, full, further) = (
    less,
    inl (f, full, omega (arith, further, reach-le id up_to (advance id up_to last stream) peers)),
  )

  -- The peers after a stream that passed on `n` packets.
  Finishes-next :
      (last last' room room' n k m : ℕ) (stream : List BeaconPacket)
      (peers : List (Option (List BeaconPacket))) (r : Result SyncError (Unit {0}))
      → last' ≡ last + n
      → last' ≡ advance id up_to last stream
      → n + room' ≡ room
      → m ≡ n + k
      → Finishes last' room' peers k r
      → Finishes last room (some stream ∷ peers) m r
  Finishes-next last last' room room' n k m stream peers (ok u) a c d e f = omega (arith, f, a, e)
  Finishes-next last last' room room' n k m stream peers (err er) a c d e (less, inl (x, y, z)) =
      let same : last' + k ≡ last + m = omega (arith, a, e) in
      let more : last' + k < reach id up_to (advance id up_to last stream) peers =
        subst (λ l. last' + k < reach id up_to l peers) c z in
      (omega (arith, less, a, e), inl (x, omega (arith, y, d, e), omega (arith, more, same)))
  Finishes-next last last' room room' n k m stream peers (err er) a c d e (less, inr (x, y)) =
      let same : last' + k ≡ last + m = omega (arith, a, e) in
      (
        omega (arith, less, a, e),
        inr (
          x ∙ ap SyncError.tried_all_pers same,
          sym same ∙ y ∙ ap (λ l. reach id up_to l peers) c,
        ),
      )

  abbrev Brings :
      (last room : ℕ)
      → List (Option (List BeaconPacket))
      → List BeaconPacket × Result SyncError (Unit {0})
      → Type 0
  Brings last room peers r = IsRun id up_to last r.0 × Finishes last room peers (length r.0) r.1

  resync_peers_lem :
      (peers : List (Option (List BeaconPacket))) (last room : ℕ)
      → last < up_to
      → up_to < two_64
      → Brings last room peers (resync_peers id up_to peers last room)
  unfolding resync_peers
  resync_peers_lem [] last room h b =
      (tt, (omega arith, inr (ap SyncError.tried_all_pers (omega arith), omega arith)))
  resync_peers_lem (none ∷ peers) last room h b =
      let early : leb up_to last ≡ false = ground arith in
      rw (early, resync_peers) (resync_peers_lem peers last room h b)
  resync_peers_lem (some stream ∷ peers) last room h b =
      let early : leb up_to last ≡ false = ground arith in
      let (run, ends) = resync_stream_lem id up_to stream last room h b in
      let sent = (resync_stream id up_to stream last room).0 in
      elim (End-cases (resync_stream id up_to stream last room).1) [
        | inl (last', room', e) ↦
            let (e', less, far, left) =
              subst (EndsAt id up_to last room stream (length sent)) e ends in
            let (run', fin) = resync_peers_lem peers last' room' less b in
            let rest = resync_peers id up_to peers last' room' in
            rw (early, e, resync_peers)
              (
                IsRun-append id up_to last sent rest.0 run
                    (subst (λ n. IsRun id up_to n rest.0) e' run'),
                Finishes-next last last' room room' (length sent) (length rest.0)
                    (length (sent ++ rest.0)) stream peers rest.1 e' far left
                    (length-append sent rest.0) fin,
              )
        | inr (result, e) ↦
            rw (early, e, resync_peers)
              (
                run,
                EndsAt-Finishes last room _ stream peers result
                    (subst (EndsAt id up_to last room stream (length sent)) e ends),
              )
      ]

  -- From a round between 1 and `up_to`, the task passes on the beacons from `start_from` on, one by
  -- one and none twice, and not beyond `up_to`. It succeeds exactly at `up_to`. It fails only before
  -- `up_to`: where a further beacon is offered but the channel that the chain no longer takes from is
  -- full, or where all the peers have been tried, and the beacons that they offer one after the other,
  -- from the first to the last, reach no further.
  pub resync_lem :
      (start_from : ℕ) (peers : List (Option (List BeaconPacket))) (room : ℕ)
      → 0 < start_from
      → start_from ≤ up_to
      → up_to < two_64
      → IsRun id up_to (start_from - 1) (resync start_from up_to peers id room).0
        × Finishes
            (start_from - 1)
            room
            peers
            (length (resync start_from up_to peers id room).0)
            (resync start_from up_to peers id room).1
  unfolding resync
  resync_lem start_from peers room first h b =
      let e : sub_u64 start_from 1 ≡ start_from - 1 = omega arith in
      rw (e, resync) (resync_peers_lem peers (start_from - 1) room (omega arith) b)
