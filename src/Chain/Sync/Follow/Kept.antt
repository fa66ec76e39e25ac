-- ===== src/Chain/Sync/Follow/Kept.antt =====
-- What a follow request stores: src/chain/sync.rs.
use mathlib.Core.List.{append-nil}
use drand_rs.Chain.Beacon.{BeaconPacket, BeaconRepr}
use drand_rs.Chain.Info.{ChainInfo}
use drand_rs.Chain.Store.{ChainStore, last, StoreError}
use drand_rs.Chain.Store.Verified.{IsChain}
use drand_rs.Chain.Sync.{SyncError}
use drand_rs.Chain.Sync.Follow.{follow_stream, follow_peers, process_follow_request}
use drand_rs.Chain.Sync.Follow.Streams.{
  End-cases, Continues, StreamOutcome, Ended, Streamed, Refuses, advance, reach,
  follow_stream-Streamed,
}
use drand_rs.Common.{
  List, add_u64, ℕ, ◌≡◌, ◌≤◌, Bool-cases, Result, [], ap, arith, err, inl, inr, length, ok, refl,
  ◌+◌, ◌<◌, ◌==◌, ◌∙◌, ◌∷◌, ◌⊎◌, Option, false, leb, ltb, none, some, subst, sym, two_64,
}
use drand_rs.Scheme.{Scheme}

module _ (S : Scheme) (R : BeaconRepr) (info : ChainInfo S) (target : ℕ) where
  -- The result from the beacon `b` and with the peers: as that of a stream, or all peers were tried,
  -- and together they lead no further.
  abbrev pub Outcome :
      (full : ℕ)
      → R.Beacon
      → List (Option (List BeaconPacket))
      → ChainStore R
      → R.Beacon
      → Result SyncError (Unit {0})
      → Type 0
  Outcome full b peers store latest (ok u) =
      (R.round latest ≡ target) ⊎ (length store.rows ≡ full + 1)
  Outcome full b peers store latest (err e) =
      ((f : StoreError) × (e ≡ SyncError.chain_store f) × Refuses S R info target store latest f)
      ⊎ (e ≡ SyncError.tried_all_pers (R.round latest))
        × (R.round latest < target)
        × (latest ≡ reach S R info target b peers)

  -- What is stored never goes beyond the target.
  pub record Kept (rows : List R.Beacon) (full : ℕ) (b : R.Beacon)
      (peers : List (Option (List BeaconPacket))) (store : ChainStore R)
      (r : Result SyncError (Unit {0})) : Type 0 where
    pub latest : R.Beacon
    pub continues : Continues S R info target rows store.rows latest
    pub within : R.round latest ≤ target
    pub outcome : Outcome full b peers store latest r

  -- The peers after one whose stream led from `b` to the beacon `b'`.
  Outcome-next :
      (full : ℕ) (b b' : R.Beacon) (stream : List BeaconPacket)
      (peers : List (Option (List BeaconPacket))) (store : ChainStore R) (latest : R.Beacon)
      (r : Result SyncError (Unit {0}))
      → b' ≡ advance S R info target b stream
      → Outcome full b' peers store latest r
      → Outcome full b (some stream ∷ peers) store latest r
  Outcome-next full b b' stream peers store latest (ok u) e o = o
  Outcome-next full b b' stream peers store latest (err er) e (inl failed) = inl failed
  Outcome-next full b b' stream peers store latest (err er) e (inr (x, less, y)) =
      inr (x, less, y ∙ ap (λ z. reach S R info target z peers) e)

  Outcome-ended :
      (full : ℕ) (b : R.Beacon) (peers : List (Option (List BeaconPacket))) (store : ChainStore R)
      (latest : R.Beacon) (r : Result SyncError (Unit {0}))
      → StreamOutcome S R info target full store latest r
      → Outcome full b peers store latest r
  Outcome-ended full b peers store latest (ok u) o = o
  Outcome-ended full b peers store latest (err e) o = inl o

  Outcome-skip :
      (full : ℕ) (b : R.Beacon) (peers : List (Option (List BeaconPacket))) (store : ChainStore R)
      (latest : R.Beacon) (r : Result SyncError (Unit {0}))
      → Outcome full b peers store latest r
      → Outcome full b (none ∷ peers) store latest r
  Outcome-skip full b peers store latest (ok u) o = o
  Outcome-skip full b peers store latest (err e) o = o

  Ended-Kept :
      (rows : List R.Beacon) (full : ℕ) (b : R.Beacon) (peers : List (Option (List BeaconPacket)))
      (store : ChainStore R) (r : Result SyncError (Unit {0}))
      → Ended S R info target rows full store r
      → Kept rows full b peers store r
  Ended-Kept rows full b peers store r ended = record {
    latest = ended.latest;
    continues = ended.continues;
    within = ended.within;
    outcome = Outcome-ended full b peers store ended.latest r ended.outcome;
  }

  follow_peers-Kept :
      (rows : List R.Beacon) (full : ℕ) (store : ChainStore R) (b : R.Beacon)
      (peers : List (Option (List BeaconPacket))) (room : ℕ)
      → target < two_64
      → Continues S R info target rows store.rows b
      → R.round b < target
      → length store.rows + room ≡ full
      → Kept rows full b peers
          (follow_peers S R info target store b peers room).0
          (follow_peers S R info target store b peers room).1
  unfolding follow_peers
  follow_peers-Kept rows full store b [] room big c less r =
      let other : (R.round b == target) ≡ false = ground arith in
      rw (other, follow_peers)
        (record {
          latest = b;
          continues = c;
          within = omega arith;
          outcome = inr (refl, less, refl);
        })
  follow_peers-Kept rows full store b (none ∷ peers) room big c less r =
      let open_target : ltb target (add_u64 (R.round b) 1) ≡ false = ground arith in
      let kept = follow_peers-Kept rows full store b peers room big c less r in
      rw (open_target, follow_peers)
        (record {
          latest = kept.latest;
          continues = kept.continues;
          within = kept.within;
          outcome =
              Outcome-skip full b peers (follow_peers S R info target store b peers room).0
                kept.latest (follow_peers S R info target store b peers room).1 kept.outcome;
        })
  follow_peers-Kept rows full store b (some stream ∷ peers) room big c less r =
      let open_target : ltb target (add_u64 (R.round b) 1) ≡ false = ground arith in
      let streamed =
        follow_stream-Streamed S R info target rows full store b stream room c less r in
      elim (End-cases (follow_stream S R info target store b stream room)) [
        | inl (store', b', room', e) ↦
            let (c', less', r', far) =
              subst (Streamed S R info target rows full b stream) e streamed in
            let kept = follow_peers-Kept rows full store' b' peers room' big c' less' r' in
            let rest = follow_peers S R info target store' b' peers room' in
            rw (open_target, e, follow_peers)
              (record {
                latest = kept.latest;
                continues = kept.continues;
                within = kept.within;
                outcome =
                    Outcome-next full b b' stream peers rest.0 kept.latest rest.1 far kept.outcome;
              })
        | inr (store', result, e) ↦
            rw (open_target, e, follow_peers)
              (Ended-Kept rows full b (some stream ∷ peers) store' result
                (subst (Streamed S R info target rows full b stream) e streamed))
      ]

  -- A follow request on a signed chain leaves a signed chain that continues it, and stores nothing
  -- beyond the target. It succeeds only at the target, or where the client was gone after it took
  -- `room` reports. Else the store does not answer or refused a next beacon; or, short of the target, all
  -- peers were tried, and the beacons that they offer one after the other, from the first to the
  -- last, lead no further. The error for an invalid target is never met.
  pub process_follow_request-Kept :
      (store : ChainStore R) (b : R.Beacon) (peers : List (Option (List BeaconPacket))) (room : ℕ)
      → target < two_64
      → R.round b < target
      → IsChain S R info.public_key store.rows b
      → Kept store.rows
          (length store.rows + room)
          b
          peers
          (process_follow_request S R info target store peers room).0
          (process_follow_request S R info target store peers room).1
  unfolding process_follow_request last
  process_follow_request-Kept store b peers room big less chain =
      let c : Continues S R info target store.rows store.rows b = record {
        chain = chain;
        news = [];
        appended = sym (append-nil store.rows);
      } in
      let early : leb target (R.round b) ≡ false = ground arith in
      elim (Bool-cases store.alive) [
        | inr dead ↦
            rw (dead, process_follow_request)
              (record {
                latest = b;
                continues = c;
                within = omega arith;
                outcome = inl (StoreError.actor_closed_rx, refl, inl (rw (dead, last) refl));
              })
        | inl live ↦
            let row = chain.ends in
            rw (live, row, early, process_follow_request)
              (follow_peers-Kept store.rows (length store.rows + room) store b peers room big c less
                refl)
      ]
