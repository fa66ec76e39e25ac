-- ===== src/Chain/Sync/Runs.antt =====
-- What a resync task passes on of one stream: src/chain/sync.rs.
use drand_rs.Chain.Beacon.{BeaconPacket}
use drand_rs.Chain.Sync.{resync_stream, has_id, StreamEnd, SyncError}
use drand_rs.Common.{
  if◌then◌else◌, ◌&&◌, Bool-cases, ==_iff, Bytes, List, Result, [], add_u64, arith, err, inl, inr,
  length, ok, suc, true, two_64, zero, ℕ, ◌+◌, ◌<◌, ◌==◌, ◌∷◌, ◌≡◌, ◌⊎◌, Option, none, refl, some,
  subst, ◌++◌, ◌≤◌,
}

pub End-cases :
    (e : StreamEnd)
    → ((last : ℕ) × (room : ℕ) × (e ≡ StreamEnd.next_peer last room))
      ⊎ ((r : Result SyncError (Unit {0})) × (e ≡ StreamEnd.done r))
End-cases (StreamEnd.next_peer last room) = inl (last, room, refl)
End-cases (StreamEnd.done r) = inr (r, refl)

module _ (id : Bytes) (up_to : ℕ) where
  -- The packets after round `last`, without gaps, all of the beacon with the id.
  abbrev pub IsRun : ℕ → List BeaconPacket → Type 0
  IsRun last [] = Unit
  IsRun last (p ∷ ps) = (p.round ≡ last + 1) × (has_id id p ≡ true) × IsRun (last + 1) ps

  -- The round that a stream reaches from round `last`, where its receiver takes all.
  abbrev pub advance : ℕ → List BeaconPacket → ℕ
  advance last [] = last
  advance last (p ∷ ps) =
      let more = advance (last + 1) ps in
      if has_id id p && (p.round == last + 1) then more else last

  -- The round that all the peers reach together, each from where those before it have come; one
  -- without a stream gives nothing.
  abbrev pub reach : ℕ → List (Option (List BeaconPacket)) → ℕ
  reach last [] = last
  reach last (none ∷ peers) = reach last peers
  reach last (some stream ∷ peers) = reach (advance last stream) peers

  pub advance-le : (last : ℕ) (stream : List BeaconPacket) → last ≤ advance last stream
  advance-le last [] = omega arith
  advance-le last (p ∷ ps) =
      let more = advance-le (last + 1) ps in
      elim (Bool-cases (has_id id p && (p.round == last + 1))) [
        | inl next ↦ rw next (omega (arith, more))
        | inr other ↦ rw other (omega arith)
      ]

  pub reach-le : (last : ℕ) (peers : List (Option (List BeaconPacket))) → last ≤ reach last peers
  reach-le last [] = omega arith
  reach-le last (none ∷ peers) = reach-le last peers
  reach-le last (some stream ∷ peers) =
      omega (arith, advance-le last stream, reach-le (advance last stream) peers)

  -- How a stream ends after `n` packets into a channel with the room.
  abbrev pub EndsAt : (last room : ℕ) → List BeaconPacket → ℕ → StreamEnd → Type 0
  EndsAt last room stream n (StreamEnd.next_peer last' room') =
      (last' ≡ last + n) × (last' < up_to) × (last' ≡ advance last stream) × (n + room' ≡ room)
  EndsAt last room stream n (StreamEnd.done (ok u)) = last + n ≡ up_to
  EndsAt last room stream n (StreamEnd.done (err e)) =
      (e ≡ SyncError.sync_closed_tx)
      × (last + n < up_to)
      × (n ≡ room)
      × (last + n < advance last stream)

  abbrev pub PassesOn : (last room : ℕ) → List BeaconPacket → List BeaconPacket × StreamEnd → Type 0
  PassesOn last room stream r = IsRun last r.0 × EndsAt last room stream (length r.0) r.1

  -- Nothing more is passed on.
  stopped :
      (last room : ℕ) (stream : List BeaconPacket)
      → last < up_to
      → last ≡ advance last stream
      → PassesOn last room stream ([], StreamEnd.next_peer last room)
  stopped last room stream h e = (tt, (omega arith, omega arith, e, omega arith))

  EndsAt-suc :
      (last room : ℕ) (p : BeaconPacket) (ps : List BeaconPacket) (n : ℕ) (e : StreamEnd)
      → (has_id id p && (p.round == last + 1)) ≡ true
      → EndsAt (last + 1) room ps n e
      → EndsAt last (suc room) (p ∷ ps) (suc n) e
  EndsAt-suc last room p ps n (StreamEnd.next_peer last' room') next (a, b, c, d) =
      (omega (arith, a), b, rw next c, omega (arith, d))
  EndsAt-suc last room p ps n (StreamEnd.done (ok u)) next a = omega (arith, a)
  EndsAt-suc last room p ps n (StreamEnd.done (err e)) next (a, b, c, d) =
      (a, omega (arith, b), omega (arith, c), rw next (omega (arith, d)))

  pub resync_stream_lem :
      (stream : List BeaconPacket) (last room : ℕ)
      → last < up_to
      → up_to < two_64
      → PassesOn last room stream (resync_stream id up_to stream last room)
  unfolding resync_stream
  resync_stream_lem [] last room h b = stopped last room [] h refl
  resync_stream_lem (p ∷ ps) last zero h b =
      let e : add_u64 last 1 ≡ last + 1 = omega (arith, h, b) in
      elim (Bool-cases (has_id id p)) [
        | inr other ↦ rw (other, resync_stream) (stopped last 0 (p ∷ ps) h (rw other refl))
        | inl ours ↦ elim (Bool-cases (p.round == last + 1)) [
          | inr gap ↦
              rw (ours, e, gap, resync_stream) (stopped last 0 (p ∷ ps) h (rw (ours, gap) refl))
          | inl next ↦
              rw (ours, e, next, resync_stream)
                (
                  tt,
                  (
                    refl,
                    omega arith,
                    refl,
                    rw (ours, next) (omega (arith, advance-le (last + 1) ps)),
                  ),
                )
        ]
      ]
  resync_stream_lem (p ∷ ps) last (suc room) h b =
      let e : add_u64 last 1 ≡ last + 1 = omega (arith, h, b) in
      elim (Bool-cases (has_id id p)) [
        | inr other ↦ rw (other, resync_stream) (stopped last (suc room) (p ∷ ps) h (rw other refl))
        | inl ours ↦ elim (Bool-cases (p.round == last + 1)) [
          | inr gap ↦
              rw (ours, e, gap, resync_stream)
                (stopped last (suc room) (p ∷ ps) h (rw (ours, gap) refl))
          | inl next ↦
              let r : p.round ≡ last + 1 = (==_iff _ _).0 next in
              elim (Bool-cases (last + 1 == up_to)) [
                | inl end ↦
                    rw (ours, e, next, end, resync_stream) ((r, ours, tt), ((==_iff _ _).0 end))
                | inr on ↦
                    let (run, ends) = resync_stream_lem ps (last + 1) room (ground arith) b in
                    let more = resync_stream id up_to ps (last + 1) room in
                    let both : (has_id id p && (p.round == last + 1)) ≡ true =
                      rw (ours, next) refl in
                    rw (ours, e, next, on, resync_stream)
                      ((r, ours, run), EndsAt-suc last room p ps (length more.0) more.1 both ends)
              ]
        ]
      ]

  pub IsRun-append :
      (last : ℕ) (xs ys : List BeaconPacket)
      → IsRun last xs
      → IsRun (last + length xs) ys
      → IsRun last (xs ++ ys)
  IsRun-append last [] ys f g = subst (λ n. IsRun n ys) (omega arith) g
  IsRun-append last (x ∷ xs) ys f g =
      (f.0, f.1, IsRun-append (last + 1) xs ys f.2 (subst (λ n. IsRun n ys) (omega arith) g))
