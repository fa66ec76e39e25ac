-- ===== src/Chain/Sync/Follow/Streams.antt =====
-- What one stream of a follow request stores: src/chain/sync.rs.
use drand_rs.Chain.Beacon.{BeaconPacket, BeaconRepr}
use drand_rs.Chain.Info.{ChainInfo}
use drand_rs.Chain.Store.{ChainStore, put, last, StoreError}
use drand_rs.Chain.Store.Verified.{IsChain, Follows, put-IsChain, last_row-round}
use drand_rs.Chain.Sync.{SyncError}
use drand_rs.Chain.Sync.Follow.{FollowEnd, is_next, follow_stream}
use drand_rs.Common.{
  if◌then◌else◌, List, add_u64, true, ℕ, ◌++◌, ◌≡◌, ◌≤◌, Bool-cases, Option-cases, Result, [], ap,
  append_assoc, arith, err, inl, inr, length, length-append, ok, refl, suc, zero, ◌+◌, ◌<◌, ◌==◌,
  ◌∙◌, ◌∷◌, ◌⊎◌, Option, none, some, sym,
}
use drand_rs.Dkg.Validate.{reached}
use drand_rs.Scheme.{Scheme}

pub End-cases :
    {S : Scheme} {R : BeaconRepr} {info : ChainInfo S} {target : ℕ} (e : FollowEnd S R info target)
    → ((store : ChainStore R) × (b : R.Beacon) × (room : ℕ) × (e
          ≡ FollowEnd.next_peer store b room))
      ⊎ ((store : ChainStore R) × (r : Result SyncError (Unit {0})) × (e ≡ FollowEnd.done store r))
End-cases (FollowEnd.next_peer store b room) = inl (store, b, room, refl)
End-cases (FollowEnd.done store r) = inr (store, r, refl)

module _ (S : Scheme) (R : BeaconRepr) (info : ChainInfo S) (target : ℕ) where
  abbrev pub Ends : Type 0
  Ends = FollowEnd S R info target

  -- The rows are a signed chain that continues `rows`.
  pub record Continues (rows rows' : List R.Beacon) (latest : R.Beacon) : Type 0 where
    pub chain : IsChain S R info.public_key rows' latest
    pub news : List R.Beacon
    pub appended : rows' ≡ rows ++ news

  -- The beacon that a stream leads to from `b`: it ends before the first packet that is not the
  -- next beacon with a valid signature.
  abbrev pub advance : R.Beacon → List BeaconPacket → R.Beacon
  advance b [] = b
  advance b (p ∷ ps) =
      let more = advance (R.from_packet p) ps in if is_next S R info target b p then more else b

  -- The beacon that all the peers lead to together, each from where those before it have come; one
  -- without a stream gives nothing.
  abbrev pub reach : R.Beacon → List (Option (List BeaconPacket)) → R.Beacon
  reach b [] = b
  reach b (none ∷ peers) = reach b peers
  reach b (some stream ∷ peers) = reach (advance b stream) peers

  -- The store that is left does not answer, or, with the rows as they are, it has refused the beacon
  -- of a packet that is the next one after `latest`.
  abbrev pub Refuses : ChainStore R → R.Beacon → StoreError → Type 0
  Refuses store latest f =
      (last R store ≡ err f)
      ⊎ ((before : ChainStore R) × (p : BeaconPacket) × (is_next S R info target latest p ≡ true)
          × (before.rows ≡ store.rows)
          × (put R before (R.from_packet p) ≡ (store, err f)))

  -- The end of a stream where the client takes reports until there are `full` rows: the target is
  -- reached, or the client is gone, or the store refused.
  abbrev pub StreamOutcome :
      (full : ℕ) → ChainStore R → R.Beacon → Result SyncError (Unit {0}) → Type 0
  StreamOutcome full store latest (ok u) =
      (R.round latest ≡ target) ⊎ (length store.rows ≡ full + 1)
  StreamOutcome full store latest (err e) =
      (f : StoreError) × (e ≡ SyncError.chain_store f) × Refuses store latest f

  pub record Ended (rows : List R.Beacon) (full : ℕ) (store : ChainStore R)
      (r : Result SyncError (Unit {0})) : Type 0 where
    pub latest : R.Beacon
    pub continues : Continues rows store.rows latest
    pub within : R.round latest ≤ target
    pub outcome : StreamOutcome full store latest r

  abbrev pub Streamed : List R.Beacon → ℕ → R.Beacon → List BeaconPacket → Ends → Type 0
  Streamed rows full b stream (FollowEnd.next_peer store latest room) =
      Continues rows store.rows latest
      × (R.round latest < target)
      × (length store.rows + room ≡ full)
      × (latest ≡ advance b stream)
  Streamed rows full b stream (FollowEnd.done store r) = Ended rows full store r

  -- A stream whose first packet is the next beacon goes on as its rest does.
  Streamed-next :
      (rows : List R.Beacon) (full : ℕ) (b : R.Beacon) (p : BeaconPacket) (ps : List BeaconPacket)
      (e : Ends)
      → is_next S R info target b p ≡ true
      → Streamed rows full (R.from_packet p) ps e
      → Streamed rows full b (p ∷ ps) e
  Streamed-next rows full b p ps (FollowEnd.next_peer store latest room) next (c, less, r, e) =
      (c, less, r, rw next e)
  Streamed-next rows full b p ps (FollowEnd.done store r) next ended = ended

  is_next-Follows :
      (b : R.Beacon) (p : BeaconPacket)
      → is_next S R info target b p ≡ true
      → Follows S R info.public_key b (R.from_packet p)
        × (R.round (R.from_packet p) ≡ add_u64 (R.round b) 1)
  unfolding is_next
  is_next-Follows b p h =
      let e : p.round ≡ add_u64 (R.round b) 1 = ground arith in
      elim (Option-cases (S.deserialize_sig p.signature)) [
        | inl none_there ↦ absurd (ground arith)
        | inr (point, d) ↦ (
          record {
            point = point;
            decodes = rw (R.signature-from_packet p) d;
            valid = rw (R.round-from_packet p) (ground arith);
          },
          R.round-from_packet p ∙ e,
        )
      ]

  step :
      (rows : List R.Beacon) (store : ChainStore R) (b : R.Beacon) (p : BeaconPacket)
      → Continues rows store.rows b
      → R.round b < target
      → is_next S R info target b p ≡ true
      → ((put R store (R.from_packet p)).1 ≡ ok tt)
          × Continues rows (put R store (R.from_packet p)).0.rows (R.from_packet p)
          × (R.round (R.from_packet p) ≤ target)
          × (length (put R store (R.from_packet p)).0.rows ≡ length store.rows + 1)
        ⊎ ((e : StoreError) × ((put R store (R.from_packet p)).1 ≡ err e))
          × ((put R store (R.from_packet p)).0.rows ≡ store.rows)
  step rows store b p c less h =
      let (f, e) = is_next-Follows b p h in
      let n = last_row-round S R info.public_key 0 store.rows c.chain.contiguous c.chain.ends in
      elim (put-IsChain S R info.public_key store b (R.from_packet p) c.chain e f) [
        | inl (res, rows', chain) ↦ inl (
          res,
          record {
            chain = chain;
            news = c.news ++ R.from_packet p ∷ [];
            appended =
                rows'
                ∙ ap (λ l. l ++ R.from_packet p ∷ []) c.appended
                ∙ append_assoc rows c.news (R.from_packet p ∷ []);
          },
          omega (arith, e, n, c.chain.fits),
          ap length rows' ∙ length-append store.rows (R.from_packet p ∷ []),
        )
        | inr (res, rows') ↦ inr (res, rows')
      ]

  refused :
      (rows : List R.Beacon) (full : ℕ) (store : ChainStore R) (b : R.Beacon) (p : BeaconPacket)
      (e : StoreError)
      → is_next S R info target b p ≡ true
      → (put R store (R.from_packet p)).1 ≡ err e
      → (put R store (R.from_packet p)).0.rows ≡ store.rows
      → Continues rows store.rows b
      → R.round b < target
      → Ended rows full (put R store (R.from_packet p)).0 (err (SyncError.chain_store e))
  refused rows full store b p e next res same c less = record {
    latest = b;
    continues = record { chain = rw same c.chain; news = c.news; appended = same ∙ c.appended };
    within = omega arith;
    outcome = (
      e,
      refl,
      inr (store, p, next, sym same, ap (λ r. ((put R store (R.from_packet p)).0, r)) res),
    );
  }

  pub follow_stream-Streamed :
      (rows : List R.Beacon) (full : ℕ) (store : ChainStore R) (b : R.Beacon)
      (stream : List BeaconPacket) (room : ℕ)
      → Continues rows store.rows b
      → R.round b < target
      → length store.rows + room ≡ full
      → Streamed rows full b stream (follow_stream S R info target store b stream room)
  unfolding follow_stream
  follow_stream-Streamed rows full store b [] room c less r = (c, less, r, refl)
  follow_stream-Streamed rows full store b (p ∷ ps) zero c less r =
      elim (Bool-cases (is_next S R info target b p)) [
        | inr other ↦ rw (other, follow_stream) (c, less, r, rw other refl)
        | inl next ↦ elim (step rows store b p c less next) [
          | inl (res, c', within, count) ↦
              rw (next, res, follow_stream)
                (record {
                  latest = R.from_packet p;
                  continues = c';
                  within = within;
                  outcome = inr (omega (arith, count, r));
                })
          | inr ((e, res), same) ↦
              rw (next, res, follow_stream) (refused rows full store b p e next res same c less)
        ]
      ]
  follow_stream-Streamed rows full store b (p ∷ ps) (suc room) c less r =
      elim (Bool-cases (is_next S R info target b p)) [
        | inr other ↦ rw (other, follow_stream) (c, less, r, rw other refl)
        | inl next ↦ elim (step rows store b p c less next) [
          | inr ((e, res), same) ↦
              rw (next, res, follow_stream) (refused rows full store b p e next res same c less)
          | inl (res, c', within, count) ↦ elim (Bool-cases (R.round (R.from_packet p) == target)) [
            | inl reached ↦
                rw (next, res, reached, follow_stream)
                  (record {
                    latest = R.from_packet p;
                    continues = c';
                    within = within;
                    outcome = inl (ground arith);
                  })
            | inr on ↦
                let rest =
                  follow_stream S R info target (put R store (R.from_packet p)).0 (R.from_packet p)
                    ps room in
                let streamed =
                  follow_stream-Streamed rows full (put R store (R.from_packet p)).0
                    (R.from_packet p) ps room c' (ground arith) (omega (arith, count, r)) in
                rw (next, res, on, follow_stream)
                  (Streamed-next rows full b p ps rest next streamed)
          ]
        ]
      ]
