-- ===== src/Chain/Store/Verified.antt =====
-- A chain whose beacons are signed, each over the one before: src/chain/store.rs and
-- src/chain/mod.rs.
use drand_rs.Chain.Beacon.{BeaconRepr, is_valid_signature}
use drand_rs.Chain.Store.{put, ChainStore, StoreError, insert_row, last_row, max_round}
use drand_rs.Chain.Store.Rows.{IsContiguous, append-IsContiguous, insert_row-next, last_row-append}
use drand_rs.Common.{
  Bool-cases, List, [], add_u64, arith, err, inl, inr, leb, length, ok, refl, some, subst, suc,
  true, ℕ, ◌++◌, ◌+◌, ◌∷◌, ◌≡◌, ◌≤◌, ◌⊎◌, length-append,
}
use drand_rs.Scheme.{Scheme}

module _ (S : Scheme) (R : BeaconRepr) (pk : S.KeyPoint) where
  open R use {Beacon, round, signature}

  -- The signature of `b` is one of the group's key, over its round and the signature of `prev`.
  pub record Follows (prev b : Beacon) : Type 0 where
    pub point : S.SigPoint
    pub decodes : S.deserialize_sig (signature b) ≡ some point
    pub valid : is_valid_signature S pk (signature prev) (round b) point ≡ true

  abbrev pub AreSigned : List Beacon → Type 0
  AreSigned [] = Unit
  AreSigned (x ∷ []) = Unit
  AreSigned (x ∷ y ∷ ys) = Follows x y × AreSigned (y ∷ ys)

  -- The rounds are 0, 1, 2 .., every beacon is signed over the one before, and `latest` is the last.
  pub record IsChain (rows : List Beacon) (latest : Beacon) : Type 0 where
    pub contiguous : IsContiguous R 0 rows
    pub signed : AreSigned rows
    pub ends : last_row R rows ≡ some latest
    pub fits : length rows ≤ max_round

  append-AreSigned :
      (rows : List Beacon) (b : Beacon) {latest : Beacon}
      → AreSigned rows
      → last_row R rows ≡ some latest
      → Follows latest b
      → AreSigned (rows ++ b ∷ [])
  unfolding last_row
  append-AreSigned [] b a e s = tt
  append-AreSigned (x ∷ []) b {latest} a e s =
      let same : latest ≡ x = ground arith in (subst (λ y. Follows y b) same s, tt)
  append-AreSigned (x ∷ y ∷ ys) b a e s = (a.0, append-AreSigned (y ∷ ys) b a.1 e s)

  pub last_row-round :
      (k : ℕ) (rows : List Beacon) {latest : Beacon}
      → IsContiguous R k rows
      → last_row R rows ≡ some latest
      → suc (round latest) ≡ k + length rows
  unfolding last_row
  last_row-round k [] c e = absurd (cc)
  last_row-round k (x ∷ []) c e = ground arith
  last_row-round k (x ∷ y ∷ ys) c e = omega (arith, last_row-round (suc k) (y ∷ ys) c.1 e)

  pub IsChain-round :
      (rows : List Beacon) (latest : Beacon)
      → IsChain rows latest
      → add_u64 (round latest) 1 ≡ length rows
  IsChain-round rows latest c = omega (arith, c.fits, last_row-round 0 rows c.contiguous c.ends)

  -- The next signed beacon is appended, or nothing is stored.
  abbrev pub Puts : ChainStore R → Beacon → Type 0
  Puts store b =
      ((put R store b).1 ≡ ok tt)
        × ((put R store b).0.rows ≡ store.rows ++ b ∷ [])
        × IsChain (put R store b).0.rows b
      ⊎ ((e : StoreError) × ((put R store b).1 ≡ err e)) × ((put R store b).0.rows ≡ store.rows)

  pub put-IsChain :
      (store : ChainStore R) (latest b : Beacon)
      → IsChain store.rows latest
      → round b ≡ add_u64 (round latest) 1
      → Follows latest b
      → Puts store b
  unfolding put
  put-IsChain store latest b c e s =
      let n : round b ≡ 0 + length store.rows =
        omega (arith, e, IsChain-round store.rows latest c) in
      let i : insert_row R b store.rows ≡ some (store.rows ++ b ∷ []) =
        insert_row-next R 0 store.rows b c.contiguous n in
      elim (Bool-cases store.alive) [
        | inr dead ↦ rw (dead, put) (inr ((StoreError.actor_closed_rx, refl), refl))
        | inl live ↦ elim (Bool-cases (leb max_round (round b))) [
          | inl large ↦ rw (live, large, put) (inr ((StoreError.internal, refl), refl))
          | inr small ↦
              let next : IsChain (store.rows ++ b ∷ []) b = record {
                contiguous = append-IsContiguous R 0 store.rows b c.contiguous n;
                signed = append-AreSigned store.rows b c.signed c.ends s;
                ends = last_row-append R store.rows b;
                fits = ground (arith, length-append store.rows (b ∷ []));
              } in
              rw (live, small, i, put) (inl (refl, refl, next))
        ]
      ]
