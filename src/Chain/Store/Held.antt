-- ===== src/Chain/Store/Held.antt =====
-- Stores that are empty or hold a signed chain, and their genesis beacon: src/chain/store.rs.
use mathlib.Core.List.{append-nil}
use drand_rs.Chain.Beacon.{BeaconRepr}
use drand_rs.Chain.Store.{
  get, put, last, ChainStore, check_genesis, last_row, insert_row, max_round,
}
use drand_rs.Chain.Store.Verified.{IsChain}
use drand_rs.Common.{
  Bytes, List, [], arith, ok, refl, ◌++◌, ◌∷◌, ◌≡◌, ◌⊎◌, Bool, Bool-cases, false, find, inl, inr,
  leb, ok_injective, subst, true, ◌==◌, ap, append_assoc, bytes_eq, sym, ◌∙◌,
}
use drand_rs.Net.Pool.{empty}
use drand_rs.Scheme.{Scheme}

module _ (R : BeaconRepr) where
  -- The rows are those before, with new ones.
  abbrev pub Extends : List R.Beacon → List R.Beacon → Type 0
  Extends rows rows' = (news : List R.Beacon) × (rows' ≡ rows ++ news)

  pub Extends-refl : (rows : List R.Beacon) → Extends rows rows
  Extends-refl rows = ([], sym (append-nil rows))

  pub Extends-trans : (a b c : List R.Beacon) → Extends a b → Extends b c → Extends a c
  Extends-trans a b c (m, e) (n, f) = (m ++ n, f ∙ ap (λ l. l ++ n) e ∙ append_assoc a m n)

module _ (S : Scheme) (R : BeaconRepr) (pk : S.KeyPoint) where
  -- The rows are those of an empty store or a signed chain.
  abbrev pub Held : List R.Beacon → Type 0
  Held rows = (rows ≡ []) ⊎ ((b : R.Beacon) × IsChain S R pk rows b)

  one-IsChain : (b : R.Beacon) → R.round b ≡ 0 → IsChain S R pk (b ∷ []) b
  unfolding last_row
  one-IsChain b e = record { contiguous = (e, tt); signed = tt; ends = refl; fits = omega arith }

  abbrev store_of : List R.Beacon → Bool → ChainStore R
  store_of rows alive = record { rows = rows; alive = alive }

  -- The genesis row of a chain is found, and nothing changes.
  check_genesis-found :
      (rows : List R.Beacon) (alive : Bool) (seed : Bytes) (b : R.Beacon)
      → IsChain S R pk rows b
      → (check_genesis R (store_of rows alive) seed).0.rows ≡ rows
  unfolding check_genesis get find last_row
  check_genesis-found [] alive seed b c = absurd (cc (c.ends))
  check_genesis-found (x ∷ xs) false seed b c = refl
  check_genesis-found (x ∷ xs) true seed b c =
      let zeroth : (R.round x == 0) ≡ true = ground (arith, c.contiguous.0) in
      elim (Bool-cases (bytes_eq (R.signature x) seed)) [
        | inl same ↦ rw (zeroth, same, check_genesis) refl
        | inr other ↦ rw (zeroth, other, check_genesis) refl
      ]

  -- An empty store takes the genesis beacon, unless the actor is gone.
  check_genesis-empty :
      (alive : Bool) (seed : Bytes)
      → ((check_genesis R (store_of [] alive) seed).0.rows ≡ [])
        ⊎ ((check_genesis R (store_of [] alive) seed).0.rows ≡ R.from_seed seed ∷ [])
  unfolding check_genesis get find put insert_row
  check_genesis-empty false seed = inl refl
  check_genesis-empty true seed =
      let small : leb max_round (R.round (R.from_seed seed)) ≡ false =
        ground (arith, R.round-from_seed seed) in
      inr (rw (small, check_genesis) refl)

  pub last-IsChain :
      (store : ChainStore R) {b : R.Beacon}
      → Held store.rows
      → last R store ≡ ok b
      → IsChain S R pk store.rows b
  unfolding last
  last-IsChain store {b} (inl empty) e = elim (Bool-cases store.alive) [
    | inl live ↦ absurd (cc (rw (live, empty, last, last_row) at e))
    | inr dead ↦ absurd (cc (rw (dead, last) at e))
  ]
  last-IsChain store {b} (inr (a, c)) e = elim (Bool-cases store.alive) [
    | inl live ↦ subst (IsChain S R pk store.rows) (ok_injective (rw (live, c.ends, last) at e)) c
    | inr dead ↦ absurd (cc (rw (dead, last) at e))
  ]

  -- The rows are held, and those of `store` extended.
  abbrev pub Keeps : ChainStore R → ChainStore R → Type 0
  Keeps store store' = Held store'.rows × Extends R store.rows store'.rows

  kept_empty :
      (rows : List R.Beacon) (alive : Bool) (seed : Bytes)
      → rows ≡ []
      → Keeps (store_of rows alive) (check_genesis R (store_of rows alive) seed).0
  kept_empty (x ∷ xs) alive seed e = absurd (cc)
  kept_empty [] alive seed e = elim (check_genesis-empty alive seed) [
    | inl none_there ↦ (inl none_there, ([], none_there))
    | inr one ↦
        let b = R.from_seed seed in
        (
          inr (
            b,
            subst (λ l. IsChain S R pk l b) (sym one) (one-IsChain b (R.round-from_seed seed)),
          ),
          (b ∷ [], one),
        )
  ]

  pub check_genesis-Keeps :
      (store : ChainStore R) (seed : Bytes)
      → Held store.rows
      → Keeps store (check_genesis R store seed).0
  check_genesis-Keeps store seed (inl empty) = kept_empty store.rows store.alive seed empty
  check_genesis-Keeps store seed (inr (b, c)) =
      let e = check_genesis-found store.rows store.alive seed b c in
      (inr (b, subst (λ l. IsChain S R pk l b) (sym e) c), ([], e ∙ sym (append-nil store.rows)))
