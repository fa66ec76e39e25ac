-- ===== src/Chain/Store/Rows.antt =====
-- The table of a chain without gaps: src/chain/store.rs.
use drand_rs.Chain.Beacon.{BeaconRepr}
use drand_rs.Chain.Store.{insert_row, last_row, rows_from}
use drand_rs.Common.{
  Bool-cases, List, [], arith, drop, inl, inr, length, ltb, none, refl, some, suc, ℕ, ◌++◌, ◌+◌,
  ◌-◌, ◌<◌, ◌∷◌, ◌≡◌, ◌≤◌, drop-nil, leb, sym,
}

module _ (R : BeaconRepr) where
  open R use {Beacon, round}

  -- The rounds of the rows count up from `k`.
  abbrev pub IsContiguous : ℕ → List Beacon → Type 0
  IsContiguous k [] = Unit
  IsContiguous k (x ∷ xs) = (round x ≡ k) × IsContiguous (suc k) xs

  pub append-IsContiguous :
      (k : ℕ) (rows : List Beacon) (b : Beacon)
      → IsContiguous k rows
      → round b ≡ k + length rows
      → IsContiguous k (rows ++ b ∷ [])
  append-IsContiguous k [] b c e = (omega arith, tt)
  append-IsContiguous k (x ∷ xs) b c e = (c.0, append-IsContiguous (suc k) xs b c.1 (omega arith))

  pub insert_row-next :
      (k : ℕ) (rows : List Beacon) (b : Beacon)
      → IsContiguous k rows
      → round b ≡ k + length rows
      → insert_row R b rows ≡ some (rows ++ b ∷ [])
  unfolding insert_row
  insert_row-next k [] b c e = refl
  insert_row-next k (x ∷ xs) b c e = ground (arith, insert_row-next (suc k) xs b c.1 (omega arith))

  pub insert_row-old :
      (k : ℕ) (rows : List Beacon) (b : Beacon)
      → IsContiguous k rows
      → k ≤ round b
      → round b < k + length rows
      → insert_row R b rows ≡ none
  unfolding insert_row
  insert_row-old k [] b c lo hi = absurd (omega arith)
  insert_row-old k (x ∷ xs) b c lo hi = elim (Bool-cases (ltb k (round b))) [
    | inl later ↦ ground (arith, insert_row-old (suc k) xs b c.1 (ground arith) (omega arith))
    | inr here ↦ ground arith
  ]

  pub last_row-append : (rows : List Beacon) (b : Beacon) → last_row R (rows ++ b ∷ []) ≡ some b
  unfolding last_row
  last_row-append [] b = refl
  last_row-append (x ∷ []) b = refl
  last_row-append (x ∷ y ∷ ys) b = last_row-append (y ∷ ys) b

  rows_from-all :
      (k from : ℕ) (rows : List Beacon)
      → IsContiguous k rows
      → from ≤ k
      → rows_from R from rows ≡ rows
  unfolding rows_from
  rows_from-all k from [] c h = refl
  rows_from-all k from (x ∷ xs) c h =
      ground (arith, rows_from-all (suc k) from xs c.1 (omega arith))

  pub rows_from-drop :
      (k from : ℕ) (rows : List Beacon)
      → IsContiguous k rows
      → rows_from R from rows ≡ drop (from - k) rows
  unfolding rows_from
  rows_from-drop k from [] c = sym (drop-nil (from - k))
  rows_from-drop k from (x ∷ xs) c = elim (Bool-cases (leb from k)) [
    | inl early ↦
        let e : from - k ≡ 0 = ground arith in rw e (rows_from-all k from (x ∷ xs) c (ground arith))
    | inr late ↦
        let e : from - k ≡ suc (from - suc k) = ground arith in
        rw e (ground (arith, rows_from-drop (suc k) from xs c.1))
  ]
