-- ===== src/Chain/Store.antt =====
-- The chain store: src/chain/store.rs. The table `beacons` is the list of its rows in the order
-- of the primary key `round`. A statement fails on a round above the largest i64, which SQLite
-- cannot hold, and an INSERT on a round that is there; no other failure of the database is modelled.
use drand_rs.Chain.Beacon.{BeaconPacket, BeaconRepr}
use drand_rs.Common.{
  Bool, Bytes, List, Option, Result, [], add_u64, bytes_eq, err, false, find, if◌then◌else◌, leb,
  length, ltb, map, none, not, ok, ok_or, some, sub_u64, suc, take, zero, ℕ, ◌++◌, ◌+◌, ◌/◌, ◌==◌,
  ◌∷◌,
}
pub mod Held
pub mod Rows
pub mod Streams
pub mod Verified

pub data StoreError : Type 0 where
  internal not_found genesis_mismatch actor_closed_rx cb_closed_tx : StoreError

-- The rounds that fit the INTEGER column.
abbrev pub max_round : ℕ
max_round = 9223372036854775808

-- `BATCH_SIZE`.
abbrev pub batch_size : ℕ
batch_size = 300

module _ (R : BeaconRepr) where
  open R use {Beacon, round}

  -- INSERT INTO beacons; `none` is the constraint failure.
  unfoldable pub insert_row : Beacon → List Beacon → Option (List Beacon)
  insert_row b [] = some (b ∷ [])
  insert_row b (x ∷ xs) =
      let rest = insert_row b xs in
      if ltb (round b) (round x)
      then some (b ∷ x ∷ xs)
      else if round b == round x
      then none
      else elim rest [ none ↦ none | some ys ↦ some (x ∷ ys) ]

  -- SELECT .. WHERE round = (SELECT MAX(round) FROM beacons).
  unfoldable pub last_row : List Beacon → Option Beacon
  last_row [] = none
  last_row (x ∷ []) = some x
  last_row (x ∷ y ∷ ys) = last_row (y ∷ ys)

  -- SELECT .. WHERE round >= ?1 ORDER BY round ASC.
  unfoldable pub rows_from : ℕ → List Beacon → List Beacon
  rows_from from [] = []
  rows_from from (x ∷ xs) =
      let rest = rows_from from xs in if leb from (round x) then x ∷ rest else rest

  -- The actor ends after any error of the database but a missing row.
  pub record ChainStore : Type 0 where
    pub rows : List Beacon
    pub alive : Bool

  unfoldable pub put : ChainStore → Beacon → ChainStore × Result StoreError (Unit {0})
  unfolding insert_row
  put store b =
      if not store.alive
      then (store, err StoreError.actor_closed_rx)
      else if leb max_round (round b)
      then (record store { alive = false }, err StoreError.internal)
      else elim (insert_row b store.rows) [
        | none ↦ (record store { alive = false }, err StoreError.internal)
        | some rows ↦ (record store { rows = rows }, ok tt)
      ]

  unfoldable pub get : ChainStore → ℕ → ChainStore × Result StoreError Beacon
  unfolding find
  get store r =
      if not store.alive
      then (store, err StoreError.actor_closed_rx)
      else if leb max_round r
      then (record store { alive = false }, err StoreError.internal)
      else (store, ok_or (find (λ b. round b == r) store.rows) StoreError.not_found)

  unfoldable pub last : ChainStore → Result StoreError Beacon
  unfolding last_row
  last store =
      if not store.alive
      then err StoreError.actor_closed_rx
      else ok_or (last_row store.rows) StoreError.not_found

  -- Inserts the genesis beacon into an empty store, or compares it with the stored one.
  unfoldable pub check_genesis : ChainStore → Bytes → ChainStore × Result StoreError (Unit {0})
  unfolding get put
  check_genesis store genesis_seed =
      let (s, found) = get store 0 in
      elim found [
        | ok b ↦
            if bytes_eq (R.signature b) genesis_seed
            then (s, ok tt)
            else (s, err StoreError.genesis_mismatch)
        | err StoreError.not_found ↦ put s (R.from_seed genesis_seed)
        | err e ↦ (s, err e)
      ]

  -- What a client of `sync` receives: packets, and at the end the status not_found with the round
  -- above which nothing is stored.
  pub data StreamItem : Type 0 where
    packet : BeaconPacket → StreamItem
    no_beacons_above : ℕ → StreamItem

  -- The loop of `sync`, whose client takes every item. `fuel` bounds the batches.
  sync_loop : ℕ → Bytes → List Beacon → ℕ → ℕ → ℕ → List StreamItem
  unfolding rows_from
  sync_loop zero id rows start_from from sent = []
  sync_loop (suc fuel) id rows start_from from sent =
      let beacons = take batch_size (rows_from from rows) in
      let total = sent + length beacons in
      let rest = sync_loop fuel id rows start_from (add_u64 from batch_size) total in
      if leb max_round from
      then []
      else map (λ b. packet (R.to_packet id b)) beacons
        ++ (if ltb (length beacons) batch_size
            then no_beacons_above (sub_u64 (add_u64 total start_from) 1) ∷ []
            else rest)

  -- One batch more than the rows fill is read.
  unfoldable pub sync : ChainStore → Bytes → ℕ → List StreamItem
  unfolding sync_loop
  sync store id start_from =
      sync_loop (length store.rows / batch_size + 1) id store.rows start_from start_from 0
