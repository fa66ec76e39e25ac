-- ===== src/Chain/Store/Streams.antt =====
-- What a client of `sync` receives from a chain without gaps: src/chain/store.rs.
use drand_rs.Chain.Beacon.{BeaconRepr}
use drand_rs.Chain.Store.{sync, sync_loop, rows_from, ChainStore, StreamItem, batch_size, max_round}
use drand_rs.Chain.Store.Rows.{IsContiguous, rows_from-drop}
use drand_rs.Common.{
  Bool-cases, Bytes, List, [], add_u64, ap, arith, drop, false, inl, inr, leb, length, ltb, map,
  sub_u64, suc, take, zero, ℕ, ◌*◌, ◌++◌, ◌+◌, ◌<◌, ◌∷◌, ◌≡◌, length-drop, length-take_le, ltb→lt,
  sym, take-append-drop, take_all, ◌∙◌, ◌≤◌, append_assoc, drop-drop, ltb→ge, map-append, take-ge,
  take-lt, ◌/◌, ◌-◌,
}

lt-le : {a b : ℕ} → a < b → a ≤ b
lt-le h = omega arith

module _ (R : BeaconRepr) (id : Bytes) where
  open R use {Beacon, round}

  abbrev pub packets : List Beacon → List (StreamItem R)
  packets = map (λ b. StreamItem.packet (R.to_packet id b))

  -- The rest of the rows, and the closing status.
  abbrev stream_end : ℕ → ℕ → List Beacon → List (StreamItem R)
  stream_end start_from sent rest =
      packets rest
      ++ StreamItem.no_beacons_above (sub_u64 (add_u64 (sent + length rest) start_from) 1) ∷ []

  stream_end-batch :
      (rest : List Beacon) (start_from sent : ℕ)
      → batch_size ≤ length rest
      → packets (take batch_size rest)
          ++ stream_end start_from (sent + batch_size) (drop batch_size rest)
        ≡ stream_end start_from sent rest
  stream_end-batch rest start_from sent h =
      let tail : ℕ → List (StreamItem R) =
        λ n. StreamItem.no_beacons_above (sub_u64 (add_u64 n start_from) 1) ∷ [] in
      let whole : packets (take batch_size rest) ++ packets (drop batch_size rest) ≡ packets rest =
        sym (
          map-append (λ b. StreamItem.packet (R.to_packet id b)) (take batch_size rest)
            (drop batch_size rest))
        ∙ ap packets (take-append-drop batch_size rest) in
      let count : sent + batch_size + length (drop batch_size rest) ≡ sent + length rest =
        omega (arith, length-drop batch_size rest) in
      sym (append_assoc (packets (take batch_size rest)) (packets (drop batch_size rest)) _)
      ∙ (ap (λ x. x ++ tail (sent + batch_size + length (drop batch_size rest))) whole
          ∙ ap (λ n. packets rest ++ tail n) count)

  sync_loop-stream :
      (fuel : ℕ) (rows : List Beacon) (start_from from sent : ℕ)
      → IsContiguous R 0 rows
      → length (drop from rows) < fuel * batch_size
      → from + fuel * batch_size < max_round
      → sync_loop R fuel id rows start_from from sent ≡ stream_end start_from sent (drop from rows)
  unfolding sync_loop
  sync_loop-stream zero rows start_from from sent c f b = absurd (omega arith)
  sync_loop-stream (suc fuel) rows start_from from sent c f b =
      let e : rows_from R from rows ≡ drop from rows =
        rows_from-drop R 0 from rows c ∙ ap (λ k. drop k rows) (omega arith) in
      let inside : leb max_round from ≡ false = ground arith in
      rw (e, inside)
        (elim (Bool-cases (ltb (length (take batch_size (drop from rows))) batch_size)) [
          | inl few ↦
              let short : take batch_size (drop from rows) ≡ drop from rows =
                take_all (drop from rows) batch_size
                  (lt-le (take-lt batch_size (drop from rows) (ltb→lt _ _ few))) in
              rw few (rw short)
          | inr full ↦
              let many = take-ge batch_size (drop from rows) (ltb→ge _ _ full) in
              let here : add_u64 from batch_size ≡ from + batch_size = omega arith in
              let on : drop (from + batch_size) rows ≡ drop batch_size (drop from rows) =
                sym (drop-drop batch_size from rows) in
              let ih =
                sync_loop-stream fuel rows start_from (from + batch_size) (sent + batch_size) c
                  (rw on (omega (arith, length-drop batch_size (drop from rows), many)))
                  (omega arith) in
              rw full (
                rw (length-take_le batch_size (drop from rows) many) (
                  rw here (rw ih (rw on (stream_end-batch (drop from rows) start_from sent many)))))
        ])

  -- From a chain that is not empty and whose rounds are 0, 1, .. without gaps, far below the largest
  -- round of a row, a client that asks for a round up to the one after the last stored gets every
  -- stored beacon from that round on, in order and once, and then the end status with the last
  -- stored round.
  pub sync_stream :
      (store : ChainStore R) (start_from : ℕ)
      → IsContiguous R 0 store.rows
      → 0 < length store.rows
      → start_from ≤ length store.rows
      → start_from + length store.rows + 600 < max_round
      → sync R store id start_from
        ≡ packets (drop start_from store.rows)
          ++ StreamItem.no_beacons_above (length store.rows - 1) ∷ []
  unfolding sync
  sync_stream store start_from c some_rows h b =
      let last : sub_u64 (add_u64 (0 + length (drop start_from store.rows)) start_from) 1
          ≡ length store.rows - 1 =
        omega (arith, length-drop start_from store.rows) in
      sync_loop-stream (length store.rows / batch_size + 1) store.rows start_from start_from 0 c
        (omega (arith, length-drop start_from store.rows)) (omega arith)
      ∙ ap (λ n. packets (drop start_from store.rows) ++ StreamItem.no_beacons_above n ∷ []) last
