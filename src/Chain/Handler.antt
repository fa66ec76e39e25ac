-- ===== src/Chain/Handler.antt =====
-- The chain handler: src/chain/handler.rs. `now` is the clock of the resync handle. A task that is
-- spawned, a packet that is broadcast and a process that panics are values; logging is left out.
use drand_rs.Chain.Beacon.{is_valid_signature, PartialBeaconPacket, BeaconRepr, BeaconPacket}
use drand_rs.Chain.Cache.{
  cache_limit_rounds, add_packet, is_share_present, add_prechecked, get_partial_index,
}
use drand_rs.Chain.Epoch.{ChainError, EpochConfig, SigShare, our_index, verify_partial}
use drand_rs.Chain.Info.{ChainInfo}
use drand_rs.Chain.Registry.{
  Registry, align_cache, start_catchup, stop_resync, update_latest_stored,
  extend_resync_expiry_time, is_resync_active, new_resync_handle, new_round,
  catchup_signal_received,
}
use drand_rs.Chain.Store.{ChainStore, put}
use drand_rs.Chain.Sync.Handle.{HandleReSync}
use drand_rs.Common.{
  Bool, Bytes, List, Result, [], add_u64, err, if◌then◌else◌, ltb, none, not, ok, some, ℕ, ◌++◌,
  ◌==◌, ◌∷◌, leb, length, map_err, ◌&&◌, ◌+◌, ◌>>◌, Option, sub_u64, true,
}
use drand_rs.Scheme.{Scheme}
pub mod Grows
pub mod Sound
pub mod Stores

pub data Fault : Type 0 where
  panic : Fault
  fail : ChainError → Fault

pub data Task : Type 0 where
  catchup_signal : Task
  resync : (start_from up_to : ℕ) → Task

-- `ChainHandler`, of which only the store has a state that changes.
pub record ChainHandler (S : Scheme) : Type 0 where
  pub chain_info : ChainInfo S
  pub ec : EpochConfig S

-- The store, the registry, and what has been spawned and broadcast. The pool takes packets while
-- its receiver is open.
pub record Chain (S : Scheme) (R : BeaconRepr) : Type 0 where
  pub store : ChainStore R
  pub reg : Registry S R
  pub spawned : List Task
  pub broadcasts : List PartialBeaconPacket
  pub pool_open : Bool

module _ (S : Scheme) (R : BeaconRepr) (h : ChainHandler S) where
  -- `reg.start_catchup`, with the task that it spawns.
  unfoldable pub start_catchup_task : Chain S R → Chain S R
  unfolding start_catchup
  start_catchup_task c =
      let (reg, launched) = start_catchup S R c.reg in
      if launched
      then record c { reg = reg; spawned = c.spawned ++ Task.catchup_signal ∷ [] }
      else record c { reg = reg }

  -- The beacon is stored: the latest one is set, the cache aligned and a catchup started if the
  -- chain is late.
  unfoldable pub stored : R.Beacon → Chain S R → Chain S R
  unfolding update_latest_stored align_cache start_catchup_task
  stored valid_beacon c =
      let c' = record c {
        reg = align_cache S R h.ec (update_latest_stored S R valid_beacon c.reg);
      } in
      if ltb (R.round valid_beacon) c.reg.current_round then start_catchup_task c' else c'

  unfoldable pub save_recovered :
      Chain S R → ℕ → S.SigPoint → Chain S R × Result ChainError (Unit {0})
  unfolding is_valid_signature put stored stop_resync
  save_recovered c r_round r_sig =
      let latest = c.reg.latest_stored in
      if not (add_u64 (R.round latest) 1 == r_round)
      then (record c { reg = stop_resync S R c.reg }, ok tt)
      else if not (is_valid_signature S h.chain_info.public_key (R.signature latest) r_round r_sig)
      then (c, err ChainError.invalid_recovered)
      else elim (S.serialize_sig r_sig) [
        | none ↦ (c, err ChainError.serialize_recovered)
        | some sig ↦
            let valid_beacon = R.next latest sig in
            let (store, res) = put R c.store valid_beacon in
            elim res [
              | ok u ↦ (stored valid_beacon (record c { store = store }), ok tt)
              | err e ↦ (record c { store = store }, err (ChainError.chain_store_error e))
            ]
      ]

  -- A valid share is cached; the shares of a threshold are recovered and the beacon saved.
  unfoldable pub add_share : Chain S R → ℕ → SigShare S → Chain S R × Result Fault (Unit {0})
  unfolding save_recovered add_prechecked
  add_share c round share =
      let (cache, thr_sigs) = add_prechecked S c.reg.p_cache share in
      let c' = record c { reg = record c.reg { p_cache = cache } } in
      elim thr_sigs [
        | none ↦ (c', ok tt)
        | some sigs ↦ elim (S.recover sigs) [
          | none ↦ (c', err Fault.panic)
          | some recovered ↦
              let (c'', res) = save_recovered c' round recovered in
              (c'', map_err (λ e. Fault.panic) res)
        ]
      ]

  -- The previous signature and the round to sign.
  unfoldable pub to_sign : Registry S R → Result Fault (Bytes × ℕ)
  to_sign reg =
      let c_round = reg.current_round in
      let ls_round = R.round reg.latest_stored in
      if c_round == ls_round
      then elim (R.prev_signature reg.latest_stored) [
        | some s ↦ ok (s, c_round)
        | none ↦ if S.is_chained then err Fault.panic else ok ([], c_round)
      ]
      else ok (R.signature reg.latest_stored, add_u64 ls_round 1)

  -- Whether the own share is for the round to aggregate, and not there yet.
  unfoldable pub wants_own_share : Registry S R → ℕ → Bool
  unfolding is_share_present our_index
  wants_own_share reg round =
      round == add_u64 (R.round reg.latest_stored) 1
      && leb round reg.current_round
      && not (is_share_present S reg.p_cache (our_index S h.ec))

  unfoldable pub partial_packet : ℕ → Bytes → Bytes → PartialBeaconPacket
  partial_packet round previous_signature partial_sig = record {
    round = round;
    previous_signature = previous_signature;
    partial_sig = partial_sig;
    metadata = some (record { beacon_id = h.chain_info.beacon_id; chain_hash = [] });
  }

  unfoldable pub sign_partial : Chain S R → Chain S R × Result Fault PartialBeaconPacket
  sign_partial c₀ =
      let c = record c₀ { reg = align_cache S R h.ec c₀.reg } in
      let t_bls = Fault.fail ChainError.t_bls_error in
      elim (to_sign c.reg) [
        | err e ↦ (c, err e)
        | ok (previous_signature, round) ↦
            let msg = S.digest previous_signature round in
            elim (S.sign_share h.ec.share.pri_share msg) [
              | none ↦ (c, err t_bls)
              | some sigshare ↦ elim (S.serialize_share sigshare) [
                | none ↦ (c, err t_bls)
                | some partial_sig ↦
                    let (c', res) =
                      if wants_own_share c.reg round
                      then add_share c round sigshare
                      else (c, ok tt) in
                    (c', res >> ok (partial_packet round previous_signature partial_sig))
              ]
            ]
      ]

  -- A packet for the round that is being aggregated.
  unfoldable pub process_share :
      Chain S R → PartialBeaconPacket → Chain S R × Result Fault (Unit {0})
  process_share c p = elim (get_partial_index S p.partial_sig) [
    | none ↦ (
      c,
      err (Fault.fail (ChainError.invalid_share_lenght (S.point_size + 2) (length p.partial_sig))),
    )
    | some idx ↦
        if is_share_present S c.reg.p_cache idx
        then (c, ok tt)
        else elim (verify_partial S h.ec p) [
          | err e ↦ (c, err (Fault.fail e))
          | ok (valid_sigshare, node_addr) ↦ add_share c p.round valid_sigshare
        ]
  ]

  unfoldable pub process_partial :
      Chain S R → PartialBeaconPacket → Chain S R × Result Fault (Unit {0})
  process_partial c₀ p =
      let ls_round = R.round c₀.reg.latest_stored in
      let c_round = c₀.reg.current_round in
      let c = record c₀ { reg = align_cache S R h.ec c₀.reg } in
      let invalid_round = Fault.fail (ChainError.invalid_round p.round c_round) in
      let (cache, added) = add_packet S c.reg.p_cache p in
      if leb p.round ls_round
      then (c₀, ok tt)
      else if ltb (add_u64 c_round 1) p.round
      then (c₀, err invalid_round)
      else if ltb (add_u64 ls_round 1) p.round
          && leb p.round (add_u64 (add_u64 ls_round 1) cache_limit_rounds)
      then (
        record c { reg = record c.reg { p_cache = cache } },
        elim added [ none ↦ err invalid_round | some b ↦ ok tt ],
      )
      else if p.round == add_u64 ls_round 1
      then process_share c p
      else (c, ok tt)

  -- The resync ends where the packet is not for the next round, or not valid.
  unfoldable pub save_resynced :
      (now : ℕ) → Chain S R → BeaconPacket → Chain S R × Result Fault (Unit {0})
  unfolding is_valid_signature put update_latest_stored extend_resync_expiry_time stop_resync
  save_resynced now c p =
      let latest = c.reg.latest_stored in
      let stop : Chain S R × Result Fault (Unit {0}) =
        (record c { reg = stop_resync S R c.reg }, ok tt) in
      if not (p.round == add_u64 (R.round latest) 1)
      then stop
      else elim (S.deserialize_sig p.signature) [
        | none ↦ stop
        | some p_signature ↦
            if not (
              is_valid_signature S h.chain_info.public_key (R.signature latest) p.round p_signature)
            then stop
            else let valid_beacon = R.next latest p.signature in
              let (store, res) = put R c.store valid_beacon in
              let reg =
                extend_resync_expiry_time S R now (update_latest_stored S R valid_beacon c.reg) in
              elim res [
                | ok u ↦ (record c { store = store; reg = reg }, ok tt)
                | err e ↦
                    (record c { store = store }, err (Fault.fail (ChainError.chain_store_error e)))
              ]
      ]

  -- `c_round - ls_round > 1` wraps where the latest stored round is ahead of the current one.
  unfoldable pub check_resync_catchup : (now : ℕ) → Chain S R → Chain S R
  unfolding start_catchup_task is_resync_active new_resync_handle
  check_resync_catchup now c =
      let c_round = c.reg.current_round in
      let ls_round = R.round c.reg.latest_stored in
      let c' = start_catchup_task c in
      if not (ltb 1 (sub_u64 c_round ls_round))
      then c
      else if is_resync_active S R now c'.reg
      then c'
      else record c' {
        reg = new_resync_handle S R now h.chain_info.period c'.reg;
        spawned = c'.spawned ++ Task.resync (add_u64 ls_round 1) c_round ∷ [];
      }

  unfoldable pub broadcast : Chain S R → PartialBeaconPacket → Chain S R × Result Fault (Unit {0})
  broadcast c packet =
      if c.pool_open
      then (record c { broadcasts = c.broadcasts ++ packet ∷ [] }, ok tt)
      else (c, err (Fault.fail ChainError.pool_closed_rx))

  -- `h.sign_partial(&mut reg).await?` and `h.broadcast(packet).await?`.
  unfoldable pub sign_and_broadcast : Chain S R → Chain S R × Result Fault (Unit {0})
  sign_and_broadcast c =
      let (c', res) = sign_partial c in
      elim res [ err e ↦ (c', err e) | ok packet ↦ broadcast c' packet ]

  -- What `run_chain` selects from, its commands aside; and a resync task that ends.
  pub data Event : Type 0 where
    round_tick : ℕ → Event
    partial : PartialBeaconPacket → Event
    catchup : Event
    resynced : BeaconPacket → Event
    resync_finished : Event

  unfoldable pub finished : Option HandleReSync → Option HandleReSync
  finished none = none
  finished (some handle) = some (record handle { is_finished = true })

  -- One turn of the loop of `run_chain`: an error ends the loop, but that of a partial is a reply.
  unfoldable pub run_event : (now : ℕ) → Chain S R → Event → Chain S R × Result Fault (Unit {0})
  run_event now c (round_tick round) =
      let (c', res) = sign_and_broadcast (record c { reg = new_round S R round c.reg }) in
      elim res [ err e ↦ (c', err e) | ok u ↦ (check_resync_catchup now c', ok tt) ]
  run_event now c (partial p) =
      let (c', res) = process_partial c p in
      elim res [ err Fault.panic ↦ (c', err Fault.panic) | _ ↦ (c', ok tt) ]
  run_event now c catchup =
      sign_and_broadcast (record c { reg = catchup_signal_received S R c.reg })
  run_event now c (resynced p) = save_resynced now c p
  run_event now c resync_finished =
      (record c { reg = record c.reg { h_resync = finished c.reg.h_resync } }, ok tt)
