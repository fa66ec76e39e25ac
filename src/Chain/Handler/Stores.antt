-- ===== src/Chain/Handler/Stores.antt =====
-- A threshold of partial signatures is stored as the next beacon: src/chain/handler.rs.
use drand_rs.Chain.Beacon.{BeaconRepr, is_valid_signature, PartialBeaconPacket}
use drand_rs.Chain.Cache.{PartialCache, add_prechecked, get_partial_index, is_share_present}
use drand_rs.Chain.Epoch.{SigShare, verify_partial, ChainError}
use drand_rs.Chain.Handler.{
  Chain, ChainHandler, Fault, save_recovered, add_share, process_partial, process_share,
}
use drand_rs.Chain.Handler.Grows.{IsSound, stored-same}
use drand_rs.Chain.Registry.{align_cache}
use drand_rs.Chain.Store.{put, ChainStore, max_round, StoreError}
use drand_rs.Chain.Store.Rows.{insert_row-next}
use drand_rs.Chain.Store.Verified.{IsChain-round}
use drand_rs.Common.{
  Bytes, List, [], add_u64, ap, arith, false, leb, length, ltb, ok, refl, some, true, ℕ, ◌++◌, ◌+◌,
  ◌<◌, ◌==◌, ◌∙◌, ◌∷◌, ◌≡◌, ◌≤◌, Bool, Result, err,
}
use drand_rs.Scheme.{Scheme}

module _ (S : Scheme) (R : BeaconRepr) (h : ChainHandler S) where
  abbrev aligned : Chain S R → PartialCache S
  aligned c = (align_cache S R h.ec c.reg).p_cache

  -- The partial signature is valid, new, for the next round, and completes the threshold; `good` is
  -- whether what is recovered verifies over the latest stored beacon; and the store is running.
  pub record Completes (good : Bool) (c : Chain S R) (p : PartialBeaconPacket) : Type 0 where
    pub next_round : p.round ≡ R.round c.reg.latest_stored + 1
    pub near : p.round ≤ c.reg.current_round + 1
    pub clock : c.reg.current_round < max_round
    pub round_fits : p.round < max_round
    pub index : ℕ
    pub has_index : get_partial_index S p.partial_sig ≡ some index
    pub absent : is_share_present S (aligned c) index ≡ false
    pub share : SigShare S
    pub peer : Bytes
    pub verified : verify_partial S h.ec p ≡ ok (share, peer)
    pub shares : List (SigShare S)
    pub threshold : (add_prechecked S (aligned c) share).1 ≡ some shares
    pub point : S.SigPoint
    pub recovered : S.recover shares ≡ some point
    pub valid :
        is_valid_signature S h.chain_info.public_key (R.signature c.reg.latest_stored) p.round point
        ≡ good
    pub sig : Bytes
    pub serialized : S.serialize_sig point ≡ some sig
    pub alive : c.store.alive ≡ true

  -- What is stored by it.
  abbrev beacon : (c : Chain S R) (p : PartialBeaconPacket) → Completes true c p → R.Beacon
  beacon c p t = R.next c.reg.latest_stored t.sig

  record IsStored (c c' : Chain S R) (b : R.Beacon) : Type 0 where
    rows : c'.store.rows ≡ c.store.rows ++ b ∷ []
    latest : c'.reg.latest_stored ≡ b

  put-next :
      (c : Chain S R) (b : R.Beacon)
      → IsSound S R h c
      → R.round b ≡ R.round c.reg.latest_stored + 1
      → R.round b < max_round
      → c.store.alive ≡ true
      → put R c.store b ≡ (record c.store { rows = c.store.rows ++ b ∷ [] }, ok tt)
  unfolding put
  put-next c b s e small live =
      let n : R.round b ≡ 0 + length c.store.rows = omega (
        arith,
        e,
        small,
        IsChain-round S R h.chain_info.public_key c.store.rows c.reg.latest_stored s,
      ) in
      let i = insert_row-next R 0 c.store.rows b s.contiguous n in
      let fits : leb max_round (R.round b) ≡ false = ground arith in
      rw (live, fits, i, put)
        (ap (λ (a : Bool). (record { rows = c.store.rows ++ b ∷ []; alive = a }, ok tt)) live)

  save_recovered-stores :
      (c : Chain S R) (round : ℕ) (point : S.SigPoint) (sig : Bytes)
      → IsSound S R h c
      → round ≡ R.round c.reg.latest_stored + 1
      → round < max_round
      → is_valid_signature S h.chain_info.public_key (R.signature c.reg.latest_stored) round point
        ≡ true
      → S.serialize_sig point ≡ some sig
      → c.store.alive ≡ true
      → ((save_recovered S R h c round point).1 ≡ ok tt)
        × IsStored c (save_recovered S R h c round point).0 (R.next c.reg.latest_stored sig)
  unfolding save_recovered
  save_recovered-stores c round point sig s e small valid ser live =
      let b = R.next c.reg.latest_stored sig in
      let here : (add_u64 (R.round c.reg.latest_stored) 1 == round) ≡ true = ground arith in
      let r : R.round b ≡ R.round c.reg.latest_stored + 1 =
        R.round-next c.reg.latest_stored sig ∙ (omega (arith, e, small)) in
      let kept = put-next c b s r (omega (arith, e, r, small)) live in
      let res : (put R c.store b).1 ≡ ok tt =
        ap (λ (x : ChainStore R × Result StoreError (Unit {0})). x.1) kept in
      let rows : (put R c.store b).0.rows ≡ c.store.rows ++ b ∷ [] =
        ap (λ (x : ChainStore R × Result StoreError (Unit {0})). x.0.rows) kept in
      let (e₁, e₂) = stored-same S R h b (record c { store = (put R c.store b).0 }) in
      rw (here, valid, ser, res, save_recovered)
        (refl, record { rows = ap (λ (x : ChainStore R). x.rows) e₁ ∙ rows; latest = e₂ })

  -- The same of the part of the handler that takes the share.
  process_share-stores :
      (c : Chain S R) (p : PartialBeaconPacket) (t : Completes true c p)
      → IsSound S R h c
      → ((process_share S R h (record c { reg = align_cache S R h.ec c.reg }) p).1 ≡ ok tt)
        × IsStored c
            (process_share S R h (record c { reg = align_cache S R h.ec c.reg }) p).0
            (beacon c p t)
  unfolding process_share add_share align_cache
  process_share-stores c p t s =
      let reg = align_cache S R h.ec c.reg in
      let c₂ : Chain S R = record c {
        reg = record reg { p_cache = (add_prechecked S (aligned c) t.share).0 };
      } in
      let (res, kept) =
        save_recovered-stores c₂ p.round t.point t.sig s t.next_round t.round_fits t.valid
          t.serialized t.alive in
      rw
        (t.has_index, t.absent, t.verified, t.threshold, t.recovered, res, process_share, add_share)
        (refl, record { rows = kept.rows; latest = kept.latest })

  -- A partial signature that completes the threshold is stored, before the call returns, as the
  -- next beacon with the recovered signature, and the registry goes on from it.
  pub process_partial-stores :
      (c : Chain S R) (p : PartialBeaconPacket) (t : Completes true c p)
      → IsSound S R h c
      → ((process_partial S R h c p).1 ≡ ok tt)
        × ((process_partial S R h c p).0.store.rows ≡ c.store.rows ++ beacon c p t ∷ [])
        × ((process_partial S R h c p).0.reg.latest_stored ≡ beacon c p t)
  unfolding process_partial
  process_partial-stores c p t s =
      let ls = R.round c.reg.latest_stored in
      let old : leb p.round ls ≡ false = ground (arith, t.next_round) in
      let future : ltb (add_u64 c.reg.current_round 1) p.round ≡ false =
        ground (arith, t.near, t.clock) in
      let ahead : ltb (add_u64 ls 1) p.round ≡ false = ground (arith, t.next_round, t.round_fits) in
      let here : (p.round == add_u64 ls 1) ≡ true = ground (arith, t.next_round, t.round_fits) in
      let (res, kept) = process_share-stores c p t s in
      rw (old, future, ahead, here) (res, kept.rows, kept.latest)

  save_recovered-invalid :
      (c : Chain S R) (round : ℕ) (point : S.SigPoint)
      → round ≡ R.round c.reg.latest_stored + 1
      → round < max_round
      → is_valid_signature S h.chain_info.public_key (R.signature c.reg.latest_stored) round point
        ≡ false
      → save_recovered S R h c round point ≡ (c, err ChainError.invalid_recovered)
  unfolding save_recovered
  save_recovered-invalid c round point e small invalid =
      let here : (add_u64 (R.round c.reg.latest_stored) 1 == round) ≡ true = ground arith in
      rw (here, invalid, save_recovered) refl

  process_share-panics :
      (c : Chain S R) (p : PartialBeaconPacket)
      → Completes false c p
      → (process_share S R h (record c { reg = align_cache S R h.ec c.reg }) p).1 ≡ err Fault.panic
  unfolding process_share add_share align_cache
  process_share-panics c p t =
      let reg = align_cache S R h.ec c.reg in
      let c₂ : Chain S R = record c {
        reg = record reg { p_cache = (add_prechecked S (aligned c) t.share).0 };
      } in
      let res = save_recovered-invalid c₂ p.round t.point t.next_round t.round_fits t.valid in
      rw
        (t.has_index, t.absent, t.verified, t.threshold, t.recovered, res, process_share, add_share)
        refl

  -- A valid partial signature that completes the threshold panics where what is recovered does not
  -- verify: since a partial is checked over the previous signature that its own packet brings, one
  -- over another previous signature is such a partial.
  pub process_partial-panics :
      (c : Chain S R) (p : PartialBeaconPacket)
      → Completes false c p
      → (process_partial S R h c p).1 ≡ err Fault.panic
  unfolding process_partial
  process_partial-panics c p t =
      let ls = R.round c.reg.latest_stored in
      let old : leb p.round ls ≡ false = ground (arith, t.next_round) in
      let future : ltb (add_u64 c.reg.current_round 1) p.round ≡ false =
        ground (arith, t.near, t.clock) in
      let ahead : ltb (add_u64 ls 1) p.round ≡ false = ground (arith, t.next_round, t.round_fits) in
      let here : (p.round == add_u64 ls 1) ≡ true = ground (arith, t.next_round, t.round_fits) in
      rw (old, future, ahead, here) (process_share-panics c p t)
