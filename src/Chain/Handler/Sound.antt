-- ===== src/Chain/Handler/Sound.antt =====
-- The stored chain under the events of the handler: src/chain/handler.rs.
use mathlib.Core.List.{append-nil}
use drand_rs.Chain.Beacon.{BeaconRepr, is_valid_signature, BeaconPacket, PartialBeaconPacket}
use drand_rs.Chain.Cache.{add_prechecked, get_partial_index, is_share_present}
use drand_rs.Chain.Epoch.{SigShare, verify_partial}
use drand_rs.Chain.Handler.{
  Chain, ChainHandler, Fault, start_catchup_task, add_share, to_sign, wants_own_share, sign_partial,
  process_partial, save_resynced, check_resync_catchup, broadcast, sign_and_broadcast, Event,
  run_event, process_share,
}
use drand_rs.Chain.Handler.Grows.{
  Grows, Grows-trans, IsSound, Same, Same-Grows, next-Follows, no_put-Grows, put-Grows,
  save_recovered-Grows,
}
use drand_rs.Chain.Registry.{
  align_cache, start_catchup, stop_resync, catchup_signal_received, new_round,
}
use drand_rs.Chain.Store.Verified.{put-IsChain}
use drand_rs.Common.{
  Bool-cases, Option-cases, [], add_u64, arith, inl, inr, refl, sym, ℕ, ◌==◌, ==_iff, true,
  Result-cases, Bool, false, if◌then◌else◌, leb, ltb,
}
use drand_rs.Scheme.{Scheme}

module _ (S : Scheme) (R : BeaconRepr) (h : ChainHandler S) where
  add_share-Grows :
      (c : Chain S R) (round : ℕ) (share : SigShare S)
      → IsSound S R h c
      → Grows S R h c (add_share S R h c round share).0
  unfolding add_share
  add_share-Grows c round share s = elim (Option-cases (add_prechecked S c.reg.p_cache share).1) [
    | inl e ↦ rw (e, add_share) (Same-Grows S R h c _ s (refl, refl))
    | inr (sigs, e) ↦ elim (Option-cases (S.recover sigs)) [
      | inl e' ↦ rw (e, e', add_share) (Same-Grows S R h c _ s (refl, refl))
      | inr (point, e') ↦
          let cache = (add_prechecked S c.reg.p_cache share).0 in
          let c' : Chain S R = record c { reg = record c.reg { p_cache = cache } } in
          let g = save_recovered-Grows S R h c' round point s in
          rw (e, e', add_share) (record { sound = g.sound; news = g.news; appended = g.appended })
    ]
  ]

  sign_partial-Grows : (c : Chain S R) → IsSound S R h c → Grows S R h c (sign_partial S R h c).0
  unfolding sign_partial align_cache
  sign_partial-Grows c₀ s =
      let c : Chain S R = record c₀ { reg = align_cache S R h.ec c₀.reg } in
      let same : Grows S R h c₀ c = Same-Grows S R h c₀ c s (refl, refl) in
      elim (Result-cases (to_sign S R h c.reg)) [
        | inr (e, e₁) ↦ rw (e₁, sign_partial) same
        | inl ((prev, round), e₁) ↦
            elim (Option-cases (S.sign_share h.ec.share.pri_share (S.digest prev round))) [
              | inl e₂ ↦ rw (e₁, e₂, sign_partial) same
              | inr (share, e₂) ↦ elim (Option-cases (S.serialize_share share)) [
                | inl e₃ ↦ rw (e₁, e₂, e₃, sign_partial) same
                | inr (sig, e₃) ↦ elim (Bool-cases (wants_own_share S R h c.reg round)) [
                  | inr other ↦ rw (e₁, e₂, e₃, other, sign_partial) same
                  | inl own ↦
                      let g = add_share-Grows c round share s in
                      rw (e₁, e₂, e₃, own, sign_partial)
                        (record { sound = g.sound; news = g.news; appended = g.appended })
                ]
              ]
            ]
      ]

  if-Grows :
      {A : Type 0} {c : Chain S R} (b : Bool) (x y : Chain S R × A)
      → Grows S R h c x.0
      → Grows S R h c y.0
      → Grows S R h c (if b then x else y).0
  if-Grows true x y f g = f
  if-Grows false x y f g = g

  -- The packet for the round that is being aggregated.
  process_share-Grows :
      (c : Chain S R) (p : PartialBeaconPacket)
      → IsSound S R h c
      → Grows S R h c (process_share S R h c p).0
  unfolding process_share
  process_share-Grows c p s = elim (Option-cases (get_partial_index S p.partial_sig)) [
    | inl e ↦ rw (e, process_share) (Same-Grows S R h c _ s (refl, refl))
    | inr (idx, e) ↦ elim (Bool-cases (is_share_present S c.reg.p_cache idx)) [
      | inl present ↦ rw (e, present, process_share) (Same-Grows S R h c _ s (refl, refl))
      | inr absent ↦ elim (Result-cases (verify_partial S h.ec p)) [
        | inr (fault, e') ↦ rw (e, absent, e', process_share) (Same-Grows S R h c _ s (refl, refl))
        | inl ((share, peer), e') ↦
            rw (e, absent, e', process_share) (add_share-Grows c p.round share s)
      ]
    ]
  ]

  process_partial-Grows :
      (c : Chain S R) (p : PartialBeaconPacket)
      → IsSound S R h c
      → Grows S R h c (process_partial S R h c p).0
  unfolding process_partial align_cache
  process_partial-Grows c₀ p s =
      let ls_round = R.round c₀.reg.latest_stored in
      let c : Chain S R = record c₀ { reg = align_cache S R h.ec c₀.reg } in
      let same : Grows S R h c₀ c₀ = Same-Grows S R h c₀ c₀ s (refl, refl) in
      let g = process_share-Grows c p s in
      if-Grows (leb p.round ls_round) _ _ same (
        if-Grows (ltb (add_u64 c₀.reg.current_round 1) p.round) _ _ same (
          if-Grows _ _ _
            (record { sound = s; news = []; appended = sym (append-nil c₀.store.rows) })
            (if-Grows (p.round == add_u64 ls_round 1) _ _
              (record { sound = g.sound; news = g.news; appended = g.appended })
              (record { sound = s; news = []; appended = sym (append-nil c₀.store.rows) }))))

  save_resynced-Grows :
      (now : ℕ) (c : Chain S R) (p : BeaconPacket)
      → IsSound S R h c
      → Grows S R h c (save_resynced S R h now c p).0
  unfolding save_resynced stop_resync
  save_resynced-Grows now c p s =
      let latest = c.reg.latest_stored in
      let pk = h.chain_info.public_key in
      elim (Bool-cases (p.round == add_u64 (R.round latest) 1)) [
        | inr other ↦ rw (other, save_resynced) (Same-Grows S R h c _ s (refl, refl))
        | inl next ↦ elim (Option-cases (S.deserialize_sig p.signature)) [
          | inl e ↦ rw (next, e, save_resynced) (Same-Grows S R h c _ s (refl, refl))
          | inr (point, e) ↦
              elim (Bool-cases (is_valid_signature S pk (R.signature latest) p.round point)) [
                | inr invalid ↦
                    rw (next, e, invalid, save_resynced) (Same-Grows S R h c _ s (refl, refl))
                | inl valid ↦
                    let b = R.next latest p.signature in
                    let f =
                      next-Follows S R h latest p.signature point p.round e
                        (sym ((==_iff _ _).0 next)) valid in
                    elim (put-IsChain S R pk c.store latest b s (R.round-next latest p.signature)
                      f) [
                        | inl (res, rows, chain) ↦
                            rw (next, e, valid, res, save_resynced)
                              (put-Grows S R h c _ b rows chain refl refl)
                        | inr ((fault, res), rows) ↦
                            rw (next, e, valid, res, save_resynced)
                              (no_put-Grows S R h c _ b s rows refl refl)
                      ]
              ]
        ]
      ]

  check_resync_catchup-Same :
      (now : ℕ) (c : Chain S R) → Same S R h c (check_resync_catchup S R h now c)
  unfolding check_resync_catchup start_catchup_task start_catchup
  check_resync_catchup-Same now c = ground arith

  broadcast-Same :
      (c : Chain S R) (packet : PartialBeaconPacket) → Same S R h c (broadcast S R h c packet).0
  unfolding broadcast
  broadcast-Same c packet = ground arith

  sign_and_broadcast-Grows :
      (c : Chain S R) → IsSound S R h c → Grows S R h c (sign_and_broadcast S R h c).0
  unfolding sign_and_broadcast
  sign_and_broadcast-Grows c s =
      let g = sign_partial-Grows c s in
      let c' = (sign_partial S R h c).0 in
      elim (Result-cases (sign_partial S R h c).1) [
        | inr (fault, e) ↦ rw (e, sign_and_broadcast) g
        | inl (packet, e) ↦
            rw (e, sign_and_broadcast)
              (Grows-trans S R h g (Same-Grows S R h c' _ g.sound (broadcast-Same c' packet)))
      ]

  -- Every event keeps the stored chain a signed one, with no round left out, whose last beacon is
  -- the registry's, and changes it by appending beacons only, whatever the outcome of the event.
  pub run_event-Grows :
      (now : ℕ) (c : Chain S R) (e : Event S R h)
      → IsSound S R h c
      → Grows S R h c (run_event S R h now c e).0
  unfolding run_event new_round catchup_signal_received
  run_event-Grows now c (Event.round_tick round) s =
      let c₁ : Chain S R = record c { reg = new_round S R round c.reg } in
      let g = sign_and_broadcast-Grows c₁ s in
      let g' : Grows S R h c (sign_and_broadcast S R h c₁).0 = record {
        sound = g.sound;
        news = g.news;
        appended = g.appended;
      } in
      elim (Result-cases (sign_and_broadcast S R h c₁).1) [
        | inr (fault, e) ↦ rw (e, run_event) g'
        | inl (u, e) ↦
            rw (e, run_event)
              (Grows-trans S R h g'
                (Same-Grows S R h _ _ g.sound (check_resync_catchup-Same now _)))
      ]
  run_event-Grows now c (Event.partial p) s =
      let g = process_partial-Grows c p s in
      elim (Result-cases (process_partial S R h c p).1) [
        | inr (Fault.panic, e) ↦ rw (e, run_event) g
        | inr (Fault.fail fault, e) ↦ rw (e, run_event) g
        | inl (u, e) ↦ rw (e, run_event) g
      ]
  run_event-Grows now c Event.catchup s =
      let g = sign_and_broadcast-Grows (record c { reg = catchup_signal_received S R c.reg }) s in
      record { sound = g.sound; news = g.news; appended = g.appended }
  run_event-Grows now c (Event.resynced p) s = save_resynced-Grows now c p s
  run_event-Grows now c Event.resync_finished s = Same-Grows S R h c _ s (refl, refl)
