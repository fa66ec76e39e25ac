-- ===== src/Chain/Handler/Grows.antt =====
-- A chain that stays signed and is only appended to: src/chain/handler.rs.
use mathlib.Core.List.{append-nil}
use drand_rs.Chain.Beacon.{BeaconRepr, is_valid_signature}
use drand_rs.Chain.Handler.{Chain, ChainHandler, stored, start_catchup_task, save_recovered}
use drand_rs.Chain.Registry.{align_cache, start_catchup, stop_resync, update_latest_stored}
use drand_rs.Chain.Store.{put}
use drand_rs.Chain.Store.Verified.{IsChain, Follows, put-IsChain}
use drand_rs.Common.{
  Bool-cases, List, Option-cases, [], add_u64, ap, append_assoc, arith, inl, inr, refl, sym, ℕ,
  ◌++◌, ◌==◌, ◌∙◌, ◌≡◌, ==_iff, Bytes, some, true, ◌∷◌,
}
use drand_rs.Scheme.{Scheme}

module _ (S : Scheme) (R : BeaconRepr) (h : ChainHandler S) where
  -- The store holds a signed chain, and the registry its last beacon.
  abbrev pub IsSound : Chain S R → Type 0
  IsSound c = IsChain S R h.chain_info.public_key c.store.rows c.reg.latest_stored

  -- The chain is sound after it too, and beacons have at most been appended.
  pub record Grows (c c' : Chain S R) : Type 0 where
    pub sound : IsSound c'
    pub news : List R.Beacon
    pub appended : c'.store.rows ≡ c.store.rows ++ news

  abbrev pub Same : Chain S R → Chain S R → Type 0
  Same c c' = (c'.store ≡ c.store) × (c'.reg.latest_stored ≡ c.reg.latest_stored)

  pub Same-Grows : (c c' : Chain S R) → IsSound c → Same c c' → Grows c c'
  Same-Grows c c' s (e, f) = record {
    sound = rw (e, f) s;
    news = [];
    appended = rw e (sym (append-nil c.store.rows));
  }

  pub Grows-trans : {a b c : Chain S R} → Grows a b → Grows b c → Grows a c
  Grows-trans {a} f g = record {
    sound = g.sound;
    news = f.news ++ g.news;
    appended =
        g.appended ∙ ap (λ l. l ++ g.news) f.appended ∙ append_assoc a.store.rows f.news g.news;
  }

  pub start_catchup_task-Same : (c : Chain S R) → Same c (start_catchup_task S R h c)
  unfolding start_catchup_task start_catchup
  start_catchup_task-Same c = ground arith

  pub stored-same :
      (b : R.Beacon) (c : Chain S R)
      → ((stored S R h b c).store ≡ c.store) × ((stored S R h b c).reg.latest_stored ≡ b)
  unfolding stored start_catchup_task start_catchup align_cache update_latest_stored
  stored-same b c = ground arith

  -- A store that took the next beacon, which is the latest one from then on.
  pub put-Grows :
      (c c' : Chain S R) (b : R.Beacon)
      → ((put R c.store b).0.rows ≡ c.store.rows ++ b ∷ [])
      → IsChain S R h.chain_info.public_key (put R c.store b).0.rows b
      → c'.store ≡ (put R c.store b).0
      → c'.reg.latest_stored ≡ b
      → Grows c c'
  put-Grows c c' b rows chain e f = record {
    sound = rw (e, f) chain;
    news = b ∷ [];
    appended = rw e rows;
  }

  -- A store that did not.
  pub no_put-Grows :
      (c c' : Chain S R) (b : R.Beacon)
      → IsSound c
      → ((put R c.store b).0.rows ≡ c.store.rows)
      → c'.store ≡ (put R c.store b).0
      → c'.reg.latest_stored ≡ c.reg.latest_stored
      → Grows c c'
  no_put-Grows c c' b s rows e f = record {
    sound = rw (e, rows, f) s;
    news = [];
    appended = rw (e, rows) (sym (append-nil c.store.rows));
  }

  pub next-Follows :
      (latest : R.Beacon) (sig : Bytes) (point : S.SigPoint) (round : ℕ)
      → S.deserialize_sig sig ≡ some point
      → add_u64 (R.round latest) 1 ≡ round
      → is_valid_signature S h.chain_info.public_key (R.signature latest) round point ≡ true
      → Follows S R h.chain_info.public_key latest (R.next latest sig)
  next-Follows latest sig point round d e v = record {
    point = point;
    decodes = rw (R.signature-next latest sig) d;
    valid = rw (R.round-next latest sig, e) v;
  }

  pub save_recovered-Grows :
      (c : Chain S R) (r_round : ℕ) (r_sig : S.SigPoint)
      → IsSound c
      → Grows c (save_recovered S R h c r_round r_sig).0
  unfolding save_recovered stop_resync
  save_recovered-Grows c r_round r_sig s =
      let latest = c.reg.latest_stored in
      let pk = h.chain_info.public_key in
      elim (Bool-cases (add_u64 (R.round latest) 1 == r_round)) [
        | inr other ↦ rw (other, save_recovered) (Same-Grows c _ s (refl, refl))
        | inl next ↦
            elim (Bool-cases (is_valid_signature S pk (R.signature latest) r_round r_sig)) [
              | inr invalid ↦ rw (next, invalid, save_recovered) (Same-Grows c _ s (refl, refl))
              | inl valid ↦ elim (Option-cases (S.serialize_sig r_sig)) [
                | inl e ↦ rw (next, valid, e, save_recovered) (Same-Grows c _ s (refl, refl))
                | inr (sig, e) ↦
                    let b = R.next latest sig in
                    let f =
                      next-Follows latest sig r_sig r_round (S.deserialize-serialize_sig r_sig e)
                        ((==_iff _ _).0 next) valid in
                    elim (put-IsChain S R pk c.store latest b s (R.round-next latest sig) f) [
                      | inl (res, rows, chain) ↦
                          let (e₁, e₂) = stored-same b (record c { store = (put R c.store b).0 }) in
                          rw (next, valid, e, res, save_recovered)
                            (put-Grows c _ b rows chain e₁ e₂)
                      | inr ((fault, res), rows) ↦
                          rw (next, valid, e, res, save_recovered)
                            (no_put-Grows c _ b s rows refl refl)
                    ]
              ]
            ]
      ]
