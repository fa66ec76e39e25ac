-- ===== src/Chain/Default/Followed.antt =====
-- The information and the store of a node without a DKG, through one request: src/chain/handler.rs.
use drand_rs.Chain.Beacon.{BeaconRepr}
use drand_rs.Chain.Commands.{FollowRequest}
use drand_rs.Chain.Default.{
  SyncTask, DefaultChain, same_info, start_sync, check_info, with_packet, default_start,
}
use drand_rs.Chain.Default.Seeds.{from_config-from_packet, from_packet-seed, target_of_fits}
use drand_rs.Chain.Info.{ChainInfo, ChainInfoPacket, from_packet}
use drand_rs.Chain.Store.{ChainStore}
use drand_rs.Chain.Store.Held.{Extends-refl, Held, Extends, Extends-trans}
use drand_rs.Chain.Sync.Follow.{from_config}
use drand_rs.Common.{
  Bool-cases, Bytes, Option-cases, Result-cases, [], arith, false, inl, inr, is_empty, none, some,
  subst, two_64, ℕ, ◌<◌, ◌≡◌, ap, refl, some_injective, sym, true, ◌∙◌,
}
use drand_rs.Dkg.Execution.Finish.{seeded}
use drand_rs.Scheme.{Scheme}

module _ (S : Scheme) (R : BeaconRepr) where
  -- The store is held under the key of the information, or under every key where there is no
  -- information yet; a sync task is one for the information.
  pub record IsFollowing (c : DefaultChain S R) : Type 0 where
    pub held :
        (pk : S.KeyPoint)
        → (is_empty c.chain_info.genesis_seed ≡ false → c.chain_info.public_key ≡ pk)
        → Held S R pk c.store.rows
    pub task :
        (t : SyncTask S R)
        → c.sync_handle ≡ some t
        → (is_empty c.chain_info.genesis_seed ≡ false)
          × (t.info.public_key ≡ c.chain_info.public_key)
          × (t.target < two_64)

  -- An empty store of a node that has no information yet.
  pub default_start-IsFollowing :
      (default_key : S.KeyPoint) (store : ChainStore R)
      → store.rows ≡ []
      → IsFollowing (default_start S R default_key store)
  unfolding default_start
  default_start-IsFollowing default_key store none_there = record {
    held = λ pk x. inl none_there;
    task = λ t e. absurd (cc);
  }

  -- What the chain becomes is valid, has the information where there was some, and its store extends
  -- the one before.
  pub record Advances (c c' : DefaultChain S R) : Type 0 where
    pub valid : IsFollowing c'
    pub same : is_empty c.chain_info.genesis_seed ≡ false → c'.chain_info ≡ c.chain_info
    pub rows : Extends R c.store.rows c'.store.rows

  pub own-Held :
      (c : DefaultChain S R) → IsFollowing c → Held S R c.chain_info.public_key c.store.rows
  own-Held c v = v.held c.chain_info.public_key (λ x. refl)

  pub Advances-refl : (c : DefaultChain S R) → IsFollowing c → Advances c c
  Advances-refl c v = record { valid = v; same = λ x. refl; rows = Extends-refl R c.store.rows }

  pub Advances-trans : (a b c : DefaultChain S R) → Advances a b → Advances b c → Advances a c
  Advances-trans a b c f g = record {
    valid = g.valid;
    same = λ known.
        g.same
          (subst (λ (i : ChainInfo S). is_empty i.genesis_seed ≡ false) (sym (f.same known)) known)
        ∙ f.same known;
    rows = Extends-trans R a.store.rows b.store.rows c.store.rows f.rows g.rows;
  }

  same_info-key : (a b : ChainInfo S) → same_info S R a b ≡ true → a.public_key ≡ b.public_key
  unfolding same_info
  same_info-key a b e = (S.same_key_iff a.public_key b.public_key).0 (ground arith)

  module _ (now : ℕ) (req : FollowRequest) (beacon_id : Bytes) (packet : ChainInfoPacket) where
    start_sync-Advances :
        (c : DefaultChain S R) (info : ChainInfo S)
        → is_empty c.chain_info.genesis_seed ≡ false
        → info.public_key ≡ c.chain_info.public_key
        → from_packet S packet beacon_id ≡ some info
        → IsFollowing c
        → Advances c (start_sync S R now c req beacon_id packet info).0
    unfolding start_sync
    start_sync-Advances c info known key there v =
        elim (Result-cases (from_config S R packet beacon_id)) [
          | inr (e, bad) ↦ rw (bad, start_sync) (Advances-refl c v)
          | inl (i, fine) ↦
              let i_is : i ≡ info =
                some_injective (sym (from_config-from_packet S R packet beacon_id fine) ∙ there) in
              rw (fine, start_sync)
                (record {
                  valid = record {
                    held = v.held;
                    task = λ t e.
                        subst
                          (λ (t : SyncTask S R).
                            (is_empty c.chain_info.genesis_seed ≡ false)
                            × (t.info.public_key ≡ c.chain_info.public_key)
                            × (t.target < two_64))
                          (some_injective e)
                          (
                            known,
                            ap (λ (x : ChainInfo S). x.public_key) i_is ∙ key,
                            target_of_fits S R req.up_to now info.period info.genesis_time,
                          );
                  };
                  same = λ x. refl;
                  rows = Extends-refl R c.store.rows;
                })
        ]

    check_info-Advances :
        (c : DefaultChain S R) (info : ChainInfo S)
        → c.sync_handle ≡ none
        → is_empty info.genesis_seed ≡ false
        → from_packet S packet beacon_id ≡ some info
        → IsFollowing c
        → Advances c (check_info S R now c req beacon_id packet info).0
    unfolding check_info
    check_info-Advances c info idle seeded there v =
        elim (Bool-cases (is_empty c.chain_info.genesis_seed)) [
          | inl unknown ↦
              let valid : IsFollowing (record c { chain_info = info }) = record {
                held = λ pk same. v.held pk (λ x. absurd (cc));
                task = λ t e. absurd (cc);
              } in
              let f =
                start_sync-Advances (record c { chain_info = info }) info seeded refl there valid in
              rw (unknown, check_info)
                (record { valid = f.valid; same = λ x. absurd (cc); rows = f.rows })
          | inr known ↦ elim (Bool-cases (same_info S R c.chain_info info)) [
            | inr other ↦ rw (known, other, check_info) (Advances-refl c v)
            | inl same ↦
                rw (known, same, check_info)
                  (start_sync-Advances c info known (sym (same_info-key c.chain_info info same))
                    there v)
          ]
        ]

    pub with_packet-Advances :
        (c : DefaultChain S R)
        → c.sync_handle ≡ none
        → is_empty packet.group_hash ≡ false
        → IsFollowing c
        → Advances c (with_packet S R now c req beacon_id packet).0
    unfolding with_packet
    with_packet-Advances c idle seeded v = elim (Option-cases (from_packet S packet beacon_id)) [
      | inl none_there ↦ rw (none_there, with_packet) (Advances-refl c v)
      | inr (info, there) ↦
          let seed : is_empty info.genesis_seed ≡ false =
            rw (from_packet-seed S R packet beacon_id there) seeded in
          rw (there, with_packet) (check_info-Advances c info idle seed there v)
    ]
