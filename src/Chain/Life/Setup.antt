-- ===== src/Chain/Life/Setup.antt =====
-- One chain through all epochs: src/chain/handler.rs.
use drand_rs.Chain.Beacon.{BeaconRepr}
use drand_rs.Chain.Commands.{Exit, Move, run, start}
use drand_rs.Chain.Commands.Epochs.{run-Grows}
use drand_rs.Chain.Handler.{Chain, ChainHandler}
use drand_rs.Chain.Handler.Grows.{IsSound}
use drand_rs.Chain.Life.{
  Carried, run_set_up, and_then, with_key, from_group, chain_info_of, open_chain, chain_of,
  handler_of, from_config, run_chain, run_epochs, EpochFiles, EpochRun, SetupError,
}
use drand_rs.Chain.Registry.{Registry}
use drand_rs.Chain.Store.{last, ChainStore, check_genesis}
use drand_rs.Chain.Store.Held.{
  Extends-refl, Extends-trans, Held, Keeps, check_genesis-Keeps, last-IsChain,
}
use drand_rs.Chain.Store.Verified.{IsChain}
use drand_rs.Common.{
  Bytes, List, [], ok, refl, ◌++◌, ◌∷◌, ◌≡◌, ◌⊎◌, Bool, Bool-cases, inl, inr, ok_injective, subst,
  ap, bytes_eq, sym, ℕ, ◌∙◌, Result-cases, Result, err, some, Option, none,
}
use drand_rs.Key.Group.{Group, KeyShare}
use drand_rs.Scheme.{Scheme}
use drand_rs.Chain.Registry

module _ (S : Scheme) (R : BeaconRepr) (pk : S.KeyPoint) where
  abbrev Opened : ChainStore R → Chain S R → Type 0
  Opened store' c = (c.store ≡ store') × IsChain S R pk c.store.rows c.reg.latest_stored

  open_chain-Keeps :
      (now : ℕ) (pool_open : Bool) (group : Group S) (h : ChainHandler S) (store : ChainStore R)
      → Held S R pk store.rows
      → Keeps S R pk store (open_chain S R now pool_open group h store).0
        × ((c : Chain S R)
            → (open_chain S R now pool_open group h store).1 ≡ ok c
            → (c.store ≡ (open_chain S R now pool_open group h store).0)
              × IsChain S R pk c.store.rows c.reg.latest_stored)
  unfolding open_chain chain_of Registry.new
  open_chain-Keeps now pool_open group h store held =
      let seed = group.genesis_seed in
      let store' = (check_genesis R store seed).0 in
      let kept = check_genesis-Keeps S R pk store seed held in
      elim (Result-cases (check_genesis R store seed).1) [
        | inr (e, bad) ↦ rw (bad, open_chain) (kept, λ c x. absurd (cc))
        | inl (u, fine) ↦ elim (Result-cases (last R store')) [
          | inr (e, bad) ↦ rw (fine, bad, open_chain) (kept, λ c x. absurd (cc))
          | inl (latest, found) ↦
              let chain = last-IsChain S R pk store' kept.0 found in
              rw (fine, found, open_chain)
                (kept, λ c x. subst (Opened store') (ok_injective x) (refl, chain))
        ]
      ]

  -- The group of the files, where there is one with commitments, has the public key.
  abbrev pub HasKey : EpochFiles S → Type 0
  HasKey files =
      (group : Group S) (public_key : S.KeyPoint) (commits : List S.KeyPoint)
      → files.group ≡ some group
      → group.dist_key ≡ public_key ∷ commits
      → public_key ≡ pk

  -- What a set-up leaves: a handler with the key, and a chain at the end of the store.
  pub record IsSetUp (store : ChainStore R) (h : ChainHandler S) (c : Chain S R) : Type 0 where
    pub key : h.chain_info.public_key ≡ pk
    pub at : c.store ≡ store
    pub sound : IsChain S R pk c.store.rows c.reg.latest_stored

  List-cases :
      (l : List S.KeyPoint) → (l ≡ []) ⊎ ((x : S.KeyPoint) × (xs : List S.KeyPoint) × (l ≡ x ∷ xs))
  List-cases [] = inl refl
  List-cases (x ∷ xs) = inr (x, xs, refl)

  abbrev SetUp :
      ChainStore R → ChainStore R × Result SetupError (ChainHandler S × Chain S R) → Type 0
  SetUp store (store', err e) = Keeps S R pk store store'
  SetUp store (store', ok (h, c)) = Keeps S R pk store store' × IsSetUp store' h c

  with_key-SetUp :
      (now : ℕ) (pool_open : Bool) (group : Group S) (share : KeyShare S) (store : ChainStore R)
      → Held S R pk store.rows
      → SetUp store (with_key S R now pool_open group pk share store)
  unfolding with_key handler_of chain_info_of
  with_key-SetUp now pool_open group share store held =
      let h = handler_of S R group pk share in
      let (kept, opened) = open_chain-Keeps now pool_open group h store held in
      elim (Result-cases (open_chain S R now pool_open group h store).1) [
        | inr (e, bad) ↦ rw (bad, with_key) kept
        | inl (c, fine) ↦
            rw (fine, with_key)
              (kept, record { key = refl; at = (opened c fine).0; sound = (opened c fine).1 })
      ]

  from_files-SetUp :
      (now : ℕ) (pool_open : Bool) (beacon_id : Bytes) (group : Option (Group S))
      (share : Option (KeyShare S)) (store : ChainStore R)
      → HasKey (record { group = group; share = share })
      → Held S R pk store.rows
      → SetUp store
          (from_config S R now pool_open beacon_id (record { group = group; share = share }) store)
  unfolding from_config
  from_files-SetUp now pool_open beacon_id none share store key held =
      (held, Extends-refl R store.rows)
  from_files-SetUp now pool_open beacon_id (some group) share store key held =
      elim (Bool-cases (bytes_eq group.beacon_id beacon_id)) [
        | inr other ↦ rw (other, from_config) (held, Extends-refl R store.rows)
        | inl same ↦ rw (same, from_config) (shared share key)
      ]
    where
      ready :
          (s : KeyShare S)
          → HasKey (record { group = some group; share = some s })
          → SetUp store (from_group S R now pool_open group (some s) store)
      ready s k = elim (List-cases group.dist_key) [
        | inl no_commits ↦ rw (no_commits, from_group) (held, Extends-refl R store.rows)
        | inr (public_key, commits, e) ↦
            let same = k group public_key commits refl e in
            rw (e, same, from_group) (with_key-SetUp now pool_open group s store held)
      ]

      shared :
          (o : Option (KeyShare S))
          → HasKey (record { group = some group; share = o })
          → SetUp store (from_group S R now pool_open group o store)
      shared none k = (held, Extends-refl R store.rows)
      shared (some s) k = ready s k

  run_set_up-Keeps :
      (k : Carried S R) (moves : (h : ChainHandler S) → List (Move S R h))
      (x : ChainStore R × Result SetupError (ChainHandler S × Chain S R))
      → SetUp k.store x
      → Keeps S R pk k.store (run_set_up S R moves k x).0.store
  unfolding run_set_up
  run_set_up-Keeps k moves (store', err (SetupError.file_store e)) kept = kept
  run_set_up-Keeps k moves (store', err SetupError.panic) kept = kept
  run_set_up-Keeps k moves (store', ok (h, c)) ((held, grown), ready) =
      let sound : IsSound S R h c =
        subst (λ k. IsChain S R k c.store.rows c.reg.latest_stored) (sym ready.key) ready.sound in
      let g = run-Grows S R h c k.waits k.reloads (moves h) sound in
      let l = run S R h (start S R h c k.waits k.reloads) (moves h) in
      (
        inr (
          l.chain.reg.latest_stored,
          subst (λ k. IsChain S R k l.chain.store.rows l.chain.reg.latest_stored) ready.key g.sound,
        ),
        Extends-trans R k.store.rows store'.rows l.chain.store.rows grown
            (g.news, g.appended ∙ ap (λ (s : ChainStore R). s.rows ++ g.news) ready.at),
      )

  and_then-Keeps :
      (store : ChainStore R) (ended rest : Carried S R × Option Exit)
      → Keeps S R pk store ended.0.store
      → Keeps S R pk store rest.0.store
      → Keeps S R pk store (and_then S R ended rest).0.store
  unfolding and_then
  and_then-Keeps store (k, some Exit.next_epoch) rest x r = r
  and_then-Keeps store (k, some Exit.shut_down) rest x r = x
  and_then-Keeps store (k, some (Exit.failed e)) rest x r = x
  and_then-Keeps store (k, none) rest x r = x

  run_chain-Keeps :
      (beacon_id : Bytes) (k : Carried S R) (e : EpochRun S R)
      → HasKey e.files
      → Held S R pk k.store.rows
      → Keeps S R pk k.store (run_chain S R beacon_id k e).0.store
  unfolding run_chain
  run_chain-Keeps beacon_id k e key held =
      run_set_up-Keeps k e.moves _
        (from_files-SetUp e.now e.pool_open beacon_id e.files.group e.files.share k.store key held)

  -- All epochs of the run have groups with the key.
  abbrev pub AllHaveKey : List (EpochRun S R) → Type 0
  AllHaveKey [] = Unit
  AllHaveKey (e ∷ es) = HasKey e.files × AllHaveKey es

  -- Through all epochs whose groups have one public key, and whatever is left of epochs before, the
  -- store is empty or a signed chain under that key, and is only extended.
  pub run_epochs-Keeps :
      (beacon_id : Bytes) (k : Carried S R) (es : List (EpochRun S R))
      → AllHaveKey es
      → Held S R pk k.store.rows
      → Keeps S R pk k.store (run_epochs S R beacon_id k es).0.store
  unfolding run_epochs
  run_epochs-Keeps beacon_id k [] keys held = (held, Extends-refl R k.store.rows)
  run_epochs-Keeps beacon_id k (e ∷ es) (key, keys) held =
      let ended = run_chain S R beacon_id k e in
      let (held', grown) = run_chain-Keeps beacon_id k e key held in
      let (held'', more) = run_epochs-Keeps beacon_id ended.0 es keys held' in
      and_then-Keeps k.store ended (run_epochs S R beacon_id ended.0 es) (held', grown)
        (held'', Extends-trans R k.store.rows ended.0.store.rows _ grown more)
