-- ===== src/Chain/Default/Loop.antt =====
-- What the follow requests of a node without a DKG store: src/chain/handler.rs.
use mathlib.Core.List.{append-nil}
use drand_rs.Chain.Beacon.{BeaconRepr}
use drand_rs.Chain.Commands.{ChainCmd, FollowRequest}
use drand_rs.Chain.Default.{
  run_task, SyncTask, DefaultChain, DefaultMove, follow_chain, answer, default_receive, run_sync,
  default_live, default_step, run_chain_default,
}
use drand_rs.Chain.Default.Followed.{
  Advances, Advances-refl, Advances-trans, IsFollowing, own-Held, with_packet-Advances,
}
use drand_rs.Chain.Default.Seeds.{
  Seeded, process_follow_request-Keeps, start_follow_chain-Keeps, start_follow_chain-Seeded,
}
use drand_rs.Chain.Info.{ChainInfo}
use drand_rs.Chain.Store.{ChainStore}
use drand_rs.Chain.Store.Held.{Held, Keeps, Extends}
use drand_rs.Chain.Sync.Follow.{process_follow_request, start_follow_chain}
use drand_rs.Common.{
  Bool-cases, Bytes, List, Option, Option-cases, Result-cases, [], false, inl, inr, is_empty, none,
  some, subst, two_64, ℕ, ◌<◌, ◌∷◌, ◌≡◌, ap, refl, sym, ◌∙◌, is_some,
}
use drand_rs.Dkg.Execution.Finish.{seeded}
use drand_rs.Scheme.{Scheme}

module _ (S : Scheme) (R : BeaconRepr) (beacon_id : Bytes) where
  follow_chain-Advances :
      (now : ℕ) (c : DefaultChain S R) (req : FollowRequest)
      → Seeded req.peers
      → IsFollowing S R c
      → Advances S R c (follow_chain S R now c req beacon_id).0
  unfolding follow_chain
  follow_chain-Advances now c req seeded v = elim (Option-cases c.sync_handle) [
    | inr (t, busy) ↦ rw (ap is_some busy, follow_chain) (Advances-refl S R c v)
    | inl idle ↦
        let store = (start_follow_chain S R req.chain_hash beacon_id c.store req.peers).0 in
        let kept : (pk : S.KeyPoint) → Held S R pk c.store.rows → Keeps S R pk c.store store =
          λ pk held.
            start_follow_chain-Keeps S R pk req.chain_hash beacon_id c.store req.peers held in
        let valid : IsFollowing S R (record c { store = store }) = record {
          held = λ pk same. (kept pk (v.held pk same)).0;
          task = v.task;
        } in
        let one : Advances S R c (record c { store = store }) = record {
          valid = valid;
          same = λ x. refl;
          rows = (kept c.chain_info.public_key (own-Held S R c v)).1;
        } in
        elim (Result-cases (start_follow_chain S R req.chain_hash beacon_id c.store req.peers).1) [
          | inr (e, bad) ↦ rw (ap is_some idle, bad, follow_chain) one
          | inl (packet, found) ↦
              let seed =
                start_follow_chain-Seeded S R req.chain_hash beacon_id c.store req.peers seeded
                  found in
              rw (ap is_some idle, found, follow_chain)
                (Advances-trans S R c (record c { store = store }) _ one
                  (with_packet-Advances S R now req beacon_id packet (record c { store = store })
                    idle seed valid))
        ]
  ]

  -- What only adds replies or ends the loop.
  same-Advances :
      (c c' : DefaultChain S R)
      → c'.store ≡ c.store
      → c'.chain_info ≡ c.chain_info
      → c'.sync_handle ≡ c.sync_handle
      → IsFollowing S R c
      → Advances S R c c'
  same-Advances c c' store info handle v = record {
    valid = record {
      held = λ pk same.
          subst (λ (s : ChainStore R). Held S R pk s.rows) (sym store)
            (v.held pk (λ x.
              ap (λ (i : ChainInfo S). i.public_key) (sym info)
              ∙ same (subst (λ (i : ChainInfo S). is_empty i.genesis_seed ≡ false) (sym info) x)));
      task = λ t e.
          subst
            (λ (i : ChainInfo S).
              (is_empty i.genesis_seed ≡ false)
              × (t.info.public_key ≡ i.public_key)
              × (t.target < two_64))
            (sym info) (v.task t (sym handle ∙ e));
    };
    same = λ x. info;
    rows = ([], ap (λ (s : ChainStore R). s.rows) store ∙ sym (append-nil c.store.rows));
  }

  -- The requests of a command.
  abbrev IsSeeded : ChainCmd → Type 0
  IsSeeded (ChainCmd.follow req) = Seeded req.peers
  IsSeeded ChainCmd.shutdown = Unit
  IsSeeded (ChainCmd.new_epoch first_round) = Unit
  IsSeeded ChainCmd.reload = Unit
  IsSeeded ChainCmd.chain_info = Unit
  IsSeeded (ChainCmd.resync from_round) = Unit
  IsSeeded ChainCmd.latest_stored = Unit

  default_receive-Advances :
      (now : ℕ) (c : DefaultChain S R) (cmd : ChainCmd)
      → IsSeeded cmd
      → IsFollowing S R c
      → Advances S R c (default_receive S R beacon_id now c cmd)
  unfolding default_receive answer
  default_receive-Advances now c (ChainCmd.follow req) seeded v =
      let c' = (follow_chain S R now c req beacon_id).0 in
      let f = follow_chain-Advances now c req seeded v in
      Advances-trans S R c c' _ f (same-Advances c' _ refl refl refl f.valid)
  default_receive-Advances now c ChainCmd.shutdown s v = same-Advances c _ refl refl refl v
  default_receive-Advances now c (ChainCmd.new_epoch first_round) s v =
      same-Advances c _ refl refl refl v
  default_receive-Advances now c ChainCmd.reload s v = same-Advances c _ refl refl refl v
  default_receive-Advances now c ChainCmd.chain_info s v = same-Advances c _ refl refl refl v
  default_receive-Advances now c (ChainCmd.resync from_round) s v =
      same-Advances c _ refl refl refl v
  default_receive-Advances now c ChainCmd.latest_stored s v = same-Advances c _ refl refl refl v

  abbrev synced : DefaultChain S R → SyncTask S R → ChainStore R
  synced c t = (process_follow_request S R t.info t.target c.store t.streams t.room).0

  synced-Keeps :
      (c : DefaultChain S R) (t : SyncTask S R) (pk : S.KeyPoint)
      → t.target < two_64
      → t.info.public_key ≡ pk
      → Held S R pk c.store.rows
      → Keeps S R pk c.store (synced c t)
  synced-Keeps c t pk big e held =
      subst (λ k. Keeps S R k c.store (synced c t)) e
        (process_follow_request-Keeps S R t.info t.target c.store t.streams t.room big
          (subst (λ k. Held S R k c.store.rows) (sym e) held))

  run_task-Advances :
      (c : DefaultChain S R) (o : Option (SyncTask S R))
      → c.sync_handle ≡ o
      → IsFollowing S R c
      → Advances S R c (run_task S R beacon_id c o)
  unfolding run_task
  run_task-Advances c none idle v = Advances-refl S R c v
  run_task-Advances c (some t) busy v =
      let (known, key, big) = v.task t busy in
      record {
        valid = record {
          held = λ pk same. (synced-Keeps c t pk big (key ∙ same known) (v.held pk same)).0;
          task = λ u e. absurd (cc);
        };
        same = λ x. refl;
        rows = (synced-Keeps c t c.chain_info.public_key big key (own-Held S R c v)).1;
      }

  abbrev IsSeededMove : DefaultMove → Type 0
  IsSeededMove DefaultMove.new_partial = Unit
  IsSeededMove (DefaultMove.cmd now order) = IsSeeded order
  IsSeededMove DefaultMove.sync_turn = Unit

  default_step-Advances :
      (c : DefaultChain S R) (m : DefaultMove)
      → IsSeededMove m
      → IsFollowing S R c
      → Advances S R c (default_step S R beacon_id c m)
  unfolding default_step default_live answer run_sync
  default_step-Advances c DefaultMove.sync_turn s v = run_task-Advances c c.sync_handle refl v
  default_step-Advances c DefaultMove.new_partial s v = elim (Bool-cases (is_some c.exit)) [
    | inl over ↦ rw (over, default_step) (Advances-refl S R c v)
    | inr live ↦ rw (live, default_step) (same-Advances c _ refl refl refl v)
  ]
  default_step-Advances c (DefaultMove.cmd now order) s v = elim (Bool-cases (is_some c.exit)) [
    | inl over ↦ rw (over, default_step) (Advances-refl S R c v)
    | inr live ↦ rw (live, default_step) (default_receive-Advances now c order s v)
  ]

  -- The information that the peers give for the follow requests of the moves has a genesis seed.
  abbrev pub AllSeeded : List DefaultMove → Type 0
  AllSeeded [] = Unit
  AllSeeded (m ∷ ms) = IsSeededMove m × AllSeeded ms

  run-Advances :
      (c : DefaultChain S R) (ms : List DefaultMove)
      → AllSeeded ms
      → IsFollowing S R c
      → Advances S R c (run_chain_default S R beacon_id c ms)
  unfolding run_chain_default
  run-Advances c [] s v = Advances-refl S R c v
  run-Advances c (m ∷ ms) (s, ss) v =
      let f = default_step-Advances c m s v in
      Advances-trans S R c (default_step S R beacon_id c m) _ f
        (run-Advances (default_step S R beacon_id c m) ms ss f.valid)

  -- A node without a DKG whose store is empty or signed by the group of the information that it
  -- has, where all information that the peers give for its follow requests has a genesis seed: after
  -- any moves, the store is empty or a chain signed under the key of the information, extends the one
  -- before, and an information that the node had is the one it has.
  pub run_chain_default-Held :
      (c : DefaultChain S R) (ms : List DefaultMove)
      → AllSeeded ms
      → IsFollowing S R c
      → let c' = run_chain_default S R beacon_id c ms in
        Held S R c'.chain_info.public_key c'.store.rows
        × Extends R c.store.rows c'.store.rows
        × (is_empty c.chain_info.genesis_seed ≡ false → c'.chain_info ≡ c.chain_info)
  run_chain_default-Held c ms s v =
      let f = run-Advances c ms s v in
      (own-Held S R (run_chain_default S R beacon_id c ms) f.valid, f.rows, f.same)
