-- ===== src/Chain/Commands/Epochs.antt =====
-- The end of an epoch: src/chain/handler.rs.
use mathlib.Core.List.{append-nil}
use drand_rs.Chain.Beacon.{BeaconRepr}
use drand_rs.Chain.Commands.{
  Exit, Loop, Move, Wait, attempt, latest_round, poll_at, leave, poll_task, receive, live_step,
  wait_last_round, run, start, step,
}
use drand_rs.Chain.Commands.Turns.{run-IsWaiting}
use drand_rs.Chain.Commands.Waits.{Before, Announced, IsWaiting, Reached, AllWaits, start-not_next}
use drand_rs.Chain.Handler.{Chain, ChainHandler}
use drand_rs.Chain.Handler.Grows.{Grows, IsSound}
use drand_rs.Chain.Store.{last}
use drand_rs.Common.{
  inl, inr, ◌<◌, ◌⊎◌, length, List, [], ap, arith, none, some, true, ℕ, ◌∷◌, ◌≡◌, ◌≤◌, leb, ok,
  subst, suc, sym, refl, sub_u64, ◌++◌, false, ◌∙◌, Option,
}
use drand_rs.Scheme.{Scheme}

module _ (S : Scheme) (R : BeaconRepr) (h : ChainHandler S) where
  AllWaits-map :
      (P Q : ℕ → Type 0) (ws : List Wait)
      → ((want : ℕ) → P want → Q want)
      → AllWaits P ws
      → AllWaits Q ws
  unfolding AllWaits
  AllWaits-map P Q [] f a = tt
  AllWaits-map P Q (w ∷ ws) f (p, a) = (f w.want_round p, AllWaits-map P Q ws f a)

  AllWaits-Unit : (ws : List Wait) → AllWaits (λ _. Unit {0}) ws
  unfolding AllWaits
  AllWaits-Unit [] = tt
  AllWaits-Unit (w ∷ ws) = (tt, AllWaits-Unit ws)

  start-IsWaiting :
      (P : ℕ → Type 0) (c : Chain S R) (waits : List Wait) (reloads : ℕ)
      → IsSound S R h c
      → AllWaits P waits
      → (0 < reloads → Reached S R P c)
      → IsWaiting S R h P c (start S R h c waits reloads)
  unfolding start
  start-IsWaiting P c waits reloads s a r = record {
    grows = record { sound = s; news = []; appended = sym (append-nil c.store.rows) };
    waits = a;
    reloads = r;
    ended = λ x. absurd (start-not_next S R h c.pool_open x);
  }

  -- Whatever the moves, and whatever is left of the epochs before, the chain stays sound and grows at
  -- most.
  pub run-Grows :
      (c : Chain S R) (waits : List Wait) (reloads : ℕ) (ms : List (Move S R h))
      → IsSound S R h c
      → Grows S R h c (run S R h (start S R h c waits reloads) ms).chain
  unfolding Reached
  run-Grows c waits reloads ms s =
      let first =
        start-IsWaiting (λ _. Unit {0}) c waits reloads s (AllWaits-Unit waits)
          (λ x. (0, tt, omega arith)) in
      let last =
        run-IsWaiting S R h (λ _. Unit {0}) c (start S R h c waits reloads) ms (λ r a. tt) first in
      last.grows

  -- `P` is to hold of the first rounds that NewEpoch commands of the epochs before have named: each
  -- task that is left of them waits for the round before one of these, and a Reload is left only
  -- where the chain has reached such a round. Then a loop that started on a signed chain moves on to
  -- the next epoch only after a NewEpoch command, of this epoch or of one before, when the last round
  -- before the first one that the command names is stored. The tasks that are handed on to the next
  -- epoch wait for rounds before such first ones, and the chain has been kept a signed one and has
  -- grown at most.
  pub run-next_epoch :
      (P : ℕ → Type 0) (c : Chain S R) (waits : List Wait) (reloads : ℕ) (ms : List (Move S R h))
      → IsSound S R h c
      → AllWaits (Before P) waits
      → (reloads ≡ 0) ⊎ Reached S R (Before P) c
      → (run S R h (start S R h c waits reloads) ms).exit ≡ some Exit.next_epoch
      → ((first_round : ℕ) × (P first_round ⊎ Announced S R h ms first_round)
          × (sub_u64 first_round 1
              ≤ R.round (run S R h (start S R h c waits reloads) ms).chain.reg.latest_stored))
        × AllWaits
            (Before (λ first_round. P first_round ⊎ Announced S R h ms first_round))
            (run S R h (start S R h c waits reloads) ms).waits
        × Grows S R h c (run S R h (start S R h c waits reloads) ms).chain
  unfolding Reached
  run-next_epoch P c waits reloads ms s a left done =
      let Q : ℕ → Type 0 = Before (λ r. P r ⊎ Announced S R h ms r) in
      let widen : (want : ℕ) → Before P want → Q want = λ want (r, p, e). (r, inl p, e) in
      let there : 0 < reloads → Reached S R Q c = λ x. elim left [
        | inl no_reload ↦ absurd (omega arith)
        | inr (want, p, le) ↦ (want, widen want p, le)
      ] in
      let first =
        start-IsWaiting Q c waits reloads s (AllWaits-map (Before P) Q waits widen a) there in
      let l = run S R h (start S R h c waits reloads) ms in
      let last =
        run-IsWaiting S R h Q c (start S R h c waits reloads) ms (λ r a. (r, inr a, refl)) first in
      let (want, (round, named, e), le) = last.ended done in
      (
        (round, named, subst (λ w. w ≤ R.round l.chain.reg.latest_stored) e le),
        last.waits,
        last.grows,
      )

  latest_round-stored :
      (l : Loop S R)
      → IsSound S R h l.chain
      → l.chain.store.alive ≡ true
      → latest_round S R h l ≡ ok (R.round l.chain.reg.latest_stored)
  unfolding latest_round last
  latest_round-stored l s alive = rw (alive, s.ends, last) refl

  module _ (l : Loop S R) where
    attempt-stored :
        (w : Wait)
        → IsSound S R h l.chain
        → l.chain.store.alive ≡ true
        → w.want_round ≤ R.round l.chain.reg.latest_stored
        → (attempt S R h l w).1 ≡ true
    unfolding attempt
    attempt-stored w s alive le =
        let stored : leb w.want_round (R.round l.chain.reg.latest_stored) ≡ true = ground arith in
        rw (latest_round-stored l s alive, stored, attempt) refl

    poll_at-sent :
        (before after : List Wait) (want : ℕ)
        → IsSound S R h l.chain
        → l.chain.store.alive ≡ true
        → want ≤ R.round l.chain.reg.latest_stored
        → (poll_at S R h l
            (before ++ record { want_round = want; finished = false } ∷ after)
            (length before)).1
          ≡ true
    unfolding poll_at poll_task
    poll_at-sent [] after want s alive le =
        attempt-stored (record { want_round = want; finished = false }) s alive le
    poll_at-sent (w ∷ before) after want s alive le = poll_at-sent before after want s alive le

    wait_last_round-sent :
        (task : ℕ)
        → (poll_at S R h l l.waits task).1 ≡ true
        → ((wait_last_round S R h l task).reloads ≡ suc l.reloads)
          × ((wait_last_round S R h l task).exit ≡ l.exit)
          × ((wait_last_round S R h l task).chain ≡ l.chain)
    unfolding wait_last_round
    wait_last_round-sent task sent = (rw sent refl, refl, refl)

    take_reload-exits :
        (n : ℕ)
        → l.reloads ≡ suc n
        → l.exit ≡ none
        → l.chain.pool_open ≡ true
        → ((step S R h l Move.take_reload).exit ≡ some Exit.next_epoch)
          × ((step S R h l Move.take_reload).registered ≡ false)
          × ((step S R h l Move.take_reload).chain ≡ l.chain)
    unfolding step live_step receive leave
    take_reload-exits n r live opened = ground arith

  -- Where a task waits for a round that is stored, its next look at the store and the receipt of
  -- the Reload that it sends end the loop for the next epoch, with the nodes out of the pool.
  pub poll-take_reload :
      (l : Loop S R) (before after : List Wait) (want : ℕ)
      → IsSound S R h l.chain
      → l.exit ≡ none
      → l.waits ≡ before ++ record { want_round = want; finished = false } ∷ after
      → want ≤ R.round l.chain.reg.latest_stored
      → l.chain.store.alive ≡ true
      → l.chain.pool_open ≡ true
      → let l' = run S R h l (Move.poll (length before) ∷ Move.take_reload ∷ []) in
        (l'.exit ≡ some Exit.next_epoch) × (l'.registered ≡ false) × (l'.chain ≡ l.chain)
  unfolding run step live_step
  poll-take_reload l before after want s live waits le alive opened =
      let sent : (poll_at S R h l l.waits (length before)).1 ≡ true =
        ap (λ ws. (poll_at S R h l ws (length before)).1) waits
        ∙ (poll_at-sent l before after want s alive le) in
      let (r, e, c) = wait_last_round-sent l (length before) sent in
      let polled : step S R h l (Move.poll (length before))
          ≡ wait_last_round S R h l (length before) =
        ap
          (λ (x : Option Exit). elim x [
            | none ↦ live_step S R h l (Move.poll (length before))
            | some e ↦ l
          ])
          live in
      let (ended, left, same) =
        take_reload-exits (wait_last_round S R h l (length before)) l.reloads r (e ∙ live)
          (ap (λ (x : Chain S R). x.pool_open) c ∙ opened) in
      rw polled (ended, left, same ∙ c)
