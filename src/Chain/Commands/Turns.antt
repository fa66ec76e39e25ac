-- ===== src/Chain/Commands/Turns.antt =====
-- Each move of the loop keeps what the tasks wait for: src/chain/handler.rs.
use drand_rs.Chain.Beacon.{BeaconRepr}
use drand_rs.Chain.Commands.{
  ChainCmd, Exit, Loop, Move, Wait, turn, poll_at, leave, receive, live_step, wait_last_round, run,
  step,
}
use drand_rs.Chain.Commands.Waits.{
  AllWaits, Announced, IsWaiting, Reached, Reached-Grows, poll_at-waits, zero-or-suc,
}
use drand_rs.Chain.Handler.{Chain, ChainHandler, Event, run_event}
use drand_rs.Chain.Handler.Grows.{Grows, Grows-trans}
use drand_rs.Chain.Handler.Sound.{run_event-Grows}
use drand_rs.Common.{
  List, [], ap, arith, none, some, ℕ, ◌∷◌, ◌≡◌, Bool-cases, Result-cases, inl, inr, subst, suc, sym,
  refl, sub_u64, ◌++◌, Option-cases,
}
use drand_rs.Scheme.{Scheme}

module _ (S : Scheme) (R : BeaconRepr) (h : ChainHandler S) (P : ℕ → Type 0)
    (first : Chain S R) where
  turn-IsWaiting :
      (now : ℕ) (l : Loop S R) (e : Event S R h)
      → l.exit ≡ none
      → IsWaiting S R h P first l
      → IsWaiting S R h P first (turn S R h now l e)
  unfolding turn
  turn-IsWaiting now l e live v =
      let c' = (run_event S R h now l.chain e).0 in
      let g = run_event-Grows S R h now l.chain e v.grows.sound in
      let grown : IsWaiting S R h P first (record l { chain = c' }) = record {
        grows = Grows-trans S R h v.grows g;
        waits = v.waits;
        reloads =
            λ some_sent. Reached-Grows S R h P l.chain c' v.grows.sound g (v.reloads some_sent);
        ended = λ x. absurd (cc);
      } in
      elim (Result-cases (run_event S R h now l.chain e).1) [
        | inl (u, fine) ↦ rw (fine, turn) grown
        | inr (fault, bad) ↦
            rw (bad, turn)
              (record {
                grows = grown.grows;
                waits = grown.waits;
                reloads = grown.reloads;
                ended = λ x. absurd (cc);
              })
      ]

  append-AllWaits :
      (ws : List Wait) (w : Wait) → AllWaits P ws → P w.want_round → AllWaits P (ws ++ w ∷ [])
  unfolding AllWaits
  append-AllWaits [] w a p = (p, tt)
  append-AllWaits (x ∷ ws) w (px, a) p = (px, append-AllWaits ws w a p)

  -- A loop with the same chain, tasks and no more Reloads, which has not moved on.
  kept-IsWaiting :
      (l l' : Loop S R)
      → l'.chain ≡ l.chain
      → l'.waits ≡ l.waits
      → l'.reloads ≡ l.reloads
      → (l'.exit ≡ some Exit.next_epoch → ⊥)
      → IsWaiting S R h P first l
      → IsWaiting S R h P first l'
  kept-IsWaiting l l' c w r e v = record {
    grows = subst (Grows S R h first) (sym c) v.grows;
    waits = subst (AllWaits P) (sym w) v.waits;
    reloads = λ some_sent. subst (Reached S R P) (sym c) (v.reloads (omega arith));
    ended = λ x. absurd (e x);
  }

  receive-IsWaiting :
      (l : Loop S R) (c : ChainCmd)
      → l.exit ≡ none
      → (c ≡ ChainCmd.reload → ⊥)
      → ((round : ℕ) → c ≡ ChainCmd.new_epoch round → P (sub_u64 round 1))
      → IsWaiting S R h P first l
      → IsWaiting S R h P first (receive S R h l c)
  unfolding receive leave
  receive-IsWaiting l ChainCmd.shutdown live no_reload p v =
      kept-IsWaiting l _ (ground arith) (ground arith) (ground arith) (λ x. ground arith) v
  receive-IsWaiting l (ChainCmd.new_epoch round) live no_reload p v = record {
    grows = v.grows;
    waits = append-AllWaits l.waits _ v.waits (p round refl);
    reloads = v.reloads;
    ended = v.ended;
  }
  receive-IsWaiting l ChainCmd.reload live no_reload p v = absurd (no_reload refl)
  receive-IsWaiting l ChainCmd.chain_info live no_reload p v =
      kept-IsWaiting l _ (ground arith) (ground arith) (ground arith) (λ x. ground arith) v
  receive-IsWaiting l (ChainCmd.resync from) live no_reload p v =
      kept-IsWaiting l _ (ground arith) (ground arith) (ground arith) (λ x. ground arith) v
  receive-IsWaiting l (ChainCmd.follow req) live no_reload p v =
      kept-IsWaiting l _ refl refl refl (λ x. cc) v
  receive-IsWaiting l ChainCmd.latest_stored live no_reload p v =
      kept-IsWaiting l _ refl refl refl (λ x. cc) v

  -- A Reload out of the channel ends the loop at a round that was waited for.
  take_reload-IsWaiting :
      (l : Loop S R) (n : ℕ)
      → l.reloads ≡ suc n
      → IsWaiting S R h P first l
      → IsWaiting S R h P first (receive S R h (record l { reloads = n }) ChainCmd.reload)
  unfolding receive leave
  take_reload-IsWaiting l n e v =
      let reached = v.reloads (omega arith) in
      elim (Bool-cases l.chain.pool_open) [
        | inl opened ↦ ground (arith)
        | inr shut ↦ ground (arith)
      ]

  wait_last_round-IsWaiting :
      (l : Loop S R) (task : ℕ)
      → l.exit ≡ none
      → IsWaiting S R h P first l
      → IsWaiting S R h P first (wait_last_round S R h l task)
  unfolding wait_last_round
  wait_last_round-IsWaiting l task live v =
      let (a, sent) = poll_at-waits S R h P l l.waits task v.grows.sound v.waits in
      record {
        grows = v.grows;
        waits = a;
        reloads = λ some_sent. elim (Bool-cases (poll_at S R h l l.waits task).1) [
          | inl new ↦ sent new
          | inr old ↦ v.reloads (rw (old, wait_last_round) at some_sent)
        ];
        ended = v.ended;
      }

  live_step-IsWaiting :
      (l : Loop S R) (m : Move S R h)
      → l.exit ≡ none
      → ((round : ℕ) → m ≡ Move.command (ChainCmd.new_epoch round) → P (sub_u64 round 1))
      → IsWaiting S R h P first l
      → IsWaiting S R h P first (live_step S R h l m)
  unfolding live_step
  live_step-IsWaiting l (Move.event now e) live p v = turn-IsWaiting now l e live v
  live_step-IsWaiting l (Move.command ChainCmd.reload) live p v = v
  live_step-IsWaiting l (Move.command ChainCmd.shutdown) live p v =
      receive-IsWaiting l ChainCmd.shutdown live (λ x. cc) (λ r x. absurd (cc)) v
  live_step-IsWaiting l (Move.command (ChainCmd.new_epoch round)) live p v =
      receive-IsWaiting l (ChainCmd.new_epoch round) live (λ x. cc) (λ r x. p r (ap Move.command x))
        v
  live_step-IsWaiting l (Move.command ChainCmd.chain_info) live p v =
      receive-IsWaiting l ChainCmd.chain_info live (λ x. cc) (λ r x. absurd (cc)) v
  live_step-IsWaiting l (Move.command (ChainCmd.resync from)) live p v =
      receive-IsWaiting l (ChainCmd.resync from) live (λ x. cc) (λ r x. absurd (cc)) v
  live_step-IsWaiting l (Move.command (ChainCmd.follow req)) live p v =
      receive-IsWaiting l (ChainCmd.follow req) live (λ x. cc) (λ r x. absurd (cc)) v
  live_step-IsWaiting l (Move.command ChainCmd.latest_stored) live p v =
      receive-IsWaiting l ChainCmd.latest_stored live (λ x. cc) (λ r x. absurd (cc)) v
  live_step-IsWaiting l (Move.poll task) live p v = wait_last_round-IsWaiting l task live v
  live_step-IsWaiting l Move.take_reload live p v = elim (zero-or-suc S R h l.reloads) [
    | inl e ↦ rw (e, live_step) v
    | inr (n, e) ↦ rw (e, live_step) (take_reload-IsWaiting l n e v)
  ]

  pub run-IsWaiting :
      (l : Loop S R) (ms : List (Move S R h))
      → ((round : ℕ) → Announced S R h ms round → P (sub_u64 round 1))
      → IsWaiting S R h P first l
      → IsWaiting S R h P first (run S R h l ms)
  unfolding run step
  run-IsWaiting l [] p v = v
  run-IsWaiting l (m ∷ ms) p v = elim (Option-cases l.exit) [
    | inl live ↦
        rw (live, step)
          (run-IsWaiting (live_step S R h l m) ms (λ r a. p r (inr a))
            (live_step-IsWaiting l m live (λ r e. p r (inl e)) v))
    | inr (e, over) ↦ rw (over, step) (run-IsWaiting l ms (λ r a. p r (inr a)) v)
  ]
