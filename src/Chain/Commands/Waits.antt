-- ===== src/Chain/Commands/Waits.antt =====
-- The rounds that the tasks of `wait_last_round` wait for: src/chain/handler.rs.
use drand_rs.Chain.Beacon.{BeaconRepr}
use drand_rs.Chain.Commands.{
  ChainCmd, Exit, Loop, Move, Wait, attempt, latest_round, poll_at, poll_task, closed,
}
use drand_rs.Chain.Handler.{Chain, ChainHandler}
use drand_rs.Chain.Handler.Grows.{Grows, IsSound}
use drand_rs.Chain.Store.{last}
use drand_rs.Chain.Store.Verified.{last_row-round}
use drand_rs.Common.{
  sub_u64, length, List, [], ap, arith, length-append, none, some, true, ℕ, ◌<◌, ◌∷◌, ◌≡◌, ◌≤◌, ◌⊎◌,
  Bool-cases, Result-cases, inl, inr, leb, leb→le, ok, ok_injective, subst, suc, sym, zero, refl,
  Bool, false, if◌then◌else◌,
}
use drand_rs.Scheme.{Scheme}

-- All tasks wait for rounds that `P` holds of.
unfoldable pub AllWaits : (ℕ → Type 0) → List Wait → Type 0
AllWaits P [] = Unit
AllWaits P (w ∷ ws) = P w.want_round × AllWaits P ws

-- The round before one that `P` holds of.
abbrev pub Before : (ℕ → Type 0) → ℕ → Type 0
Before P want = (first_round : ℕ) × P first_round × (want ≡ sub_u64 first_round 1)

-- The rounds that `P` holds of are those that may be waited for; a Reload is there, or has ended the
-- loop, only where the chain has reached one of them.
unfoldable pub Reached : (S : Scheme) (R : BeaconRepr) → (ℕ → Type 0) → Chain S R → Type 0
Reached S R P c = (want : ℕ) × P want × (want ≤ R.round c.reg.latest_stored)

module _ (S : Scheme) (R : BeaconRepr) (h : ChainHandler S) where
  -- A NewEpoch command with the round is among the moves.
  abbrev pub Announced : List (Move S R h) → ℕ → Type 0
  Announced [] first_round = ⊥
  Announced (m ∷ ms) first_round =
      (m ≡ Move.command (ChainCmd.new_epoch first_round)) ⊎ Announced ms first_round

  pub zero-or-suc : (n : ℕ) → (n ≡ 0) ⊎ ((m : ℕ) × (n ≡ suc m))
  zero-or-suc zero = inl refl
  zero-or-suc (suc m) = inr (m, refl)

  pub start-not_next :
      (opened : Bool) → (if opened then none else some (closed S R h)) ≡ some Exit.next_epoch → ⊥
  start-not_next true x = cc
  start-not_next false x = cc

  pub record IsWaiting (P : ℕ → Type 0) (first : Chain S R) (l : Loop S R) : Type 0 where
    pub grows : Grows S R h first l.chain
    pub waits : AllWaits P l.waits
    pub reloads : 0 < l.reloads → Reached S R P l.chain
    pub ended : l.exit ≡ some Exit.next_epoch → Reached S R P l.chain

  Grows-round :
      (c c' : Chain S R)
      → IsSound S R h c
      → Grows S R h c c'
      → R.round c.reg.latest_stored ≤ R.round c'.reg.latest_stored
  Grows-round c c' s g =
      let pk = h.chain_info.public_key in
      let before = last_row-round S R pk 0 c.store.rows s.contiguous s.ends in
      let after = last_row-round S R pk 0 c'.store.rows g.sound.contiguous g.sound.ends in
      omega (arith, before, after, ap length g.appended, length-append c.store.rows g.news)

  -- What the store answers is the round of the registry's beacon.
  latest_round_sound :
      (l : Loop S R) {n : ℕ}
      → IsSound S R h l.chain
      → latest_round S R h l ≡ ok n
      → n ≡ R.round l.chain.reg.latest_stored
  unfolding latest_round last
  latest_round_sound l {n} s e = elim (Bool-cases l.chain.store.alive) [
    | inl live ↦ sym (ok_injective (rw (live, s.ends, latest_round, last) at e))
    | inr dead ↦ absurd (cc (rw (dead, latest_round, last) at e))
  ]

  module _ (P : ℕ → Type 0) where
    pub Reached-Grows :
        (c c' : Chain S R) → IsSound S R h c → Grows S R h c c' → Reached S R P c → Reached S R P c'
    unfolding Reached
    Reached-Grows c c' s g (want, p, le) = (want, p, omega (arith, le, Grows-round c c' s g))

    attempt-Reached :
        (l : Loop S R) (w : Wait)
        → IsSound S R h l.chain
        → P w.want_round
        → (attempt S R h l w).1 ≡ true
        → Reached S R P l.chain
    unfolding attempt Reached
    attempt-Reached l w s p sent = elim (Result-cases (latest_round S R h l)) [
      | inr (e, failed) ↦ absurd (cc (rw (failed, attempt) at sent))
      | inl (n, found) ↦
          let exact = latest_round_sound l s found in
          let enough : leb w.want_round n ≡ true = elim (Bool-cases (leb w.want_round n)) [
            | inl yes_it ↦ yes_it
            | inr less ↦ absurd (cc (rw (found, less, attempt) at sent))
          ] in
          (w.want_round, p, omega (arith, leb→le w.want_round n enough, exact))
    ]

    poll_task-sent :
        (l : Loop S R) (w : Wait) → (poll_task S R h l w).1 ≡ true → (attempt S R h l w).1 ≡ true
    unfolding poll_task
    poll_task-sent l w sent = ground arith

    poll_task-want : (l : Loop S R) (w : Wait) → (poll_task S R h l w).0.want_round ≡ w.want_round
    unfolding poll_task attempt
    poll_task-want l w = ground arith

    pub poll_at-waits :
        (l : Loop S R) (ws : List Wait) (task : ℕ)
        → IsSound S R h l.chain
        → AllWaits P ws
        → AllWaits P (poll_at S R h l ws task).0
          × ((poll_at S R h l ws task).1 ≡ true → Reached S R P l.chain)
    unfolding poll_at AllWaits
    poll_at-waits l [] task s a = (tt, λ e. absurd (cc))
    poll_at-waits l (w ∷ ws) zero s (p, a) = (
      (subst P (sym (poll_task-want l w)) p, a),
      λ sent. attempt-Reached l w s p (poll_task-sent l w sent),
    )
    poll_at-waits l (w ∷ ws) (suc task) s (p, a) =
        let (a', r) = poll_at-waits l ws task s a in ((p, a'), r)
