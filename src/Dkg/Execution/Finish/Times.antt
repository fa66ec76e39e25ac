-- ===== src/Dkg/Execution/Finish/Times.antt =====
-- The time and the round of a transition: src/dkg/execution.rs.
use native.Mathlib.Nat.{div-add-mod', mod-eq_of_lt, div-le_self}
use drand_rs.Chain.Time.{current_round, time_of_round}
use drand_rs.Chain.Time.Rounds.{
  IsTimely, current_round-exact, current_round-time_of_round, time_of_round-exact,
}
use drand_rs.Common.{
  Bool-cases, add_u64, arith, false, if◌then◌else◌, inl, inr, refl, two_32, two_64, ℕ, ◌*◌, ◌+◌,
  ◌-◌, ◌/◌, ◌<◌, ◌==◌, ◌^◌, ◌≡◌, ◌≤◌, sub_u64,
}
use drand_rs.Dkg.Execution.Finish.{reshare_time, rounds_until_transition, transition_time_of}
use drand_rs.Dkg.State.{State}
use drand_rs.Scheme.{Authority, Scheme}

-- The times at which the arithmetic of a transition is exact. A reshare ends after genesis.
pub record IsExact {S : Scheme} (current : State S) (now genesis : ℕ) : Type 0 where
  pub period_pos : 0 < current.beacon_period
  pub period_u32 : current.beacon_period < two_32
  pub genesis_fits : genesis < 2 ^ 62
  pub period_before : current.beacon_period ≤ genesis
  pub started : (current.epoch == 1) ≡ false → genesis ≤ now
  pub near : (current.epoch == 1) ≡ false → now < genesis + 2 ^ 52

-- The round at which a group takes over: the first one, or the tenth after the current.
abbrev pub first_round_of : {S : Scheme} → State S → (now genesis : ℕ) → ℕ
first_round_of current now genesis =
    if current.epoch == 1
    then 1
    else current_round now current.beacon_period genesis + rounds_until_transition

-- Ten rounds after the current one, in unbounded integers.
module _ (now period genesis : ℕ) (t : IsTimely now period genesis)
    (near : now < genesis + 2 ^ 52) where
  later_round :
      (round : ℕ) × (current_round now period genesis + rounds_until_transition ≡ round + 1)
      × (round * period < 2 ^ 53)
      × (round + 1 < two_64)
  later_round =
      let q = (now - genesis) / period in
      let whole = div-add-mod' (now - genesis) period in
      let small = div-le_self (now - genesis) period in
      (
        q + 10,
        omega (arith, current_round-exact now period genesis t),
        omega (arith, whole, t.period_u32),
        omega (arith, small),
      )

  reshare_time-round :
      (time_of_round period genesis (current_round now period genesis + rounds_until_transition)
        ≡ reshare_time now period genesis)
      × (current_round (reshare_time now period genesis) period genesis
          ≡ current_round now period genesis + rounds_until_transition)
  unfolding reshare_time
  reshare_time-round =
      let (round, e, fits, word) = later_round in
      let same : add_u64 (current_round now period genesis) rounds_until_transition
          ≡ current_round now period genesis + rounds_until_transition =
        mod-eq_of_lt (omega (arith, e, word)) in
      (
        rw same refl,
        rw (same, e)
            (current_round-time_of_round period genesis round t.period_pos t.period_u32
              t.genesis_fits fits),
      )

module _ (now period genesis : ℕ) (t : IsTimely now period genesis)
    (near : now < genesis + 2 ^ 52) where
  reshare_time-bounds :
      (genesis ≤ reshare_time now period genesis) × (reshare_time now period genesis < two_64)
  reshare_time-bounds =
      let (round, e, fits, word) = later_round now period genesis t near in
      let there = (reshare_time-round now period genesis t near).0 in
      let exact =
        time_of_round-exact period genesis
          (current_round now period genesis + rounds_until_transition) round e
          (omega (arith, fits, t.genesis_fits)) in
      rw (← there, exact) (omega arith, omega (arith, fits, t.genesis_fits))

pub sub_u64-exact : (b a : ℕ) → b ≤ a → a < two_64 → sub_u64 a b ≡ a - b
sub_u64-exact b a h k = omega arith

time_of_round-one :
    (period genesis : ℕ) → genesis < 2 ^ 62 → time_of_round period genesis 1 ≡ genesis
unfolding time_of_round
time_of_round-one period genesis h = ground arith

timely :
    {S : Scheme} {current : State S} {now genesis : ℕ}
    → IsExact current now genesis
    → (current.epoch == 1) ≡ false
    → IsTimely now current.beacon_period genesis
timely x later = record {
  started = x.started later;
  near = omega (arith, x.near later);
  period_pos = x.period_pos;
  period_u32 = x.period_u32;
  genesis_fits = x.genesis_fits;
}

module _ (S : Scheme) (au : Authority) where
  pub transition_time_of-round :
      (current : State S) (now genesis : ℕ)
      → IsExact current now genesis
      → (time_of_round current.beacon_period genesis (first_round_of current now genesis)
          ≡ transition_time_of S au current now genesis)
        × (current_round (transition_time_of S au current now genesis) current.beacon_period genesis
            ≡ first_round_of current now genesis)
  unfolding transition_time_of
  transition_time_of-round current now genesis x = elim (Bool-cases (current.epoch == 1)) [
    | inl first ↦
        let period = current.beacon_period in
        let start = time_of_round-one period genesis x.genesis_fits in
        let back =
          current_round-time_of_round period genesis 0 x.period_pos x.period_u32 x.genesis_fits
            (omega arith) in
        rw first (start, rw (start) at back)
    | inr later ↦
        rw later
          (reshare_time-round now current.beacon_period genesis (timely x later) (x.near later))
  ]

  pub transition_time_of-bounds :
      (current : State S) (now genesis : ℕ)
      → IsExact current now genesis
      → (genesis ≤ transition_time_of S au current now genesis)
        × (transition_time_of S au current now genesis < two_64)
  unfolding transition_time_of
  transition_time_of-bounds current now genesis x = elim (Bool-cases (current.epoch == 1)) [
    | inl first ↦ rw first (omega arith, omega (arith, x.genesis_fits))
    | inr later ↦
        rw later
          (reshare_time-bounds now current.beacon_period genesis (timely x later) (x.near later))
  ]
