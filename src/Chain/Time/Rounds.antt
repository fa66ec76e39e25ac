-- ===== src/Chain/Time/Rounds.antt =====
-- The rounds of a chain follow one another by its period: src/chain/time.rs.
use native.Mathlib.Nat.{div-add-mod', mod-lt, mod-eq_of_lt, mul-div_left, div-le_self}
use drand_rs.Chain.Time.{next_round, current_round, time_of_round}
use drand_rs.Chain.Time.Floats.{float_div-exact}
use drand_rs.Common.{
  two_32, ℕ, ◌*◌, ◌+◌, ◌-◌, ◌/◌, ◌<◌, ◌^◌, ◌≡◌, ◌≤◌, arith, false, ltb, refl, two_64, ◌%◌, sym,
  ◌==◌,
}

-- The times at which u64 and f64 are exact: up to 2 ^ 53 seconds after genesis.
pub record IsTimely (now period genesis : ℕ) : Type 0 where
  pub started : genesis ≤ now
  pub near : now < genesis + 2 ^ 53
  pub period_pos : 0 < period
  pub period_u32 : period < two_32
  pub genesis_fits : genesis < 2 ^ 62

-- Times and rounds in unbounded integers.
next_round-exact :
    (now period genesis : ℕ)
    → IsTimely now period genesis
    → next_round now period genesis
      ≡ ((now - genesis) / period + 2, genesis + ((now - genesis) / period + 1) * period)
unfolding next_round
next_round-exact now period genesis t =
    let d = now - genesis in
    let q = d / period in
    let late : ltb now genesis ≡ false = ground arith in
    let e = float_div-exact d period (omega arith) t.period_pos t.period_u32 in
    let whole = div-add-mod' d period in
    let small = div-le_self d period in
    let e₁ : (q + 1) % two_64 ≡ q + 1 = omega (arith, small) in
    let e₂ : (q + 1 + 1) % two_64 ≡ q + 2 = omega (arith, small) in
    let e₃ : (q + 1) * period % two_64 ≡ (q + 1) * period = mod-eq_of_lt (omega (arith, whole)) in
    let e₄ : (genesis + (q + 1) * period) % two_64 ≡ genesis + (q + 1) * period =
      mod-eq_of_lt (omega (arith, whole)) in
    rw (late, e, e₁, e₂, e₃, e₄) refl

-- The round at `now` is one more than the number of whole periods since genesis.
pub current_round-exact :
    (now period genesis : ℕ)
    → IsTimely now period genesis
    → current_round now period genesis ≡ (now - genesis) / period + 1
unfolding current_round
current_round-exact now period genesis t = rw (next_round-exact now period genesis t) (ground arith)

pub time_of_round-exact :
    (period genesis n round : ℕ)
    → n ≡ round + 1
    → genesis + round * period < two_64
    → time_of_round period genesis n ≡ genesis + round * period
unfolding time_of_round
time_of_round-exact period genesis n round e h =
    let e₀ : (n == 0) ≡ false = ground arith in
    let e₁ : n - 1 ≡ round = omega (arith, e) in
    let e₂ : round * period % two_64 ≡ round * period = mod-eq_of_lt (omega (arith, h)) in
    let e₃ : (genesis + round * period) % two_64 ≡ genesis + round * period = mod-eq_of_lt h in
    rw (e₀, e₁, e₂, e₃) refl

-- The current round has begun, and the next one has not.
pub current_round-brackets :
    (now period genesis : ℕ)
    → IsTimely now period genesis
    → (time_of_round period genesis (current_round now period genesis) ≤ now)
      × (now < time_of_round period genesis (current_round now period genesis + 1))
current_round-brackets now period genesis t =
    let q = (now - genesis) / period in
    let whole = div-add-mod' (now - genesis) period in
    let less = mod-lt (now - genesis) t.period_pos in
    let e = current_round-exact now period genesis t in
    let e₁ = time_of_round-exact period genesis (q + 1) q refl (omega (arith, whole)) in
    let e₂ = time_of_round-exact period genesis (q + 1 + 1) (q + 1) refl (omega (arith, whole)) in
    rw e (omega (arith, e₁, whole), omega (arith, e₂, whole, less))

-- At the time of a round, from 1 on and within 2^53 seconds after genesis, that round is the current
-- one.
pub current_round-time_of_round :
    (period genesis round : ℕ)
    → 0 < period
    → period < two_32
    → genesis < 2 ^ 62
    → round * period < 2 ^ 53
    → current_round (time_of_round period genesis (round + 1)) period genesis ≡ round + 1
current_round-time_of_round period genesis round hp hp' hg hr =
    let e = time_of_round-exact period genesis (round + 1) round refl (omega (arith, hg, hr)) in
    let e' : genesis + round * period - genesis ≡ round * period = omega arith in
    let t : IsTimely (genesis + round * period) period genesis = record {
      started = omega arith;
      near = omega (arith, hr);
      period_pos = hp;
      period_u32 = hp';
      genesis_fits = hg;
    } in
    rw
      (
        e,
        current_round-exact (genesis + round * period) period genesis t,
        e',
        mul-div_left round hp,
      )
      refl

-- From genesis on, and up to 2^53 seconds after it, the ticker's next round comes with its own time,
-- which is still to come, and is the one after the current round.
pub next_round-time_of_round :
    (now period genesis : ℕ)
    → IsTimely now period genesis
    → ((next_round now period genesis).1
        ≡ time_of_round period genesis (next_round now period genesis).0)
      × (now < (next_round now period genesis).1)
      × ((next_round now period genesis).0 ≡ current_round now period genesis + 1)
next_round-time_of_round now period genesis t =
    let q = (now - genesis) / period in
    let whole = div-add-mod' (now - genesis) period in
    let less = mod-lt (now - genesis) t.period_pos in
    let e =
      time_of_round-exact period genesis (q + 2) (q + 1) (omega arith) (omega (arith, whole)) in
    rw (next_round-exact now period genesis t, current_round-exact now period genesis t)
      (sym e, omega (arith, whole, less), omega arith)
