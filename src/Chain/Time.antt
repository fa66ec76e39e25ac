-- ===== src/Chain/Time.antt =====
-- Rounds and their times: src/chain/time.rs, with the f64 arithmetic of `next_round` written out.
-- A positive f64 of 53 significant bits is a natural number over, or times, a power of two.
-- Doublings are on fuel: from 1 / 2 ^ 32 it takes 84 to reach 2 ^ 52, and from 2 ^ 64 it takes 11
-- to come below 2 ^ 53.
pub mod Floats
pub mod Rounds
use drand_rs.Common.{
  add_u64, if◌then◌else◌, leb, ltb, mul_u64, suc, two_64, zero, ℕ, ◌%◌, ◌*◌, ◌+◌, ◌-◌, ◌/◌, ◌==◌,
  ◌^◌,
}

-- The nearest natural number to a / b, to the even one of two as near.
unfoldable pub round_div : ℕ → ℕ → ℕ
round_div a b =
    let q = a / b in
    let r = a % b in if ltb (2 * r) b then q else if ltb b (2 * r) then q + 1 else q + q % 2

-- The scale `s`, a power of two, at which `a * s / b` has 53 bits, where a / b has at most 53.
unfoldable pub scale_up : ℕ → ℕ → ℕ → ℕ → ℕ
scale_up zero a b s = s
scale_up (suc fuel) a b s =
    let rest = scale_up fuel a b (2 * s) in if ltb (a * s) (b * 2 ^ 52) then rest else s

-- The scale at which `a / (b * s)` is below 2 ^ 53.
unfoldable pub scale_down : ℕ → ℕ → ℕ → ℕ → ℕ
scale_down zero a b s = s
scale_down (suc fuel) a b s =
    let rest = scale_down fuel a b (2 * s) in if ltb a (b * s * 2 ^ 53) then s else rest

-- `n as f64`, of a u64.
unfoldable pub as_f64 : ℕ → ℕ
as_f64 n = if ltb n (2 ^ 53) then n else let s = scale_down 11 n 1 1 in round_div n s * s

-- `(a / b).floor()` of two f64 with b > 0.
unfoldable pub floor_quotient : ℕ → ℕ → ℕ
floor_quotient a b =
    let down = scale_down 12 a b 1 in
    let up = scale_up 84 a b 1 in
    if ltb a (b * 2 ^ 53) then round_div (a * up) b / up else round_div a (b * down) * down

-- `(a as f64 / f64::from(b)).floor() as u64`: 0 / 0 is NaN, which casts to 0; the cast of a value
-- that is too large, and of infinity, is u64::MAX.
unfoldable pub float_div : ℕ → ℕ → ℕ
float_div a b =
    if b == 0
    then if a == 0 then 0 else two_64 - 1
    else if ltb (floor_quotient (as_f64 a) b) two_64
    then floor_quotient (as_f64 a) b
    else two_64 - 1

-- The next round and its time.
unfoldable pub next_round : ℕ → ℕ → ℕ → ℕ × ℕ
next_round now period genesis =
    if ltb now genesis
    then (1, genesis)
    else let next = add_u64 (float_div (now - genesis) period) 1 in
      (add_u64 next 1, add_u64 genesis (mul_u64 next period))

unfoldable pub current_round : ℕ → ℕ → ℕ → ℕ
unfolding next_round
current_round now period genesis =
    let next = (next_round now period genesis).0 in if leb next 1 then next else next - 1

unfoldable pub time_of_round : ℕ → ℕ → ℕ → ℕ
time_of_round period genesis round =
    if round == 0 then genesis else add_u64 genesis (mul_u64 (round - 1) period)
