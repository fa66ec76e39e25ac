-- ===== src/Chain/Time/Floats.antt =====
-- The quotient of two f64: src/chain/time.rs.
use native.Mathlib.Nat.{
  div-add-mod', mod-lt, mul-le-mul_right, div-eq_of_lt-le, pow-succ', lt_of_mul-lt-mul_right,
  zero-div, zero-mod, zero-mul, div-le_self,
}
use drand_rs.Chain.Time.{as_f64, float_div, floor_quotient, round_div, scale_up}
use drand_rs.Common.{
  Bool-cases, ap, arith, inl, inr, ltb, ltb→ge, suc, sym, two_32, zero, ℕ, ◌%◌, ◌*◌, ◌+◌, ◌/◌, ◌<◌,
  ◌^◌, ◌≡◌, ◌≤◌, ◌⊎◌, false, lt→ltb, refl, true, two_64, ◌-◌, ◌==◌,
}

scale_up-reaches :
    (fuel a b s : ℕ) → b * 2 ^ 52 ≤ a * s * 2 ^ fuel → b * 2 ^ 52 ≤ a * scale_up fuel a b s
unfolding scale_up
scale_up-reaches zero a b s h = omega (arith, h)
scale_up-reaches (suc fuel) a b s h = elim (Bool-cases (ltb (a * s) (b * 2 ^ 52))) [
  | inl small ↦
      let h' : b * 2 ^ 52 ≤ a * (2 * s) * 2 ^ fuel =
        omega (arith, h, pow-succ' 2 fuel, ap (λ (t : ℕ). a * s * t) (pow-succ' 2 fuel)) in
      rw small (scale_up-reaches fuel a b (2 * s) h')
  | inr large ↦ rw large (ltb→ge (a * s) (b * 2 ^ 52) large)
]

-- A quotient is rounded up by one where its remainder is half of the divisor or more.
round_div-near :
    (a b : ℕ) → (round_div a b ≡ a / b) ⊎ ((round_div a b ≡ a / b + 1) × (b ≤ 2 * (a % b)))
unfolding round_div
round_div-near a b = ground arith

-- a * s / b with the two divisions by b carried out.
record Split (a b s up left : ℕ) : Type 0 where
  quotient : a * s / b ≡ a / b * s + up
  remainder : a * s % b ≡ left
  part : a % b * s ≡ up * b + left
  top : a % b * s + s ≤ b * s

split : (a b s : ℕ) → 0 < b → 0 < s → Split a b s (a % b * s / b) (a % b * s % b)
split a b s hb hs =
    let up = a % b * s / b in
    let left = a % b * s % b in
    let part : a % b * s ≡ up * b + left = sym (div-add-mod' (a % b * s) b) in
    let less : left < b = mod-lt (a % b * s) hb in
    let whole : a * s ≡ (a / b * s + up) * b + left =
      omega (arith, part, ap (λ (t : ℕ). t * s) (div-add-mod' a b)) in
    let quotient : a * s / b ≡ a / b * s + up =
      div-eq_of_lt-le {k = a / b * s + up} b (omega (arith, whole)) (omega (arith, whole, less)) in
    record {
      quotient = quotient;
      remainder = omega (arith, whole, div-add-mod' (a * s) b, ap (λ (t : ℕ). t * b) quotient);
      part = part;
      top = omega (arith, mul-le-mul_right {m = suc (a % b)} {n = b} s (mod-lt a hb));
    }

-- The rounding of a quotient does not reach the next whole number.
round_div-floor : (a b s : ℕ) → 0 < b → 0 < s → b < 2 * s → round_div (a * s) b / s ≡ a / b
round_div-floor a b s hb hs h =
    let up = a % b * s / b in
    let left = a % b * s % b in
    let parts = split a b s hb hs in
    elim (round_div-near (a * s) b) [
      | inl e ↦
          let below : up < s =
            lt_of_mul-lt-mul_right b {m = up} {n = s} (omega (arith, parts.part, parts.top)) in
          div-eq_of_lt-le {k = a / b} s (omega (arith, e, parts.quotient))
            (omega (arith, e, parts.quotient, below))
      | inr (e, half) ↦
          let below : suc up < s =
            lt_of_mul-lt-mul_right b {m = suc up} {n = s}
              (omega (arith, parts.part, parts.top, parts.remainder, half)) in
          div-eq_of_lt-le {k = a / b} s (omega (arith, e, parts.quotient))
            (omega (arith, e, parts.quotient, below))
    ]

round_div-zero : (b : ℕ) → 0 < b → round_div 0 b ≡ 0
unfolding round_div
round_div-zero b hb =
    let small : ltb 0 b ≡ true = lt→ltb 0 b hb in rw (zero-div b, zero-mod b, small) refl

floor_quotient-exact : (a b : ℕ) → a < 2 ^ 53 → 0 < b → b < two_32 → floor_quotient a b ≡ a / b
unfolding floor_quotient
floor_quotient-exact zero b ha hb hb' =
    let e : round_div 0 b ≡ 0 = round_div-zero b hb in
    let small : ltb 0 (b * 2 ^ 53) ≡ true = lt→ltb 0 (b * 2 ^ 53) (omega (arith, hb)) in
    rw (small, zero-mul (scale_up 84 0 b 1), e, zero-div (scale_up 84 0 b 1), zero-div b) refl
floor_quotient-exact (suc a') b ha hb hb' =
    let a = suc a' in
    let s = scale_up 84 a b 1 in
    let large : b * 2 ^ 52 ≤ a * s = scale_up-reaches 84 a b 1 (omega (arith, hb')) in
    let small : ltb a (b * 2 ^ 53) ≡ true = lt→ltb a (b * 2 ^ 53) (omega (arith, ha, hb)) in
    let double : b < 2 * s =
      omega (arith, large, hb, mul-le-mul_right {m = a} {n = 2 ^ 53 - 1} s (omega (arith, ha))) in
    rw small (round_div-floor a b s hb (omega (arith, hb, double)) double)

-- Below 2 ^ 53 the quotient of the two floats, rounded down, is that of the integers.
pub float_div-exact : (a b : ℕ) → a < 2 ^ 53 → 0 < b → b < two_32 → float_div a b ≡ a / b
unfolding float_div as_f64
float_div-exact a b ha hb hb' =
    let e = floor_quotient-exact a b ha hb hb' in
    let small : ltb a (2 ^ 53) ≡ true = lt→ltb a (2 ^ 53) ha in
    let fits : ltb (a / b) two_64 ≡ true =
      lt→ltb (a / b) two_64 (omega (arith, ha, div-le_self a b)) in
    let whole : (b == 0) ≡ false = ground arith in rw (whole, small, e, fits) refl
