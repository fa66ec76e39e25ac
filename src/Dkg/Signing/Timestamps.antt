-- ===== src/Dkg/Signing/Timestamps.antt =====
-- The timestamp in a signed message determines the time: src/dkg/actions_signing.rs.
use drand_rs.Common.{
  Bytes, Option, [], arith, if◌then◌else◌, none, some, ℕ, ◌%◌, ◌*◌, ◌+◌, ◌<◌, ◌==◌, ◌∷◌, ◌≡◌,
  add_u64, ap, sym, two_32, two_64, ◌∙◌,
}
use drand_rs.Common.Int.{negsuc, pos, ℤ}
use drand_rs.Dkg.Packet.{Timestamp}
use drand_rs.Dkg.Signing.{byte_of, enc_timestamp, pattern_of}

abbrev u64_of : ℕ → ℕ → ℕ → ℕ → ℕ → ℕ → ℕ → ℕ → ℕ
u64_of a b c d e f g h =
    a * 72057594037927936
    + b * 281474976710656
    + c * 1099511627776
    + d * 4294967296
    + e * 16777216
    + f * 65536
    + g * 256
    + h

-- What a reader of the Go encoding makes of the bytes: the seconds since the year 1, and the
-- nanoseconds, as bit patterns.
pub decode : Bytes → Option (ℕ × ℕ)
decode (v ∷ a ∷ b ∷ c ∷ d ∷ e ∷ f ∷ g ∷ h ∷ i ∷ j ∷ k ∷ l ∷ y ∷ z ∷ []) =
    if v == 1 then some (u64_of a b c d e f g h, i * 16777216 + j * 65536 + k * 256 + l) else none
decode _ = none

split_u64 :
    (x : ℕ)
    → x < 18446744073709551616
    → u64_of
        (byte_of x 72057594037927936)
        (byte_of x 281474976710656)
        (byte_of x 1099511627776)
        (byte_of x 4294967296)
        (byte_of x 16777216)
        (byte_of x 65536)
        (byte_of x 256)
        (byte_of x 1)
      ≡ x
split_u64 x h = omega arith

split_u32 :
    (x : ℕ)
    → x < 4294967296
    → byte_of x 16777216 * 16777216 + byte_of x 65536 * 65536 + byte_of x 256 * 256 + byte_of x 1
      ≡ x
split_u32 x h = omega arith

-- The range of an integer of `half` 2 ^ (w - 1).
abbrev pub InRange : ℕ → ℤ → Type 0
InRange half (pos n) = n < half
InRange half (negsuc n) = n < half

-- The 15 bytes hold the seconds since the year 1, wrapped to an i64, and the nanoseconds.
decode-enc_timestamp :
    (t : Timestamp)
    → pattern_of 4294967296 t.nanos < 4294967296
    → decode (enc_timestamp t)
      ≡ some (
        (pattern_of 18446744073709551616 t.seconds + 62135596800) % 18446744073709551616,
        pattern_of 4294967296 t.nanos,
      )
unfolding decode enc_timestamp
decode-enc_timestamp t small = rw (
  split_u64 (add_u64 (pattern_of two_64 t.seconds) 62135596800) (omega arith),
  split_u32 (pattern_of two_32 t.nanos) small,
)

pattern_of_inj64 :
    (a b : ℤ)
    → InRange 9223372036854775808 a
    → InRange 9223372036854775808 b
    → (pattern_of 18446744073709551616 a + 62135596800) % 18446744073709551616
      ≡ (pattern_of 18446744073709551616 b + 62135596800) % 18446744073709551616
    → a ≡ b
pattern_of_inj64 (pos m) (pos n) p q e = ap pos (omega arith)
pattern_of_inj64 (pos m) (negsuc n) p q e = absurd (omega arith)
pattern_of_inj64 (negsuc m) (pos n) p q e = absurd (omega arith)
pattern_of_inj64 (negsuc m) (negsuc n) p q e = ap negsuc (omega arith)

pattern_of_inj32 :
    (a b : ℤ)
    → InRange 2147483648 a
    → InRange 2147483648 b
    → pattern_of 4294967296 a ≡ pattern_of 4294967296 b
    → a ≡ b
pattern_of_inj32 (pos m) (pos n) p q e = ap pos (omega arith)
pattern_of_inj32 (pos m) (negsuc n) p q e = absurd (omega arith)
pattern_of_inj32 (negsuc m) (pos n) p q e = absurd (omega arith)
pattern_of_inj32 (negsuc m) (negsuc n) p q e = ap negsuc (omega arith)

pattern_of-lt32 : (a : ℤ) → pattern_of 4294967296 a < 4294967296
pattern_of-lt32 (pos n) = omega arith
pattern_of-lt32 (negsuc n) = omega arith

-- Two times with the same 15 bytes are the same time, at all i64 seconds and i32 nanoseconds:
-- a signed message cannot be read as one with another time.
pub enc_timestamp_injective :
    (t u : Timestamp)
    → InRange 9223372036854775808 t.seconds
    → InRange 9223372036854775808 u.seconds
    → InRange 2147483648 t.nanos
    → InRange 2147483648 u.nanos
    → enc_timestamp t ≡ enc_timestamp u
    → t ≡ u
enc_timestamp_injective t u ts us tn un e =
    let d =
      sym (decode-enc_timestamp t (pattern_of-lt32 t.nanos))
      ∙ (ap decode e ∙ decode-enc_timestamp u (pattern_of-lt32 u.nanos)) in
    let s = pattern_of_inj64 t.seconds u.seconds ts us (ground (arith, d)) in
    let n = pattern_of_inj32 t.nanos u.nanos tn un (ground (arith, d)) in
    λ i. record { seconds = s i; nanos = n i }
