-- ===== src/Common/Words.antt =====
-- Machine words: Rust's release build wraps u64 and u32 arithmetic.
use Prim.Native.Nat.{ℕ, ◌+◌, ◌-◌, ◌*◌, ◌%◌}

abbrev pub two_64 : ℕ
two_64 = 18446744073709551616

abbrev pub two_32 : ℕ
two_32 = 4294967296

abbrev pub add_u64 : ℕ → ℕ → ℕ
add_u64 a b = (a + b) % two_64

abbrev pub sub_u64 : ℕ → ℕ → ℕ
sub_u64 a b = (a + two_64 - b) % two_64

abbrev pub mul_u64 : ℕ → ℕ → ℕ
mul_u64 a b = (a * b) % two_64

abbrev pub add_u32 : ℕ → ℕ → ℕ
add_u32 a b = (a + b) % two_32
