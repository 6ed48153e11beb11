-- ===== src/Prelude/Words.antt =====
-- The C integers of the program: unsigned words as natural numbers, and signed results.
use Prim.Native.Nat.{ℕ, ◌+◌, ◌-◌, ◌%◌, ◌^◌}
use ns_3_dce.Prelude.Tests.{ltb, if◌then◌else◌}

-- The size of `uint32_t`, and of `size_t` on the 64-bit targets.
abbrev pub u32_mod : ℕ
u32_mod = 2 ^ 32

abbrev pub u64_mod : ℕ
u64_mod = 2 ^ 64

-- `uint32_t` increment and decrement.
abbrev pub inc32 : ℕ → ℕ
inc32 n = (n + 1) % u32_mod

abbrev pub dec32 : ℕ → ℕ
dec32 n = (n + u32_mod - 1) % u32_mod

-- `size_t` sum and difference.
abbrev pub add64 : ℕ → ℕ → ℕ
add64 a b = (a + b) % u64_mod

abbrev pub sub64 : ℕ → ℕ → ℕ
sub64 a b = (a + u64_mod - b) % u64_mod

-- `negsuc n` is -(n + 1).
pub data ℤ : Type 0 where
  pos : ℕ → ℤ
  negsuc : ℕ → ℤ

-- The `-1` of a failed call.
abbrev pub minus_one : ℤ
minus_one = negsuc 0

-- A `size_t` returned as an `ssize_t`.
abbrev pub to_ssize : ℕ → ℤ
to_ssize n = if ltb n (2 ^ 63) then pos n else negsuc (2 ^ 64 - 1 - n)
