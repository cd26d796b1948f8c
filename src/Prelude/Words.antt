-- ===== src/Prelude/Words.antt =====
-- Machine integers as their bit patterns: Uint64, and int32 in two's complement.
use Prim.Native.Nat.{ℕ, ◌+◌, ◌%◌, ◌^◌}
use mathlib.Core.Bool.{Bool}
use squirrel_communicator.Prelude.Tests.{ltb}

-- a + b on Uint64
abbrev pub add_u64 : ℕ → ℕ → ℕ
add_u64 a b = (a + b) % 2 ^ 64

-- a + b on int32, wrapping as an atomic `fetch_add` does
abbrev pub add_i32 : ℕ → ℕ → ℕ
add_i32 a b = (a + b) % 2 ^ 32

-- a < b on int32: moving both by 2^31 turns the signed order into the unsigned one.
abbrev pub ltb_i32 : ℕ → ℕ → Bool
ltb_i32 a b = ltb ((a + 2 ^ 31) % 2 ^ 32) ((b + 2 ^ 31) % 2 ^ 32)
