-- ===== src/Prelude/Words.antt =====
-- Machine integers: the moduli of the unsigned types, and a single bit of a flag word.
use Prim.Native.Nat.{ℕ, ◌/◌, ◌%◌, ◌^◌}
use mathlib.Core.Bool.{Bool}
use blockfs.Prelude.Tests.{◌==◌}

abbrev pub u32 : ℕ
u32 = 4294967296

abbrev pub u64 : ℕ
u64 = 18446744073709551616

-- Whether bit k of a word is set: `flags & (1 << k)`.
abbrev pub bit : ℕ → ℕ → Bool
bit k w = (w / 2 ^ k) % 2 == 1
