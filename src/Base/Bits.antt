-- ===== src/Base/Bits.antt =====
-- Masks on one byte as arithmetic. Two functions on bytes are compared at every byte by evaluation.
use Prim.Native.Nat.{ℕ, zero, suc, ◌+◌, ◌*◌, ◌/◌, ◌%◌, ◌<◌, bit_and, bit_or}
use mathlib.Core.Path.{◌≡◌, refl}
use mathlib.Core.Bool.{Bool, true, false}
use native.Mathlib.Omega.{arith}
use tith.Base.Tests.{◌==◌, if◌then◌else◌}

module _ (before after : ℕ → ℕ) where
  -- Whether the functions agree at each number below the bound.
  same_table : (bound : ℕ) → Bool
  same_table zero = true
  same_table (suc last) =
      let rest = same_table last in if before last == after last then rest else false

  same_table→eq :
      (bound : ℕ) → same_table bound ≡ true → (byte : ℕ) → byte < bound → before byte ≡ after byte
  unfolding same_table
  same_table→eq zero checked byte small = absurd (omega arith)
  same_table→eq (suc last) checked byte small =
      ground (arith, same_table→eq last (ground arith) byte)

pub low_bits : (b : ℕ) → b < 256 → bit_and b 0x7f ≡ b % 128
unfolding same_table
low_bits = same_table→eq _ _ 256 refl

pub top_bit : (b : ℕ) → b < 256 → bit_and b 0x80 ≡ b / 128 * 128
unfolding same_table
top_bit = same_table→eq _ _ 256 refl

pub set_top_bit : (b : ℕ) → b < 128 → bit_or b 0x80 ≡ b + 128
unfolding same_table
set_top_bit = same_table→eq _ _ 128 refl

pub bit_or-zero : (b : ℕ) → b < 128 → bit_or b 0 ≡ b
unfolding same_table
bit_or-zero = same_table→eq _ _ 128 refl
