-- ===== src/Prelude/Int.antt =====
-- Signed integers over the native numbers, for the int32 fields of the API objects.
use Prim.Native.Nat.{ℕ, zero, suc, ◌+◌, ◌<◌}
use mathlib.Core.Path.{◌≡◌}
use mathlib.Core.Bool.{Bool, true, false}
use mathlib.Core.Logic.{◌↔◌}
use native.Mathlib.Omega.{arith}
use emqx_operator.Prelude.Tests.{ltb, ◌==◌, if◌then◌else◌}

-- `negsuc n` is -(n + 1).
pub data ℤ : Type 0 where
  pos : ℕ → ℤ
  negsuc : ℕ → ℤ

infix 50 ◌==ℤ◌
abbrev pub ◌==ℤ◌ : ℤ → ℤ → Bool
pos a ==ℤ pos b = a == b
negsuc a ==ℤ negsuc b = a == b
_ ==ℤ _ = false

abbrev pub ltb_ℤ : ℤ → ℤ → Bool
ltb_ℤ (pos a) (pos b) = ltb a b
ltb_ℤ (negsuc a) (pos b) = true
ltb_ℤ (pos a) (negsuc b) = false
ltb_ℤ (negsuc a) (negsuc b) = ltb b a

-- `x > 0`
abbrev pub is_positive : ℤ → Bool
is_positive (pos a) = ltb 0 a
is_positive (negsuc a) = false

abbrev pub max_int32 : ℕ
max_int32 = 2147483647

-- `x++` on an int32.
unfoldable pub inc_int32 : ℤ → ℤ
inc_int32 (pos n) = if n == max_int32 then negsuc max_int32 else pos (n + 1)
inc_int32 (negsuc zero) = pos 0
inc_int32 (negsuc (suc n)) = negsuc n

-- `x - 1` on an int32.
unfoldable pub dec_int32 : ℤ → ℤ
dec_int32 (pos zero) = negsuc 0
dec_int32 (pos (suc n)) = pos n
dec_int32 (negsuc n) = if n == max_int32 then pos max_int32 else negsuc (n + 1)

pub ==ℤ_iff : (a b : ℤ) → ((a ==ℤ b) ≡ true) ↔ (a ≡ b)
==ℤ_iff a b = ground arith

pub inc_int32-pos : (n : ℕ) → n < max_int32 → inc_int32 (pos n) ≡ pos (n + 1)
unfolding inc_int32
inc_int32-pos n h = ground arith
