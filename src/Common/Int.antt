-- ===== src/Common/Int.antt =====
-- Signed integers over the native numbers, and the int64 arithmetic of Go, which wraps around.
use Prim.Native.Nat.{ℕ, suc, ◌+◌, ◌-◌, ◌%◌, ◌^◌, ◌≤◌, ◌<◌}
use mathlib.Core.Path.{◌≡◌}
use mathlib.Core.Bool.{Bool, true}
use mathlib.Core.Logic.{◌↔◌}
use native.Mathlib.Omega.{arith}
use token_control.Common.Tests.{ltb, leb, eqb, if◌then◌else◌}

-- `negsuc n` is -(n + 1).
pub data ℤ : Type 0 where
  pos : ℕ → ℤ
  negsuc : ℕ → ℤ

abbrev pub pos_part : ℤ → ℕ
pos_part (pos n) = n
pos_part (negsuc n) = 0

abbrev pub neg_part : ℤ → ℕ
neg_part (pos n) = 0
neg_part (negsuc n) = suc n

-- a - b, as an integer.
abbrev pub sub_ℕ : ℕ → ℕ → ℤ
sub_ℕ a b = if leb b a then pos (a - b) else negsuc (b - a - 1)

infix 50 ◌≤ℤ◌
abbrev pub ◌≤ℤ◌ : ℤ → ℤ → Type 0
a ≤ℤ b = pos_part a + neg_part b ≤ pos_part b + neg_part a

abbrev pub ltb_ℤ : ℤ → ℤ → Bool
ltb_ℤ a b = ltb (pos_part a + neg_part b) (pos_part b + neg_part a)

abbrev pub leb_ℤ : ℤ → ℤ → Bool
leb_ℤ a b = leb (pos_part a + neg_part b) (pos_part b + neg_part a)

-- The int64 with the bits of an integer: 2 ^ 63 is the first number that wraps.
abbrev pub int64_limit : ℕ
int64_limit = 2 ^ 63

abbrev pub signed : ℕ → ℤ
signed bits = if ltb bits (2 ^ 63) then pos bits else negsuc (2 ^ 64 - bits - 1)

abbrev pub bits_of : ℤ → ℕ
bits_of (pos n) = n % 2 ^ 64
bits_of (negsuc n) = 2 ^ 64 - n % 2 ^ 64 - 1

-- `x + y` and `x - y` on int64.
unfoldable pub add64 : ℤ → ℤ → ℤ
add64 x y = signed ((bits_of x + bits_of y) % 2 ^ 64)

unfoldable pub sub64 : ℤ → ℤ → ℤ
sub64 x y = signed ((bits_of x + 2 ^ 64 - bits_of y) % 2 ^ 64)

pub add64_exact : (m n : ℕ) → m + n < 2 ^ 63 → add64 (pos m) (pos n) ≡ pos (m + n)
unfolding add64
add64_exact m n h = ground arith

pub add64_wraps :
    (m n : ℕ)
    → m < 2 ^ 63
    → n < 2 ^ 63
    → 2 ^ 63 ≤ m + n
    → add64 (pos m) (pos n) ≡ negsuc (2 ^ 64 - (m + n) - 1)
unfolding add64
add64_wraps m n hm hn h = ground arith

pub sub64_exact : (m n : ℕ) → m < 2 ^ 63 → n < 2 ^ 63 → sub64 (pos m) (pos n) ≡ sub_ℕ m n
unfolding sub64
sub64_exact m n hm hn = ground arith

leb_ℤ_iff : (a b : ℤ) → (leb_ℤ a b ≡ true) ↔ (a ≤ℤ b)
leb_ℤ_iff a b = ground arith

abbrev pub eqb_ℤ : ℤ → ℤ → Bool
eqb_ℤ a b = eqb (pos_part a + neg_part b) (pos_part b + neg_part a)
