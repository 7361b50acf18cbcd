-- ===== src/Prelude/Int.antt =====
-- Go's `int` over the native numbers, as far as the program compares one.
use Prim.Native.Nat.{ℕ, compare, Ordering}
use mathlib.Core.Bool.{Bool, true, false}

-- `negsuc n` is -(n + 1).
pub data ℤ : Type 0 where
  pos : ℕ → ℤ
  negsuc : ℕ → ℤ

infix 50 ◌≤?◌
-- the test `a <= b`
abbrev pub ◌≤?◌ : ℤ → ℤ → Bool
pos a ≤? pos b = elim (compare a b) [ Ordering.gt ↦ false | _ ↦ true ]
pos a ≤? negsuc b = false
negsuc a ≤? pos b = true
negsuc a ≤? negsuc b = elim (compare b a) [ Ordering.gt ↦ false | _ ↦ true ]
