-- ===== src/Base/Integers.antt =====
-- Signed integers over the native numbers.
use Prim.Native.Nat.{ℕ}
use mathlib.Core.Bool.{Bool, true, false}
use mathlib.Core.Path.{◌≡◌, refl}
use native.Mathlib.Omega.{arith}
use my_tech_pulse.Base.Tests.{leb, ◌==◌}

-- `negsuc n` is -n - 1.
pub data ℤ : Type 0 where
  pos negsuc : ℕ → ℤ

unfoldable pub leb_int : ℤ → ℤ → Bool
leb_int (pos m) (pos n) = leb m n
leb_int (pos m) (negsuc n) = false
leb_int (negsuc m) (pos n) = true
leb_int (negsuc m) (negsuc n) = leb n m

unfoldable pub int_eq : ℤ → ℤ → Bool
int_eq (pos m) (pos n) = m == n
int_eq (pos m) (negsuc n) = false
int_eq (negsuc m) (pos n) = false
int_eq (negsuc m) (negsuc n) = m == n

pub leb_int_total : (m n : ℤ) → leb_int m n ≡ false → leb_int n m ≡ true
unfolding leb_int
leb_int_total (pos m) (pos n) e = ground arith
leb_int_total (pos m) (negsuc n) e = refl
leb_int_total (negsuc m) (pos n) e = cc
leb_int_total (negsuc m) (negsuc n) e = ground arith

pub int_eq_sym : (m n : ℤ) → int_eq m n ≡ int_eq n m
unfolding int_eq
int_eq_sym (pos m) (pos n) = ground arith
int_eq_sym (pos m) (negsuc n) = refl
int_eq_sym (negsuc m) (pos n) = refl
int_eq_sym (negsuc m) (negsuc n) = ground arith

pub leb_int_antisym : (m n : ℤ) → leb_int m n ≡ true → leb_int n m ≡ true → int_eq m n ≡ true
unfolding leb_int int_eq
leb_int_antisym (pos m) (pos n) p q = ground arith
leb_int_antisym (pos m) (negsuc n) p q = cc
leb_int_antisym (negsuc m) (pos n) p q = cc
leb_int_antisym (negsuc m) (negsuc n) p q = ground arith
