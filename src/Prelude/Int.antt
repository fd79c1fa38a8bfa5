-- ===== src/Prelude/Int.antt =====
-- Go's signed integers as unbounded ones, over the native numbers: `negsuc n` is -(n + 1).
use Prim.Native.Nat.{ℕ, zero, suc, ◌+◌, ◌≤◌}
use mathlib.Core.Path.{◌≡◌}
use mathlib.Core.Logic.{◌↔◌}
use mathlib.Core.Bool.{Bool, true, false}
use native.Mathlib.Omega.{arith}
use mssql_k8s_operator.Prelude.Tests
use mssql_k8s_operator.Prelude.Tests.{if◌then◌else◌}
use mssql_k8s_operator.Prelude.Equality.{Comparable, nat_beq}

pub data ℤ : Type 0 where
  pos : ℕ → ℤ
  negsuc : ℕ → ℤ

abbrev pub pos_part : ℤ → ℕ
pos_part (pos n) = n
pos_part (negsuc n) = 0

abbrev pub neg_part : ℤ → ℕ
neg_part (pos n) = 0
neg_part (negsuc n) = suc n

infix 50 ◌≤ℤ◌
abbrev pub ◌≤ℤ◌ : ℤ → ℤ → Type 0
a ≤ℤ b = pos_part a + neg_part b ≤ pos_part b + neg_part a

abbrev pub ltb : ℤ → ℤ → Bool
ltb a b = Tests.ltb (pos_part a + neg_part b) (pos_part b + neg_part a)

-- `now - start < d`, for times in ℕ and a signed duration
abbrev pub within : ℕ → ℕ → ℤ → Bool
within now start d = Tests.ltb (now + neg_part d) (start + pos_part d)

abbrev pub int_beq : ℤ → ℤ → Bool
int_beq (pos m) (pos n) = nat_beq m n
int_beq (negsuc m) (negsuc n) = nat_beq m n
int_beq _ _ = false

pub int_beq_iff : (a b : ℤ) → (int_beq a b ≡ true) ↔ (a ≡ b)
int_beq_iff (pos m) (pos n) = ground arith
int_beq_iff (pos m) (negsuc n) = ground arith
int_beq_iff (negsuc m) (pos n) = ground arith
int_beq_iff (negsuc m) (negsuc n) = ground arith

instance abbrev pub int_eq : Comparable ℤ
int_eq = record { is_same = int_beq; is_same_iff = int_beq_iff }

-- `n++` on an int32, which wraps
abbrev pub succ_int32 : ℤ → ℤ
succ_int32 (pos n) = if nat_beq n 2147483647 then negsuc 2147483647 else pos (suc n)
succ_int32 (negsuc zero) = pos 0
succ_int32 (negsuc (suc n)) = negsuc n

abbrev pub leb : ℤ → ℤ → Bool
leb a b = Tests.leb (pos_part a + neg_part b) (pos_part b + neg_part a)
