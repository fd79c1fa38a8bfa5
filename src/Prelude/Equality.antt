-- ===== src/Prelude/Equality.antt =====
-- Equality tests as instances: Go's `==` on numbers, texts and Booleans.
use Prim.Native.Nat.{ℕ, compare, Ordering}
use Prim.Native.String.{String}
use text.Mathlib.TextEquality.{eq_iff}
use mathlib.Core.Path.{◌≡◌}
use mathlib.Core.Logic.{◌↔◌}
use mathlib.Core.Bool.{Bool, true, false}
use native.Mathlib.Omega.{arith}
use text.Mathlib.Text.{◌==◌ as str_eq}

-- The types that Go compares with `==`, as far as the program does.
pub record Comparable {ℓ} (Value : Type ℓ) : Type ℓ where
  pub is_same : Value → Value → Bool
  pub is_same_iff : (v w : Value) → (is_same v w ≡ true) ↔ (v ≡ w)

infix 50 ◌==◌
module _ {ℓ} {Value : Type ℓ} ⦃comparable : Comparable Value⦄ where
  abbrev pub ◌==◌ : Value → Value → Bool
  ◌==◌ = comparable.is_same

abbrev pub nat_beq : ℕ → ℕ → Bool
nat_beq a b = elim (compare a b) [ Ordering.eq ↦ true | _ ↦ false ]

pub nat_beq_iff : (a b : ℕ) → (nat_beq a b ≡ true) ↔ (a ≡ b)
nat_beq_iff a b = ground arith

abbrev pub bool_beq : Bool → Bool → Bool
bool_beq true b = b
bool_beq false true = false
bool_beq false false = true

pub bool_beq_iff : (a b : Bool) → (bool_beq a b ≡ true) ↔ (a ≡ b)
bool_beq_iff a b = ground arith

instance abbrev pub nat_eq : Comparable ℕ
nat_eq = record { is_same = nat_beq; is_same_iff = nat_beq_iff }

instance abbrev pub bool_eq : Comparable Bool
bool_eq = record { is_same = bool_beq; is_same_iff = bool_beq_iff }

instance abbrev pub string_eq : Comparable String
string_eq = record { is_same = str_eq; is_same_iff = eq_iff }
