-- ===== src/Webhook/Checks.antt =====
-- The errors of a validator, in the order in which it appends them, and the comparison of pointers
-- of database_webhook.go. A validator that returns nil returns the empty list.
use mssql_k8s_operator.Prelude.{
  inl, Bool-cases, ℕ, String, Bool, true, false, not, Option, none, some, List, [], ◌∷◌, ◌++◌, ◌==◌,
  string_eq, if◌then◌else◌, Comparable, ◌≡◌, refl, ◌≢◌, inl, inr, ◌↔◌, arith, eq_iff,
}

-- a step of a field.Path: Child or Index
pub data PathStep : Type 0 where
  child : String → PathStep
  index : ℕ → PathStep

-- what the package field builds, by the path of the field
pub data FieldError : Type 0 where
  required forbidden duplicate invalid : List PathStep → FieldError
  unexpected_object : FieldError  -- the old object has another type

abbrev pub FieldErrors : Type 0
FieldErrors = List FieldError

-- `if test { allErrs = append(allErrs, e) }`, for each test in turn
unfoldable pub errors_of : List (Bool × FieldError) → FieldErrors
errors_of [] = []
errors_of ((test, e) ∷ tests) = let rest = errors_of tests in if test then e ∷ rest else rest

-- `if len(allErrs) > 0 { return allErrs }`, and the next check otherwise
unfoldable pub or_then : FieldErrors → FieldErrors → FieldErrors
or_then [] next = next
or_then (e ∷ es) next = e ∷ es

unfoldable pub is_nil : {A : Type 0} → Option A → Bool
is_nil none = true
is_nil (some a) = false

-- stringPtrEqual, int32PtrEqual and boolPtrEqual
unfoldable pub ptr_equal : {A : Type 0} ⦃eq : Comparable A⦄ → Option A → Option A → Bool
ptr_equal none none = true
ptr_equal (some a) (some b) = a == b
ptr_equal _ _ = false

abbrev pub bool_value : Option Bool → Bool
bool_value none = false
bool_value (some b) = b

-- `if p == nil { p = &zero }`
abbrev pub default_to : {A : Type 0} → A → Option A → Option A
default_to zero_value none = some zero_value
default_to zero_value (some a) = some a

abbrev pub default_text : String → String → String
default_text zero_value text = if text == "" then zero_value else text

pub ptr_equal_iff :
    {A : Type 0} ⦃eq : Comparable A⦄ (a b : Option A) → (ptr_equal a b ≡ true) ↔ (a ≡ b)
unfolding ptr_equal
ptr_equal_iff none none = (λ _. refl, λ _. refl)
ptr_equal_iff {A} ⦃eq⦄ (some a) (some b) = ground (arith, eq.is_same_iff a b)
ptr_equal_iff none (some b) = ground arith
ptr_equal_iff (some a) none = ground arith

pub is_changed_iff : {A : Type 0} ⦃eq : Comparable A⦄ (a b : A) → (not (a == b) ≡ false) ↔ (a ≡ b)
is_changed_iff {A} ⦃eq⦄ a b = elim (Bool-cases (a == b)) [
  | inl e ↦ ground (arith, eq.is_same_iff a b, e)
  | inr e ↦ ground (arith, eq.is_same_iff a b, e)
]

pub is_ptr_changed_iff :
    {A : Type 0} ⦃eq : Comparable A⦄ (a b : Option A) → (not (ptr_equal a b) ≡ false) ↔ (a ≡ b)
is_ptr_changed_iff a b = ground (arith, ptr_equal_iff a b)

pub is_empty_iff : (s : String) → ((s == "") ≡ false) ↔ (s ≢ "")
is_empty_iff s = ground (arith, eq_iff s "")

-- The empty list of errors, one test at a time.
pub errors_of-last :
    {P : Type 0} (b : Bool) (e : FieldError) → (b ≡ false) ↔ P → (errors_of ((b, e) ∷ []) ≡ []) ↔ P
unfolding errors_of
errors_of-last b e hp = ground (arith, hp)

pub errors_of-cons :
    {P Q : Type 0} (b : Bool) (e : FieldError) (tests : List (Bool × FieldError))
    → (b ≡ false) ↔ P
    → (errors_of tests ≡ []) ↔ Q
    → (errors_of ((b, e) ∷ tests) ≡ []) ↔ (P × Q)
unfolding errors_of
errors_of-cons b e tests hp hq = ground (arith, hp, hq)

pub or_then_iff :
    {P Q : Type 0} (es next : FieldErrors)
    → (es ≡ []) ↔ P
    → (next ≡ []) ↔ Q
    → (or_then es next ≡ []) ↔ (P × Q)
unfolding or_then
or_then_iff es next hp hq = ground (arith, hp, hq)

pub append_iff :
    {P Q : Type 0} (es next : FieldErrors)
    → (es ≡ []) ↔ P
    → (next ≡ []) ↔ Q
    → (es ++ next ≡ []) ↔ (P × Q)
append_iff es next hp hq = ground (arith, hp, hq)

pub ruleset accept_rules = (
  errors_of-last, errors_of-cons, or_then_iff, append_iff, is_empty_iff, is_changed_iff,
  is_ptr_changed_iff,
)
