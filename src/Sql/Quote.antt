-- ===== src/Sql/Quote.antt =====
-- internal/sql/quotename.go: identifiers and literals made safe for DDL. A text is the list of its
-- code points.
pub mod Names
pub mod Targets
mod Tests
use mssql_k8s_operator.Prelude.{
  ℕ, String, Bool, true, false, ◌&&◌, ◌||◌, List, [], ◌∷◌, ◌++◌, map, Option, none, some, ◌==◌,
  nat_eq, if◌then◌else◌, length, drop,
}
use Prim.Native.Char.{code}
use mathlib.Core.Option

abbrev pub Text : Type 0
Text = List ℕ

-- the code points of a literal
abbrev pub code_points : String → Text
code_points String.[] = []
code_points (String.◌∷◌ letter others) = code letter ∷ code_points others

-- `strings.ReplaceAll(s, old, new)` for an `old` of one character
unfoldable pub replace_all : ℕ → Text → Text → Text
replace_all old new [] = []
replace_all old new (c ∷ s) = (if c == old then new else c ∷ []) ++ replace_all old new s

unfoldable pub quote_name : Text → Text
quote_name name =
    let escaped = replace_all b']' (b']' ∷ b']' ∷ []) name in b'[' ∷ (escaped ++ b']' ∷ [])

unfoldable pub quote_string : Text → Text
quote_string value =
    let escaped = replace_all b'\'' (b'\'' ∷ b'\'' ∷ []) value in
    b'N' ∷ b'\'' ∷ (escaped ++ b'\'' ∷ [])

unfoldable pub has_prefix : Text → Text → Bool
has_prefix [] s = true
has_prefix (p ∷ ps) [] = false
has_prefix (p ∷ ps) (c ∷ s) = c == p && has_prefix ps s

-- `strings.SplitN(s, sep, 2)`: `none` where the result has one part, the whole text
unfoldable pub split_two : Text → Text → Option (Text × Text)
split_two sep [] = none
split_two sep (c ∷ s) =
    if has_prefix sep (c ∷ s)
    then some ([], drop (length sep) (c ∷ s))
    else Option.map (λ parts. (c ∷ parts.0, parts.1)) (split_two sep s)

abbrev pub text_eq : Text → Text → Bool
text_eq [] [] = true
text_eq [] (d ∷ t) = false
text_eq (c ∷ s) [] = false
text_eq (c ∷ s) (d ∷ t) = c == d && text_eq s t

-- the keys of the map `valid`
abbrev pub valid_permissions : List Text
valid_permissions =
    code_points "SELECT"
    ∷ code_points "INSERT"
    ∷ code_points "UPDATE"
    ∷ code_points "DELETE"
    ∷ code_points "EXECUTE"
    ∷ code_points "ALTER"
    ∷ code_points "CONTROL"
    ∷ code_points "REFERENCES"
    ∷ code_points "VIEW DEFINITION"
    ∷ code_points "CREATE TABLE"
    ∷ code_points "CREATE VIEW"
    ∷ code_points "CREATE PROCEDURE"
    ∷ code_points "CREATE FUNCTION"
    ∷ code_points "CREATE SCHEMA"
    ∷ []

unfoldable pub member : Text → List Text → Bool
member s [] = false
member s (t ∷ ts) = text_eq s t || member s ts

-- `upper` is `unicode.ToUpper`, which `strings.ToUpper` applies to each character
module _ (upper : ℕ → ℕ) where
  unfoldable pub quote_permission_target : Text → Text
  quote_permission_target target = elim (split_two (code_points "::") target) [
    | none ↦ map upper target
    | some (scope, name) ↦ elim (split_two (code_points ".") name) [
      | some (schema, object) ↦
          map upper scope ++ (code_points "::" ++ (quote_name schema ++ (b'.' ∷ quote_name object)))
      | none ↦ map upper scope ++ (code_points "::" ++ quote_name name)
    ]
  ]

  unfoldable pub is_valid_permission : Text → Bool
  is_valid_permission perm = member (map upper perm) valid_permissions
