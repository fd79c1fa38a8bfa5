-- ===== src/Prelude/Maps.antt =====
-- Go's maps from texts, where the program reads keys and never ranges over the map: the newest
-- entry of a key stands first.
use Prim.Native.String.{String}
use mathlib.Core.List.{List, [], ◌∷◌}
use mathlib.Core.Option.{Option, none, some}
use mssql_k8s_operator.Prelude.Tests.{if◌then◌else◌}
use mssql_k8s_operator.Prelude.Equality.{◌==◌, string_eq}

module _ {ℓ} {V : Type ℓ} where
  -- `v, ok := m[key]`
  abbrev pub lookup : String → List (String × V) → Option V
  lookup key [] = none
  lookup key ((name, value) ∷ entries) = if name == key then some value else lookup key entries

  -- `m[key]`, with the zero value for a missing key
  abbrev pub lookup_or : V → String → List (String × V) → V
  lookup_or zero_value key [] = zero_value
  lookup_or zero_value key ((name, value) ∷ entries) =
      if name == key then value else lookup_or zero_value key entries

  -- `m[key] = value`
  abbrev pub replace_entry : String → V → List (String × V) → List (String × V)
  replace_entry key value [] = (key, value) ∷ []
  replace_entry key value ((name, old) ∷ entries) =
      let rest = replace_entry key value entries in
      if name == key then (key, value) ∷ entries else (name, old) ∷ rest
