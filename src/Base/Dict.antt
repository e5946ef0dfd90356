-- ===== src/Base/Dict.antt =====
-- Go's `map[string]V` as an association list. Where the code ranges over a map, the statements
-- hold for every order of the entries.
use Prim.Native.String.{String}
use mathlib.Core.Path.{◌≡◌, refl}
use mathlib.Core.Option.{Option, none, some}
use mathlib.Core.List.{List, [], ◌∷◌}
use native.Mathlib.Omega.{arith}
use text.Mathlib.Text.{◌==◌}
use text.Mathlib.TextEquality.{eq_iff}
use accessgate.Base.Tests.{if◌then◌else◌}

abbrev pub Dict {ℓ} : Type ℓ → Type ℓ
Dict V = List (String × V)

module _ {ℓ} {V : Type ℓ} where
  unfoldable pub lookup : String → Dict V → Option V
  lookup key [] = none
  lookup key ((name, value) ∷ others) =
      let rest = lookup key others in if name == key then some value else rest

  -- m[key] = value
  unfoldable pub insert : String → V → Dict V → Dict V
  insert key value [] = (key, value) ∷ []
  insert key value ((name, old) ∷ others) =
      let rest = insert key value others in
      if name == key then (key, value) ∷ others else (name, old) ∷ rest

  -- for key, value := range extra { m[key] = value }
  unfoldable pub insert_all : Dict V → Dict V → Dict V
  unfolding insert
  insert_all [] m = m
  insert_all ((key, value) ∷ extra) m = insert_all extra (insert key value m)

  pub lookup-insert :
      (key asked : String) (value : V) (m : Dict V)
      → lookup asked (insert key value m) ≡ (if key == asked then some value else lookup asked m)
  unfolding lookup insert
  lookup-insert key asked value [] = refl
  lookup-insert key asked value ((name, old) ∷ others) =
      let below = lookup-insert key asked value others in
      ground (arith, below, eq_iff name asked, eq_iff name key, eq_iff key asked)
