-- ===== src/Prelude/Map.antt =====
-- Go maps with text keys, as association lists. The order of the list stands for the order in which
-- a `range` loop meets the entries.

use Prim.Native.String.{String}
use mathlib.Core.Path.{◌≡◌}
use mathlib.Core.Bool.{Bool, true, false}
use mathlib.Core.List.{List, [], ◌∷◌}
use mathlib.Core.Option.{Option, none, some}
use native.Mathlib.Omega.{arith}
use text.Mathlib.TextEquality.{eq_iff}
use ac_cli.Prelude.Tests.{◌==◌, string_eq, if◌then◌else◌}

module _ {ℓ} {V : Type ℓ} where
  -- The value under a key, if any.
  unfoldable pub lookup : String → List (String × V) → Option V
  lookup name [] = none
  lookup name ((other, value) ∷ rest) =
      let found = lookup name rest in if name == other then some value else found

  -- `m[name] = value`: an entry with the key is replaced in its place.
  unfoldable pub insert : String → V → List (String × V) → List (String × V)
  insert name value [] = (name, value) ∷ []
  insert name value (entry ∷ rest) =
      let later = insert name value rest in
      if name == entry.0 then (name, value) ∷ rest else entry ∷ later

  unfoldable pub delete : String → List (String × V) → List (String × V)
  delete name [] = []
  delete name (entry ∷ rest) =
      let kept = delete name rest in if name == entry.0 then kept else entry ∷ kept

  pub lookup-insert :
      (name asked : String) (value : V) (entries : List (String × V))
      → lookup asked (insert name value entries)
        ≡ (if name == asked then some value else lookup asked entries)
  unfolding lookup insert
  lookup-insert name asked value [] = ground (arith, eq_iff name asked, eq_iff asked name)
  lookup-insert name asked value ((other, old) ∷ rest) = ground (
    arith,
    eq_iff name asked,
    eq_iff asked name,
    eq_iff name other,
    eq_iff asked other,
    lookup-insert name asked value rest,
  )

  pub lookup-delete :
      (name asked : String) (entries : List (String × V))
      → lookup asked (delete name entries) ≡ (if name == asked then none else lookup asked entries)
  unfolding lookup delete
  lookup-delete name asked [] = ground arith
  lookup-delete name asked ((other, old) ∷ rest) = ground (
    arith,
    eq_iff name asked,
    eq_iff name other,
    eq_iff asked other,
    lookup-delete name asked rest,
  )

abbrev pub is_some {ℓ} : {A : Type ℓ} → Option A → Bool
is_some none = false
is_some (some a) = true

abbrev pub is_none {ℓ} : {A : Type ℓ} → Option A → Bool
is_none none = true
is_none (some a) = false
