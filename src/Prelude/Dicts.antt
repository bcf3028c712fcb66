-- ===== src/Prelude/Dicts.antt =====
-- `BTreeMap<String, V>` as an association list: `get`, `contains_key` and `insert`. No theorem
-- depends on the order of the entries.
use Prim.Native.String.{String}
use mathlib.Core.Path.{◌≡◌, refl}
use mathlib.Core.Bool.{Bool, true, ◌&&◌, not}
use mathlib.Core.Option.{Option, none, some}
use mathlib.Core.List.{List, [], ◌∷◌}
use native.Mathlib.Omega.{arith}
use text.Mathlib.TextEquality.{eq_iff}
use x402_nockchain.Prelude.Tests.{◌==◌, string_eq, if◌then◌else◌}

abbrev pub Dict {ℓ} : Type ℓ → Type ℓ
Dict V = List (String × V)

module _ {ℓ} {V : Type ℓ} where
  -- An entry that is there keeps its place.
  unfoldable pub insert : String → V → Dict V → Dict V
  insert key value [] = (key, value) ∷ []
  insert key value ((k, v) ∷ rest) =
      if k == key then (key, value) ∷ rest else (k, v) ∷ insert key value rest

  -- `get`
  unfoldable pub lookup : String → Dict V → Option V
  lookup key [] = none
  lookup key ((k, v) ∷ rest) = if k == key then some v else lookup key rest

  pub lookup-insert :
      (key other : String) (value : V) (dict : Dict V)
      → lookup other (insert key value dict)
        ≡ (if key == other then some value else lookup other dict)
  unfolding insert lookup
  lookup-insert key other value [] = refl
  lookup-insert key other value ((k, v) ∷ rest) =
      ground
        (arith, lookup-insert key other value rest, eq_iff k key, eq_iff k other, eq_iff key other)

abbrev pub names : {V : Type 0} → Dict V → List String
names [] = []
names ((k, v) ∷ rest) = k ∷ names rest

abbrev pub is_absent : String → List String → Bool
is_absent name [] = true
is_absent name (x ∷ xs) = not (x == name) && is_absent name xs

-- No name stands in the list twice.
abbrev pub is_distinct : List String → Bool
is_distinct [] = true
is_distinct (x ∷ xs) = is_absent x xs && is_distinct xs
