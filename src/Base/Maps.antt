-- ===== src/Base/Maps.antt =====
-- Go's maps with text keys, as association lists. A nil map and an empty one are the same list:
-- reading either finds nothing, and the code allocates a map before it writes to it. A `range` loop
-- visits the entries in the order of the list; Go leaves that order open.
use Prim.Native.String.{String}
use mathlib.Core.Path.{◌≡◌, refl}
use mathlib.Core.Bool.{Bool, true}
use mathlib.Core.Option.{Option, none, some}
use mathlib.Core.List.{List, [], ◌∷◌}
use native.Mathlib.Omega.{arith}
use text.Mathlib.Text.{◌==◌}
use text.Mathlib.TextEquality.{eq_iff}
use zzzproject.Base.Tests.{if◌then◌else◌}

abbrev pub Map {ℓ} : Type ℓ → Type ℓ
Map V = List (String × V)

module _ {ℓ} {V : Type ℓ} where
  -- m[k], with the presence flag.
  unfoldable pub lookup : String → Map V → Option V
  lookup k [] = none
  lookup k ((j, v) ∷ m) = if j == k then some v else lookup k m

  -- m[k] = v
  unfoldable pub insert : String → V → Map V → Map V
  insert k v [] = (k, v) ∷ []
  insert k v ((name, w) ∷ rest) =
      let later = insert k v rest in if name == k then (k, v) ∷ rest else (name, w) ∷ later

  -- delete(m, k)
  unfoldable pub remove : String → Map V → Map V
  remove k [] = []
  remove k ((j, w) ∷ m) = let rest = remove k m in if j == k then rest else (j, w) ∷ rest

  -- `for k, v := range m { if keep... }`: the entries that pass the test.
  unfoldable pub retain : (String → V → Bool) → Map V → Map V
  retain p [] = []
  retain p ((j, w) ∷ m) = let rest = retain p m in if p j w then (j, w) ∷ rest else rest

  -- An insertion is read back at its key, and no other key reads anything new.
  pub lookup-insert :
      (k other : String) (v : V) (m : Map V)
      → lookup other (insert k v m) ≡ (if k == other then some v else lookup other m)
  unfolding lookup insert
  lookup-insert k other v [] = refl
  lookup-insert k other v ((name, w) ∷ rest) =
      let later = lookup-insert k other v rest in
      ground (arith, later, eq_iff name k, eq_iff name other, eq_iff k other)

  pub lookup-remove :
      (k j : String) (m : Map V) → lookup j (remove k m) ≡ (if k == j then none else lookup j m)
  unfolding lookup remove
  lookup-remove k j [] = ground arith
  lookup-remove k j ((i, w) ∷ m) =
      ground (arith, eq_iff k j, eq_iff i k, eq_iff i j, lookup-remove k j m)

  -- An entry that passes the test stays, and what stays passes it.
  pub lookup-retain_kept :
      (p : String → V → Bool) (k : String) (m : Map V) {v : V}
      → lookup k m ≡ some v
      → p k v ≡ true
      → lookup k (retain p m) ≡ some v
  unfolding lookup retain
  lookup-retain_kept p k [] h t = h
  lookup-retain_kept p k ((j, w) ∷ m) {v} h t =
      ground (arith, eq_iff j k, lookup-retain_kept p k m {v = v})

  pub lookup-retain_test :
      (p : String → V → Bool) (k : String) (m : Map V) {v : V}
      → lookup k (retain p m) ≡ some v
      → p k v ≡ true
  unfolding lookup retain
  lookup-retain_test p k [] h = cc
  lookup-retain_test p k ((j, w) ∷ m) {v} h =
      ground (arith, eq_iff j k, lookup-retain_test p k m {v = v})

  -- The map with every value changed.
  unfoldable pub map_values : (V → V) → Map V → Map V
  map_values f [] = []
  map_values f ((j, w) ∷ m) = (j, f w) ∷ map_values f m

  abbrev pub apply_to : (V → V) → Option V → Option V
  apply_to f none = none
  apply_to f (some v) = some (f v)

  pub lookup-map_values :
      (f : V → V) (k : String) (m : Map V) → lookup k (map_values f m) ≡ apply_to f (lookup k m)
  unfolding lookup map_values
  lookup-map_values f k [] = refl
  lookup-map_values f k ((j, w) ∷ m) = ground (arith, lookup-map_values f k m)
