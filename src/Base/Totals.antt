-- ===== src/Base/Totals.antt =====
-- Maps without a repeated key, as Go's are, and sums over their entries.
use Prim.Native.Nat.{ℕ, ◌+◌}
use Prim.Native.String.{String}
use mathlib.Core.Path.{◌≡◌, refl}
use mathlib.Core.Option.{Option, none, some}
use mathlib.Core.List.{[], ◌∷◌}
use native.Mathlib.Omega.{arith}
use text.Mathlib.TextEquality.{eq_iff}
use zzzproject.Base.Maps.{
  Map, lookup, insert, remove, lookup-insert, lookup-remove, map_values, lookup-map_values,
}

module _ {ℓ} {V : Type ℓ} where
  abbrev pub Unique : Map V → Type ℓ
  Unique [] = Unit
  Unique ((k, v) ∷ m) = (lookup k m ≡ none) × Unique m

  abbrev pub of_option : (V → ℕ) → Option V → ℕ
  of_option f none = 0
  of_option f (some v) = f v

  abbrev pub total : (V → ℕ) → Map V → ℕ
  total f [] = 0
  total f ((k, v) ∷ m) = f v + total f m

  pub insert-Unique : (k : String) (v : V) (m : Map V) → Unique m → Unique (insert k v m)
  unfolding insert lookup
  insert-Unique k v [] u = (refl, tt)
  insert-Unique k v ((j, w) ∷ m) u =
      ground (arith, insert-Unique k v m u.1, lookup-insert k j v m, eq_iff j k, eq_iff k j)

  pub remove-Unique : (k : String) (m : Map V) → Unique m → Unique (remove k m)
  unfolding remove
  remove-Unique k [] u = tt
  remove-Unique k ((j, w) ∷ m) u =
      ground (arith, remove-Unique k m u.1, lookup-remove k j m, eq_iff j k, eq_iff k j)

  pub total-insert :
      (f : V → ℕ) (k : String) (v : V) (m : Map V)
      → total f (insert k v m) + of_option f (lookup k m) ≡ total f m + f v
  unfolding insert lookup
  total-insert f k v [] = omega arith
  total-insert f k v ((j, w) ∷ m) = ground (arith, total-insert f k v m)

  pub remove_absent : (k : String) (m : Map V) → lookup k m ≡ none → remove k m ≡ m
  unfolding remove lookup
  remove_absent k [] h = refl
  remove_absent k ((j, w) ∷ m) h = ground (arith, remove_absent k m)

  pub total-remove :
      (f : V → ℕ) (k : String) (m : Map V)
      → Unique m
      → total f (remove k m) + of_option f (lookup k m) ≡ total f m
  unfolding remove lookup
  total-remove f k [] u = omega arith
  total-remove f k ((j, w) ∷ m) u =
      ground (arith, total-remove f k m u.1, remove_absent k m, eq_iff j k)

  pub map_values-Unique : (f : V → V) (m : Map V) → Unique m → Unique (map_values f m)
  unfolding map_values
  map_values-Unique f [] u = tt
  map_values-Unique f ((j, w) ∷ m) u =
      ground (arith, map_values-Unique f m u.1, lookup-map_values f j m)

  pub total-map_values :
      (g : V → ℕ) (f : V → V) (m : Map V)
      → ((v : V) → g (f v) ≡ g v)
      → total g (map_values f m) ≡ total g m
  unfolding map_values
  total-map_values g f [] h = refl
  total-map_values g f ((j, w) ∷ m) h = omega (arith, h w, total-map_values g f m h)
