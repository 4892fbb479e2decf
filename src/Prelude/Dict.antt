-- ===== src/Prelude/Dict.antt =====
-- Go's map with string keys, as an association list: a missing key gives `none`.
pub mod Distinct
pub mod Pigeonhole
use Prim.Native.String.{String}
use mathlib.Core.Path.{◌≡◌, refl, ap}
use mathlib.Core.Option.{Option, none, some}
use mathlib.Core.List.{List, [], ◌∷◌, ◌++◌, map}
use mathlib.Core.Bool.{Bool, true, false, not}
use native.Mathlib.Omega.{arith}
use text.Mathlib.Text.{◌==◌}
use text.Mathlib.TextEquality.{eq_iff}
use koperator.Prelude.Tests.{if◌then◌else◌, is_some}
use koperator.Prelude.Lists.{keep, All}

abbrev pub Dict {ℓ} : Type ℓ → Type ℓ
Dict V = List (String × V)

module _ {ℓ} {V : Type ℓ} where
  -- value, ok := m[key]
  unfoldable pub lookup : String → Dict V → Option V
  lookup key [] = none
  lookup key (entry ∷ rest) =
      let deeper = lookup key rest in if entry.0 == key then some entry.1 else deeper

  -- m[key] = value
  unfoldable pub insert : String → V → Dict V → Dict V
  insert key value [] = (key, value) ∷ []
  insert key value (entry ∷ rest) =
      let deeper = insert key value rest in
      if entry.0 == key then (key, value) ∷ rest else entry ∷ deeper

  -- delete(m, key)
  unfoldable pub remove : String → Dict V → Dict V
  remove key m = keep (λ e. not (e.0 == key)) m

  -- the keys, in the order of the list
  abbrev pub names : Dict V → List String
  names m = map (λ e. e.0) m

  pub lookup-insert :
      (key other : String) (value : V) (m : Dict V)
      → lookup other (insert key value m) ≡ (if key == other then some value else lookup other m)
  unfolding lookup insert
  lookup-insert key other value [] = refl
  lookup-insert key other value (entry ∷ rest) =
      let ih = lookup-insert key other value rest in
      ground (arith, eq_iff entry.0 other, eq_iff entry.0 key, eq_iff key other)

  pub lookup-remove :
      (key other : String) (m : Dict V)
      → lookup other (remove key m) ≡ (if key == other then none else lookup other m)
  unfolding lookup remove
  lookup-remove key other [] = ground arith
  lookup-remove key other (entry ∷ rest) =
      let ih = lookup-remove key other rest in
      ground (arith, eq_iff entry.0 other, eq_iff entry.0 key, eq_iff key other)

  -- A new key goes behind the others.
  pub insert-new :
      (key : String) (value : V) (m : Dict V)
      → lookup key m ≡ none
      → insert key value m ≡ m ++ ((key, value) ∷ [])
  unfolding lookup insert
  insert-new key value [] h = refl
  insert-new key value (entry ∷ rest) h = ground (arith, insert-new key value rest)

  -- A key that is there keeps its place.
  pub names-insert :
      (key : String) (value : V) (m : Dict V)
      → is_some (lookup key m) ≡ true
      → names (insert key value m) ≡ names m
  unfolding lookup insert
  names-insert key value [] h = ground arith
  names-insert key value (entry ∷ rest) h =
      ground (arith, names-insert key value rest, eq_iff entry.0 key)

  pub All-insert {κ} :
      (P : String × V → Type κ) (key : String) (value : V) (m : Dict V)
      → P (key, value)
      → All P m
      → All P (insert key value m)
  unfolding insert
  All-insert P key value [] h hs = (h, tt)
  All-insert P key value (entry ∷ rest) h hs =
      elim (entry.0 == key)
        as (λ b. All P (if b then (key, value) ∷ rest else entry ∷ insert key value rest)) [
          | true ↦ (h, hs.1)
          | false ↦ (hs.0, All-insert P key value rest h hs.1)
        ]
