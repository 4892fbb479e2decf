-- ===== src/Prelude/Sort/Laws.antt =====
-- A stable sort and what else is done to a list: a last element, a filter, a map, another order.
use koperator.Prelude.Tests.{if◌then◌else◌, Bool-cases}
use koperator.Prelude.Lists.{keep, All, All-keep}
use koperator.Prelude.Sort.{insert, slice_stable, slice_stable-Sorted, Sorted, IsOrder, All-trans}
use mathlib.Core.Path.{◌≡◌, refl, ap, ◌∙◌}
use mathlib.Core.Logic.{inl, inr}
use mathlib.Core.Bool.{Bool, false}
use mathlib.Core.List.{List, [], ◌∷◌, ◌++◌, map}
use native.Mathlib.Omega.{arith}

module _ {ℓ} {A : Type ℓ} (less : A → A → Bool) where
  insert-append :
      (x k : A) (ys : List A)
      → less k x ≡ false
      → insert less x (ys ++ (k ∷ [])) ≡ insert less x ys ++ (k ∷ [])
  unfolding insert
  insert-append x k [] h = ground arith
  insert-append x k (y ∷ ys) h = ground (arith, insert-append x k ys h)

  -- What is less than nothing stays last.
  pub slice_stable-append :
      (k : A) (xs : List A)
      → All (λ x. less k x ≡ false) xs
      → slice_stable less (xs ++ (k ∷ [])) ≡ slice_stable less xs ++ (k ∷ [])
  unfolding slice_stable insert
  slice_stable-append k [] h = refl
  slice_stable-append k (x ∷ xs) h =
      ap (insert less x) (slice_stable-append k xs h.1)
      ∙ insert-append x k (slice_stable less xs) h.0

module _ {ℓ} {A : Type ℓ} (less : A → A → Bool) where
  pub insert-least :
      (x : A) (ys : List A) → All (λ y. less y x ≡ false) ys → insert less x ys ≡ x ∷ ys
  unfolding insert
  insert-least x [] h = refl
  insert-least x (y ∷ ys) h = rw h.0 refl

module _ {ℓ} {A : Type ℓ} (less : A → A → Bool) (o : IsOrder less) (p : A → Bool) where
  keep-insert_order :
      (x : A) (ys : List A)
      → Sorted less ys
      → keep p (insert less x ys) ≡ (if p x then insert less x (keep p ys) else keep p ys)
  unfolding insert
  keep-insert_order x [] h = refl
  keep-insert_order x (y ∷ ys) h = elim (Bool-cases (less y x)) [
    | inl e ↦ rw e (ground (arith, keep-insert_order x ys h.1))
    | inr e ↦
        let least =
          insert-least less x (keep p ys)
            (All-keep (λ z. less z x ≡ false) p ys (All-trans less o x y ys e h.0)) in
        rw e (ground (arith, insert-least less x (y ∷ keep p ys), least))
  ]

  -- Sorting what a filter leaves is to filter what is sorted.
  pub slice_stable-keep :
      (xs : List A) → slice_stable less (keep p xs) ≡ keep p (slice_stable less xs)
  unfolding slice_stable
  slice_stable-keep [] = refl
  slice_stable-keep (x ∷ xs) =
      let step = keep-insert_order x (slice_stable less xs) (slice_stable-Sorted less o xs) in
      ground (arith, slice_stable-keep xs)

module _ {ℓ κ} {A : Type ℓ} {B : Type κ} (less : B → B → Bool) (f : A → B) where
  map-insert :
      (x : A) (ys : List A)
      → map f (insert (λ a b. less (f a) (f b)) x ys) ≡ insert less (f x) (map f ys)
  unfolding insert
  map-insert x [] = refl
  map-insert x (y ∷ ys) = ground (arith, map-insert x ys)

  -- Elements are sorted by what a map makes of them.
  pub map-slice_stable :
      (xs : List A)
      → map f (slice_stable (λ a b. less (f a) (f b)) xs) ≡ slice_stable less (map f xs)
  unfolding slice_stable
  map-slice_stable [] = refl
  map-slice_stable (x ∷ xs) =
      map-insert x (slice_stable (λ a b. less (f a) (f b)) xs)
      ∙ ap (insert less (f x)) (map-slice_stable xs)
