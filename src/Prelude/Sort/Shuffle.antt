-- ===== src/Prelude/Sort/Shuffle.antt =====
-- Sorting does not depend on the order in which distinct elements stand, as those of a Go map.
use Prim.Native.Nat.{suc}
use mathlib.Core.Path.{◌≡◌, refl, ap, ◌∙◌, sym}
use mathlib.Core.Logic.{◌⊎◌, inl, inr}
use mathlib.Core.Bool.{Bool, true, false}
use mathlib.Core.List.{List, [], ◌∷◌, map}
use native.Mathlib.Omega.{arith}
use koperator.Prelude.Tests.{if◌then◌else◌}
use koperator.Prelude.Lists.{All, length}
use koperator.Prelude.Sort.{insert, slice_stable, Sorted, IsOrder}
use koperator.Prelude.Sort.Laws.{insert-least}

-- The same elements in another order.
pub data Shuffle {ℓ} {A : Type ℓ} : List A → List A → Type ℓ where
  nil : Shuffle [] []
  cons : (x : A) {xs ys : List A} → Shuffle xs ys → Shuffle (x ∷ xs) (x ∷ ys)
  swap : (x y : A) (xs : List A) → Shuffle (x ∷ y ∷ xs) (y ∷ x ∷ xs)
  trans : {xs ys zs : List A} → Shuffle xs ys → Shuffle ys zs → Shuffle xs zs

pub same {ℓ} : {A : Type ℓ} (xs : List A) → Shuffle xs xs
same [] = nil
same (x ∷ xs) = cons x (same xs)

pub reversed {ℓ} : {A : Type ℓ} {xs ys : List A} → Shuffle xs ys → Shuffle ys xs
reversed nil = nil
reversed (cons x d) = cons x (reversed d)
reversed (swap x y xs) = swap y x xs
reversed (trans d e) = trans (reversed e) (reversed d)

pub map-Shuffle {ℓ κ} :
    {A : Type ℓ} {B : Type κ} (f : A → B) {xs ys : List A}
    → Shuffle xs ys
    → Shuffle (map f xs) (map f ys)
map-Shuffle f nil = nil
map-Shuffle f (cons x d) = cons (f x) (map-Shuffle f d)
map-Shuffle f (swap x y xs) = swap (f x) (f y) (map f xs)
map-Shuffle f (trans d e) = trans (map-Shuffle f d) (map-Shuffle f e)

pub length-Shuffle {ℓ} : {A : Type ℓ} {xs ys : List A} → Shuffle xs ys → length xs ≡ length ys
length-Shuffle nil = refl
length-Shuffle (cons x d) = ap suc (length-Shuffle d)
length-Shuffle (swap x y l) = refl
length-Shuffle (trans d e) = length-Shuffle d ∙ length-Shuffle e

module _ {ℓ} {A : Type ℓ} (less : A → A → Bool) where
  -- One of two elements stands before the other.
  abbrev pub Ordered : A → A → Type 0
  Ordered x y = (less x y ≡ true) ⊎ (less y x ≡ true)

  -- Any two elements are ordered.
  abbrev pub Apart : List A → Type ℓ
  Apart [] = Unit
  Apart (x ∷ xs) = All (Ordered x) xs × Apart xs

  insert-perm : (x : A) (ys : List A) → Shuffle (insert less x ys) (x ∷ ys)
  unfolding insert
  insert-perm x [] = same (x ∷ [])
  insert-perm x (y ∷ ys) =
      elim (less y x)
        as (λ b. Shuffle (if b then y ∷ insert less x ys else x ∷ y ∷ ys) (x ∷ y ∷ ys)) [
          | true ↦ trans (cons y (insert-perm x ys)) (swap y x ys)
          | false ↦ same (x ∷ y ∷ ys)
        ]

  -- A sorted list has the elements of the list.
  pub slice_stable-Shuffle : (xs : List A) → Shuffle (slice_stable less xs) xs
  unfolding slice_stable
  slice_stable-Shuffle [] = nil
  slice_stable-Shuffle (x ∷ xs) =
      trans (insert-perm x (slice_stable less xs)) (cons x (slice_stable-Shuffle xs))

module _ {ℓ κ} {A : Type ℓ} (P : A → Type κ) where
  -- What holds of all elements holds of them in any order.
  pub All-Shuffle : {xs ys : List A} → Shuffle xs ys → All P xs → All P ys
  All-Shuffle nil h = tt
  All-Shuffle (cons x d) h = (h.0, All-Shuffle d h.1)
  All-Shuffle (swap x y l) h = (h.1.0, (h.0, h.1.1))
  All-Shuffle (trans d e) h = All-Shuffle e (All-Shuffle d h)

module _ {ℓ} {A : Type ℓ} (less : A → A → Bool) (o : IsOrder less) where
  insert-swap :
      (x y : A) (l : List A)
      → less x y ≡ true
      → insert less x (insert less y l) ≡ insert less y (insert less x l)
  unfolding insert
  insert-swap x y [] h = ground (arith, o.asymmetric x y)
  insert-swap x y (z ∷ l) h =
      ground (arith, o.asymmetric x y, o.asymmetric z x, o.transitive x y z, insert-swap x y l)

  insert-swap_apart :
      (x y : A) (l : List A)
      → Ordered less x y
      → insert less x (insert less y l) ≡ insert less y (insert less x l)
  insert-swap_apart x y l (inl h) = insert-swap x y l h
  insert-swap_apart x y l (inr h) = sym (insert-swap y x l h)

  Ordered-sym : (x y : A) → Ordered less x y → Ordered less y x
  Ordered-sym x y (inl h) = inr h
  Ordered-sym x y (inr h) = inl h

  pub Apart-Shuffle : {xs ys : List A} → Shuffle xs ys → Apart less xs → Apart less ys
  Apart-Shuffle nil h = tt
  Apart-Shuffle (cons x d) h = (All-Shuffle (Ordered less x) d h.0, Apart-Shuffle d h.1)
  Apart-Shuffle (swap x y l) h = ((Ordered-sym x y h.0.0, h.1.0), (h.0.1, h.1.1))
  Apart-Shuffle (trans d e) h = Apart-Shuffle e (Apart-Shuffle d h)

  -- Sorting forgets the order, where no two elements tie.
  pub slice_stable-forgets :
      {xs ys : List A} → Shuffle xs ys → Apart less xs → slice_stable less xs ≡ slice_stable less ys
  unfolding slice_stable
  slice_stable-forgets nil h = refl
  slice_stable-forgets (cons x d) h = ap (insert less x) (slice_stable-forgets d h.1)
  slice_stable-forgets (swap x y l) h = insert-swap_apart x y (slice_stable less l) h.0.0
  slice_stable-forgets (trans d e) h =
      slice_stable-forgets d h ∙ slice_stable-forgets e (Apart-Shuffle d h)

  -- A list in order stays as it is.
  pub slice_stable-of_sorted : (xs : List A) → Sorted less xs → slice_stable less xs ≡ xs
  unfolding slice_stable
  slice_stable-of_sorted [] h = refl
  slice_stable-of_sorted (x ∷ xs) h =
      ap (insert less x) (slice_stable-of_sorted xs h.1) ∙ insert-least less x xs h.0
