-- ===== src/Prelude/Sort.antt =====
-- sort.SliceStable of the Go standard library: a stable sort by a `less` test.
pub mod Laws
pub mod Shuffle
use mathlib.Core.List.{Perm}
use mathlib.Core.List.Perm
use koperator.Prelude.Tests.{if◌then◌else◌, Bool-cases}
use koperator.Prelude.Lists.{keep, All}
use mathlib.Core.Path.{◌≡◌, refl, ap, ◌∙◌}
use mathlib.Core.Logic.{inl, inr}
use mathlib.Core.Bool.{Bool, true, false}
use mathlib.Core.List.{List, [], ◌∷◌}
use native.Mathlib.Omega.{arith}

module _ {ℓ} {A : Type ℓ} (less : A → A → Bool) where
  -- `x` stood in front of all of the list, so it goes in front of its equals.
  unfoldable pub insert : A → List A → List A
  insert x [] = x ∷ []
  insert x (y ∷ ys) = let rest = insert x ys in if less y x then y ∷ rest else x ∷ y ∷ ys

  unfoldable pub slice_stable : List A → List A
  unfolding insert
  slice_stable [] = []
  slice_stable (x ∷ xs) = insert x (slice_stable xs)

  -- Nothing later is less than something earlier.
  abbrev pub Sorted : List A → Type ℓ
  Sorted [] = Unit
  Sorted (x ∷ xs) = All (λ y. less y x ≡ false) xs × Sorted xs

  insert-perm : (x : A) (ys : List A) → Perm (insert x ys) (x ∷ ys)
  unfolding insert
  insert-perm x [] = Perm.refl (x ∷ [])
  insert-perm x (y ∷ ys) =
      elim (less y x) as (λ b. Perm (if b then y ∷ insert x ys else x ∷ y ∷ ys) (x ∷ y ∷ ys)) [
        | true ↦ Perm.trans (Perm.cons y (insert-perm x ys)) (Perm.swap x y ys)
        | false ↦ Perm.refl (x ∷ y ∷ ys)
      ]

  pub slice_stable-perm : (xs : List A) → Perm (slice_stable xs) xs
  unfolding slice_stable
  slice_stable-perm [] = Perm.refl []
  slice_stable-perm (x ∷ xs) =
      Perm.trans (insert-perm x (slice_stable xs)) (Perm.cons x (slice_stable-perm xs))

module _ {ℓ κ} {A : Type ℓ} (less : A → A → Bool) (P : A → Type κ) where
  insert-All : (x : A) (ys : List A) → P x → All P ys → All P (insert less x ys)
  unfolding insert
  insert-All x [] h hs = (h, tt)
  insert-All x (y ∷ ys) h hs =
      elim (less y x) as (λ b. All P (if b then y ∷ insert less x ys else x ∷ y ∷ ys)) [
        | true ↦ (hs.0, insert-All x ys h hs.1)
        | false ↦ (h, hs)
      ]

  -- What holds of all of a list holds of all of the sorted list.
  pub slice_stable-All : (xs : List A) → All P xs → All P (slice_stable less xs)
  unfolding slice_stable
  slice_stable-All [] h = tt
  slice_stable-All (x ∷ xs) h = insert-All x (slice_stable less xs) h.0 (slice_stable-All xs h.1)

-- A strict weak order, as sort.SliceStable wants it.
pub record IsOrder {ℓ} {A : Type ℓ} (less : A → A → Bool) : Type ℓ where
  pub asymmetric : (a b : A) → less a b ≡ true → less b a ≡ false
  pub transitive : (a b c : A) → less b a ≡ false → less c b ≡ false → less c a ≡ false

module _ {ℓ} {A : Type ℓ} (less : A → A → Bool) (o : IsOrder less) where
  -- What is at most a list's head is at most all of the list.
  pub All-trans :
      (x y : A) (ys : List A)
      → less y x ≡ false
      → All (λ z. less z y ≡ false) ys
      → All (λ z. less z x ≡ false) ys
  All-trans x y [] e h = tt
  All-trans x y (z ∷ ys) e h = (o.transitive x y z e h.0, All-trans x y ys e h.1)

  insert-Sorted : (x : A) (ys : List A) → Sorted less ys → Sorted less (insert less x ys)
  unfolding insert
  insert-Sorted x [] h = (tt, tt)
  insert-Sorted x (y ∷ ys) h = elim (Bool-cases (less y x)) [
    | inl e ↦ rw e (
      insert-All less (λ z. less z y ≡ false) x ys (o.asymmetric y x e) h.0,
      insert-Sorted x ys h.1,
    )
    | inr e ↦ rw e ((e, All-trans x y ys e h.0), h)
  ]

  -- The result is in order.
  pub slice_stable-Sorted : (xs : List A) → Sorted less (slice_stable less xs)
  unfolding slice_stable
  slice_stable-Sorted [] = tt
  slice_stable-Sorted (x ∷ xs) = insert-Sorted x (slice_stable less xs) (slice_stable-Sorted xs)

-- A class of elements, none of which is less than another, keeps its order.
module _ {ℓ} {A : Type ℓ} (less : A → A → Bool) (p : A → Bool)
    (tie : (a b : A) → p a ≡ true → p b ≡ true → less a b ≡ false) where
  keep-insert : (x : A) (ys : List A) → keep p (insert less x ys) ≡ keep p (x ∷ ys)
  unfolding insert
  keep-insert x [] = refl
  keep-insert x (y ∷ ys) = ground (arith, keep-insert x ys, tie y x)

  pub keep-slice_stable : (xs : List A) → keep p (slice_stable less xs) ≡ keep p xs
  unfolding slice_stable
  keep-slice_stable [] = refl
  keep-slice_stable (x ∷ xs) =
      keep-insert x (slice_stable less xs)
      ∙ ap (λ r. if p x then x ∷ r else r) (keep-slice_stable xs)
