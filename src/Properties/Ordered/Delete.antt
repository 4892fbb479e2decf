-- ===== src/Properties/Ordered/Delete.antt =====
-- Delete drops a property and keeps the order of the rest.
use koperator.Prelude.{
  String, ◌≡◌, refl, sym, ap, ◌∙◌, subst, ◌<◌, Bool, not, none, List, [], ◌∷◌, map, arith, str_eq,
  keep, All, All-keep, All-impl, if◌then◌else◌, if_both,
}
use koperator.Prelude.Dict.{Dict, remove, lookup-remove}
use koperator.Prelude.Dict.Distinct.{Distinct-remove}
use koperator.Prelude.Sort.{slice_stable}
use koperator.Prelude.Sort.Laws.{slice_stable-keep}
use koperator.Prelude.Sort.Shuffle.{Apart, Ordered}
use koperator.Properties.Types.{Property, less_index, Properties}
use koperator.Properties.Store.{unsafe_keys, delete}
use koperator.Properties.Ordered.{Represents, order, less_index-IsOrder}

module _ {ℓ κ} {A : Type ℓ} {B : Type κ} (f : A → B) (p : A → Bool) (q : B → Bool) where
  -- A filter of the results, where all elements pass as their results do.
  map-keep : (xs : List A) → All (λ x. p x ≡ q (f x)) xs → map f (keep p xs) ≡ keep q (map f xs)
  map-keep [] h = refl
  map-keep (x ∷ xs) h = ground (arith, map-keep xs h.1, h.0)

map-keep_all {ℓ κ} :
    {A : Type ℓ} {B : Type κ} (f : A → B) (q : B → Bool) (xs : List A)
    → map f (keep (λ x. q (f x)) xs) ≡ keep q (map f xs)
map-keep_all f q [] = refl
map-keep_all f q (x ∷ xs) = ground (arith, map-keep_all f q xs)

Apart-keep {ℓ} :
    {A : Type ℓ} (less : A → A → Bool) (p : A → Bool) (xs : List A)
    → Apart less xs
    → Apart less (keep p xs)
Apart-keep less p [] h = tt
Apart-keep less p (x ∷ xs) h =
    let ih : Apart less (keep p xs) = Apart-keep less p xs h.1 in
    if_both (Apart less) (p x) (x ∷ keep p xs) (keep p xs) (All-keep (Ordered less x) p xs h.0, ih)
      ih

module _ (key : String) (p : Properties) (d : Dict Property) (r : Represents p d) where
  other : String → Bool
  other k = not (str_eq k key)

  remove-indexes :
      map (λ e. e.1) (remove key p.keys) ≡ keep (λ i. other i.key) (map (λ e. e.1) p.keys)
  unfolding remove other
  remove-indexes =
      map-keep (λ e. e.1) (λ e. not (str_eq e.0 key)) (λ i. other i.key) p.keys
        (All-impl (λ e. e.1.key ≡ e.0) (λ e. not (str_eq e.0 key) ≡ other e.1.key) p.keys
          (λ e h. ap other (sym h)) r.labelled)

  -- The list without the property.
  pub delete-Represents : Represents (delete key p) (remove key d)
  unfolding delete remove unsafe_keys other
  delete-Represents = record {
    in_order =
        ap order remove-indexes
        ∙ ap (map (λ i. i.key)) (
            slice_stable-keep less_index less_index-IsOrder (λ i. other i.key)
              (map (λ e. e.1) p.keys))
        ∙ map-keep_all (λ i. i.key) other (slice_stable less_index (map (λ e. e.1) p.keys))
        ∙ ap (keep other) r.in_order
        ∙ sym (map-keep_all (λ e. e.0) other d);
    content = λ k.
        lookup-remove key k p.properties
        ∙ ap (λ o. if str_eq key k then none else o) (r.content k)
        ∙ sym (lookup-remove key k d);
    domain = λ k.
        rw (lookup-remove key k p.keys, lookup-remove key k p.properties)
          (ground (arith, r.domain k));
    labelled = All-keep (λ e. e.1.key ≡ e.0) (λ e. not (str_eq e.0 key)) p.keys r.labelled;
    named = All-keep (λ e. e.1.key ≡ e.0) (λ e. not (str_eq e.0 key)) d r.named;
    below = All-keep (λ e. e.1.index < p.next_key_index) (λ e. not (str_eq e.0 key)) p.keys r.below;
    apart =
        subst (Apart less_index) (sym remove-indexes)
          (Apart-keep less_index (λ i. other i.key) (map (λ e. e.1) p.keys) r.apart);
    distinct = Distinct-remove key p.keys r.distinct;
  }
