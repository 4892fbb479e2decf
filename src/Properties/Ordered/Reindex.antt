-- ===== src/Properties/Ordered/Reindex.antt =====
-- Sort gives the keys the indexes of their alphabetical order.
use mathlib.Core.Path.{ap₂}
use mathlib.Core.Logic.{inl}
use koperator.Prelude.{
  ℕ, suc, String, ◌≡◌, refl, sym, ap, ◌∙◌, subst, ◌+◌, ◌<◌, ◌≤◌, true, false, List, [], ◌∷◌, map,
  arith, eq_iff, All, All-unmap, All-impl, is_some, length, length-map,
}
use koperator.Prelude.Strings.{less_string, less_string-IsOrder}
use koperator.Prelude.Dict.{Dict, lookup, insert, names, lookup-insert, names-insert, All-insert}
use koperator.Prelude.Dict.Distinct.{
  Distinct, lookup-Shuffle, values_by_name, value_of, names-present, distinct_keys, lookup-names,
}
use koperator.Prelude.Sort.{slice_stable, Sorted, slice_stable-All}
use koperator.Prelude.Sort.Laws.{map-slice_stable}
use koperator.Prelude.Sort.Shuffle.{
  Shuffle, reversed, length-Shuffle, map-Shuffle, Apart, Ordered, Apart-Shuffle, All-Shuffle,
  slice_stable-Shuffle, slice_stable-forgets, slice_stable-of_sorted,
}
use koperator.Properties.Types.{Property, KeyIndex, less_index, Properties}
use koperator.Properties.Store.{unsafe_keys, reindex, sort}
use koperator.Properties.Ordered.{Represents, order, less_index-IsOrder}

-- the keys with the numbers from n on
abbrev enumerate : ℕ → List String → List KeyIndex
enumerate n [] = []
enumerate n (k ∷ ks) = record { key = k; index = n } ∷ enumerate (suc n) ks

abbrev no_index : KeyIndex
no_index = record { key = ""; index = 0 }

lookup-reindex_other :
    (k : String) (ks : List String) (n : ℕ) (m : Dict KeyIndex)
    → All (Ordered less_string k) ks
    → lookup k (reindex ks n m) ≡ lookup k m
unfolding reindex
lookup-reindex_other k [] n m h = refl
lookup-reindex_other k (j ∷ ks) n m h =
    let apart = distinct_keys k j h.0 in
    lookup-reindex_other k ks (suc n) (insert j (record { key = j; index = n }) m) h.1
    ∙ lookup-insert j k (record { key = j; index = n }) m
    ∙ ground (arith, eq_iff j k, eq_iff k j)

values-reindex :
    (ks : List String) (n : ℕ) (m : Dict KeyIndex)
    → Apart less_string ks
    → map (λ k. value_of no_index k (reindex ks n m)) ks ≡ enumerate n ks
unfolding reindex
values-reindex [] n m h = refl
values-reindex (k ∷ ks) n m h =
    let here =
      lookup-reindex_other k ks (suc n) (insert k (record { key = k; index = n }) m) h.0
      ∙ lookup-insert k k (record { key = k; index = n }) m in
    ap₂ ◌∷◌ (ground (arith, eq_iff k k))
      (values-reindex ks (suc n) (insert k (record { key = k; index = n }) m) h.1)

-- Only keys that are there get an index.
names-reindex :
    (ks : List String) (n : ℕ) (m : Dict KeyIndex)
    → All (λ k. is_some (lookup k m) ≡ true) ks
    → names (reindex ks n m) ≡ names m
unfolding reindex
names-reindex [] n m h = refl
names-reindex (k ∷ ks) n m h =
    names-reindex ks (suc n) (insert k (record { key = k; index = n }) m) (
      All-impl (λ j. is_some (lookup j m) ≡ true)
        (λ j. is_some (lookup j (insert k (record { key = k; index = n }) m)) ≡ true) ks
        (λ j e. ground (arith, lookup-insert k j (record { key = k; index = n }) m)) h.1)
    ∙ names-insert k (record { key = k; index = n }) m h.0

All-reindex :
    (P : String × KeyIndex → Type 0) (ks : List String) (n : ℕ) (m : Dict KeyIndex)
    → ((k : String) (i : ℕ) → i < n + length ks → P (k, record { key = k; index = i }))
    → All P m
    → All P (reindex ks n m)
unfolding reindex
All-reindex P [] n m step h = h
All-reindex P (k ∷ ks) n m step h =
    All-reindex P ks (suc n) (insert k (record { key = k; index = n }) m)
      (λ j i lt. step j i (ground arith))
      (All-insert P k (record { key = k; index = n }) m (step k n (ground arith)) h)

enumerate-above : (a n : ℕ) (ks : List String) → a < n → All (λ i. a < i.index) (enumerate n ks)
enumerate-above a n [] h = tt
enumerate-above a n (k ∷ ks) h = (h, enumerate-above a (suc n) ks (ground arith))

enumerate-Sorted : (n : ℕ) (ks : List String) → Sorted less_index (enumerate n ks)
enumerate-Sorted n [] = tt
enumerate-Sorted n (k ∷ ks) = (
  All-impl (λ i. n < i.index) (λ i. less_index i (record { key = k; index = n }) ≡ false)
      (enumerate (suc n) ks) (λ i lt. ground arith) (enumerate-above n (suc n) ks (ground arith)),
  enumerate-Sorted (suc n) ks,
)

enumerate-Apart : (n : ℕ) (ks : List String) → Apart less_index (enumerate n ks)
enumerate-Apart n [] = tt
enumerate-Apart n (k ∷ ks) = (
  All-impl (λ i. n < i.index) (λ i. Ordered less_index (record { key = k; index = n }) i)
      (enumerate (suc n) ks) (λ i lt. inl (ground arith))
      (enumerate-above n (suc n) ks (ground arith)),
  enumerate-Apart (suc n) ks,
)

keys-enumerate : (n : ℕ) (ks : List String) → map (λ i. i.key) (enumerate n ks) ≡ ks
keys-enumerate n [] = refl
keys-enumerate n (k ∷ ks) = ap (λ r. k ∷ r) (keys-enumerate (suc n) ks)

enumerate-below :
    (b n : ℕ) (ks : List String) → n + length ks ≤ b → All (λ i. i.index < b) (enumerate n ks)
enumerate-below b n [] h = tt
enumerate-below b n (k ∷ ks) h = (ground arith, enumerate-below b (suc n) ks (ground arith))

names-labelled :
    (m : Dict KeyIndex) → All (λ e. e.1.key ≡ e.0) m → map (λ i. i.key) (map (λ e. e.1) m) ≡ names m
names-labelled [] h = refl
names-labelled (e ∷ m) h = ap₂ ◌∷◌ h.0 (names-labelled m h.1)

length-names {ℓ κ} :
    {V : Type ℓ} {W : Type κ} (m : Dict V) (n : Dict W)
    → length (names m) ≡ length (names n)
    → length m ≡ length n
length-names m n h = sym (length-map (λ e. e.0) m) ∙ h ∙ length-map (λ e. e.0) n

-- the specification: the properties in the order of their keys
unfoldable pub sort_entries : Dict Property → Dict Property
sort_entries d = slice_stable (λ a b. less_string a.0 b.0) d

module _ (p : Properties) (d : Dict Property) (r : Represents p d) where
  sorted : List String
  sorted = slice_stable less_string (names p.keys)

  renewed : Dict KeyIndex
  renewed = reindex sorted 0 p.keys

  names-Shuffle : Shuffle (names p.keys) (names d)
  unfolding unsafe_keys
  names-Shuffle =
      subst (λ ks. Shuffle ks (names d)) (names-labelled p.keys r.labelled)
        (subst (Shuffle (map (λ i. i.key) (map (λ e. e.1) p.keys))) r.in_order (
          map-Shuffle (λ i. i.key)
            (reversed (slice_stable-Shuffle less_index (map (λ e. e.1) p.keys)))))

  sorted_lem : sorted ≡ names (sort_entries d)
  unfolding sorted sort_entries
  sorted_lem =
      slice_stable-forgets less_string less_string-IsOrder names-Shuffle r.distinct
      ∙ sym (map-slice_stable less_string (λ e. e.0) d)

  pub Distinct-entries : Distinct d
  Distinct-entries = Apart-Shuffle less_string less_string-IsOrder names-Shuffle r.distinct

  names-renewed : names renewed ≡ names p.keys
  unfolding sorted renewed
  names-renewed = names-reindex sorted 0 p.keys (
      slice_stable-All less_string (λ k. is_some (lookup k p.keys) ≡ true) (names p.keys)
        (names-present p.keys))

  Distinct-renewed : Distinct renewed
  Distinct-renewed = subst (Apart less_string) (sym names-renewed) r.distinct

  sorted-Shuffle : Shuffle (names p.keys) sorted
  unfolding sorted
  sorted-Shuffle = reversed (slice_stable-Shuffle less_string (names p.keys))

  Apart-sorted : Apart less_string sorted
  Apart-sorted = Apart-Shuffle less_string less_string-IsOrder sorted-Shuffle r.distinct

  -- The new indexes are those of the sorted keys.
  renewed-Shuffle : Shuffle (enumerate 0 sorted) (map (λ e. e.1) renewed)
  unfolding renewed
  renewed-Shuffle =
      subst (λ is. Shuffle is (map (λ e. e.1) renewed))
        (values-reindex sorted 0 p.keys Apart-sorted)
        (subst (Shuffle (map (λ k. value_of no_index k renewed) sorted))
          (ap (map (λ k. value_of no_index k renewed)) (sym names-renewed)
            ∙ sym (values_by_name no_index renewed Distinct-renewed))
          (map-Shuffle (λ k. value_of no_index k renewed) (reversed sorted-Shuffle)))

  order-renewed : order (map (λ e. e.1) renewed) ≡ sorted
  order-renewed =
      ap (map (λ i. i.key)) (
        sym (
          slice_stable-forgets less_index less_index-IsOrder renewed-Shuffle
            (enumerate-Apart 0 sorted))
        ∙ slice_stable-of_sorted less_index less_index-IsOrder (enumerate 0 sorted)
            (enumerate-Sorted 0 sorted))
      ∙ keys-enumerate 0 sorted

  pub length-entries : length p.keys ≡ length d
  length-entries = length-names p.keys d (length-Shuffle names-Shuffle)

  length_sorted : 0 + length sorted ≤ length p.keys
  unfolding sorted
  length_sorted =
      let same = length-Shuffle (slice_stable-Shuffle less_string (names p.keys)) in
      ground (arith, length-map (λ e. e.0) p.keys)

  -- Sort puts the properties in the order of their keys.
  pub sort-Represents : Represents (sort p) (sort_entries d)
  unfolding sort unsafe_keys sort_entries sorted renewed
  sort-Represents = record {
    in_order = order-renewed ∙ sorted_lem;
    content = λ k.
        r.content k
        ∙ lookup-Shuffle k (reversed (slice_stable-Shuffle (λ a b. less_string a.0 b.0) d))
            Distinct-entries;
    domain = λ k. lookup-names k renewed p.keys names-renewed ∙ r.domain k;
    labelled = All-reindex (λ e. e.1.key ≡ e.0) sorted 0 p.keys (λ k i h. refl) r.labelled;
    named = slice_stable-All (λ a b. less_string a.0 b.0) (λ e. e.1.key ≡ e.0) d r.named;
    below =
        All-unmap (λ e. e.1) (λ i. i.index < length p.keys) renewed
          (All-Shuffle (λ i. i.index < length p.keys) renewed-Shuffle
            (enumerate-below (length p.keys) 0 sorted length_sorted));
    apart = Apart-Shuffle less_index less_index-IsOrder renewed-Shuffle (enumerate-Apart 0 sorted);
    distinct = Distinct-renewed;
  }
