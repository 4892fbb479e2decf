-- ===== src/Properties/Ordered.antt =====
-- What a Properties object stands for: properties in an order. `Represents` relates the two maps and
-- the counter to that list; Put, Delete and Get keep to it.
pub mod Delete
pub mod Reindex
use koperator.Prelude.{
  ℕ, suc, String, ◌≡◌, refl, sym, ap, ◌∙◌, subst, ◌+◌, ◌<◌, Bool, true, false, not, Option, none,
  some, List, [], ◌∷◌, ◌++◌, map, arith, str_eq, eq_iff, keep, All, All-keep, All-append, All-map,
  All-impl, map-append, length, if◌then◌else◌, is_some, Option-cases, inl, inr, ltb,
}
use koperator.Prelude.Dict.{
  Dict, lookup, insert, remove, names, lookup-insert, lookup-remove, insert-new, names-insert,
  All-insert,
}
use koperator.Prelude.Dict.Distinct.{Distinct, Distinct-insert, Distinct-remove, Apart-append}
use koperator.Prelude.Sort.{slice_stable, IsOrder}
use koperator.Prelude.Sort.Laws.{slice_stable-append, slice_stable-keep, map-slice_stable}
use koperator.Prelude.Sort.Shuffle.{Apart, Ordered}
use koperator.Properties.Types.{Property, KeyIndex, less_index, Properties}
use koperator.Properties.Store.{new_properties, get, unsafe_keys, put, delete}

-- the indexes, as the map has them
abbrev pub indexes : Properties → List KeyIndex
indexes p = map (λ e. e.1) p.keys

pub record Represents (p : Properties) (d : Dict Property) : Type 0 where
  -- the keys stand in the order of the list
  pub in_order : unsafe_keys p ≡ names d
  pub content : (key : String) → lookup key p.properties ≡ lookup key d
  -- both maps have the same keys
  pub domain : (key : String) → is_some (lookup key p.keys) ≡ is_some (lookup key p.properties)
  pub labelled : All (λ e. e.1.key ≡ e.0) p.keys
  pub named : All (λ e. e.1.key ≡ e.0) d
  -- every index is below the next one
  pub below : All (λ e. e.1.index < p.next_key_index) p.keys
  pub apart : Apart less_index (indexes p)
  pub distinct : Distinct p.keys

pub less_index-IsOrder : IsOrder less_index
less_index-IsOrder = record {
  asymmetric = λ i j h. ground arith;
  transitive = λ i j k h h'. ground arith;
}

-- keyIndexList in order, as keys
abbrev pub order : List KeyIndex → List String
order is = map (λ i. i.key) (slice_stable less_index is)

pub new_properties-Represents : Represents new_properties []
unfolding new_properties unsafe_keys slice_stable lookup
new_properties-Represents = record {
  in_order = refl;
  content = λ key. refl;
  domain = λ key. refl;
  labelled = tt;
  named = tt;
  below = tt;
  apart = tt;
  distinct = tt;
}

order-append :
    (k : KeyIndex) (is : List KeyIndex)
    → All (λ i. less_index k i ≡ false) is
    → order (is ++ (k ∷ [])) ≡ order is ++ (k.key ∷ [])
order-append k is h =
    ap (map (λ i. i.key)) (slice_stable-append less_index k is h)
    ∙ map-append (λ i. i.key) (slice_stable less_index is) (k ∷ [])

module _ (q : Property) (p : Properties) (d : Dict Property) (r : Represents p d) where
  new_index : KeyIndex
  new_index = record { key = q.key; index = p.next_key_index }

  put-content :
      (key : String) → lookup key (insert q.key q p.properties) ≡ lookup key (insert q.key q d)
  put-content key =
      lookup-insert q.key key q p.properties
      ∙ ap (λ o. if str_eq q.key key then some q else o) (r.content key)
      ∙ sym (lookup-insert q.key key q d)

  put-keys_new : lookup q.key p.properties ≡ none → lookup q.key p.keys ≡ none
  put-keys_new e =
      let both : is_some (lookup q.key p.keys) ≡ false = r.domain q.key ∙ ap is_some e in
      elim (Option-cases (lookup q.key p.keys)) [ inl f ↦ f | inr (i, f) ↦ absurd (ground arith) ]

  put-indexes_new :
      lookup q.key p.properties ≡ none
      → map (λ e. e.1) (insert q.key new_index p.keys) ≡ indexes p ++ (new_index ∷ [])
  put-indexes_new e =
      ap (map (λ e. e.1)) (insert-new q.key new_index p.keys (put-keys_new e))
      ∙ map-append (λ e. e.1) p.keys ((q.key, new_index) ∷ [])

  put-names_new :
      lookup q.key p.properties ≡ none → names (insert q.key q d) ≡ names d ++ (q.key ∷ [])
  put-names_new e =
      ap names (insert-new q.key q d (sym (r.content q.key) ∙ e))
      ∙ map-append (λ e. e.0) d ((q.key, q) ∷ [])

  put_found :
      (f : Property) → lookup q.key p.properties ≡ some f → Represents (put q p) (insert q.key q d)
  unfolding unsafe_keys put insert
  put_found f e =
      rw (put, e)
        record {
          in_order =
              r.in_order ∙ sym (names-insert q.key q d (ap is_some (sym (r.content q.key) ∙ e)));
          content = put-content;
          domain = λ key.
              r.domain key
              ∙ ground (arith, lookup-insert q.key key q p.properties, eq_iff q.key key);
          labelled = r.labelled;
          named = All-insert (λ e. e.1.key ≡ e.0) q.key q d refl r.named;
          below = r.below;
          apart = r.apart;
          distinct = r.distinct;
        }

  put_new : lookup q.key p.properties ≡ none → Represents (put q p) (insert q.key q d)
  unfolding unsafe_keys new_index put insert
  put_new e =
      rw (put, e)
        record {
          in_order =
              ap order (put-indexes_new e)
              ∙ order-append new_index (indexes p) (
                  All-map (λ e. e.1) (λ e. e.1.index < p.next_key_index)
                    (λ i. less_index new_index i ≡ false) p.keys (λ x h. ground arith) r.below)
              ∙ ap (λ ks. ks ++ (q.key ∷ [])) r.in_order
              ∙ sym (put-names_new e);
          content = put-content;
          domain = λ key.
              rw (lookup-insert q.key key new_index p.keys, lookup-insert q.key key q p.properties)
                (ground (arith, r.domain key));
          labelled = All-insert (λ e. e.1.key ≡ e.0) q.key new_index p.keys refl r.labelled;
          named = All-insert (λ e. e.1.key ≡ e.0) q.key q d refl r.named;
          below =
              All-insert (λ e. e.1.index < suc p.next_key_index) q.key new_index p.keys
                (ground arith)
                (All-impl (λ e. e.1.index < p.next_key_index)
                  (λ e. e.1.index < suc p.next_key_index) p.keys (λ x h. ground arith) r.below);
          apart = subst (Apart less_index) (sym (put-indexes_new e)) (
              Apart-append less_index (indexes p) new_index
                (All-map (λ e. e.1) (λ e. e.1.index < p.next_key_index)
                  (λ i. Ordered less_index i new_index) p.keys (λ x h. inl (ground arith)) r.below)
                r.apart);
          distinct = Distinct-insert q.key new_index p.keys r.distinct;
        }

  -- Put replaces a property in its place, and adds a new one last.
  pub put-Represents : Represents (put q p) (insert q.key q d)
  put-Represents = elim (Option-cases (lookup q.key p.properties)) [
    | inl e ↦ put_new e
    | inr (f, e) ↦ put_found f e
  ]
