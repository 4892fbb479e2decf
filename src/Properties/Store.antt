-- ===== src/Properties/Store.antt =====
-- The methods of Properties in properties/pkg/properties.go. A lock is held for the whole of a
-- method, so each of them is one step.
use koperator.Prelude.{
  ℕ, suc, String, Option, none, some, Bool, true, false, not, List, [], ◌∷◌, map, length, ◌==◌,
  if◌then◌else◌,
}
use koperator.Prelude.Dict.{Dict, lookup, insert, remove}
use koperator.Prelude.Sort.{slice_stable}
use koperator.Prelude.Strings.{less_string}
use koperator.Properties.Types.{
  Property, empty_property, equal_property, is_empty_property, KeyIndex, less_index, Properties,
  MergeOption, allow_overwrite, only_defaults, DiffResult,
}

-- NewProperties
unfoldable pub new_properties : Properties
new_properties = record { properties = []; keys = []; next_key_index = 0 }

-- Get, with `none` where it reports that nothing is found
unfoldable pub get : String → Properties → Option Property
get key p = lookup key p.properties

-- The map is gone over in its order here; what sort.Sort makes of it is the same for every order, as
-- no index stands twice.
unfoldable pub unsafe_keys : Properties → List String
unsafe_keys p = map (λ i. i.key) (slice_stable less_index (map (λ e. e.1) p.keys))

-- Len
unfoldable pub len : Properties → ℕ
len p = length p.keys

unfoldable pub put : Property → Properties → Properties
put property p = elim (lookup property.key p.properties) [
  | none ↦ record {
    properties = insert property.key property p.properties;
    keys = insert property.key (record { key = property.key; index = p.next_key_index }) p.keys;
    next_key_index = suc p.next_key_index;
  }
  | some found ↦ record {
    properties = insert property.key property p.properties;
    keys = p.keys;
    next_key_index = p.next_key_index;
  }
]

-- Delete
unfoldable pub delete : String → Properties → Properties
delete key p = record {
  properties = remove key p.properties;
  keys = remove key p.keys;
  next_key_index = p.next_key_index;
}

abbrev pub or_zero : Option Property → Property
or_zero none = empty_property
or_zero (some q) = q

-- m.properties[key], the zero value for a missing key
abbrev pub property_of : Properties → String → Property
property_of m key = or_zero (lookup key m.properties)

-- whether MergeDefaults leaves a property as it is
abbrev pub is_kept : MergeOption → Option Property → Bool
is_kept allow_overwrite found = false
is_kept only_defaults none = false
is_kept only_defaults (some q) = not (is_empty_property q)

unfoldable pub merge_keys : List String → Properties → MergeOption → Properties → Properties
merge_keys [] m option p = p
merge_keys (key ∷ keys) m option p =
    merge_keys keys m option
      (if is_kept option (lookup key p.properties) then p else put (property_of m key) p)

-- merge, which Merge and MergeDefaults call; `none` is the nil pointer
unfoldable pub merge : Option Properties → MergeOption → Properties → Properties
merge none option p = p
merge (some m) option p = merge_keys (unsafe_keys m) m option p

abbrev pub same_property : Option Property → Option Property → Bool
same_property none t = false
same_property (some p) none = false
same_property (some p) (some t) = equal_property p t

unfoldable pub equal_keys : List String → Properties → Properties → Bool
equal_keys [] p t = true
equal_keys (key ∷ keys) p t =
    let rest = equal_keys keys p t in
    if same_property (lookup key p.properties) (lookup key t.properties) then rest else false

-- Equal
unfoldable pub equal : Properties → Option Properties → Bool
equal p none = false
equal p (some t) =
    if length p.keys == length t.keys then equal_keys (map (λ e. e.0) t.keys) p t else false

unfoldable pub reindex : List String → ℕ → Dict KeyIndex → Dict KeyIndex
reindex [] next keys = keys
reindex (key ∷ rest) next keys =
    reindex rest (suc next) (insert key (record { key = key; index = next }) keys)

-- Sort
unfoldable pub sort : Properties → Properties
sort p = record {
  properties = p.properties;
  keys = reindex (slice_stable less_string (map (λ e. e.0) p.keys)) 0 p.keys;
  next_key_index = length p.keys;
}

-- keys[key] = struct{}{} for each key
abbrev pub add_keys : List String → Dict {0} Unit → Dict {0} Unit
add_keys [] keys = keys
add_keys (key ∷ rest) keys = add_keys rest (insert key tt keys)

-- what the switch of Diff stores for a key
abbrev pub difference : Option Property → Option Property → Option (Property × Property)
difference (some p) (some m) = if equal_property p m then none else some (p, m)
difference (some p) none = some (p, empty_property)
difference none (some m) = some (empty_property, m)
difference none none = some (empty_property, empty_property)

abbrev pub store_difference : String → Option (Property × Property) → DiffResult → DiffResult
store_difference key none result = result
store_difference key (some pair) result = insert key pair result

unfoldable pub diff_keys : List String → Properties → Properties → DiffResult → DiffResult
diff_keys [] p m result = result
diff_keys (key ∷ keys) p m result =
    diff_keys keys p m
      (store_difference key (difference (lookup key p.properties) (lookup key m.properties)) result)

-- Diff
unfoldable pub diff : Properties → Option Properties → DiffResult
diff p none = []
diff p (some m) =
    diff_keys
      (map (λ e. e.0) (add_keys (map (λ e. e.0) m.keys) (add_keys (map (λ e. e.0) p.keys) []))) p m
      []

-- DiffResult.Keys
unfoldable pub diff_result_keys : DiffResult → List String
diff_result_keys d = slice_stable less_string (map (λ e. e.0) d)
