-- ===== src/Examples/Properties.antt =====
-- The theorems on the properties library at concrete inputs.
use koperator.Prelude.{String, ◌≡◌, refl, true, false, some, All, List, [], ◌∷◌, ◌↔◌, map}
use koperator.Prelude.Dict.{lookup, insert, remove}
use koperator.Api.Failure.{ok}
use koperator.Task.Brokers.{has_prefix, trim_left, trim_right, is_space}
use koperator.Properties.Types.{Property, is_valid, is_empty_property, only_defaults}
use koperator.Properties.Store.{new_properties, unsafe_keys, equal, diff}
use koperator.Properties.Refinement.{
  Script, created, after_put, after_delete, after_sort, after_merge, build, meaning, build-Refines,
}
use koperator.Properties.Refinement.{merge_entries}
use koperator.Properties.Ordered.Reindex.{sort_entries}
use koperator.Prelude.Strings.{less_string}
use koperator.Prelude.Sort.{slice_stable}
use koperator.Properties.Difference.{equal-diff_built}
use koperator.Properties.Separators.{
  is_escape, is_separator, get_separator, separator_from, is_escape_at, each_rune, un_escape_step,
  finish, un_escape_separators, escape_separators, of_runes, runes,
}
use koperator.Properties.Separators.Reference.{unescaped}
use koperator.Properties.Separators.Equivalence.{un_escape_separators-unescaped, un_escape-escape}
use koperator.Properties.Parser.{
  parse, property_string, before_backslash, new_property_from_string, take_bytes, drop_bytes,
}
use koperator.Properties.RoundTrip.{Printable}
use koperator.Properties.RoundTrip.Lines.{parse-printed, put_all}

abbrev property : String → String → Property
property key value = record { key = key; value = value; comment = "" }

-- two brokers' settings, one of them without a value
abbrev first_settings : Script
first_settings =
    after_sort (after_put (property "log.dirs" "/a") (after_put (property "broker.id" "") created))

abbrev second_settings : Script
second_settings = after_delete "x" (after_put (property "broker.id" "7") created)

abbrev merged_settings : Script
merged_settings = after_merge only_defaults second_settings first_settings

equal-diff_built_example :
    (equal (build first_settings) (some (build second_settings)) ≡ true)
    ↔ (diff (build first_settings) (some (build second_settings)) ≡ [])
equal-diff_built_example = equal-diff_built first_settings second_settings

un_escape_separators-unescaped_example :
    un_escape_separators "a\\=b\\c" ≡ some (of_runes (unescaped (runes "a\\=b\\c")))
un_escape_separators-unescaped_example = un_escape_separators-unescaped "a\\=b\\c"

spaced-plain : All (λ c. is_escape c ≡ false) (runes "a=b c")
unfolding is_escape runes
spaced-plain = (refl, (refl, (refl, (refl, (refl, tt)))))

un_escape-escape_example :
    (e : String) × ((escape_separators "a=b c" ≡ some e) × (un_escape_separators e ≡ some "a=b c"))
un_escape-escape_example = un_escape-escape "a=b c" spaced-plain

abbrev listeners : Property
listeners = property "a:b" "host:9092 x"

listeners-Printable : Printable listeners
unfolding is_valid has_prefix trim_right trim_left is_space before_backslash is_escape runes
listeners-Printable = record {
  valid = refl;
  plain = ((refl, (refl, refl)), ((refl, (refl, refl)), ((refl, (refl, refl)), tt)));
  no_comment = refl;
  trimmed = refl;
  no_backslash = refl;
}

parse-printed_example :
    (lines : List String) × ((map property_string (listeners ∷ []) ≡ map (λ s. some s) lines)
      × (parse lines ≡ some (ok (put_all (listeners ∷ []) new_properties))))
parse-printed_example = parse-printed (listeners ∷ []) (listeners-Printable, tt)

-- Defaults fill the property that had no value, and the order stays.
merged_keys : unsafe_keys (build merged_settings) ≡ "broker.id" ∷ "log.dirs" ∷ []
unfolding meaning sort_entries merge_entries lookup insert less_string is_empty_property
    slice_stable remove
merged_keys = (build-Refines merged_settings).0

-- The index of a separator counts runes, and the text is cut at bytes.
beyond_ascii :
    new_property_from_string "éa=1" "" ≡ some (ok record { key = "é"; value = "=1"; comment = "" })
unfolding new_property_from_string get_separator separator_from runes is_separator is_escape_at
    is_escape take_bytes drop_bytes un_escape_separators trim_right trim_left is_space each_rune
    un_escape_step finish of_runes
beyond_ascii = refl
