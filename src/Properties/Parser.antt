-- ===== src/Properties/Parser.antt =====
-- Parsing and printing: newPropertyFromString, Loader.load and Loader.parse of properties/pkg/utils.go,
-- Property.String and Properties.String.
use Prim.Native.Char.{code, len_utf8}
use Prim.Native.String.{◌++◌ as append, len}
use koperator.Prelude.{
  ℕ, zero, suc, ◌-◌, String, Bool, true, false, ◌||◌, Option, none, some, List, [], ◌∷◌, ◌==◌, leb,
  ltb, str_eq, if◌then◌else◌,
}
use koperator.Api.Failure.{Answer, ok, err, failure}
use koperator.Task.Brokers.{trim_space, has_prefix}
use koperator.Properties.Types.{Property, is_valid, Properties}
use koperator.Properties.Store.{new_properties, put, get, unsafe_keys}
use koperator.Properties.Separators.{get_separator, un_escape_separators, escape_separators}

-- s[0:n] and s[n:] count bytes; `none` where the string is shorter, or where the cut goes through a
-- character, so that the parts are no text.
unfoldable pub take_bytes : ℕ → String → Option String
take_bytes zero s = some ""
take_bytes (suc n) String.[] = none
take_bytes (suc n) (String.◌∷◌ c s) =
    if leb (len_utf8 c) (suc n)
    then elim (take_bytes (suc n - len_utf8 c) s) [
      | none ↦ none
      | some front ↦ some (String.◌∷◌ c front)
    ]
    else none

unfoldable pub drop_bytes : ℕ → String → Option String
drop_bytes zero s = some s
drop_bytes (suc n) String.[] = none
drop_bytes (suc n) (String.◌∷◌ c s) =
    let rest = drop_bytes (suc n - len_utf8 c) s in if leb (len_utf8 c) (suc n) then rest else none

abbrev pub invalid_property : Answer Property
invalid_property = err (failure "properties: invalid property")

abbrev pub property_with : String → Option String → Option String → Option (Answer Property)
property_with comment none value = none
property_with comment (some key) none = none
property_with comment (some key) (some value) = elim (un_escape_separators (trim_space key)) [
  | none ↦ none
  | some k ↦ some (ok record { key = k; value = trim_space value; comment = comment })
]

-- newPropertyFromString: the index counts runes, the slices bytes
unfoldable pub new_property_from_string : String → String → Option (Answer Property)
new_property_from_string prop comment = elim (get_separator prop) [
  | none ↦ some invalid_property
  | some (c, zero) ↦ some invalid_property
  | some (c, suc i) ↦
      property_with comment (take_bytes (suc i) prop) (drop_bytes (suc (suc i)) prop)
]

-- strings.TrimSuffix(s, "\\") where strings.HasSuffix(s, "\\"), and else `none`
unfoldable pub before_backslash : String → Option String
before_backslash String.[] = none
before_backslash (String.◌∷◌ c String.[]) = if code c == 92 then some "" else none
before_backslash (String.◌∷◌ c s) = elim (before_backslash s) [
  | none ↦ none
  | some front ↦ some (String.◌∷◌ c front)
]

abbrev pub is_comment : String → Bool
is_comment line = has_prefix line "#" || has_prefix line "!"

-- Loader.parse, from a line on: what stands in the two builders, and the properties so far. `none` is
-- a property whose text is cut within a character.
unfoldable pub parse_lines : List String → String → String → Properties → Option (Answer Properties)
parse_lines [] property comment p = some (ok p)
parse_lines (line ∷ lines) property comment p = elim (str_eq line "") [
  | true ↦ parse_lines lines "" "" p
  | false ↦ elim (is_comment line) [
    | true ↦ parse_lines lines property (append comment (append line "\n")) p
    | false ↦ elim (before_backslash line) [
      | some front ↦ parse_lines lines (append property front) comment p
      | none ↦ elim (new_property_from_string (append property line) comment) [
        | none ↦ none
        | some (err e) ↦ some (err e)
        | some (ok q) ↦ parse_lines lines "" "" (put q p)
      ]
    ]
  ]
]

unfoldable pub parse : List String → Option (Answer Properties)
parse lines = parse_lines lines "" "" new_properties

-- bufio.Scanner splits at line ends and gives up at a line whose bytes do not fit its buffer; load
-- does not look at the error.
abbrev pub max_token : ℕ
max_token = 65536

unfoldable pub split_lines : String → List String
split_lines String.[] = []
split_lines (String.◌∷◌ c s) =
    let rest = split_lines s in
    if code c == 10 then "" ∷ rest else elim rest [
      | [] ↦ (String.◌∷◌ c String.[]) ∷ []
      | line ∷ lines ↦ (String.◌∷◌ c line) ∷ lines
    ]

unfoldable pub scanned : List String → List String
scanned [] = []
scanned (line ∷ lines) =
    let rest = scanned lines in if ltb (len line) max_token then trim_space line ∷ rest else []

-- Loader.load; a carriage return in front of the line end is trimmed with the spaces
unfoldable pub load : String → List String
load s = scanned (split_lines s)

-- NewFromString
unfoldable pub new_from_string : String → Option (Answer Properties)
new_from_string s = parse (load s)

-- Property.String
unfoldable pub property_string : Property → Option String
property_string p =
    if is_valid p
    then elim (escape_separators p.key) [
      | none ↦ none
      | some key ↦ some (append key (append "=" p.value))
    ]
    else some ""

unfoldable pub string_of_keys : List String → Properties → Option String
string_of_keys [] p = some ""
string_of_keys (key ∷ keys) p =
    let rest = string_of_keys keys p in
    elim (get key p) [
      | none ↦ rest
      | some q ↦ elim (property_string q) [
        | none ↦ none
        | some line ↦ elim rest [
          | none ↦ none
          | some lines ↦ some (append line (append "\n" lines))
        ]
      ]
    ]

-- Properties.String
unfoldable pub string_of : Properties → Option String
string_of p = string_of_keys (unsafe_keys p) p
