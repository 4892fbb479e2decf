-- ===== src/Properties/Types.antt =====
-- Property of properties/pkg/property.go, and the containers of properties/pkg/properties.go.
use koperator.Prelude.{ℕ, String, Bool, ◌&&◌, ◌||◌, not, str_eq, ltb}
use koperator.Prelude.Dict.{Dict}

pub record Property : Type 0 where
  pub key : String
  pub value : String
  pub comment : String

-- Property{}
abbrev pub empty_property : Property
empty_property = record { key = ""; value = ""; comment = "" }

-- Property.Equal
unfoldable pub equal_property : Property → Property → Bool
equal_property p t = str_eq p.key t.key && str_eq p.value t.value

-- Property.IsValid
unfoldable pub is_valid : Property → Bool
is_valid p = not (str_eq p.key "")

-- Property.IsEmpty
unfoldable pub is_empty_property : Property → Bool
is_empty_property p = str_eq p.key "" || str_eq p.value ""

pub record KeyIndex : Type 0 where
  pub key : String
  pub index : ℕ

-- keyIndexList.Less
abbrev pub less_index : KeyIndex → KeyIndex → Bool
less_index i j = ltb i.index j.index

-- nextKeyIndex counts without a bound.
pub record Properties : Type 0 where
  pub properties : Dict Property
  pub keys : Dict KeyIndex
  pub next_key_index : ℕ

pub data MergeOption : Type 0 where
  allow_overwrite only_defaults : MergeOption

abbrev pub DiffResult : Type 0
DiffResult = Dict (Property × Property)
