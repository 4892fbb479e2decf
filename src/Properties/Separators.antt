-- ===== src/Properties/Separators.antt =====
-- Separators and their escapes: UnEscapeSeparators, EscapeSeparators and GetSeparator of
-- properties/pkg/utils.go. A slice of runes is a list of characters.
pub mod Reference
pub mod Equivalence
use Prim.Native.Char.{Char, code}
use Prim.Native.String.{len}
use koperator.Prelude.{
  ℕ, zero, suc, ◌+◌, ◌-◌, String, Bool, true, false, ◌&&◌, ◌||◌, not, Option, none, some, List, [],
  ◌∷◌, ◌++◌, get_elem?, length, ◌==◌, leb, if◌then◌else◌,
}

-- []rune(s)
unfoldable pub runes : String → List Char
runes String.[] = []
runes (String.◌∷◌ c s) = c ∷ runes s

-- string(r)
unfoldable pub of_runes : List Char → String
of_runes [] = String.[]
of_runes (c ∷ r) = String.◌∷◌ c (of_runes r)

-- Separators
unfoldable pub is_separator : Char → Bool
is_separator c = code c == 61 || (code c == 58 || code c == 32)

-- EscapeChar
unfoldable pub is_escape : Char → Bool
is_escape c = code c == 92

abbrev pub escape_char : Char
escape_char = Prim.Native.Char.char 92 tt

abbrev pub drop {ℓ} : {A : Type ℓ} → ℕ → List A → List A
drop zero xs = xs
drop (suc n) [] = []
drop (suc n) (x ∷ xs) = drop n xs

-- the first n of a list that has as many
abbrev pub take? {ℓ} : {A : Type ℓ} → ℕ → List A → Option (List A)
take? zero xs = some []
take? (suc n) [] = none
take? (suc n) (x ∷ xs) = elim (take? n xs) [ none ↦ none | some front ↦ some (x ∷ front) ]

-- orig[from:to], where `none` is the panic at bounds that do not fit
unfoldable pub slice_of {ℓ} : {A : Type ℓ} → List A → ℕ → ℕ → Option (List A)
slice_of orig from to = if leb from to then take? (to - from) (drop from orig) else none

-- orig[i] == EscapeChar
unfoldable pub is_escape_at : List Char → ℕ → Bool
is_escape_at orig i = elim (get_elem? orig i) [ none ↦ false | some c ↦ is_escape c ]

-- startIdx and newSlice
abbrev pub Copied : Type 0
Copied = ℕ × List Char

-- The body of a loop at idx: what is copied up to `to`, and what is appended for c. Subtraction stops
-- at 0, which is Max(idx-1, 0).
abbrev pub copy : List Char → ℕ → ℕ → List Char → Copied → Option Copied
copy orig to next added (start, new) = elim (slice_of orig start to) [
  | none ↦ none
  | some chunk ↦ some (next, new ++ (chunk ++ added))
]

unfoldable pub un_escape_step : List Char → ℕ → Char → Copied → Option Copied
un_escape_step orig idx c st =
    if is_separator c && is_escape_at orig (idx - 1)
    then copy orig (idx - 1) (suc idx) (c ∷ []) st
    else some st

unfoldable pub escape_step : List Char → ℕ → Char → Copied → Option Copied
escape_step orig idx c st =
    if is_separator c && not (is_escape_at orig (idx - 1))
    then copy orig idx (suc idx) (escape_char ∷ c ∷ []) st
    else some st

-- for idx, c := range orig
unfoldable pub each_rune :
    (ℕ → Char → Copied → Option Copied) → ℕ → List Char → Copied → Option Copied
each_rune step idx [] st = some st
each_rune step idx (c ∷ cs) st = elim (step idx c st) [
  | none ↦ none
  | some next ↦ each_rune step (suc idx) cs next
]

-- what is left is appended; `length` is that of the string's bytes
unfoldable pub finish : ℕ → List Char → Copied → String
finish bytes orig (start, new) =
    of_runes (if leb start (bytes - 1) then new ++ drop start orig else new)

unfoldable pub un_escape_separators : String → Option String
un_escape_separators String.[] = some ""
un_escape_separators (String.◌∷◌ c s) =
    let orig = c ∷ runes s in
    elim (each_rune (un_escape_step orig) 0 orig (0, [])) [
      | none ↦ none
      | some st ↦ some (finish (len (String.◌∷◌ c s)) orig st)
    ]

unfoldable pub escape_separators : String → Option String
escape_separators String.[] = some ""
escape_separators (String.◌∷◌ c s) =
    let orig = c ∷ runes s in
    elim (each_rune (escape_step orig) 0 orig (0, [])) [
      | none ↦ none
      | some st ↦ some (finish (len (String.◌∷◌ c s)) orig st)
    ]

-- the first separator that is not escaped, and its index among the runes
unfoldable pub separator_from : List Char → ℕ → List Char → Option (Char × ℕ)
separator_from orig idx [] = none
separator_from orig idx (c ∷ cs) =
    let rest = separator_from orig (suc idx) cs in
    if is_separator c && not (is_escape_at orig (idx - 1)) then some (c, idx) else rest

-- GetSeparator, with `none` for its errors
unfoldable pub get_separator : String → Option (Char × ℕ)
get_separator s = separator_from (runes s) 0 (runes s)
