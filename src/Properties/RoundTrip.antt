-- ===== src/Properties/RoundTrip.antt =====
-- A property that is printed is parsed again.
pub mod Lines
use Prim.Native.Char.{Char, code, len_utf8}
use Prim.Native.String.append
use Prim.Native.String.{◌++◌ as append}
use koperator.Prelude.{
  ℕ, zero, suc, ◌+◌, ◌-◌, ◌≤◌, ◌≡◌, refl, sym, ap, ◌∙◌, subst, String, Bool, true, false, ◌&&◌,
  ◌||◌, not, Option, none, some, List, [], ◌∷◌, ◌++◌, map, length, leb, if◌then◌else◌, arith,
  Bool-cases, inl, inr, All, All-impl, if_both, ◌==◌, str_eq, eq_iff,
}
use koperator.Api.Failure.{Answer, ok}
use koperator.Task.Brokers.{is_space, trim_left, trim_right, trim_space, has_prefix}
use koperator.Properties.Types.{Property, Properties, is_valid}
use koperator.Properties.Store.{put, new_properties}
use koperator.Properties.Separators.{
  runes, of_runes, is_separator, is_escape, escape_char, drop, is_escape_at, separator_from,
  get_separator, un_escape_separators,
}
use koperator.Properties.Separators.Reference.{
  escaped, unescaped, Before, Before-of_last, get_elem?-drop,
}
use koperator.Properties.Separators.Equivalence.{
  unescaped-escaped, escape_char-escapes, un_escape_separators-unescaped, escape_separators-escaped,
  runes-of_runes, of_runes-runes, before_first,
}
use koperator.Properties.Parser.{
  take_bytes, drop_bytes, new_property_from_string, property_with, before_backslash, is_comment,
  parse_lines, parse, property_string,
}

escape_char-plain : is_separator escape_char ≡ false
unfolding is_separator
escape_char-plain = refl

-- the first separator with no escape character in front of it
separator_ref : Bool → ℕ → List Char → Option (Char × ℕ)
separator_ref before idx [] = none
separator_ref before idx (c ∷ cs) =
    let rest = separator_ref (is_escape c) (suc idx) cs in
    if is_separator c && not before then some (c, idx) else rest

drop-suc :
    (orig : List Char) (idx : ℕ) (c : Char) (cs : List Char)
    → drop idx orig ≡ c ∷ cs
    → drop (suc idx) orig ≡ cs
drop-suc [] zero c cs h = ground arith
drop-suc (x ∷ orig) zero c cs h = ground arith
drop-suc [] (suc idx) c cs h = ground arith
drop-suc (x ∷ orig) (suc idx) c cs h = drop-suc orig idx c cs h

separator_from-ref :
    (orig : List Char) (rest : List Char) (before : Bool) (idx : ℕ)
    → drop idx orig ≡ rest
    → Before orig idx before rest
    → separator_from orig idx rest ≡ separator_ref before idx rest
unfolding separator_from separator_ref
separator_from-ref orig [] before idx h b = refl
separator_from-ref orig (c ∷ cs) before idx h b =
    let ih =
      separator_from-ref orig cs (is_escape c) (suc idx) (drop-suc orig idx c cs h)
        (Before-of_last orig idx c cs (get_elem?-drop idx orig c cs h)) in
    ground (arith, b)

-- The escaped runes have no separator that counts.
separator_ref-escaped :
    (r : List Char) (idx : ℕ) (d : Char) (v : List Char)
    → All (λ c. is_escape c ≡ false) r
    → is_separator d ≡ true
    → separator_ref false idx (escaped false r ++ (d ∷ v))
      ≡ some (d, idx + length (escaped false r))
unfolding separator_ref escaped
separator_ref-escaped [] idx d v h k = let here : idx + 0 ≡ idx = omega arith in rw (k, here) refl
separator_ref-escaped (c ∷ r) idx d v h k =
    let near : suc (idx) + length (escaped false r) ≡ idx + suc (length (escaped false r)) =
      omega arith in
    let far : suc (suc idx) + length (escaped false r)
        ≡ idx + suc (suc (length (escaped false r))) =
      omega arith in
    elim (Bool-cases (is_separator c)) [
      | inl e ↦
          rw
            (
              e,
              h.0,
              escape_char-plain,
              escape_char-escapes,
              e,
              separator_ref-escaped r (suc (suc idx)) d v h.1 k,
              far,
            )
            refl
      | inr e ↦ rw (e, h.0, e, separator_ref-escaped r (suc idx) d v h.1 k, near) refl
    ]

take_bytes-ascii :
    (xs ys : List Char)
    → All (λ c. len_utf8 c ≡ 1) xs
    → take_bytes (length xs) (of_runes (xs ++ ys)) ≡ some (of_runes xs)
unfolding take_bytes of_runes
take_bytes-ascii [] ys h = refl
take_bytes-ascii (x ∷ xs) ys h =
    let left : suc (length xs) - 1 ≡ length xs = omega arith in
    let fits : leb 1 (suc (length xs)) ≡ true = ground arith in
    rw (h.0, left, take_bytes-ascii xs ys h.1, fits) refl

drop_bytes-ascii :
    (xs : List Char) (y : Char) (ys : List Char)
    → All (λ c. len_utf8 c ≡ 1) xs
    → len_utf8 y ≡ 1
    → drop_bytes (suc (length xs)) (of_runes (xs ++ (y ∷ ys))) ≡ some (of_runes ys)
unfolding drop_bytes of_runes
drop_bytes-ascii [] y ys h k = rw k refl
drop_bytes-ascii (x ∷ xs) y ys h k =
    let left : suc (suc (length xs)) - 1 ≡ suc (length xs) = omega arith in
    let fits : leb 1 (suc (suc (length xs))) ≡ true = ground arith in
    rw (h.0, left, fits) (drop_bytes-ascii xs y ys h.1 k)

trim_left-plain :
    (xs : List Char)
    → All (λ c. is_space (code c) ≡ false) xs
    → trim_left (of_runes xs) ≡ of_runes xs
unfolding trim_left of_runes
trim_left-plain [] h = refl
trim_left-plain (x ∷ xs) h = rw h.0 refl

trim_right-plain :
    (xs : List Char)
    → All (λ c. is_space (code c) ≡ false) xs
    → trim_right (of_runes xs) ≡ of_runes xs
unfolding trim_right of_runes
trim_right-plain [] h = refl
trim_right-plain (x ∷ xs) h = rw (h.0, trim_right-plain xs h.1) refl

trim_space-plain :
    (xs : List Char)
    → All (λ c. is_space (code c) ≡ false) xs
    → trim_space (of_runes xs) ≡ of_runes xs
trim_space-plain xs h = ap trim_right (trim_left-plain xs h) ∙ trim_right-plain xs h

-- The characters of a key that survive: ASCII, and neither an escape character nor a space.
abbrev pub Plain : Char → Type 0
Plain c = (len_utf8 c ≡ 1) × ((is_escape c ≡ false) × (is_space (code c) ≡ false))

All-escaped :
    (P : Char → Type 0) (b : Bool) (r : List Char) → P escape_char → All P r → All P (escaped b r)
unfolding escaped
All-escaped P b [] h hs = tt
All-escaped P b (c ∷ r) h hs =
    let ih = All-escaped P (is_escape c) r h hs.1 in
    if_both (All P) (is_separator c && not b) (escape_char ∷ c ∷ escaped (is_escape c) r)
      (c ∷ escaped (is_escape c) r) (h, (hs.0, ih)) (hs.0, ih)

pub record Printable (p : Property) : Type 0 where
  pub valid : is_valid p ≡ true
  pub plain : All Plain (runes p.key)
  -- the line does not look like a comment
  pub no_comment : (has_prefix p.key "#" || has_prefix p.key "!") ≡ false
  pub trimmed : trim_space p.value ≡ p.value
  -- nor like the first of two lines
  pub no_backslash : before_backslash p.value ≡ none

pub key_runes :
    (s : String) → not (str_eq s "") ≡ true → (c : Char) × ((r : List Char) × (runes s ≡ c ∷ r))
unfolding runes
key_runes String.[] h = ground arith
key_runes (String.◌∷◌ c s) h = (c, (runes s, refl))

longer :
    (r : List Char)
    → (c : Char) × ((cs : List Char) × (r ≡ c ∷ cs))
    → (i : ℕ) × (length (escaped false r) ≡ suc i)
unfolding escaped
longer [] (c, (cs, e)) = ground arith
longer (x ∷ r) e = elim (Bool-cases (is_separator x)) [
  | inl f ↦ (suc (length (escaped (is_escape x) r)), rw f refl)
  | inr f ↦ (length (escaped (is_escape x) r), rw f refl)
]

append-of_runes : (xs : List Char) (t : String) → append (of_runes xs) t ≡ of_runes (xs ++ runes t)
unfolding of_runes
append-of_runes [] t = append.nil t ∙ sym (of_runes-runes t)
append-of_runes (x ∷ xs) t =
    append.cons x (of_runes xs) t ∙ ap (λ s. String.◌∷◌ x s) (append-of_runes xs t)

starts : (orig : List Char) → Before orig 0 false orig
starts [] = tt
starts (c ∷ cs) = before_first c cs

module _ (p : Property) (h : Printable p) (comment : String) where
  pub valid_key : not (str_eq p.key "") ≡ true
  unfolding is_valid
  valid_key = h.valid

  unfoldable pub key_escaped : List Char
  key_escaped = escaped false (runes p.key)

  unfoldable pub equals : Char
  equals = Prim.Native.Char.char 61 tt

  unfoldable pub line : List Char
  line = key_escaped ++ (equals ∷ runes p.value)

  separator_line : get_separator (of_runes line) ≡ some (equals, length key_escaped)
  unfolding get_separator line key_escaped is_separator equals
  separator_line =
      let zero_left : 0 + length key_escaped ≡ length key_escaped = omega arith in
      rw (runes-of_runes line) (
        separator_from-ref line line false 0 refl (starts line)
        ∙ separator_ref-escaped (runes p.key) 0 equals (runes p.value)
            (All-impl Plain (λ c. is_escape c ≡ false) (runes p.key) (λ c k. k.1.0) h.plain) refl
        ∙ ap (λ n. some (equals, n)) zero_left)

  narrow : All (λ c. len_utf8 c ≡ 1) key_escaped
  unfolding key_escaped
  narrow =
      All-escaped (λ c. len_utf8 c ≡ 1) false (runes p.key) refl
        (All-impl Plain (λ c. len_utf8 c ≡ 1) (runes p.key) (λ c k. k.0) h.plain)

  spaceless : All (λ c. is_space (code c) ≡ false) key_escaped
  unfolding key_escaped is_space
  spaceless =
      All-escaped (λ c. is_space (code c) ≡ false) false (runes p.key) refl
        (All-impl Plain (λ c. is_space (code c) ≡ false) (runes p.key) (λ c k. k.1.1) h.plain)

  key_back : un_escape_separators (trim_space (of_runes key_escaped)) ≡ some p.key
  unfolding key_escaped
  key_back = rw (trim_space-plain key_escaped spaceless) (
      un_escape_separators-unescaped (of_runes key_escaped)
      ∙ ap some (
          ap of_runes (
            ap unescaped (runes-of_runes key_escaped)
            ∙ unescaped-escaped (runes p.key)
                (All-impl Plain (λ c. is_escape c ≡ false) (runes p.key) (λ c k. k.1.0) h.plain))
          ∙ of_runes-runes p.key))

  key_length : (i : ℕ) × (length key_escaped ≡ suc i)
  unfolding key_escaped
  key_length = longer (runes p.key) (key_runes p.key valid_key)

  taken : take_bytes (length key_escaped) (of_runes line) ≡ some (of_runes key_escaped)
  unfolding line
  taken = take_bytes-ascii key_escaped (equals ∷ runes p.value) narrow

  dropped : drop_bytes (suc (length key_escaped)) (of_runes line) ≡ some p.value
  unfolding line equals
  dropped =
      drop_bytes-ascii key_escaped equals (runes p.value) narrow refl
      ∙ ap some (of_runes-runes p.value)

  pub parsed :
      new_property_from_string (of_runes line) comment
      ≡ some (ok record { key = p.key; value = p.value; comment = comment })
  unfolding new_property_from_string
  parsed =
      let n = key_length in
      let front =
        subst (λ i. take_bytes i (of_runes line) ≡ some (of_runes key_escaped)) n.1 taken in
      let back = subst (λ i. drop_bytes (suc i) (of_runes line) ≡ some p.value) n.1 dropped in
      rw
        (
          new_property_from_string, separator_line, n.1, front, back, property_with, key_back,
          h.trimmed,
        )
        refl

  pub printed : property_string p ≡ some (of_runes line)
  unfolding property_string line key_escaped equals runes
  printed =
      rw (h.valid, escape_separators-escaped p.key)
        (ap some (
          append-of_runes key_escaped (append "=" p.value)
          ∙ ap (λ t. of_runes (key_escaped ++ runes t))
              (append.cons equals "" p.value ∙ ap (λ t. String.◌∷◌ equals t) (append.nil p.value))))

  -- What Property.String prints, newPropertyFromString reads: the same key and value.
  pub line_back :
      (s : String) × ((property_string p ≡ some s)
        × (new_property_from_string s comment
            ≡ some (ok record { key = p.key; value = p.value; comment = comment })))
  line_back = (of_runes line, (printed, parsed))
