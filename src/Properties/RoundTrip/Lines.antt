-- ===== src/Properties/RoundTrip/Lines.antt =====
-- The printed properties, line by line, are parsed to the properties that were printed.
use Prim.Native.Char.{Char, code}
use Prim.Native.String.append
use Prim.Native.String.compare
use text.Mathlib.Text.{is_eq}
use mathlib.Core.Path.{ap₂}
use koperator.Prelude.{
  ◌≡◌, refl, sym, ap, ◌∙◌, subst, String, Bool, true, false, ◌||◌, not, none, some, List, [], ◌∷◌,
  ◌++◌, map, arith, Bool-cases, inl, inr, All, ◌==◌, str_eq,
}
use koperator.Api.Failure.{ok}
use koperator.Task.Brokers.{has_prefix}
use koperator.Properties.Types.{Property, Properties}
use koperator.Properties.Store.{put, new_properties}
use koperator.Properties.Separators.{runes, of_runes, is_separator, is_escape, escape_char}
use koperator.Properties.Separators.Equivalence.{of_runes-runes}
use koperator.Properties.Separators.Reference.{escaped}
use koperator.Properties.Parser.{before_backslash, is_comment, parse_lines, parse, property_string}
use koperator.Properties.RoundTrip.{
  Printable, line, key_escaped, key_runes, valid_key, equals, parsed, printed,
}

cons-not_empty : (c : Char) (s : String) → not (str_eq (String.◌∷◌ c s) "") ≡ true
cons-not_empty c s = ap (λ o. not (is_eq o)) (compare.cons-nil c s)

before_backslash-cons :
    (c : Char) (s : String)
    → not (str_eq s "") ≡ true
    → before_backslash s ≡ none
    → before_backslash (String.◌∷◌ c s) ≡ none
unfolding before_backslash
before_backslash-cons c String.[] h k = ground arith
before_backslash-cons c (String.◌∷◌ d s) h k = rw (before_backslash, k) refl

not_empty :
    (xs : List Char) (c : Char) (ys : List Char)
    → not (str_eq (of_runes (xs ++ (c ∷ ys))) "") ≡ true
unfolding of_runes
not_empty [] c ys = cons-not_empty c (of_runes ys)
not_empty (x ∷ xs) c ys = cons-not_empty x (of_runes (xs ++ (c ∷ ys)))

-- What ends in something that is no backslash.
before_backslash-append :
    (xs : List Char) (c : Char) (ys : List Char)
    → before_backslash (of_runes (c ∷ ys)) ≡ none
    → before_backslash (of_runes (xs ++ (c ∷ ys))) ≡ none
unfolding of_runes
before_backslash-append [] c ys h = h
before_backslash-append (x ∷ xs) c ys h =
    before_backslash-cons x (of_runes (xs ++ (c ∷ ys))) (not_empty xs c ys)
      (before_backslash-append xs c ys h)

value_end :
    (c : Char)
    → is_escape c ≡ false
    → (s : String) → before_backslash s ≡ none
    → before_backslash (String.◌∷◌ c s) ≡ none
unfolding before_backslash is_escape
value_end c e String.[] h = rw e refl
value_end c e (String.◌∷◌ d s) h = before_backslash-cons c (String.◌∷◌ d s) (cons-not_empty d s) h

marks : String → Bool
marks s = has_prefix s "#" || has_prefix s "!"

marks-head : (c : Char) (s : String) → marks (String.◌∷◌ c s) ≡ (code c == 35 || code c == 33)
unfolding marks has_prefix
marks-head c String.[] = ground arith
marks-head c (String.◌∷◌ d s) = ground arith

escaped-marks :
    (c : Char) (r t : List Char)
    → marks (of_runes (c ∷ r)) ≡ false
    → marks (of_runes (escaped false (c ∷ r) ++ t)) ≡ false
unfolding of_runes escaped
escaped-marks c r t h =
    let plain = sym (marks-head c (of_runes r)) ∙ h in
    elim (Bool-cases (is_separator c)) [
      | inl e ↦ rw e (marks-head escape_char (of_runes (c ∷ (escaped (is_escape c) r ++ t))))
      | inr e ↦ rw e (marks-head c (of_runes (escaped (is_escape c) r ++ t)) ∙ plain)
    ]

module _ (p : Property) (h : Printable p) (rest : List String) (q : Properties) where
  abbrev printed_line : String
  printed_line = of_runes (line p h "")

  line-not_empty : str_eq printed_line "" ≡ false
  unfolding line equals
  line-not_empty = ground (arith, not_empty (key_escaped p h "") (equals p h "") (runes p.value))

  line-no_comment : is_comment printed_line ≡ false
  unfolding line key_escaped equals marks
  line-no_comment =
      let k = key_runes p.key (valid_key p h "") in
      subst (λ r. marks (of_runes (escaped false r ++ (equals p h "" ∷ runes p.value))) ≡ false)
        (sym k.1.1)
        (escaped-marks k.0 k.1.0 (equals p h "" ∷ runes p.value) (
          subst (λ r. marks (of_runes r) ≡ false) k.1.1
            (ap marks (of_runes-runes p.key) ∙ h.no_comment)))

  line-no_backslash : before_backslash printed_line ≡ none
  unfolding line equals of_runes is_escape
  line-no_backslash = before_backslash-append (key_escaped p h "") (equals p h "") (runes p.value) (
      ap (λ s. before_backslash (String.◌∷◌ (equals p h "") s)) (of_runes-runes p.value)
      ∙ value_end (equals p h "") refl p.value h.no_backslash)

  -- One printed line adds its property.
  parse_lines-step :
      parse_lines (printed_line ∷ rest) "" "" q
      ≡ parse_lines rest "" "" (put (record { key = p.key; value = p.value; comment = "" }) q)
  unfolding parse_lines
  parse_lines-step =
      rw
        (
          parse_lines,
          line-not_empty,
          line-no_comment,
          line-no_backslash,
          append.nil printed_line,
          parsed p h "",
        )
        refl

unfoldable pub put_all : List Property → Properties → Properties
put_all [] q = q
put_all (p ∷ ps) q = put_all ps (put (record { key = p.key; value = p.value; comment = "" }) q)

abbrev printed_lines : (ps : List Property) → All Printable ps → List String
printed_lines [] h = []
printed_lines (p ∷ ps) h = of_runes (line p h.0 "") ∷ printed_lines ps h.1

parse_lines-printed :
    (ps : List Property) (h : All Printable ps) (q : Properties)
    → parse_lines (printed_lines ps h) "" "" q ≡ some (ok (put_all ps q))
unfolding put_all parse_lines
parse_lines-printed [] h q = refl
parse_lines-printed (p ∷ ps) h q =
    parse_lines-step p h.0 (printed_lines ps h.1) q
    ∙ parse_lines-printed ps h.1 (put (record { key = p.key; value = p.value; comment = "" }) q)

lines-printed :
    (ps : List Property) (h : All Printable ps)
    → map property_string ps ≡ map (λ s. some s) (printed_lines ps h)
lines-printed [] h = refl
lines-printed (p ∷ ps) h = ap₂ ◌∷◌ (printed p h.0 "") (lines-printed ps h.1)

-- The lines that Property.String prints of properties are parsed by Loader.parse, to the object that
-- has the same keys and values put into it in the same order. The keys are ASCII without spaces and
-- backslashes and do not begin like a comment; the values are trimmed and do not end in a backslash.
pub parse-printed :
    (ps : List Property)
    → All Printable ps
    → (lines : List String) × ((map property_string ps ≡ map (λ s. some s) lines)
        × (parse lines ≡ some (ok (put_all ps new_properties))))
unfolding parse
parse-printed ps h =
    (printed_lines ps h, (lines-printed ps h, parse_lines-printed ps h new_properties))
