-- ===== src/Properties/Separators/Equivalence.antt =====
-- UnEscapeSeparators, EscapeSeparators and GetSeparator as functions of the runes, and one undone by
-- the other.
use Prim.Native.Char.{Char}
use Prim.Native.String.len
use Prim.Native.String.{len}
use text.Mathlib.TextPositions.{len_utf8-pos}
use koperator.Prelude.{
  ℕ, zero, suc, ◌-◌, ◌≤◌, ◌≡◌, refl, ap, ◌∙◌, String, true, false, Option, none, some, List, [],
  ◌∷◌, ◌++◌, length, leb, arith, Bool-cases, inl, inr, All,
}
use koperator.Properties.Separators.{
  runes, of_runes, is_separator, is_escape, escape_char, drop, is_escape_at, Copied, un_escape_step,
  escape_step, each_rune, finish, un_escape_separators, escape_separators,
}
use koperator.Properties.Separators.Reference.{
  escaped, unescaped, all_copied, escape-loop, un_escape-loop, Waiting, Free, separator_plain,
}

length-runes : (s : String) → length (runes s) ≤ len s
unfolding runes
length-runes String.[] = omega arith
length-runes (String.◌∷◌ c s) =
    let found = len_utf8-pos c in ground (arith, len.cons c s, length-runes s, found.1)

drop_all {ℓ} : {A : Type ℓ} (n : ℕ) (xs : List A) → length xs ≤ n → drop n xs ≡ []
drop_all zero [] h = refl
drop_all zero (x ∷ xs) h = absurd (omega arith)
drop_all (suc n) [] h = refl
drop_all (suc n) (x ∷ xs) h = drop_all n xs (omega arith)

append-nil {ℓ} : {A : Type ℓ} (xs : List A) → xs ++ [] ≡ xs
append-nil [] = refl
append-nil (x ∷ xs) = ap (λ r. x ∷ r) (append-nil xs)

finish-copied :
    (bytes : ℕ) (orig : List Char) (st : Copied)
    → length orig ≤ bytes
    → finish bytes orig st ≡ of_runes (st.1 ++ drop st.0 orig)
unfolding finish
finish-copied bytes orig (start, new) h = elim (Bool-cases (leb start (bytes - 1))) [
  | inl e ↦ rw e refl
  | inr e ↦ rw (e, drop_all start orig (ground arith), append-nil new) refl
]

abbrev finished : ℕ → List Char → Option Copied → Option String
finished bytes orig o = elim o [ none ↦ none | some st ↦ some (finish bytes orig st) ]

as_text : Option (List Char) → Option String
as_text none = none
as_text (some r) = some (of_runes r)

finished-copied :
    (bytes : ℕ) (orig : List Char) (o : Option Copied) (r : List Char)
    → length orig ≤ bytes
    → all_copied orig o ≡ some r
    → finished bytes orig o ≡ some (of_runes r)
unfolding all_copied as_text
finished-copied bytes orig none r h k = absurd (ground arith)
finished-copied bytes orig (some st) r h k = ap some (finish-copied bytes orig st h) ∙ ap as_text k

start : (orig : List Char) → Waiting orig 0 0 [] orig
start orig = record { position = omega arith; remaining = refl }

pub before_first :
    (c : Char) (cs : List Char) → is_separator c ≡ true → is_escape_at (c ∷ cs) (0 - 1) ≡ false
unfolding is_escape_at
before_first c cs e = separator_plain c e

-- UnEscapeSeparators never runs out of bounds, and leaves out each escape character that stands in
-- front of a separator.
pub un_escape_separators-unescaped :
    (s : String) → un_escape_separators s ≡ some (of_runes (unescaped (runes s)))
unfolding un_escape_separators unescaped of_runes runes Free
un_escape_separators-unescaped String.[] = refl
un_escape_separators-unescaped (String.◌∷◌ c s) =
    let orig = c ∷ runes s in
    finished-copied (len (String.◌∷◌ c s)) orig (each_rune (un_escape_step orig) 0 orig (0, []))
      (unescaped orig) (length-runes (String.◌∷◌ c s))
      ((un_escape-loop orig orig).0 [] 0 (start orig) (before_first c (runes s)))

-- EscapeSeparators never runs out of bounds, and puts an escape character in front of each separator
-- that has none.
pub escape_separators-escaped :
    (s : String) → escape_separators s ≡ some (of_runes (escaped false (runes s)))
unfolding escape_separators escaped of_runes runes
escape_separators-escaped String.[] = refl
escape_separators-escaped (String.◌∷◌ c s) =
    let orig = c ∷ runes s in
    finished-copied (len (String.◌∷◌ c s)) orig (each_rune (escape_step orig) 0 orig (0, []))
      (escaped false orig) (length-runes (String.◌∷◌ c s))
      (escape-loop orig orig [] [] 0 0 false (start orig) (before_first c (runes s)))

pub escape_char-escapes : is_escape escape_char ≡ true
unfolding is_escape
escape_char-escapes = refl

-- Escapes taken off again, where the runes had none.
pub unescaped-escaped :
    (r : List Char) → All (λ c. is_escape c ≡ false) r → unescaped (escaped false r) ≡ r
unfolding unescaped escaped
unescaped-escaped [] h = refl
unescaped-escaped (c ∷ r) h = elim (Bool-cases (is_separator c)) [
  | inl e ↦ rw (e, h.0, escape_char-escapes, e) (ap (λ l. c ∷ l) (unescaped-escaped r h.1))
  | inr e ↦ rw (e, h.0) (ap (λ l. c ∷ l) (unescaped-escaped r h.1))
]

pub runes-of_runes : (r : List Char) → runes (of_runes r) ≡ r
unfolding runes of_runes
runes-of_runes [] = refl
runes-of_runes (c ∷ r) = ap (λ l. c ∷ l) (runes-of_runes r)

pub of_runes-runes : (s : String) → of_runes (runes s) ≡ s
unfolding runes of_runes
of_runes-runes String.[] = refl
of_runes-runes (String.◌∷◌ c s) = ap (λ l. String.◌∷◌ c l) (of_runes-runes s)

-- What EscapeSeparators makes of a text without escape characters, UnEscapeSeparators makes the text of.
pub un_escape-escape :
    (s : String)
    → All (λ c. is_escape c ≡ false) (runes s)
    → (e : String) × ((escape_separators s ≡ some e) × (un_escape_separators e ≡ some s))
un_escape-escape s h = (
  of_runes (escaped false (runes s)),
  (
    escape_separators-escaped s,
    un_escape_separators-unescaped (of_runes (escaped false (runes s)))
        ∙ ap some (
            ap of_runes (
              ap unescaped (runes-of_runes (escaped false (runes s)))
              ∙ unescaped-escaped (runes s) h)
            ∙ of_runes-runes s),
  ),
)
