-- ===== src/Properties/Separators/Reference.antt =====
-- The loops over runes against direct descriptions of what they compute.
use Prim.Native.Char.{Char}
use koperator.Prelude.{
  ℕ, zero, suc, ◌+◌, ◌-◌, ◌≡◌, refl, sym, ap, ◌∙◌, subst, Bool, true, false, ◌&&◌, not, Option,
  none, some, List, [], ◌∷◌, ◌++◌, get_elem?, length, leb, if◌then◌else◌, arith, Bool-cases, inl,
  inr, length-append,
}
use koperator.Properties.Separators.{
  is_separator, is_escape, escape_char, drop, take?, slice_of, is_escape_at, Copied, copy,
  un_escape_step, escape_step, each_rune,
}

abbrev starts_with_separator : List Char → Bool
starts_with_separator [] = false
starts_with_separator (c ∷ r) = is_separator c

-- An escape character in front of a separator is left out.
unfoldable pub unescaped : List Char → List Char
unescaped [] = []
unescaped (c ∷ r) =
    let rest = unescaped r in if is_escape c && starts_with_separator r then rest else c ∷ rest

-- A separator gets an escape character, but where one stands in front of it.
unfoldable pub escaped : Bool → List Char → List Char
escaped after_escape [] = []
escaped after_escape (c ∷ r) =
    let rest = escaped (is_escape c) r in
    if is_separator c && not after_escape then escape_char ∷ c ∷ rest else c ∷ rest

pub separator_plain : (c : Char) → is_separator c ≡ true → is_escape c ≡ false
unfolding is_separator is_escape
separator_plain c h = ground arith

and_false : (b : Bool) → (b && false) ≡ false
and_false true = refl
and_false false = refl

module _ {ℓ} {A : Type ℓ} where
  take?-append : (xs ys : List A) → take? (length xs) (xs ++ ys) ≡ some xs
  take?-append [] ys = refl
  take?-append (x ∷ xs) ys = rw (take?-append xs ys) refl

  drop-append : (xs ys : List A) → drop (length xs) (xs ++ ys) ≡ ys
  drop-append [] ys = refl
  drop-append (x ∷ xs) ys = drop-append xs ys

  drop-nil : (n : ℕ) → drop {A = A} n [] ≡ []
  drop-nil zero = refl
  drop-nil (suc n) = refl

  drop-drop : (m n k : ℕ) (xs : List A) → m + n ≡ k → drop n (drop m xs) ≡ drop k xs
  drop-drop zero n k xs h = ap (λ i. drop i xs) (omega arith)
  drop-drop (suc m) n k [] h = drop-nil n ∙ sym (drop-nil k)
  drop-drop (suc m) n zero (x ∷ xs) h = absurd (omega arith)
  drop-drop (suc m) n (suc k) (x ∷ xs) h = drop-drop m n k xs (omega arith)

  drop-behind : (xs : List A) (y : A) (ys : List A) → drop (suc (length xs)) (xs ++ (y ∷ ys)) ≡ ys
  drop-behind [] y ys = refl
  drop-behind (x ∷ xs) y ys = drop-behind xs y ys

  pub get_elem?-drop :
      (n : ℕ) (xs : List A) (x : A) (ys : List A) → drop n xs ≡ x ∷ ys → get_elem? xs n ≡ some x
  get_elem?-drop zero [] x ys h = ground arith
  get_elem?-drop zero (z ∷ xs) x ys h = ground arith
  get_elem?-drop (suc n) [] x ys h = ground arith
  get_elem?-drop (suc n) (z ∷ xs) x ys h = get_elem?-drop n xs x ys h

  append_assoc : (xs ys zs : List A) → (xs ++ ys) ++ zs ≡ xs ++ (ys ++ zs)
  append_assoc [] ys zs = refl
  append_assoc (x ∷ xs) ys zs = ap (λ r. x ∷ r) (append_assoc xs ys zs)

-- What has been copied, and what is left to copy.
unfoldable pub all_copied : List Char → Option Copied → Option (List Char)
all_copied orig none = none
all_copied orig (some (start, new)) = some (new ++ drop start orig)

-- The rune before idx is an escape character just where `before` says so, if one asks.
abbrev pub Before : List Char → ℕ → Bool → List Char → Type 0
Before orig idx before [] = Unit
Before orig idx before (c ∷ cs) = is_separator c ≡ true → is_escape_at orig (idx - 1) ≡ before

escape_here :
    (orig : List Char) (i : ℕ) (c : Char)
    → get_elem? orig i ≡ some c
    → is_escape_at orig i ≡ is_escape c
unfolding is_escape_at
escape_here orig i c h = rw (is_escape_at, h) refl

pub Before-of_last :
    (orig : List Char) (idx : ℕ) (c : Char) (cs : List Char)
    → get_elem? orig idx ≡ some c
    → Before orig (suc idx) (is_escape c) cs
Before-of_last orig idx c [] h = tt
Before-of_last orig idx c (d ∷ cs) h =
    λ e. let at : suc idx - 1 ≡ idx = omega arith in rw at (escape_here orig idx c h)

module _ (orig : List Char) where
  -- the characters that wait to be copied
  pub record Waiting (start idx : ℕ) (pend rest : List Char) : Type 0 where
    pub position : start + length pend ≡ idx
    pub remaining : drop start orig ≡ pend ++ rest

  module _ {start idx : ℕ} {pend : List Char} {c : Char} {cs : List Char}
      (w : Waiting start idx pend (c ∷ cs)) where
    waiting_more : Waiting start (suc idx) (pend ++ (c ∷ [])) cs
    waiting_more = record {
      position = ground (arith, w.position, length-append pend (c ∷ []));
      remaining = w.remaining ∙ sym (append_assoc pend (c ∷ []) cs);
    }

    waiting_none : Waiting (suc idx) (suc idx) [] cs
    waiting_none = record {
      position = omega arith;
      remaining =
          sym (drop-drop start (suc (length pend)) (suc idx) orig (ground (arith, w.position)))
          ∙ ap (drop (suc (length pend))) w.remaining
          ∙ drop-behind pend c cs;
    }

    waiting-slice : slice_of orig start idx ≡ some pend
    unfolding slice_of
    waiting-slice =
        let fits : leb start idx ≡ true = ground (arith, w.position) in
        let count : idx - start ≡ length pend = ground (arith, w.position) in
        rw (fits, count, w.remaining) (take?-append pend (c ∷ cs))

    waiting-Before : Before orig (suc idx) (is_escape c) cs
    waiting-Before = Before-of_last orig idx c cs (
        get_elem?-drop idx orig c cs (
          sym (drop-drop start (length pend) idx orig w.position)
          ∙ ap (drop (length pend)) w.remaining
          ∙ drop-append pend (c ∷ cs)))

  skip :
      (pend new : List Char) (c : Char) (r : List Char)
      → some (new ++ ((pend ++ (c ∷ [])) ++ r)) ≡ some (new ++ (pend ++ (c ∷ r)))
  skip pend new c r = ap (λ l. some (new ++ l)) (append_assoc pend (c ∷ []) r)

  added :
      (pend new more r : List Char)
      → some ((new ++ (pend ++ more)) ++ r) ≡ some (new ++ (pend ++ (more ++ r)))
  added pend new more r =
      ap some (append_assoc new (pend ++ more) r ∙ ap (λ l. new ++ l) (append_assoc pend more r))

  escape-skip :
      (idx : ℕ) (c : Char) (st : Copied)
      → (is_separator c && not (is_escape_at orig (idx - 1))) ≡ false
      → escape_step orig idx c st ≡ some st
  unfolding escape_step
  escape-skip idx c st h = rw h refl

  escape-copy :
      (idx : ℕ) (c : Char) (start : ℕ) (pend new : List Char)
      → (is_separator c && not (is_escape_at orig (idx - 1))) ≡ true
      → slice_of orig start idx ≡ some pend
      → escape_step orig idx c (start, new)
        ≡ some (suc idx, new ++ (pend ++ (escape_char ∷ c ∷ [])))
  unfolding escape_step
  escape-copy idx c start pend new h k = rw (h, copy, k) refl

  -- The loop of EscapeSeparators, from any of its states.
  pub escape-loop :
      (rest pend new : List Char) (start idx : ℕ) (before : Bool)
      → Waiting start idx pend rest
      → Before orig idx before rest
      → all_copied orig (each_rune (escape_step orig) idx rest (start, new))
        ≡ some (new ++ (pend ++ escaped before rest))
  unfolding each_rune all_copied escaped
  escape-loop [] pend new start idx before w b = rw w.remaining refl
  escape-loop (c ∷ cs) pend new start idx before w b =
      let more =
        escape-loop cs (pend ++ (c ∷ [])) new start (suc idx) (is_escape c) (waiting_more w)
          (waiting-Before w)
        ∙ skip pend new c (escaped (is_escape c) cs) in
      let next =
        escape-loop cs [] (new ++ (pend ++ (escape_char ∷ c ∷ []))) (suc idx) (suc idx)
          (is_escape c) (waiting_none w) (waiting-Before w)
        ∙ added pend new (escape_char ∷ c ∷ []) (escaped (is_escape c) cs) in
      elim (Bool-cases (is_separator c)) [
        | inl e ↦ elim (Bool-cases before) [
          | inl f ↦ rw (each_rune, escape-skip idx c (start, new) (rw (e, b e, f) refl), e, f) more
          | inr f ↦
              rw
                (
                  each_rune,
                  escape-copy idx c start pend new (rw (e, b e, f) refl) (waiting-slice w),
                  e,
                  f,
                )
                next
        ]
        | inr e ↦ rw (each_rune, escape-skip idx c (start, new) (rw e refl), e) more
      ]

  un_escape-skip :
      (idx : ℕ) (c : Char) (st : Copied)
      → (is_separator c && is_escape_at orig (idx - 1)) ≡ false
      → un_escape_step orig idx c st ≡ some st
  unfolding un_escape_step
  un_escape-skip idx c st h = rw h refl

  un_escape-copy :
      (idx : ℕ) (c : Char) (start : ℕ) (front new : List Char)
      → (is_separator c && is_escape_at orig (suc idx - 1)) ≡ true
      → slice_of orig start idx ≡ some front
      → un_escape_step orig (suc idx) c (start, new)
        ≡ some (suc (suc idx), new ++ (front ++ (c ∷ [])))
  unfolding un_escape_step
  un_escape-copy idx c start front new h k =
      let at : suc idx - 1 ≡ idx = omega arith in rw (h, copy, at, k) refl

  first :
      (idx : ℕ) (c : Char) (cs : List Char)
      → Before orig idx false (c ∷ cs)
      → (is_separator c && is_escape_at orig (idx - 1)) ≡ false
  first idx c cs b = elim (Bool-cases (is_separator c)) [
    | inl e ↦ rw (e, b e) refl
    | inr e ↦ rw e refl
  ]

  -- The loop of UnEscapeSeparators where nothing waits, and where a last character does.
  unfoldable pub Free : List Char → Type 0
  Free rest =
      (new : List Char) (idx : ℕ)
      → Waiting idx idx [] rest
      → Before orig idx false rest
      → all_copied orig (each_rune (un_escape_step orig) idx rest (idx, new))
        ≡ some (new ++ unescaped rest)

  unfoldable pub Held : List Char → Type 0
  Held rest =
      (front new : List Char) (l : Char) (start idx : ℕ)
      → Waiting start idx front (l ∷ rest)
      → all_copied orig (each_rune (un_escape_step orig) (suc idx) rest (start, new))
        ≡ some (new ++ (front ++ unescaped (l ∷ rest)))

  pub un_escape-loop : (rest : List Char) → Free rest × Held rest
  unfolding Free Held each_rune all_copied unescaped
  un_escape-loop [] = (
    λ new idx w b. rw w.remaining refl,
    λ front new l start idx w. elim (Bool-cases (is_escape l)) [
      | inl e ↦ rw (w.remaining, e) refl
      | inr e ↦ rw (w.remaining, e) refl
    ],
  )
  un_escape-loop (c ∷ cs) = (
    λ new idx w b.
        rw (each_rune, un_escape-skip idx c (idx, new) (first idx c cs b))
          ((un_escape-loop cs).1 [] new c idx idx w),
    λ front new l start idx w.
        let held =
          (un_escape-loop cs).1 (front ++ (l ∷ [])) new c start (suc idx) (waiting_more w)
          ∙ skip front new l (unescaped (c ∷ cs)) in
        let free = λ (e : is_separator c ≡ true).
          (un_escape-loop cs).0 (new ++ (front ++ (c ∷ []))) (suc (suc idx))
            (waiting_none (waiting_more w))
            (subst (λ b. Before orig (suc (suc idx)) b cs) (separator_plain c e)
              (waiting-Before (waiting_more w)))
          ∙ added front new (c ∷ []) (unescaped cs) in
        elim (Bool-cases (is_separator c)) [
          | inl e ↦ elim (Bool-cases (is_escape l)) [
            | inl f ↦
                rw
                  (
                    each_rune,
                    un_escape-copy idx c start front new (rw (e, waiting-Before w e, f) refl)
                        (waiting-slice w),
                    e,
                    f,
                    separator_plain c e,
                  )
                  (free e)
            | inr f ↦
                rw
                  (
                    each_rune,
                    un_escape-skip (suc idx) c (start, new) (rw (e, waiting-Before w e, f) refl),
                    e,
                    f,
                  )
                  held
          ]
          | inr e ↦
              rw
                (
                  each_rune,
                  un_escape-skip (suc idx) c (start, new) (rw e refl),
                  e,
                  and_false (is_escape l),
                )
                held
        ],
  )
