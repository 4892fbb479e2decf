-- ===== src/Prelude/Dict/Distinct.antt =====
-- Maps in which no key stands twice, as in Go's: the order of the entries is of no account.
use mathlib.Core.Path.{ap₂}
use koperator.Prelude.{
  String, ◌≡◌, refl, sym, ap, ◌∙◌, subst, inl, inr, Bool, true, false, not, none, some, List, [],
  ◌∷◌, ◌++◌, map, arith, str_eq, eq_iff, keep, any_of, All, All-impl, if◌then◌else◌, is_some,
  Bool-cases, All-append, map-append, Option-cases, if_both,
}
use koperator.Prelude.Strings.{less_string, less_string-total, less_string-IsOrder}
use koperator.Prelude.Sort.Shuffle.{
  Shuffle, nil, cons, swap, trans, Ordered, Apart, Apart-Shuffle, map-Shuffle,
}
use koperator.Prelude.Dict.{Dict, lookup, insert, remove, names, insert-new, names-insert}

pub less_string_irrefl : (s : String) → less_string s s ≡ false
unfolding less_string
less_string_irrefl String.[] = refl
less_string_irrefl (String.◌∷◌ c s) = ground (arith, less_string_irrefl s)

pub distinct_keys : (s t : String) → Ordered less_string s t → str_eq s t ≡ false
distinct_keys s t h = ground (arith, eq_iff s t, less_string_irrefl s, less_string_irrefl t)

pub Ordered-keys : (s t : String) → str_eq s t ≡ false → Ordered less_string s t
Ordered-keys s t h = elim (Bool-cases (less_string s t)) [
  | inl e ↦ inl e
  | inr e ↦ elim (Bool-cases (less_string t s)) [
    | inl f ↦ inr f
    | inr f ↦ absurd (ground (arith, eq_iff s t, less_string-total s t e f))
  ]
]

module _ {ℓ} {A : Type ℓ} (less : A → A → Bool) where
  pub Apart-append :
      (xs : List A) (k : A)
      → All (λ x. Ordered less x k) xs
      → Apart less xs
      → Apart less (xs ++ (k ∷ []))
  Apart-append [] k h hs = (tt, tt)
  Apart-append (x ∷ xs) k h hs =
      (All-append (Ordered less x) xs (k ∷ []) hs.0 (h.0, tt), Apart-append xs k h.1 hs.1)

module _ {ℓ} {V : Type ℓ} where
  abbrev pub Distinct : Dict V → Type 0
  Distinct m = Apart less_string (names m)

  lookup-none-names :
      (key : String) (m : Dict V)
      → lookup key m ≡ none
      → All (λ k. Ordered less_string k key) (names m)
  unfolding lookup
  lookup-none-names key [] h = tt
  lookup-none-names key (entry ∷ rest) h =
      (Ordered-keys entry.0 key (ground arith), lookup-none-names key rest (ground arith))

  pub Distinct-insert : (key : String) (v : V) (m : Dict V) → Distinct m → Distinct (insert key v m)
  Distinct-insert key v m h = elim (Option-cases (lookup key m)) [
    | inl e ↦
        subst (Apart less_string)
          (sym (ap names (insert-new key v m e) ∙ map-append (λ e. e.0) m ((key, v) ∷ [])))
          (Apart-append less_string (names m) key (lookup-none-names key m e) h)
    | inr (w, e) ↦ subst (Apart less_string) (sym (names-insert key v m (ap is_some e))) h
  ]

  names-keep :
      (P : String → Type 0) (p : String × V → Bool) (m : Dict V)
      → All P (names m)
      → All P (names (keep p m))
  names-keep P p [] h = tt
  names-keep P p (entry ∷ rest) h =
      let ih : All P (names (keep p rest)) = names-keep P p rest h.1 in
      if_both (λ r. All P (names r)) (p entry) (entry ∷ keep p rest) (keep p rest) (h.0, ih) ih

  Distinct-keep : (p : String × V → Bool) (m : Dict V) → Distinct m → Distinct (keep p m)
  Distinct-keep p [] h = tt
  Distinct-keep p (entry ∷ rest) h =
      let ih : Distinct (keep p rest) = Distinct-keep p rest h.1 in
      if_both Distinct (p entry) (entry ∷ keep p rest) (keep p rest)
        (names-keep (Ordered less_string entry.0) p rest h.0, ih) ih

  pub Distinct-remove : (key : String) (m : Dict V) → Distinct m → Distinct (remove key m)
  unfolding remove
  Distinct-remove key m h = Distinct-keep (λ e. not (str_eq e.0 key)) m h

  -- The order of the entries does not matter to a look-up.
  pub lookup-Shuffle :
      (key : String) {m n : Dict V} → Shuffle m n → Distinct m → lookup key m ≡ lookup key n
  unfolding lookup
  lookup-Shuffle key nil h = refl
  lookup-Shuffle key (cons e d) h =
      ap (λ r. if str_eq e.0 key then some e.1 else r) (lookup-Shuffle key d h.1)
  lookup-Shuffle key (swap x y l) h =
      let apart = distinct_keys x.0 y.0 h.0.0 in
      ground (arith, eq_iff x.0 key, eq_iff y.0 key, eq_iff x.0 y.0)
  lookup-Shuffle key (trans d e) h =
      lookup-Shuffle key d h
      ∙ lookup-Shuffle key e
          (Apart-Shuffle less_string less_string-IsOrder (map-Shuffle (λ e. e.0) d) h)

  abbrev pub value_of : V → String → Dict V → V
  value_of default key m = elim (lookup key m) [ none ↦ default | some v ↦ v ]

  value_of-skip :
      (default : V) (entry : String × V) (m : Dict V) (ks : List String)
      → All (Ordered less_string entry.0) ks
      → map (λ k. value_of default k (entry ∷ m)) ks ≡ map (λ k. value_of default k m) ks
  unfolding lookup
  value_of-skip default entry m [] h = refl
  value_of-skip default entry m (k ∷ ks) h =
      let apart = distinct_keys entry.0 k h.0 in
      ap₂ ◌∷◌ (ground arith) (value_of-skip default entry m ks h.1)

  -- The values are what the keys look up.
  pub values_by_name :
      (default : V) (m : Dict V)
      → Distinct m
      → map (λ e. e.1) m ≡ map (λ k. value_of default k m) (names m)
  unfolding lookup
  values_by_name default [] h = refl
  values_by_name default (entry ∷ rest) h =
      let skip = value_of-skip default entry rest (names rest) h.0 in
      ap₂ ◌∷◌ (ground (arith, eq_iff entry.0 entry.0)) (values_by_name default rest h.1 ∙ sym skip)

  pub names-present : (m : Dict V) → All (λ k. is_some (lookup k m) ≡ true) (names m)
  unfolding lookup
  names-present [] = tt
  names-present (entry ∷ rest) = (
    ground (arith, eq_iff entry.0 entry.0),
    All-impl (λ k. is_some (lookup k rest) ≡ true) (λ k. is_some (lookup k (entry ∷ rest)) ≡ true)
        (names rest) (λ k h. ground arith) (names-present rest),
  )

  pub is_some-lookup :
      (key : String) (m : Dict V) → is_some (lookup key m) ≡ any_of (λ k. str_eq k key) (names m)
  unfolding lookup
  is_some-lookup key [] = refl
  is_some-lookup key (entry ∷ rest) = ground (arith, is_some-lookup key rest)

  -- Which keys are found depends on the keys alone.
  pub lookup-names :
      (key : String) (m n : Dict V)
      → names m ≡ names n
      → is_some (lookup key m) ≡ is_some (lookup key n)
  lookup-names key m n h =
      is_some-lookup key m ∙ ap (any_of (λ k. str_eq k key)) h ∙ sym (is_some-lookup key n)

  lookup-skip :
      (entry : String × V) (rest m : Dict V)
      → All (λ e. Ordered less_string entry.0 e) (names m)
      → All (λ e. lookup e.0 rest ≡ some e.1) m
      → All (λ e. lookup e.0 (entry ∷ rest) ≡ some e.1) m
  unfolding lookup
  lookup-skip entry rest [] h k = tt
  lookup-skip entry rest (e ∷ m) h k =
      let apart = distinct_keys entry.0 e.0 h.0 in
      (ground (arith, k.0), lookup-skip entry rest m h.1 k.1)

  -- Each entry is what its key looks up.
  pub lookup-entries : (m : Dict V) → Distinct m → All (λ e. lookup e.0 m ≡ some e.1) m
  unfolding lookup
  lookup-entries [] h = tt
  lookup-entries (entry ∷ rest) h = (
    ground (arith, eq_iff entry.0 entry.0),
    lookup-skip entry rest rest h.0 (lookup-entries rest h.1),
  )
