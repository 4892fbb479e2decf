-- ===== src/Properties/Difference.antt =====
-- Equal and Diff of properties/pkg/properties.go agree with one another.
use koperator.Prelude.{
  String, ◌≡◌, refl, sym, ap, ◌∙◌, subst, ◌≤◌, ◌↔◌, Bool, true, false, Option, none, some, List, [],
  ◌∷◌, arith, str_eq, eq_iff, All, All-impl, if◌then◌else◌, length, length-map, inl, inr, is_some,
  any_of, ◌&&◌, ◌||◌, Bool-cases,
}
use koperator.Prelude.Dict.{Dict, lookup, insert, names, lookup-insert}
use koperator.Prelude.Dict.Distinct.{names-present, is_some-lookup}
use koperator.Prelude.Dict.Pigeonhole.{has, length-subset, has-subset}
use koperator.Properties.Types.{Property, Properties, DiffResult}
use koperator.Properties.Store.{
  same_property, equal_keys, equal, difference, store_difference, diff_keys, diff, add_keys,
}
use koperator.Properties.Ordered.{Represents}
use koperator.Properties.Refinement.{Script, build, meaning, build-Represents}

module _ (p m : Properties) where
  differs : String → Option (Property × Property)
  differs key = difference (lookup key p.properties) (lookup key m.properties)

  lookup-store :
      (key k : String) (o : Option (Property × Property)) (result : DiffResult)
      → lookup key (store_difference k o result)
        ≡ (if str_eq k key && is_some o then o else lookup key result)
  lookup-store key k none result = ground arith
  lookup-store key k (some pair) result = lookup-insert k key pair result ∙ ground arith

  lookup-diff_keys :
      (key : String) (keys : List String) (result : DiffResult)
      → lookup key (diff_keys keys p m result) ≡ (
          if any_of (λ k. str_eq k key) keys && is_some (differs key)
          then differs key
          else lookup key result)
  unfolding diff_keys differs
  lookup-diff_keys key [] result = refl
  lookup-diff_keys key (k ∷ keys) result =
      lookup-diff_keys key keys (store_difference k (differs k) result)
      ∙ ground (arith, lookup-store key k (differs k) result, eq_iff k key)

has-add_keys :
    (key : String) (keys : List String) (m : Dict Unit)
    → is_some (lookup key (add_keys keys m))
      ≡ (any_of (λ k. str_eq k key) keys || is_some (lookup key m))
has-add_keys key [] m = refl
has-add_keys key (k ∷ keys) m =
    has-add_keys key keys (insert k tt m) ∙ ground (arith, lookup-insert k key tt m)

lookup-empty {ℓ} : {V : Type ℓ} (m : Dict V) → ((key : String) → lookup key m ≡ none) → m ≡ []
unfolding lookup
lookup-empty [] h = refl
lookup-empty (entry ∷ rest) h = ground (arith, h entry.0, eq_iff entry.0 entry.0)

-- Both have the property, or neither has it.
abbrev agree : Option Property → Option Property → Bool
agree none none = true
agree none (some q) = false
agree (some p) t = same_property (some p) t

-- what the specification expects of Diff under a key
abbrev pub reported : Option Property → Option Property → Option (Property × Property)
reported none none = none
reported none (some m) = difference none (some m)
reported (some p) m = difference (some p) m

reported-found :
    (o n : Option Property)
    → (if (is_some n || is_some o) && is_some (difference o n) then difference o n else none)
      ≡ reported o n
reported-found none none = refl
reported-found none (some m) = refl
reported-found (some p) none = refl
reported-found (some p) (some m) = ground arith

reported-agree : (o n : Option Property) → (reported o n ≡ none) ↔ (agree o n ≡ true)
reported-agree none none = (λ h. refl, λ h. refl)
reported-agree none (some m) = (λ h. ground arith, λ h. ground arith)
reported-agree (some p) none = (λ h. ground arith, λ h. ground arith)
reported-agree (some p) (some m) = (λ h. ground arith, λ h. ground arith)

same_of_agree :
    (o n : Option Property) → agree o n ≡ true → is_some n ≡ true → same_property o n ≡ true
same_of_agree none none h k = ground arith
same_of_agree none (some m) h k = ground arith
same_of_agree (some p) n h k = h

agree_of_same : (o n : Option Property) → same_property o n ≡ true → agree o n ≡ true
agree_of_same none n h = ground arith
agree_of_same (some p) n h = h

agree_none : (o n : Option Property) → is_some o ≡ false → is_some n ≡ false → agree o n ≡ true
agree_none none none h k = refl
agree_none none (some m) h k = ground arith
agree_none (some p) n h k = ground arith

some_of_same : (o n : Option Property) → same_property o n ≡ true → is_some o ≡ true
some_of_same none n h = ground arith
some_of_same (some p) n h = refl

some_of_agree : (o n : Option Property) → agree o n ≡ true → is_some n ≡ is_some o
some_of_agree none none h = refl
some_of_agree none (some m) h = ground arith
some_of_agree (some p) none h = ground arith
some_of_agree (some p) (some m) h = refl

All-has :
    (P : String → Type 0) (ks : List String) → All P ks → (key : String) → has ks key ≡ true → P key
unfolding has
All-has P [] h key e = absurd (ground arith)
All-has P (k ∷ ks) h key e = elim (Bool-cases (str_eq k key)) [
  | inl f ↦ subst P ((eq_iff k key).0 f) h.0
  | inr f ↦ All-has P ks h.1 key (ground arith)
]

module _ (p : Properties) (d : Dict Property) (r : Represents p d) where
  has-names : (key : String) → has (names p.keys) key ≡ is_some (lookup key d)
  unfolding has
  has-names key = sym (is_some-lookup key p.keys) ∙ r.domain key ∙ ap is_some (r.content key)

  All-present : All (λ key. is_some (lookup key d) ≡ true) (names p.keys)
  All-present =
      All-impl (λ key. is_some (lookup key p.keys) ≡ true) (λ key. is_some (lookup key d) ≡ true)
        (names p.keys) (λ key h. ap is_some (sym (r.content key)) ∙ sym (r.domain key) ∙ h)
        (names-present p.keys)

module _ (p m : Properties) (d n : Dict Property) (r : Represents p d) (s : Represents m n) where
  has-combined :
      (key : String)
      → any_of (λ k. str_eq k key) (names (add_keys (names m.keys) (add_keys (names p.keys) [])))
        ≡ (is_some (lookup key n) || is_some (lookup key d))
  unfolding has lookup
  has-combined key =
      sym (is_some-lookup key (add_keys (names m.keys) (add_keys (names p.keys) [])))
      ∙ has-add_keys key (names m.keys) (add_keys (names p.keys) [])
      ∙ ground (arith, has-add_keys key (names p.keys) [], has-names p d r key, has-names m n s key)

  -- Diff has, under each key, the two properties where they differ.
  lookup-diff :
      (key : String) → lookup key (diff p (some m)) ≡ reported (lookup key d) (lookup key n)
  unfolding diff differs lookup
  lookup-diff key =
      lookup-diff_keys p m key (names (add_keys (names m.keys) (add_keys (names p.keys) []))) []
      ∙ rw (has-combined key, r.content key, s.content key)
          (reported-found (lookup key d) (lookup key n))

  equal_keys-same :
      (keys : List String)
      → equal_keys keys p m ≡ true
      → All (λ key. same_property (lookup key d) (lookup key n) ≡ true) keys
  unfolding equal_keys
  equal_keys-same [] h = tt
  equal_keys-same (key ∷ keys) h =
      (ground (arith, r.content key, s.content key), equal_keys-same keys (ground arith))

  equal_keys-of_agree :
      ((key : String) → agree (lookup key d) (lookup key n) ≡ true)
      → (keys : List String) → All (λ key. is_some (lookup key n) ≡ true) keys
      → equal_keys keys p m ≡ true
  unfolding equal_keys
  equal_keys-of_agree h [] k = refl
  equal_keys-of_agree h (key ∷ keys) k =
      let here = same_of_agree (lookup key d) (lookup key n) (h key) k.0 in
      ground (arith, r.content key, s.content key, equal_keys-of_agree h keys k.1)

  -- The keys of either are keys of the other.
  subset :
      All (λ key. same_property (lookup key d) (lookup key n) ≡ true) (names m.keys)
      → All (λ key. has (names p.keys) key ≡ true) (names m.keys)
  subset =
      All-impl (λ key. same_property (lookup key d) (lookup key n) ≡ true)
        (λ key. has (names p.keys) key ≡ true) (names m.keys)
        (λ key h. has-names p d r key ∙ some_of_same (lookup key d) (lookup key n) h)

  subset_of_agree :
      ((key : String) → agree (lookup key d) (lookup key n) ≡ true)
      → All (λ key. has (names m.keys) key ≡ true) (names p.keys)
  subset_of_agree h =
      All-impl (λ key. is_some (lookup key d) ≡ true) (λ key. has (names m.keys) key ≡ true)
        (names p.keys)
        (λ key e.
          has-names m n s key ∙ ground (arith, some_of_agree (lookup key d) (lookup key n) (h key)))
        (All-present p d r)

  equal-agree :
      equal p (some m) ≡ true → (key : String) → agree (lookup key d) (lookup key n) ≡ true
  unfolding equal
  equal-agree h key =
      let matching = equal_keys-same (names m.keys) (ground arith) in
      let bound : length p.keys ≤ length m.keys = ground arith in
      let found =
        has-subset (names m.keys) (names p.keys) s.distinct (subset matching)
          (ground (arith, length-map (λ e. e.0) p.keys, length-map (λ e. e.0) m.keys)) key in
      elim (Bool-cases (has (names m.keys) key)) [
        | inl e ↦ agree_of_same (lookup key d) (lookup key n) (
            All-has (λ key. same_property (lookup key d) (lookup key n) ≡ true) (names m.keys)
              matching key e)
        | inr e ↦ elim (Bool-cases (has (names p.keys) key)) [
          | inl f ↦ absurd (ground (arith, found f))
          | inr f ↦
              agree_none (lookup key d) (lookup key n) (sym (has-names p d r key) ∙ f)
                (sym (has-names m n s key) ∙ e)
        ]
      ]

  agree-equal :
      ((key : String) → agree (lookup key d) (lookup key n) ≡ true) → equal p (some m) ≡ true
  unfolding equal
  agree-equal h =
      let keys = equal_keys-of_agree h (names m.keys) (All-present m n s) in
      let more = length-subset (names p.keys) (names m.keys) r.distinct (subset_of_agree h) in
      let less = length-subset (names m.keys) (names p.keys) s.distinct (
        All-impl (λ key. is_some (lookup key n) ≡ true) (λ key. has (names p.keys) key ≡ true)
          (names m.keys)
          (λ key e.
            has-names p d r key
            ∙ ground (arith, some_of_agree (lookup key d) (lookup key n) (h key)))
          (All-present m n s)) in
      ground (arith, length-map (λ e. e.0) p.keys, length-map (λ e. e.0) m.keys)

  equal-diff : (equal p (some m) ≡ true) ↔ (diff p (some m) ≡ [])
  unfolding lookup
  equal-diff = (
    λ h. lookup-empty (diff p (some m)) (λ key.
        lookup-diff key ∙ (reported-agree (lookup key d) (lookup key n)).1 (equal-agree h key)),
    λ h. agree-equal (λ key.
        (reported-agree (lookup key d) (lookup key n)).0
          (sym (lookup-diff key) ∙ ap (lookup key) h)),
  )

-- For two objects that came to be by any calls of the operations, Equal is true just where Diff finds
-- no difference.
pub equal-diff_built :
    (s t : Script)
    → (equal (build s) (some (build t)) ≡ true) ↔ (diff (build s) (some (build t)) ≡ [])
equal-diff_built s t =
    equal-diff (build s) (build t) (meaning s) (meaning t) (build-Represents s) (build-Represents t)
