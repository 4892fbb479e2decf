-- ===== src/Prelude/Dict/Pigeonhole.antt =====
-- Lists of distinct keys: one within another is no longer, and as long only if it has all of it.
use koperator.Prelude.{
  String, ◌≡◌, refl, ◌∙◌, ◌≤◌, ◌<◌, Bool, true, false, not, List, [], ◌∷◌, arith, str_eq, eq_iff,
  keep, any_of, All, length, Bool-cases, inl, inr, length-keep,
}
use koperator.Prelude.Strings.{less_string}
use koperator.Prelude.Sort.Shuffle.{Apart, Ordered}
use koperator.Prelude.Dict.Distinct.{distinct_keys, Ordered-keys}

unfoldable pub has : List String → String → Bool
has ks k = any_of (λ j. str_eq j k) ks

without : String → List String → List String
without k ks = keep (λ j. not (str_eq j k)) ks

length-without :
    (k : String) (ks : List String) → has ks k ≡ true → length (without k ks) < length ks
unfolding has without
length-without k [] h = ground arith
length-without k (j ∷ ks) h =
    ground (arith, length-without k ks, length-keep (λ i. not (str_eq i k)) ks)

has-without :
    (k : String) (ks : List String) (j : String)
    → str_eq k j ≡ false
    → has (without k ks) j ≡ has ks j
unfolding has without
has-without k [] j h = refl
has-without k (i ∷ ks) j h =
    ground (arith, has-without k ks j h, eq_iff i k, eq_iff i j, eq_iff k j)

All-without :
    (k : String) (ks ls : List String)
    → All (Ordered less_string k) ks
    → All (λ j. has ls j ≡ true) ks
    → All (λ j. has (without k ls) j ≡ true) ks
All-without k [] ls h hs = tt
All-without k (j ∷ ks) ls h hs =
    (has-without k ls j (distinct_keys k j h.0) ∙ hs.0, All-without k ks ls h.1 hs.1)

pub length-subset :
    (ks ls : List String)
    → Apart less_string ks
    → All (λ j. has ls j ≡ true) ks
    → length ks ≤ length ls
length-subset [] ls h hs = ground arith
length-subset (k ∷ ks) ls h hs =
    let rest = length-subset ks (without k ls) h.1 (All-without k ks ls h.0 hs.1) in
    let less = length-without k ls hs.0 in ground arith

missing : (ks : List String) (k : String) → has ks k ≡ false → All (Ordered less_string k) ks
unfolding has
missing [] k h = tt
missing (j ∷ ks) k h =
    (Ordered-keys k j (ground (arith, eq_iff j k, eq_iff k j)), missing ks k (ground arith))

pub has-subset :
    (ks ls : List String)
    → Apart less_string ks
    → All (λ j. has ls j ≡ true) ks
    → length ls ≤ length ks
    → (k : String) → has ls k ≡ true
    → has ks k ≡ true
has-subset ks ls h hs bound k e = elim (Bool-cases (has ks k)) [
  | inl f ↦ f
  | inr f ↦
      let more = length-subset (k ∷ ks) ls (missing ks k f, h) (e, hs) in absurd (ground arith)
]
