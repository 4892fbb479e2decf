-- ===== src/Prelude/Strings.antt =====
-- The order of Go's strings: that of their bytes, which UTF-8 gives their characters too.
use Prim.Native.Char.{code}
use Prim.Native.String.{String}
use mathlib.Core.Path.{◌≡◌, refl}
use mathlib.Core.Bool.{Bool, true, false}
use native.Mathlib.Omega.{arith}
use text.Mathlib.TextEquality.{Char-path}
use koperator.Prelude.Tests.{ltb, ◌==◌, if◌then◌else◌}
use koperator.Prelude.Sort.{IsOrder}

unfoldable pub less_string : String → String → Bool
less_string String.[] String.[] = false
less_string String.[] (String.◌∷◌ d t) = true
less_string (String.◌∷◌ c s) String.[] = false
less_string (String.◌∷◌ c s) (String.◌∷◌ d t) =
    let rest = less_string s t in
    if ltb (code c) (code d) then true else if code c == code d then rest else false

asymmetric : (s t : String) → less_string s t ≡ true → less_string t s ≡ false
unfolding less_string
asymmetric String.[] String.[] h = refl
asymmetric String.[] (String.◌∷◌ d t) h = refl
asymmetric (String.◌∷◌ c s) String.[] h = ground arith
asymmetric (String.◌∷◌ c s) (String.◌∷◌ d t) h = ground (arith, asymmetric s t)

transitive :
    (s t u : String) → less_string t s ≡ false → less_string u t ≡ false → less_string u s ≡ false
unfolding less_string
transitive String.[] t String.[] h k = refl
transitive String.[] String.[] (String.◌∷◌ e u) h k = refl
transitive String.[] (String.◌∷◌ d t) (String.◌∷◌ e u) h k = refl
transitive (String.◌∷◌ c s) String.[] u h k = ground arith
transitive (String.◌∷◌ c s) (String.◌∷◌ d t) String.[] h k = ground arith
transitive (String.◌∷◌ c s) (String.◌∷◌ d t) (String.◌∷◌ e u) h k = ground (arith, transitive s t u)

pub less_string-IsOrder : IsOrder less_string
less_string-IsOrder = record { asymmetric = asymmetric; transitive = transitive }

-- Strings are equal where neither stands before the other.
pub less_string-total : (s t : String) → less_string s t ≡ false → less_string t s ≡ false → s ≡ t
unfolding less_string
less_string-total String.[] String.[] h k = refl
less_string-total String.[] (String.◌∷◌ d t) h k = ground arith
less_string-total (String.◌∷◌ c s) String.[] h k = ground arith
less_string-total (String.◌∷◌ c s) (String.◌∷◌ d t) h k =
    let same : c ≡ d = Char-path c d (ground arith) in
    let rest : s ≡ t = less_string-total s t (ground arith) (ground arith) in
    λ i. String.◌∷◌ (same i) (rest i)
