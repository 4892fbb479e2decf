-- ===== src/Kafka/Pods.antt =====
-- The pods of brokers, with what pkg/k8sutil/resource.go and pkg/resources/kafka/kafka.go ask about
-- them, and Go's reading of numbers.
use Prim.Native.Char.{code}
use koperator.Prelude.{
  ℕ, ◌+◌, ◌-◌, ◌*◌, String, Option, none, some, Bool, true, false, ◌&&◌, ◌||◌, List, [], ◌∷◌, ltb,
  leb, ◌==◌, str_eq, any_of, is_some, if◌then◌else◌,
}
use koperator.Prelude.Dict.{Dict}
use koperator.Prelude.Integers.{ℤ, pos, negsuc}

pub record ContainerStatus : Type 0 where
  pub is_waiting : Bool  -- State.Waiting is not nil
  pub terminated : Option String  -- the reason in State.Terminated

pub record Volume : Type 0 where
  pub name : String
  pub persistent_volume_claim : Option String  -- the name of the claim

pub record Pod : Type 0 where
  pub name : String
  pub labels : Dict String
  pub is_deleted : Bool  -- IsMarkedForDeletion
  pub phase : String
  pub reason : String
  pub init_container_statuses : List ContainerStatus
  pub container_statuses : List ContainerStatus
  pub tolerations : List String
  pub volumes : List Volume

unfoldable pub has_prefix : String → String → Bool
has_prefix s String.[] = true
has_prefix String.[] (String.◌∷◌ d t) = false
has_prefix (String.◌∷◌ c s) (String.◌∷◌ d t) =
    let rest = has_prefix s t in if code c == code d then rest else false

-- strings.Contains
unfoldable pub contains_text : String → String → Bool
contains_text String.[] t = has_prefix String.[] t
contains_text (String.◌∷◌ c s) t =
    let rest = contains_text s t in if has_prefix (String.◌∷◌ c s) t then true else rest

abbrev pub has_error : ContainerStatus → Bool
has_error s = elim s.terminated [ none ↦ false | some reason ↦ contains_text reason "Error" ]

unfoldable pub is_pod_contains_terminated_container : Pod → Bool
is_pod_contains_terminated_container p =
    any_of has_error p.init_container_statuses
    || any_of (λ s. is_some s.terminated) p.container_statuses

unfoldable pub is_pod_contains_evicted_container : Pod → Bool
is_pod_contains_evicted_container p = str_eq p.phase "Failed" && contains_text p.reason "Evicted"

unfoldable pub is_pod_contains_shutdown_container : Pod → Bool
is_pod_contains_shutdown_container p =
    str_eq p.phase "Failed"
    && (contains_text p.reason "Terminated"
        || contains_text p.reason "NodeShutdown"
        || contains_text p.reason "Shutdown")

unfoldable pub is_pod_contains_pending_container : Pod → Bool
is_pod_contains_pending_container p = any_of (λ s. s.is_waiting) p.container_statuses

-- A pod that is both terminating and pending is listed twice.
unfoldable pub get_pods_in_terminating_or_pending_state : List Pod → List Pod
get_pods_in_terminating_or_pending_state [] = []
get_pods_in_terminating_or_pending_state (p ∷ ps) =
    let rest = get_pods_in_terminating_or_pending_state ps in
    let pending = if is_pod_contains_pending_container p then p ∷ rest else rest in
    if p.is_deleted then p ∷ pending else pending

unfoldable pub are_pods_already_deleted : List Pod → Bool
are_pods_already_deleted [] = true
are_pods_already_deleted (p ∷ ps) =
    let rest = are_pods_already_deleted ps in if p.is_deleted then rest else false

-- the decimal digits after those read into n
unfoldable pub read_digits : ℕ → String → Option ℕ
read_digits n String.[] = some n
read_digits n (String.◌∷◌ c s) =
    let rest = read_digits (n * 10 + (code c - 48)) s in
    if leb 48 (code c) && leb (code c) 57 then rest else none

abbrev pub read_number : String → Option ℕ
read_number String.[] = none
read_number (String.◌∷◌ c s) = read_digits 0 (String.◌∷◌ c s)

abbrev pub positive : Option ℕ → Option ℤ
positive none = none
positive (some n) = if ltb n 2147483648 then some (pos n) else none

abbrev pub negative : Option ℕ → Option ℤ
negative none = none
negative (some n) =
    if n == 0 then some (pos 0) else if leb n 2147483648 then some (negsuc (n - 1)) else none

-- strconv.ParseInt(s, 10, 32)
unfoldable pub parse_int : String → Option ℤ
parse_int String.[] = none
parse_int (String.◌∷◌ c s) =
    if code c == 43
    then positive (read_number s)
    else if code c == 45
    then negative (read_number s)
    else positive (read_number (String.◌∷◌ c s))
