-- ===== src/Task/Capacity.antt =====
-- What brokersJBODSelector decides about one broker.
use koperator.Prelude.{
  ◌≡◌, refl, sym, ap, ◌∙◌, String, Option, none, some, Bool, true, false, ◌||◌, List, [], ◌∷◌,
  arith, str_eq, eq_iff, if◌then◌else◌,
}
use koperator.Prelude.Dict.{Dict, lookup}
use koperator.Api.Failure.{ok}
use koperator.Task.Apply.{map_option}
use koperator.Task.Brokers.{
  DiskCapacity, no_disk, jbod_disk, other_disk, BrokerCapacity, not_an_object, broker_id_malformed,
  no_broker_id, broker_capacity, mark, mark_all, mark_capacity, mark_capacities,
}

-- The mark of a broker after one entry, read off the entry alone.
abbrev pub mark_of : String → BrokerCapacity → Bool → Bool
mark_of id (broker_capacity i other_disk) b = if str_eq i id || str_eq i "-1" then false else b
mark_of id (broker_capacity i jbod_disk) b = if str_eq i id then true else b
mark_of id _ b = b

-- The mark after all entries: the last one that speaks of the broker decides.
abbrev pub last_mark_of : String → List BrokerCapacity → Bool → Bool
last_mark_of id [] b = b
last_mark_of id (c ∷ cs) b = last_mark_of id cs (mark_of id c b)

lookup-mark :
    (i id : String) (jbod : Bool) (m : Dict Bool)
    → lookup id (mark i jbod m) ≡ map_option (λ b. if str_eq i id then jbod else b) (lookup id m)
unfolding lookup mark
lookup-mark i id jbod [] = refl
lookup-mark i id jbod ((k, b) ∷ m) =
    let ih = lookup-mark i id jbod m in ground (arith, eq_iff k i, eq_iff k id, eq_iff i id)

lookup-mark_all :
    (id : String) (jbod : Bool) (m : Dict Bool)
    → lookup id (mark_all jbod m) ≡ map_option (λ b. jbod) (lookup id m)
unfolding lookup mark_all
lookup-mark_all id jbod [] = refl
lookup-mark_all id jbod ((k, b) ∷ m) = let ih = lookup-mark_all id jbod m in ground arith

compose :
    (f g : Bool → Bool) (o : Option Bool)
    → map_option f (map_option g o) ≡ map_option (λ b. f (g b)) o
compose f g none = refl
compose f g (some b) = refl

same : (f : Bool → Bool) (o : Option Bool) → ((b : Bool) → f b ≡ b) → o ≡ map_option f o
same f none h = refl
same f (some b) h = ap some (sym (h b))

lookup-mark_other :
    (i id : String) (default : Bool) (m : Dict Bool)
    → str_eq i "-1" ≡ default
    → lookup id (mark i false (if default then mark_all false m else m))
      ≡ map_option (λ b. if str_eq i id || default then false else b) (lookup id m)
lookup-mark_other i id default m h = ground (
  arith,
  lookup-mark i id false (if default then mark_all false m else m),
  lookup-mark_all id false m,
)

lookup-mark_capacity :
    (i id : String) (disk : DiskCapacity) (m : Dict Bool)
    → lookup id (mark_capacity i disk m)
      ≡ map_option (mark_of id (broker_capacity i disk)) (lookup id m)
unfolding mark_capacity
lookup-mark_capacity i id no_disk m = same (λ b. b) (lookup id m) (λ b. refl)
lookup-mark_capacity i id jbod_disk m = lookup-mark i id true m
lookup-mark_capacity i id other_disk m = lookup-mark_other i id (str_eq i "-1") m refl

-- The loop over the capacity configuration marks each broker by itself: where it ends without an
-- error, the mark of a broker is the one that the last entry about it gives, an entry for the broker
-- or one for all brokers that is not JBOD; the mark stays where there is none, and a broker without
-- a mark gets none.
pub mark_capacities-last :
    (cs : List BrokerCapacity) (m m' : Dict Bool) (id : String)
    → mark_capacities cs m ≡ ok m'
    → lookup id m' ≡ map_option (last_mark_of id cs) (lookup id m)
unfolding mark_capacities
mark_capacities-last [] m m' id h = cc (same (λ b. b) (lookup id m) (λ b. refl))
mark_capacities-last (not_an_object ∷ cs) m m' id h = mark_capacities-last cs m m' id h
mark_capacities-last (no_broker_id ∷ cs) m m' id h = mark_capacities-last cs m m' id h
mark_capacities-last (broker_id_malformed ∷ cs) m m' id h = ground arith
mark_capacities-last (broker_capacity i disk ∷ cs) m m' id h =
    mark_capacities-last cs (mark_capacity i disk m) m' id h
    ∙ ap (map_option (last_mark_of id cs)) (lookup-mark_capacity i id disk m)
    ∙ compose (last_mark_of id cs) (mark_of id (broker_capacity i disk)) (lookup id m)
