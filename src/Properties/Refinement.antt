-- ===== src/Properties/Refinement.antt =====
-- The operations of Properties against those of an ordered dictionary: a list of properties under
-- their keys, in which a new one is added last.
use koperator.Prelude.{
  String, ◌≡◌, sym, ap, ◌∙◌, subst, none, some, [], ◌∷◌, All, All-impl, if◌then◌else◌, length,
  if_related,
}
use koperator.Prelude.Dict.{Dict, lookup, insert, remove, names}
use koperator.Prelude.Dict.Distinct.{lookup-entries}
use koperator.Properties.Types.{Property, Properties, MergeOption}
use koperator.Properties.Store.{
  new_properties, get, unsafe_keys, len, put, delete, is_kept, or_zero, property_of, merge_keys,
  merge, sort,
}
use koperator.Properties.Ordered.{Represents, new_properties-Represents, put-Represents}
use koperator.Properties.Ordered.Delete.{delete-Represents}
use koperator.Properties.Ordered.Reindex.{
  sort-Represents, sort_entries, Distinct-entries, length-entries,
}

-- the specification of merge: the other's properties, one after the other
unfoldable pub merge_entries : MergeOption → Dict Property → Dict Property → Dict Property
merge_entries option [] d = d
merge_entries option (e ∷ m) d =
    merge_entries option m (if is_kept option (lookup e.0 d) then d else insert e.0 e.1 d)

module _ (m : Properties) (option : MergeOption) where
  -- Each step of merge puts the property that its key stands for.
  merge_keys-Represents :
      (entries : Dict Property) (p : Properties) (d : Dict Property)
      → All (λ e. property_of m e.0 ≡ e.1) entries
      → All (λ e. e.1.key ≡ e.0) entries
      → Represents p d
      → Represents (merge_keys (names entries) m option p) (merge_entries option entries d)
  unfolding merge_keys merge_entries
  merge_keys-Represents [] p d h k r = r
  merge_keys-Represents (e ∷ entries) p d h k r =
      merge_keys-Represents entries
        (if is_kept option (lookup e.0 p.properties) then p else put (property_of m e.0) p)
        (if is_kept option (lookup e.0 d) then d else insert e.0 e.1 d) h.1 k.1
        (rw (r.content e.0, h.0)
          (if_related Represents (is_kept option (lookup e.0 d)) p (put e.1 p) d (insert e.0 e.1 d)
            r
            (subst (λ key. Represents (put e.1 p) (insert key e.1 d)) k.0
              (put-Represents e.1 p d r))))

entry_value :
    (m : Properties) (d : Dict Property) → Represents m d → All (λ e. property_of m e.0 ≡ e.1) d
entry_value m d r =
    All-impl (λ e. lookup e.0 d ≡ some e.1) (λ e. property_of m e.0 ≡ e.1) d
      (λ e h. ap or_zero (r.content e.0 ∙ h)) (lookup-entries d (Distinct-entries m d r))

merge-Represents :
    (m : Properties) (n : Dict Property) (option : MergeOption) (p : Properties) (d : Dict Property)
    → Represents m n
    → Represents p d
    → Represents (merge (some m) option p) (merge_entries option n d)
unfolding merge
merge-Represents m n option p d s r =
    subst (λ ks. Represents (merge_keys ks m option p) (merge_entries option n d)) (sym s.in_order)
      (merge_keys-Represents m option n p d (entry_value m n s) s.named r)

-- How an object comes to be: what is called on which object.
pub data Script : Type 0 where
  created : Script
  after_put : Property → Script → Script
  after_delete : String → Script → Script
  after_sort : Script → Script
  after_merge : MergeOption → Script → Script → Script
  after_merge_nil : MergeOption → Script → Script

unfoldable pub build : Script → Properties
build created = new_properties
build (after_put q s) = put q (build s)
build (after_delete key s) = delete key (build s)
build (after_sort s) = sort (build s)
build (after_merge option m s) = merge (some (build m)) option (build s)
build (after_merge_nil option s) = merge none option (build s)

unfoldable pub meaning : Script → Dict Property
meaning created = []
meaning (after_put q s) = insert q.key q (meaning s)
meaning (after_delete key s) = remove key (meaning s)
meaning (after_sort s) = sort_entries (meaning s)
meaning (after_merge option m s) = merge_entries option (meaning m) (meaning s)
meaning (after_merge_nil option s) = meaning s

pub build-Represents : (s : Script) → Represents (build s) (meaning s)
unfolding build meaning merge
build-Represents created = new_properties-Represents
build-Represents (after_put q s) = put-Represents q (build s) (meaning s) (build-Represents s)
build-Represents (after_delete key s) =
    delete-Represents key (build s) (meaning s) (build-Represents s)
build-Represents (after_sort s) = sort-Represents (build s) (meaning s) (build-Represents s)
build-Represents (after_merge option m s) =
    merge-Represents (build m) (meaning m) option (build s) (meaning s) (build-Represents m)
      (build-Represents s)
build-Represents (after_merge_nil option s) = build-Represents s

pub build-Refines :
    (s : Script)
    → (unsafe_keys (build s) ≡ names (meaning s))
      × ((key : String) → get key (build s) ≡ lookup key (meaning s))
      × (len (build s) ≡ length (meaning s))
unfolding get len unsafe_keys
build-Refines s =
    let r = build-Represents s in (r.in_order, r.content, length-entries (build s) (meaning s) r)
