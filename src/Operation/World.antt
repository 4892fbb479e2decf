-- ===== src/Operation/World.antt =====
-- What the controller works on: the operations that it read from the API server, and the calls that
-- it made. The API server, Cruise Control and the clock are an `Env`: each answers by all the calls
-- made so far, the newest first, so any answers in any order are covered.
use koperator.Prelude.{ℕ, String, Option, none, some, List, ◌∷◌, get_elem?, set}
use koperator.Prelude.Dict.{Dict}
use koperator.Api.Failure.{Answer, ok, err, Error}
use koperator.Api.TaskKind.{CruiseControlTaskOperation}
use koperator.Api.Cluster.{ObjectKey, KafkaCluster}
use koperator.Api.Operation.{Time, CruiseControlOperation}
use koperator.Scale.{Result, StatusTaskResult}
use koperator.Operation.Finalizer.{Finalizers}

-- A call that leaves the controller, with its arguments.
pub data Call : Type 0 where
  listed : String → Call
  got_cluster : ObjectKey → Call
  got_operation : ObjectKey → Call
  updated : CruiseControlOperation → Call
  updated_status : CruiseControlOperation → Call
  created : CruiseControlOperation → Call
  owned : CruiseControlOperation → Call
  made_scaler : KafkaCluster → Call
  asked_status : Call
  asked_status_task : String → Call
  asked_user_tasks : List String → Call
  executed : CruiseControlTaskOperation → Dict String → Call
  read_clock : Call

abbrev pub Trace : Type 0
Trace = List Call

pub record Env : Type 0 where
  pub finalizers : Finalizers
  pub list_operations : Trace → String → Answer (List CruiseControlOperation)
  pub get_cluster : Trace → ObjectKey → Answer KafkaCluster
  pub get_operation : Trace → ObjectKey → Answer CruiseControlOperation
  -- a write answers with the object as the server stored it
  pub update : Trace → CruiseControlOperation → Answer CruiseControlOperation
  pub update_status : Trace → CruiseControlOperation → Answer CruiseControlOperation
  pub create : Trace → CruiseControlOperation → Answer CruiseControlOperation
  pub set_controller_reference :
      KafkaCluster → CruiseControlOperation → Answer CruiseControlOperation
  pub scale_factory : Trace → KafkaCluster → Option Error
  pub status : Trace → Answer StatusTaskResult
  pub status_task : Trace → String → Answer StatusTaskResult
  pub user_tasks : Trace → List String → Answer (List Result)
  -- AddBrokersWithParams and the other calls that start or stop a task
  pub execute : Trace → CruiseControlTaskOperation → Dict String → Option Result × Option Error
  pub now : Trace → Time
  pub parse_rfc1123 : String → Option Time

pub record World : Type 0 where
  pub items : List CruiseControlOperation  -- ccOperationListClusterWide.Items
  pub trace : Trace

-- `none` is a panic: a nil pointer that is followed.
abbrev pub M : Type 0 → Type 0
M A = World → Option A × World

module _ {A : Type 0} where
  unfoldable pub pure : A → M A
  pure a w = (some a, w)

  unfoldable pub panic : M A
  panic w = (none, w)

  -- A call, and the answer to it.
  unfoldable pub call : Call → (Trace → A) → M A
  call c answer w = (some (answer w.trace), record w { trace = c ∷ w.trace })

-- *p, for a pointer into the list
unfoldable pub load : ℕ → M CruiseControlOperation
load p w = (get_elem? w.items p, w)

-- *p = o
unfoldable pub store : ℕ → CruiseControlOperation → M (Unit {0})
store p o w = (some tt, record w { items = set w.items p o })

-- The list that the API server answered with becomes the memory of the run.
unfoldable pub keep_items : List CruiseControlOperation → M (Unit {0})
keep_items os w = (some tt, record w { items = os })

unfoldable pub items_of : M (List CruiseControlOperation)
items_of w = (some w.items, w)

module _ {A B : Type 0} where
  abbrev continue : Option A → (A → M B) → M B
  continue none k w = (none, w)
  continue (some a) k w = k a w

  infixl 5 ◌>>=◌ ◌>>◌
  -- opening this opens the actions above too
  unfoldable pub ◌>>=◌ : M A → (A → M B) → M B
  unfolding pure panic call load store keep_items items_of
  ◌>>=◌ m k w = let (a, w') = m w in continue a k w'

  abbrev pub ◌>>◌ : M A → M B → M B
  m >> k = m >>= λ _. k

-- The answer of a write: the object is replaced by what the server stored, or the error is returned.
unfoldable pub stored : ℕ → Answer CruiseControlOperation → M (Option Error)
stored p (ok o) = do store p o; pure none
stored p (err e) = pure (some e)

module _ (env : Env) where
  -- r.Update(ctx, p)
  unfoldable pub update : ℕ → M (Option Error)
  update p = do o ← load p; answer ← call (updated o) (λ t. env.update t o); stored p answer

  -- r.Status().Update(ctx, p)
  unfoldable pub update_status : ℕ → M (Option Error)
  update_status p = do
    o ← load p
    answer ← call (updated_status o) (λ t. env.update_status t o)
    stored p answer

  -- r.Get(ctx, key, p)
  unfoldable pub refresh : ℕ → M (Option Error)
  refresh p = do
    o ← load p
    let key : ObjectKey = record { name = o.name; namespace = o.namespace }
    answer ← call (got_operation key) (λ t. env.get_operation t key)
    stored p answer

  abbrev pub time_now : M Time
  time_now = call read_clock env.now
