-- ===== src/Operation/Quiet.antt =====
-- Which parts of Reconcile start no task: all but executeOperation. One rule for each way to build
-- an action.
pub mod Sync
pub mod Phases
use koperator.Prelude.{
  ℕ, ◌≡◌, ◌⊎◌, inl, inr, refl, ◌∙◌, ap, String, Option, none, some, Bool, true, false, List, [],
  ◌∷◌, arith, if◌then◌else◌,
}
use koperator.Prelude.Dict.{Dict}
use koperator.Api.Operation.{CruiseControlOperation}
use koperator.Api.TaskKind.{CruiseControlTaskOperation}
use koperator.Operation.World.{
  Call, Trace, World, M, pure, panic, call, load, store, keep_items, items_of, executed, ◌>>=◌,
}

-- The kinds of the tasks that were started, the newest first.
abbrev pub executions : Trace → List CruiseControlTaskOperation
executions [] = []
executions (executed kind parameters ∷ t) = kind ∷ executions t
executions (_ ∷ t) = executions t

abbrev pub is_execution : Call → Bool
is_execution (executed kind parameters) = true
is_execution _ = false

quiet_call : (c : Call) (t : Trace) → is_execution c ≡ false → executions (c ∷ t) ≡ executions t
quiet_call c t h = ground arith

-- `m` starts no task.
pub record Quiet {A : Type 0} (m : M A) : Type 0 where
  pub at : (w : World) → executions (m w).1.trace ≡ executions w.trace

module _ {A : Type 0} where
  pub Quiet-pure : (a : A) → Quiet (pure a)
  unfolding pure
  Quiet-pure a = record { at = λ w. refl }

  pub Quiet-panic : Quiet (panic {A = A})
  unfolding panic
  Quiet-panic = record { at = λ w. refl }

  pub Quiet-call : (c : Call) (f : Trace → A) → is_execution c ≡ false → Quiet (call c f)
  unfolding call
  Quiet-call c f h = record { at = λ w. quiet_call c w.trace h }

  pub Quiet-if : (b : Bool) (m n : M A) → Quiet m → Quiet n → Quiet (if b then m else n)
  Quiet-if true m n qm qn = qm
  Quiet-if false m n qm qn = qn

pub Quiet-load : (p : ℕ) → Quiet (load p)
unfolding load
Quiet-load p = record { at = λ w. refl }

pub Quiet-store : (p : ℕ) (o : CruiseControlOperation) → Quiet (store p o)
unfolding store
Quiet-store p o = record { at = λ w. refl }

pub Quiet-keep_items : (os : List CruiseControlOperation) → Quiet (keep_items os)
unfolding keep_items
Quiet-keep_items os = record { at = λ w. refl }

pub Quiet-items_of : Quiet items_of
unfolding items_of
Quiet-items_of = record { at = λ w. refl }

module _ {A B : Type 0} where
  after-Quiet :
      (a : Option A) (k : A → M B) (w' : World)
      → ((x : A) → Quiet (k x))
      → executions (◌>>=◌ (λ w. (a, w)) k w').1.trace ≡ executions w'.trace
  unfolding ◌>>=◌
  after-Quiet none k w' qk = refl
  after-Quiet (some a) k w' qk = (qk a).at w'

  pub Quiet-bind : (m : M A) (k : A → M B) → Quiet m → ((a : A) → Quiet (k a)) → Quiet (m >>= k)
  unfolding ◌>>=◌
  Quiet-bind m k qm qk = record { at = λ w. let (a, w') = m w in after-Quiet a k w' qk ∙ qm.at w }

-- `m` starts one task at most, and one of a kind with `P`.
pub record Starts {A : Type 0} (P : CruiseControlTaskOperation → Type 0) (m : M A) : Type 0 where
  pub at :
      (w : World)
      → (executions (m w).1.trace ≡ executions w.trace)
        ⊎ ((kind : CruiseControlTaskOperation) × P kind
            × (executions (m w).1.trace ≡ kind ∷ executions w.trace))

module _ {A : Type 0} (P : CruiseControlTaskOperation → Type 0) where
  pub Starts-of-Quiet : (m : M A) → Quiet m → Starts P m
  Starts-of-Quiet m q = record { at = λ w. inl (q.at w) }

  pub Starts-call :
      (kind : CruiseControlTaskOperation) (parameters : Dict String) (f : Trace → A)
      → P kind
      → Starts P (call (executed kind parameters) f)
  unfolding call
  Starts-call kind parameters f h = record { at = λ w. inr (kind, h, refl) }

  pub Starts-if :
      (b : Bool) (m n : M A)
      → (b ≡ true → Starts P m)
      → (b ≡ false → Starts P n)
      → Starts P (if b then m else n)
  Starts-if true m n sm sn = sm refl
  Starts-if false m n sm sn = sn refl

module _ {A B : Type 0} (P : CruiseControlTaskOperation → Type 0) where
  Starts-after :
      (a : Option A) (k : A → M B) (w' : World)
      → ((x : A) → Starts P (k x))
      → (executions (◌>>=◌ (λ w. (a, w)) k w').1.trace ≡ executions w'.trace)
        ⊎ ((kind : CruiseControlTaskOperation) × P kind
            × (executions (◌>>=◌ (λ w. (a, w)) k w').1.trace ≡ kind ∷ executions w'.trace))
  unfolding ◌>>=◌
  Starts-after none k w' sk = inl refl
  Starts-after (some a) k w' sk = (sk a).at w'

  -- A quiet action, and then one that may start a task.
  pub Starts-bind :
      (m : M A) (k : A → M B) → Quiet m → ((a : A) → Starts P (k a)) → Starts P (m >>= k)
  unfolding ◌>>=◌
  Starts-bind m k qm sk = record {
    at = λ w.
        let (a, w') = m w in
        elim (Starts-after a k w' sk) [
          | inl e ↦ inl (e ∙ qm.at w)
          | inr (kind, h, e) ↦ inr (kind, h, e ∙ ap (λ t. kind ∷ t) (qm.at w))
        ];
  }

  -- An action that may start a task, and then a quiet one.
  pub Starts-then :
      (m : M A) (k : A → M B) → Starts P m → ((a : A) → Quiet (k a)) → Starts P (m >>= k)
  unfolding ◌>>=◌
  Starts-then m k sm qk = record {
    at = λ w.
        let (a, w') = m w in
        let quiet = after-Quiet a k w' qk in
        elim (sm.at w) [ inl e ↦ inl (quiet ∙ e) | inr (kind, h, e) ↦ inr (kind, h, quiet ∙ e) ];
  }

pub ruleset quiet_rules = (
  Quiet-pure, Quiet-panic, Quiet-call, Quiet-if, Quiet-load, Quiet-store, Quiet-keep_items,
  Quiet-items_of, Quiet-bind,
)
