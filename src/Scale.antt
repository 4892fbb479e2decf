-- ===== src/Scale.antt =====
-- The types of pkg/scale/types.go through which the controllers talk to Cruise Control. The scaler
-- behind the interface CruiseControlScaler is an argument of the models that call it.
use koperator.Prelude.{ℕ, String, Option, none, some, Bool, [], ◌∷◌, ◌&&◌, not}
use koperator.Prelude.Dict.{Dict}
use koperator.Prelude.Decimal.{itoa}
use koperator.Api.TaskKind.{CruiseControlUserTaskState}

-- types.OptimizationResult of go-cruise-control: the part that formatSummary prints.
pub record OptimizationSummary : Type 0 where
  pub data_to_move_mb : ℕ
  pub num_replica_movements : ℕ
  pub intra_broker_data_to_move_mb : ℕ
  pub num_intra_broker_replica_movements : ℕ
  pub num_leader_movements : ℕ
  pub recent_windows : ℕ
  pub provision_recommendation : String

pub record Result : Type 0 where
  pub task_id : String
  pub started_at : String
  pub response_status_code : ℕ
  pub request_url : String
  pub result : Option OptimizationSummary
  pub state : CruiseControlUserTaskState
  pub err : Option String  -- the text of its Err

pub record CruiseControlStatus : Type 0 where
  pub monitor_ready : Bool
  pub executor_ready : Bool
  pub analyzer_ready : Bool
  pub proposal_ready : Bool
  pub goals_ready : Bool

pub record StatusTaskResult : Type 0 where
  pub task_result : Option Result
  pub status : Option CruiseControlStatus

unfoldable pub is_ready : CruiseControlStatus → Bool
is_ready s = s.analyzer_ready && s.monitor_ready

unfoldable pub in_execution : CruiseControlStatus → Bool
in_execution s = not s.executor_ready

-- formatSummary of controllers/cruisecontroloperation_controller.go
unfoldable pub format_summary : Option OptimizationSummary → Dict String
format_summary none = []
format_summary (some r) =
    ("Data to move", itoa r.data_to_move_mb)
    ∷ ("Number of replica movements", itoa r.num_replica_movements)
    ∷ ("Intra broker data to move", itoa r.intra_broker_data_to_move_mb)
    ∷ ("Number of intra broker replica movements", itoa r.num_intra_broker_replica_movements)
    ∷ ("Number of leader movements", itoa r.num_leader_movements)
    ∷ ("Recent windows", itoa r.recent_windows)
    ∷ ("Provision recommendation", r.provision_recommendation)
    ∷ []
