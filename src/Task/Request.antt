-- ===== src/Task/Request.antt =====
-- createCCOperation of controllers/cruisecontroltask_controller.go, with addBrokers, removeBroker,
-- removeDisks and rebalanceDisks. The answers of the API server are an argument.
use Prim.Native.String.{◌++◌ as str_append}
use koperator.Prelude.{String, Bool, false, List, [], ◌∷◌, ◌++◌, map, if◌then◌else◌}
use koperator.Prelude.Dict.{Dict, insert}
use koperator.Api.Failure.{Answer, ok, err}
use koperator.Api.TaskKind.{
  CruiseControlTaskOperation, add_broker, remove_broker, remove_disks, rebalance, stop_execution,
  status, is_remove_disks,
}
use koperator.Api.States.{LocalObjectReference}
use koperator.Api.Cluster.{KafkaCluster}
use koperator.Api.Operation.{CruiseControlOperation, retry}
use koperator.Operation.Status.{new_operation, new_task, assign_task}

pub record Server : Type 0 where
  pub set_controller_reference :
      KafkaCluster → CruiseControlOperation → Answer CruiseControlOperation
  pub create : CruiseControlOperation → Answer CruiseControlOperation
  pub update_status : CruiseControlOperation → Answer CruiseControlOperation

-- What a call of createCCOperation leaves: the objects that the server was asked to create, and the
-- reference or the error.
pub record Creation : Type 0 where
  pub requested : List CruiseControlOperation
  pub reference : Answer LocalObjectReference

-- strings.Join(ss, ",")
unfoldable pub join : List String → String
join [] = ""
join (s ∷ []) = s
join (s ∷ t ∷ ss) = str_append s (str_append "," (join (t ∷ ss)))

-- the pairs of a broker and one of its directories
unfoldable pub pairs_of : Dict (List String) → List String
pairs_of [] = []
pairs_of ((id, dirs) ∷ m) = map (λ dir. str_append id (str_append "-" dir)) dirs ++ pairs_of m

-- scale.ParamExcludeDemoted and scale.ParamExcludeRemoved
unfoldable pub common_parameters : CruiseControlTaskOperation → Dict String
unfolding insert
common_parameters kind =
    if is_remove_disks kind
    then []
    else ("exclude_recently_demoted_brokers", "true")
      ∷ ("exclude_recently_removed_brokers", "true")
      ∷ []

unfoldable pub parameters_of :
    CruiseControlTaskOperation → List String → Bool → Dict (List String) → Dict String
unfolding common_parameters insert
parameters_of kind ids is_jbod dirs =
    let common = common_parameters kind in
    elim kind [
      | rebalance ↦
          let ps = insert "destination_broker_ids" (join ids) common in
          if is_jbod then insert "rebalance_disk" "true" ps else ps
      | remove_disks ↦ insert "brokerid_and_logdirs" (join (pairs_of dirs)) common
      | stop_execution ↦ common
      | status ↦ common
      | _ ↦ insert "brokerid" (join ids) common
    ]

module _ (server : Server) (cluster : KafkaCluster) where
  abbrev pub create_owned :
      CruiseControlTaskOperation → Dict String → CruiseControlOperation → Creation
  create_owned kind parameters o = record {
    requested = o ∷ [];
    reference = elim (server.create o) [
      | err e ↦ err e
      | ok o' ↦ elim (server.update_status (assign_task (new_task kind parameters) o')) [
        | err e ↦ err e
        | ok o'' ↦ ok o''.name
      ]
    ];
  }

  unfoldable pub create_cc_operation :
      CruiseControlTaskOperation → List String → Bool → Dict (List String) → Creation
  create_cc_operation kind ids is_jbod dirs =
      elim (server.set_controller_reference cluster
        (new_operation cluster retry cluster.spec.operation_ttl_seconds_after_finished kind)) [
          | err e ↦ record { requested = []; reference = err e }
          | ok o ↦ create_owned kind (parameters_of kind ids is_jbod dirs) o
        ]

  abbrev pub add_brokers : List String → Creation
  add_brokers ids = create_cc_operation add_broker ids false []

  abbrev pub remove_broker_with : String → Creation
  remove_broker_with id = create_cc_operation remove_broker (id ∷ []) false []

  abbrev pub remove_disks_with : Dict (List String) → Creation
  remove_disks_with dirs = create_cc_operation remove_disks [] false dirs

  abbrev pub rebalance_disks : List String → Bool → Creation
  rebalance_disks ids is_jbod = create_cc_operation rebalance ids is_jbod []
