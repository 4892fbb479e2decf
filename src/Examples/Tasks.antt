-- ===== src/Examples/Tasks.antt =====
-- The theorems on the controller of the Cruise Control tasks, and on the cleanup of finished
-- operations, at concrete inputs.
use koperator.Prelude.{
  ℕ, ◌+◌, ◌*◌, ◌≤◌, ◌<◌, ◌≡◌, refl, Option, none, some, true, false, [], ◌∷◌, arith, if◌then◌else◌,
  ◌==◌,
}
use koperator.Prelude.Dict.{Dict, lookup}
use koperator.Api.Failure.{ok, Error, api, conflict, requeue_after, reconciled}
use koperator.Api.TaskKind.{add_broker, completed}
use koperator.Api.States.{
  BrokerState, upscale_required, upscale_running, rebalance_required, no_volume_state,
}
use koperator.Api.Operation.{second, CruiseControlOperation}
use koperator.Task.Types.{CruiseControlTask, CruiseControlTasksAndStates, new_tasks_and_states, add}
use koperator.Task.Apply.{sync_state}
use koperator.Task.Active.{get_active_tasks}
use koperator.Task.RoundTrip.{sync_state-get_active_tasks}
use koperator.Task.Request.{Server}
use koperator.Task.Schedule.{Surroundings}
use koperator.Task.Update.{ClusterServer, update_status, update_status-Settles}
use koperator.Task.Reconcile.{AtMostOne, reconcile, reconcile-AtMostOne}
use koperator.Ttl
use koperator.Task.Brokers.{
  broker_capacity, jbod_disk, other_disk, mark, mark_all, mark_capacity, mark_capacities, find_dir,
  is_on_volume, has_prefix, trim_left, trim_right, is_space,
}
use koperator.Examples.Data.{task_of, operation_of, main_cluster}

abbrev broker_one : BrokerState
broker_one = record {
  graceful_action_state = record {
    cruise_control_state = upscale_required;
    cruise_control_operation_reference = none;
    volume_states =
        (
          "/kafka",
          record {
            cruise_control_volume_state = rebalance_required;
            cruise_control_operation_reference = none;
          },
        )
        ∷ [];
  };
  rack_awareness_state = "";
  configuration_state = "";
  per_broker_configuration_state = "";
  external_listener_config_names = [];
  version = "";
  image = "";
  configuration_backup = "";
}

abbrev brokers : Dict BrokerState
brokers = ("1", broker_one) ∷ []

abbrev upscale_one : CruiseControlTask
upscale_one = record {
  broker_id = "1";
  broker_state = upscale_running;
  volume = "";
  volume_state = no_volume_state;
  operation = add_broker;
  operation_reference = some "up";
}

abbrev tasks : CruiseControlTasksAndStates
tasks = add upscale_one new_tasks_and_states

abbrev server : Server
server = record {
  set_controller_reference = λ c o. ok o;
  create = λ o. ok o;
  update_status = λ o. ok o;
}

abbrev around : Surroundings
around = record {
  server = server;
  merge = λ c group. ok group;
  unmarshal = λ text. ok [];
  brokers_with_state = ok ("1" ∷ []);
  log_dirs_by_broker = ok [];
}

-- The first write meets a conflict, and the cluster is read again.
abbrev contended : ClusterServer
contended = record {
  write = λ k m. if k == 0 then some (api conflict) else none;
  read = λ k. ok [];
}

sync_state-get_active_tasks_example : sync_state (get_active_tasks brokers) brokers ≡ brokers
unfolding lookup
sync_state-get_active_tasks_example = sync_state-get_active_tasks brokers ((refl, (refl, tt)), tt)

update_status-Settles_example :
    ((update_status contended tasks (λ m m'. false) brokers).error ≡ none)
    × ((update_status contended tasks (λ m m'. false) brokers).memory ≡ sync_state tasks [])
update_status-Settles_example =
    update_status-Settles contended tasks (λ m m'. false) brokers (sync_state tasks []) 1 refl
      (omega arith) (refl, ([], refl, (refl, refl)))

reconcile-AtMostOne_example :
    AtMostOne
      (record {
        cluster = ok (record main_cluster { brokers_state = brokers });
        operations = ok [];
        equal = λ m m'. false;
        first_update = contended;
        scale_factory = none;
        around = around;
        second_update = contended;
      })
      (reconcile (record {
        cluster = ok (record main_cluster { brokers_state = brokers });
        operations = ok [];
        equal = λ m m'. false;
        first_update = contended;
        scale_factory = none;
        around = around;
        second_update = contended;
      }))
reconcile-AtMostOne_example = reconcile-AtMostOne (record {
  cluster = ok (record main_cluster { brokers_state = brokers });
  operations = ok [];
  equal = λ m m'. false;
  first_update = contended;
  scale_factory = none;
  around = around;
  second_update = contended;
})

-- An operation that finished at the second 9, with a minute to live.
abbrev finished_upscale : CruiseControlOperation
finished_upscale = operation_of "done" 3 (task_of add_broker completed "t9" (some (9 * second)))

reconcile-misses_example :
    ((Ttl.reconcile (69 * second) (70 * second) (ok finished_upscale) none).deletes ≡ false)
    × ((Ttl.reconcile (69 * second) (70 * second) (ok finished_upscale) none).result ≡ reconciled)
reconcile-misses_example =
    Ttl.reconcile-misses finished_upscale 60 (9 * second) refl refl (69 * second) (70 * second) none
      (omega arith) (omega arith)

stays : (Ttl.reconcile (30 * second) (31 * second) (ok finished_upscale) none).deletes ≡ false
unfolding Ttl.reconcile
stays = refl

reconcile-returns_example :
    (wait : ℕ) × ((Ttl.reconcile (30 * second) (31 * second) (ok finished_upscale) none).result
      ≡ requeue_after wait)
    × (0 < wait)
    × (31 * second + wait * second ≤ 9 * second + 60 * second + second)
    × ((again later' : ℕ) (deleted' : Option Error)
        → 31 * second + wait * second ≤ again
        → (Ttl.reconcile again later' (ok finished_upscale) deleted').deletes ≡ true)
reconcile-returns_example =
    Ttl.reconcile-returns finished_upscale 60 (9 * second) refl refl (30 * second) (31 * second)
      none stays (omega arith)

marked :
    mark_capacities
      (broker_capacity "1" jbod_disk ∷ broker_capacity "-1" other_disk ∷ [])
      (("1", true) ∷ ("2", true) ∷ [])
    ≡ ok (("1", false) ∷ ("2", false) ∷ [])
unfolding mark_capacities mark_capacity mark mark_all
marked = refl

-- A volume is taken to be on the directory of another one whose path it begins.
wrong_dir :
    find_dir "/kafka-logs1" ("/kafka-logs10/kafka" ∷ "/kafka-logs1/kafka" ∷ [])
    ≡ some "/kafka-logs10/kafka"
unfolding find_dir is_on_volume has_prefix trim_left trim_right is_space
wrong_dir = refl
