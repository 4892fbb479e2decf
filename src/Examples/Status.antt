-- ===== src/Examples/Status.antt =====
-- The theorems on the status of a cluster at concrete inputs.
use koperator.Prelude.{
  ℕ, ◌≡◌, refl, sym, ap, ◌∙◌, subst, ◌⊎◌, inl, inr, Option, none, some, Bool, true, false, List, [],
  ◌∷◌, String, arith, ◌==◌, str_eq, if◌then◌else◌,
}
use koperator.Prelude.Dict.{lookup}
use koperator.Api.Failure.{Answer, ok, err, api, conflict}
use koperator.Api.Cluster.{Broker}
use koperator.Api.States.{empty_broker_state}
use koperator.Status.World.{
  Cluster, Spec, Server, World, Trace, updated_status, updated, read_cluster, ListenerStatus,
}
use koperator.Status.Update.{change_status, without_broker}
use koperator.Status.Update.Atomic.{Optimistic, Written, change_status-Written}
use koperator.Status.Broker.{configuration_state, generate_broker_state}
use koperator.Status.Broker.Merge.{MergesInto, generate_broker_state-merges}
use koperator.Status.Backup.{
  generate_broker_configuration_backups, update_broker_configuration_backup,
}
use koperator.Status.Backup.Lost.{backup-lost}
use koperator.Status.Listeners.{get_hostname_for_broker_id, shared_address}

abbrev broker : ℕ → Broker
broker id = record {
  id = id;
  read_only_config = "";
  broker_config_group = "";
  broker_config = none;
}

abbrev spec : Spec
spec = record {
  brokers = broker 1 ∷ [];
  broker_config_groups = [];
  kraft_mode = false;
  headless_service_enabled = true;
  kubernetes_cluster_domain = "cluster.local";
  internal_listeners = [];
  rolling_upgrade_config = record {
    failure_threshold = 1;
    concurrent_broker_restart_count_per_rack = 1;
  };
}

-- the cluster of a version
abbrev content : ℕ → Cluster
content v = record {
  name = "main";
  namespace = "kafka";
  resource_version = v;
  spec = spec;
  brokers_state = ("1", empty_broker_state) ∷ ("2", empty_broker_state) ∷ [];
  state = "ClusterRunning";
  cruise_control_topic_status = "";
  rolling_upgrade_last_success = "";
  rolling_upgrade_error_count = 0;
  internal_listener_statuses = [];
  external_listener_statuses = [];
}

-- The server has the version 2.
abbrev at_two : Server
at_two = record {
  update_status = λ t c. if c.resource_version == 2 then ok c else err (api conflict);
  update = λ t c. if c.resource_version == 2 then ok c else err (api conflict);
  get = λ t. ok (content 2);
  delete = λ t kind name. none;
}

abbrev version : Trace → ℕ
version t = 2

accepted_at_two :
    (c d : Cluster)
    → (let a : Answer Cluster = if c.resource_version == 2 then ok c else err (api conflict) in a)
      ≡ ok d
    → c.resource_version ≡ 2
accepted_at_two c d h = ground arith

read_two : (c : Cluster) → ok (content 2) ≡ ok c → c ≡ content c.resource_version
read_two c h =
    let value = λ (a : Answer Cluster). elim a as (λ b. Cluster) [ ok x ↦ x | err e ↦ content 2 ] in
    let e : content 2 ≡ c = ap value h in subst (λ d. d ≡ content d.resource_version) e refl

optimistic : Optimistic at_two content version
optimistic = record {
  status_accepted = λ t c d h. accepted_at_two c d h;
  accepted = λ t c d h. accepted_at_two c d h;
  reads = λ t c h. read_two c h;
}

-- What is in memory is behind by a version: the first update is refused.
abbrev stale : World
stale = record { cluster = content 1; trace = [] }

abbrev settled : World
settled = record {
  cluster = without_broker "2" (content 2);
  trace =
      updated_status (without_broker "2" (content 2))
      ∷ read_cluster
      ∷ updated_status (without_broker "2" (content 1))
      ∷ [];
}

retried : change_status at_two (without_broker "2") stale ≡ (none, settled)
unfolding change_status koperator.Prelude.Dict.remove koperator.Status.World.get
retried = refl

change_status-Written_example : Written at_two content version (without_broker "2") settled
change_status-Written_example =
    change_status-Written at_two content version optimistic (without_broker "2") (λ c. refl) stale
      settled refl retried

generate_broker_state-merges_example :
    MergesInto
      ("2" ∷ "3" ∷ [])
      (configuration_state "ConfigInSync")
      (content 1)
      (generate_broker_state ("2" ∷ "3" ∷ []) (configuration_state "ConfigInSync") (content 1))
generate_broker_state-merges_example =
    generate_broker_state-merges ("2" ∷ "3" ∷ []) (configuration_state "ConfigInSync") (content 1)
      (refl, (refl, tt))

abbrev compressed : Broker → Answer String
compressed b = ok "H4sI"

abbrev backed_up : Cluster
backed_up = record (content 1) {
  brokers_state =
      ("1", record empty_broker_state { configuration_backup = "H4sI" })
      ∷ ("2", empty_broker_state)
      ∷ [];
}

backups : generate_broker_configuration_backups at_two compressed (content 1) ≡ (ok true, backed_up)
unfolding generate_broker_configuration_backups koperator.Status.Backup.back_up_all lookup
    koperator.Prelude.Dict.insert koperator.Prelude.Decimal.itoa
backups = refl

backup-lost_example :
    update_broker_configuration_backup at_two compressed stale
    ≡ (none, record { cluster = content 2; trace = read_cluster ∷ updated_status backed_up ∷ [] })
backup-lost_example = backup-lost at_two compressed stale backed_up (content 2) backups refl refl

abbrev external : List ListenerStatus
external = record { name = "broker-1"; address = "kafka.example.com:19091" } ∷ []

hostname : get_hostname_for_broker_id external 1 ≡ "kafka.example.com"
unfolding get_hostname_for_broker_id koperator.Prelude.Decimal.itoa
    koperator.Status.Listeners.before_colon
hostname = refl

-- A broker that the external listener does not have gets an address without a host.
no_hostname :
    shared_address
      (λ a b. ok a)
      (content 1)
      (("external", external) ∷ [])
      (record {
        name = "internal";
        container_port = 29092;
        used_for_inner_broker_communication = true;
        used_for_controller_communication = false;
        internal_starting_port = 30000;
        external_listener_for_hostname = "external";
      })
      7
    ≡ ":30007"
unfolding shared_address lookup get_hostname_for_broker_id koperator.Prelude.Decimal.itoa
no_hostname = refl
