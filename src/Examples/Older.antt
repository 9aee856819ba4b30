-- ===== src/Examples/Older.antt =====
-- The theorems on the object handler and on the v1beta4 controller, at an EmqxEnterprise that moves
-- from one set to the next.
use emqx_operator.Prelude.{
  pos, dec_int32, String, str_eq, true, false, ◌&&◌, ◌+++◌, ◌≡◌, refl, Option, none, some, [], ◌∷◌,
  ◌==◌, arith, if◌then◌else◌,
}
use emqx_operator.Errors.{Error, Result, ok, err, not_found}
use emqx_operator.Http.{Requester, Response}
use emqx_operator.Kube.{is_true, Workload, Pod}
use emqx_operator.Kube.Pods.{SetObject, stateful_set, ServicePort, ServiceSpec}
use emqx_operator.Examples.Fixtures.{set_of, pod_of, client_of}
use emqx_operator.Handler.{Object, service, Stored, Api, untouched, with_stored, create_or_update}
use emqx_operator.Handler.Stable.{node_ports, create_or_update_stable}
use emqx_operator.V1beta4.{Emqx, EmqxNode, BlueGreenStatus, Cluster}
use emqx_operator.V1beta4.BlueGreen.{scale, sync_stateful_set}
use emqx_operator.V1beta4.BlueGreen.Plan.{Syncs, sync_stateful_set-Syncs}
use emqx_operator.V1beta4.UpdateStatus
use emqx_operator.V1beta4.UpdateStatus.{written, reconcile}
use emqx_operator.V1beta4.UpdateStatus.Written.{Updates, reconcile-Updates}
use emqx_operator.V1beta4.NewSet.{Calls, name_at, find_same, get_new_stateful_set}
use emqx_operator.V1beta4.NewSet.Free.{free, get_new_stateful_set-ends}
use emqx_operator.V1beta4.Sets.{get_all_stateful_set}
use emqx_operator.Controllers.Builders.Named.{Printer}
use emqx_operator.V1beta4.PodConditions
use emqx_operator.V1beta4.PodConditions.{Patched, cluster_pods, on_serving}
use emqx_operator.V1beta4.PodConditions.Probed.{ArePatches, reconcile-ArePatches}
use emqx_operator.V1beta4.Listener.{Listener, is_in, common_listeners}
use emqx_operator.V1beta4.Listener.Common.{addresses, IsUnique, common_listeners_lem}

abbrev port : ServicePort
port = record {
  name = "mqtt";
  protocol = "TCP";
  port = pos 1883;
  target_port = "1883";
  node_port = pos 0;
}

abbrev service_spec : ServiceSpec
service_spec = record {
  type = "NodePort";
  cluster_ip = "";
  session_affinity = "";
  publish_not_ready_addresses = false;
  selector = [];
  ports = port ∷ [];
  others = "";
}

abbrev node_on : String → EmqxNode
node_on pod = record { node = "emqx@" +++ pod +++ ".dns"; node_status = "Running" }

abbrev evacuating : BlueGreenStatus
evacuating = record {
  origin_stateful_set = "emqx-1";
  current_stateful_set = "emqx-2";
  started_at = some 3;
  evacuations_status = some (
      record {
        node = "emqx@emqx-1-0.dns";
        state = "prohibiting";
        stats = record { current_connected = some (pos 0); current_sessions = some (pos 0) };
      }
      ∷ []);
}

abbrev enterprise : Option BlueGreenStatus → Emqx
enterprise b = record {
  is_enterprise = true;
  name = "emqx";
  namespace = "default";
  labels = [];
  replicas = some (pos 1);
  config_name = "emqx";
  dns_name = "dns";
  service_template = record {
    name = "listeners";
    namespace = "";
    metadata = record { annotations = []; labels = [] };
    spec = service_spec;
  };
  blue_green_update = some (record {
    initial_delay_seconds = pos 10;
    evacuation_strategy = record {
      wait_takeover = pos 10;
      conn_evict_rate = pos 1000;
      sess_evict_rate = pos 1000;
    };
  });
  status = record {
    replicas = pos 1;
    ready_replicas = pos 2;
    emqx_nodes = node_on "emqx-1-0" ∷ node_on "emqx-2-0" ∷ [];
    current_stateful_set_version = "emqx-1";
    conditions = [];
    blue_green = b;
  };
}

abbrev get_set : String → Result Workload
get_set name = ok (set_of name name 1)

abbrev cluster : Cluster
cluster = record {
  client =
      client_of (set_of "emqx-1" "emqx-1" 1 ∷ set_of "emqx-2" "emqx-2" 1 ∷ []) []
        (pod_of "emqx-1-0" "emqx-1" ∷ pod_of "emqx-2-0" "emqx-2" ∷ []);
  sets_error = none;
  pods_error = none;
  get_set = get_set;
}

abbrev requester : Requester
requester = record { request = λ method path body. ok (record { status_code = 200; body = path }) }

abbrev accepts : Workload → Option Error
accepts w = none

synced :
    sync_stateful_set cluster accepts requester (enterprise (some evacuating))
    ≡ some (record {
      actions = scale (record (set_of "emqx-1" "emqx-1" 1) { spec_replicas = some (pos 0) }) ∷ [];
      error = none;
    })
unfolding sync_stateful_set dec_int32
synced = refl

sync_stateful_set-Syncs_example :
    Syncs cluster
      (enterprise (some evacuating))
      (scale (record (set_of "emqx-1" "emqx-1" 1) { spec_replicas = some (pos 0) }) ∷ [])
sync_stateful_set-Syncs_example =
    sync_stateful_set-Syncs cluster accepts requester (enterprise (some evacuating)) synced

abbrev decoder : UpdateStatus.Decoder
decoder = record {
  nodes = λ body. some (node_on "emqx-1-0" ∷ node_on "emqx-2-0" ∷ []);
  evacuations = λ body. some (some []);
}

abbrev begun : Option BlueGreenStatus
begun = some (record {
  origin_stateful_set = "emqx-1";
  current_stateful_set = "emqx-2";
  started_at = some 7;
  evacuations_status = some [];
})

abbrev updated : Emqx
updated = record (enterprise begun) {
  status = record ((enterprise begun).status) {
    current_stateful_set_version = "emqx-2";
    conditions =
        record {
          type = "BlueGreenUpdating";
          status = is_true;
          last_update_time = 7;
          last_transition_time = 7;
          reason = "";
          message = "";
        }
        ∷ [];
  };
}

abbrev writes : Emqx → Option Error
writes e = none

begins :
    reconcile cluster requester decoder 7 writes (enterprise none)
    ≡ some (record { emqx = updated; is_sent = true; ends = written })
unfolding reconcile
begins = refl

reconcile-Updates_example : Updates cluster requester decoder 7 (enterprise none) updated
reconcile-Updates_example =
    reconcile-Updates cluster requester decoder 7 writes (enterprise none) begins

abbrev common : Listener
common = record { protocol = "mqtt:tcp"; listen_on = "0.0.0.0:1883" }

abbrev own : Listener
own = record { protocol = "mqtt:ssl:8883"; listen_on = "8883" }

common_listeners_lem_example :
    (is_in
        (addresses (common_listeners ((common ∷ []) ∷ (own ∷ common ∷ []) ∷ (own ∷ []) ∷ [])))
        "8883"
      ≡ (is_in (addresses (own ∷ common ∷ [])) "8883" && is_in (addresses (own ∷ [])) "8883"))
    × IsUnique
        (addresses (common_listeners ((common ∷ []) ∷ (own ∷ common ∷ []) ∷ (own ∷ []) ∷ [])))
common_listeners_lem_example =
    common_listeners_lem ((common ∷ []) ∷ []) (own ∷ common ∷ []) (own ∷ []) "8883"

abbrev stored_spec : ServiceSpec
stored_spec = record service_spec { ports = record port { node_port = pos 30001 } ∷ [] }

abbrev object : Object
object = record {
  kind = "Service";
  name = "listeners";
  namespace = "default";
  resource_version = "";
  annotations = [];
  body = service service_spec;
}

abbrev stored : Stored
stored = record { resource_version = "12"; annotations = []; service_spec = ok stored_spec }

abbrev api : Api
api = record {
  owner_error = λ o. none;
  get = λ o. ok stored;
  with_last_applied = λ o. ok o;
  create_error = λ o. none;
  update_error = λ o. none;
  is_patch_empty = λ s o. ok (str_eq o.resource_version s.resource_version);
}

create_or_update_stable_example : create_or_update api object ≡ untouched
unfolding with_stored
create_or_update_stable_example =
    create_or_update_stable api object stored service_spec stored_spec
      (node_ports (λ name. pos 30001) service_spec (tt, tt)) refl refl refl refl refl

abbrev ready : Pod
ready = record (pod_of "emqx-1-0" "emqx-1") {
  conditions =
      record { type = "ContainersReady"; status = is_true; last_transition_time = none } ∷ [];
}

abbrev available : Pod → Result Response
available pod = ok (record { status_code = 200; body = "" })

abbrev takes : Pod → Option Error
takes pod = none

abbrev serving : Patched
serving = record {
  patches = (ready, on_serving available takes 7 ready is_true) ∷ [];
  error = none;
}

patched :
    PodConditions.reconcile available takes 7
      (client_of [] [] (ready ∷ pod_of "emqx-3-0" "" ∷ []))
      []
      (enterprise none)
    ≡ some serving
unfolding PodConditions.reconcile
patched = refl

reconcile-ArePatches_example :
    ArePatches available takes 7 true
      ("emqx-1-0" ∷ "emqx-2-0" ∷ [])
      (ready ∷ pod_of "emqx-3-0" "" ∷ [])
      serving
unfolding cluster_pods
reconcile-ArePatches_example =
    reconcile-ArePatches available takes 7 (client_of [] [] (ready ∷ pod_of "emqx-3-0" "" ∷ [])) []
      (enterprise none) ("emqx-1-0" ∷ "emqx-2-0" ∷ []) serving refl patched

abbrev wanted : SetObject
wanted = record {
  kind = stateful_set;
  name = "emqx";
  namespace = "default";
  metadata = record { annotations = []; labels = [] };
  service_name = "headless";
  replicas = some (pos 1);
  match_labels = [];
  pod_management_policy = "Parallel";
  template = record {
    metadata = record { annotations = []; labels = [] };
    spec = record {
      readiness_gates = [];
      image_pull_secrets = [];
      service_account_name = "";
      security_context = "";
      affinity = "";
      tolerations = [];
      topology_spread_constraints = [];
      node_name = "";
      node_selector = [];
      init_containers = [];
      containers = [];
      volumes = [];
    };
  };
  volume_claim_templates = [];
}

abbrev printer : Printer
printer = record { bytes = λ t. []; encode = λ n. if n == 0 then "a" else "b" }

abbrev calls : Calls
calls = record {
  is_patch_empty = λ w s. some false;
  metadata_of = λ w. record { annotations = []; labels = [] };
  create_or_update = λ s. none;
}

-- A cluster that has no set under a new name.
abbrev without_names : Cluster
without_names = record cluster { get_set = λ name. err not_found }

get_new_stateful_set-ends_example :
    get_new_stateful_set without_names calls printer 1 (enterprise none) wanted
    ≡ some (ok (record wanted { name = name_at without_names calls printer wanted (pos 0) }))
unfolding get_all_stateful_set find_same
get_new_stateful_set-ends_example =
    get_new_stateful_set-ends without_names calls printer wanted (enterprise none) 0 1
      (set_of "emqx-2" "emqx-2" 1 ∷ set_of "emqx-1" "emqx-1" 1 ∷ []) refl refl refl refl (free refl)
      (omega arith) (omega arith)
