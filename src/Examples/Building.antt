-- ===== src/Examples/Building.antt =====
-- The theorems on the sets that the operator asks for and on the services and budgets beside them, at
-- a resource of one core node and one replicant.
use emqx_operator.Prelude.{
  ℕ, pos, is_positive, ◌+++◌, ◌&&◌, ◌≡◌, refl, none, some, [], ◌∷◌, ◌>>=◌, if◌then◌else◌,
}
use emqx_operator.Prelude.{str_eq, ◌==◌, ap}
use emqx_operator.Prelude.Sort.{sort}
use emqx_operator.Prelude.Text.{trim, itoa, contains, port_of, to_int32, atoi}
use emqx_operator.Errors.{ok}
use emqx_operator.Kube.Pods.{SetObject, ServicePort, Service}
use emqx_operator.Api.Types.{Emqx}
use emqx_operator.Api.Labels.{is_exist_replicant, default_core_labels}
use emqx_operator.Api.Names.{dashboard_service_namespaced_name, listeners_service_namespaced_name}
use emqx_operator.Api.Labels.Distinct.{Covers}
use emqx_operator.Api.Dashboard.Bounds.{dashboard_ports, get_dashboard_service_port_lem}
use emqx_operator.Api.Dashboard.{Hocon, get_dashboard_service_port}
use emqx_operator.Api.Listeners.{Library, get_listeners_service_ports}
use emqx_operator.Controllers.Builders.Core.{generate_stateful_set, core_labels, core_container}
use emqx_operator.Controllers.Builders.Replicant.{
  generate_replica_set, replicant_labels, replicant_container,
}
use emqx_operator.Controllers.Builders.Named.{
  Printer, compute_hash, with_hash, with_ports, named, get_new_stateful_set, get_new_replica_set,
}
use emqx_operator.Controllers.Builders.Named.Hashed.{
  scaled, scaled_core, with_replicas, get_new_sets-scaled,
}
use emqx_operator.Controllers.Builders.Labelled.{IsLabelled, get_new_sets-IsLabelled}
use emqx_operator.Controllers.Builders.Mounts.{IsBacked, get_new_sets-IsBacked}
use emqx_operator.Controllers.Services.{
  generate_headless_service, generate_dashboard_service, generate_listener_service, service,
  no_metadata, empty_spec, listener_selector, with_template, templated,
}
use emqx_operator.Controllers.Services.Selecting.{services_select}
use emqx_operator.Examples.Conditions.{progressing}
use emqx_operator.Examples.Fixtures.{status_of, emqx_of, template}

abbrev pub printer : Printer
printer = record { bytes = λ t. []; encode = λ n. "5d4" }

-- A configuration that sets nothing.
abbrev pub hocon : Hocon
hocon = record { parse = λ text. ok λ key. "" }

abbrev pub emqx : Emqx
emqx = emqx_of none (status_of progressing "v1" "v1")

abbrev dashboard_port : ServicePort
dashboard_port = record {
  name = "dashboard";
  protocol = "TCP";
  port = pos 18083;
  target_port = "18083";
  node_port = pos 0;
}

abbrev pub sts : SetObject
sts =
    with_hash "5d4" (generate_stateful_set emqx)
      (with_ports (dashboard_port ∷ []) (core_container emqx) ∷ [])

abbrev rs : SetObject
rs =
    with_hash "5d4" (generate_replica_set emqx template)
      (with_ports (dashboard_port ∷ []) (replicant_container emqx template) ∷ [])

pub new_sts : get_new_stateful_set printer hocon emqx ≡ some sts
unfolding get_new_stateful_set named generate_stateful_set compute_hash get_dashboard_service_port
    sort trim itoa
new_sts = refl

new_rs : get_new_replica_set printer hocon emqx template ≡ some rs
unfolding get_new_replica_set named generate_replica_set compute_hash get_dashboard_service_port
    sort trim itoa
new_rs = refl

get_new_sets-IsLabelled_example :
    IsLabelled
      ("emqx" +++ "-core")
      (core_labels emqx)
      (compute_hash printer (generate_stateful_set emqx).template none)
      sts
    × IsLabelled
        ("emqx" +++ "-replicant")
        (replicant_labels emqx template)
        (compute_hash printer (generate_replica_set emqx template).template none)
        rs
get_new_sets-IsLabelled_example =
    get_new_sets-IsLabelled printer hocon emqx template sts rs new_sts new_rs

get_new_sets-IsBacked_example : IsBacked sts × IsBacked rs
get_new_sets-IsBacked_example =
    get_new_sets-IsBacked printer hocon emqx template sts rs tt tt new_sts new_rs

get_new_sets-scaled_example :
    (get_new_stateful_set printer hocon (scaled_core (some (pos 3)) emqx)
      ≡ get_new_stateful_set printer hocon emqx >>= λ s. some (with_replicas (some (pos 3)) s))
    × (get_new_replica_set printer hocon emqx (scaled (some (pos 3)) template)
        ≡ get_new_replica_set printer hocon emqx template >>= λ s.
            some (with_replicas (some (pos 3)) s))
get_new_sets-scaled_example = get_new_sets-scaled printer hocon emqx template (some (pos 3))

-- The resource with replicants, and its sets.
abbrev large : Emqx
large = record emqx { spec = record emqx.spec { replicant_template = some template } }

abbrev large_sts : SetObject
large_sts =
    with_hash "5d4" (generate_stateful_set large)
      (with_ports (dashboard_port ∷ []) (core_container large) ∷ [])

abbrev large_rs : SetObject
large_rs =
    with_hash "5d4" (generate_replica_set large template)
      (with_ports (dashboard_port ∷ []) (replicant_container large template) ∷ [])

-- A library of three values: a configuration with one listener, its type and its name.
abbrev library : Library ℕ
library = record {
  parse = λ text. ok (if str_eq text "root" then 0 else if str_eq text "tcp" then 1 else 2);
  print = λ v. if v == 0 then "root" else if v == 1 then "tcp" else "default";
  object = λ v. some (if v == 1 then ("default", 2) ∷ [] else ("bind", 3) ∷ []);
  get_string = λ v key. if v == 2 && str_eq key "bind" then "1884" else "";
  get_object = λ v key. if v == 0 && str_eq key "listeners" then ("tcp", 1) ∷ [] else [];
  of_entries = λ entries. 2;
  int_value = λ text. atoi text;
  int_text = λ text. text;
}

abbrev listener_port : ServicePort
listener_port = record {
  name = "tcp-default";
  protocol = "TCP";
  port = pos 1884;
  target_port = "1884";
  node_port = pos 0;
}

listener_found : get_listeners_service_ports library "root" ≡ some (ok (listener_port ∷ []))
unfolding get_listeners_service_ports sort trim contains port_of to_int32 atoi
listener_found = refl

abbrev dashboard : Service
dashboard =
    service (dashboard_service_namespaced_name emqx) emqx (default_core_labels emqx)
      (dashboard_port ∷ []) (no_metadata, empty_spec)

abbrev listeners : Service
listeners =
    service (listeners_service_namespaced_name emqx) emqx (listener_selector emqx)
      (listener_port ∷ []) (no_metadata, empty_spec)

dashboard_made : generate_dashboard_service hocon emqx "root" ≡ some (some dashboard)
unfolding generate_dashboard_service get_dashboard_service_port sort trim itoa
dashboard_made = refl

listeners_made : generate_listener_service library emqx "root" ≡ some (some listeners)
unfolding generate_listener_service
listeners_made =
    ap (λ ports. with_template (templated emqx.spec.listeners_service_template) ports emqx)
      listener_found

services_select_example :
    Covers (generate_headless_service emqx).spec.selector sts.template.metadata.labels
    × Covers dashboard.spec.selector sts.template.metadata.labels
    × Covers listeners.spec.selector
        (if is_exist_replicant emqx && is_positive emqx.status.replicant_nodes_status.ready_replicas
          then rs
          else sts).template.metadata.labels
services_select_example =
    services_select printer hocon library emqx template "root" sts rs dashboard listeners new_sts
      new_rs dashboard_made listeners_made

-- Two names for one number, of which the second list's is dropped.
abbrev mqtt : ServicePort
mqtt = record dashboard_port { name = "mqtt" }

get_dashboard_service_port_lem_example :
    get_dashboard_service_port hocon "" ≡ ok (dashboard_ports (λ key. ""))
get_dashboard_service_port_lem_example = get_dashboard_service_port_lem hocon ""
