-- ===== src/Controllers/Builders/Named.antt =====
-- controllers/apps/v2beta1/add_emqx_core.go, add_emqx_repl.go and util.go: getNewStatefulSet,
-- getNewReplicaSet and the hash of a pod template. `none` is a panic.
pub mod Hashed
use emqx_operator.Prelude.{
  ℕ, zero, suc, ◌/◌, ◌%◌, ◌*◌, ◌^◌, ℤ, ◌+++◌, String, str_eq, Option, none, some, ◌>>=◌, List, [],
  ◌∷◌, ◌++◌, foldl, if◌then◌else◌,
}
use Prim.Native.Nat.{bit_xor}
use emqx_operator.Prelude.Text.{itoa, unsigned}
use emqx_operator.Errors.{Result, ok, err}
use emqx_operator.Kube.{Labels}
use emqx_operator.Kube.Pods.{
  ContainerPort, ServicePort, EnvVar, Container, PodSpec, PodTemplate, Metadata, SetObject,
}
use emqx_operator.Api.Types.{Emqx, Template}
use emqx_operator.Api.Labels.{clone_and_add_label, insert, copy_into, labels_pod_template_hash_key}
use emqx_operator.Api.Ports.{merge_container_ports, trans_service_ports_to_container_ports}
use emqx_operator.Api.Dashboard.{Hocon, get_dashboard_service_port}
use emqx_operator.Controllers.Builders.{env}
use emqx_operator.Controllers.Builders.Core.{generate_stateful_set}
use emqx_operator.Controllers.Builders.Replicant.{generate_replica_set}

-- metav1.LabelSelector: the labels, and the expressions that are copied.
pub record LabelSelector : Type 0 where
  pub match_labels : Labels
  pub match_expressions : List (String × (String × List String))

unfoldable pub clone_selector_and_add_label : LabelSelector → String → String → LabelSelector
unfolding insert copy_into
clone_selector_and_add_label selector key value =
    if str_eq key ""
    then selector
    else record selector { match_labels = insert key value (copy_into [] selector.match_labels) }

unfoldable pub add_label_to_selector : LabelSelector → String → String → LabelSelector
unfolding insert
add_label_to_selector selector key value =
    if str_eq key ""
    then selector
    else record selector { match_labels = insert key value selector.match_labels }

-- The bytes of a template as the spew library prints it, and rand.SafeEncodeString of a number.
pub record Printer : Type 0 where
  pub bytes : PodTemplate → List ℕ
  pub encode : ℕ → String

-- One byte of hash/fnv's 32-bit FNV-1a.
abbrev pub fnv_step : ℕ → ℕ → ℕ
fnv_step h b = bit_xor h b * 16777619 % 2 ^ 32

-- binary.LittleEndian.PutUint32 into a buffer of eight bytes.
abbrev pub collision_bytes : ℕ → List ℕ
collision_bytes n =
    n % 256 ∷ n / 256 % 256 ∷ n / 65536 % 256 ∷ n / 16777216 % 256 ∷ 0 ∷ 0 ∷ 0 ∷ 0 ∷ []

abbrev pub counted_bytes : Option ℤ → List ℕ
counted_bytes none = []
counted_bytes (some count) = collision_bytes (unsigned count)

unfoldable pub sum32 : List ℕ → ℕ
sum32 bytes = foldl fnv_step 2166136261 bytes

unfoldable pub compute_hash : Printer → PodTemplate → Option ℤ → String
unfolding sum32
compute_hash p template count = p.encode (sum32 (p.bytes template ++ counted_bytes count))

-- The loop over the ports, which puts a variable in front of the others.
unfoldable pub bind_env : List ContainerPort → List EnvVar → List EnvVar
bind_env [] vars = vars
bind_env (p ∷ ps) vars =
    let plain =
      if str_eq p.name "dashboard"
      then env "EMQX_DASHBOARD__LISTENERS__HTTP__BIND" (itoa p.container_port) ∷ vars
      else vars in
    bind_env ps (
      if str_eq p.name "dashboard-https"
      then env "EMQX_DASHBOARD__LISTENERS__HTTPS__BIND" (itoa p.container_port) ∷ plain
      else plain)

abbrev pub with_ports : List ServicePort → Container → Container
with_ports svc_ports c =
    let ports = merge_container_ports c.ports (trans_service_ports_to_container_ports svc_ports) in
    record c { ports = ports; env = bind_env ports c.env }

-- Containers[0], written.
abbrev pub with_first : (Container → Container) → List Container → Option (List Container)
with_first f [] = none
with_first f (c ∷ cs) = some (f c ∷ cs)

abbrev pub add_hash : String → Labels → Labels
add_hash hash labels = clone_and_add_label labels labels_pod_template_hash_key hash

abbrev pub select_hash : String → Labels → Labels
select_hash hash labels =
    (clone_selector_and_add_label (record { match_labels = labels; match_expressions = [] })
      labels_pod_template_hash_key hash).match_labels

abbrev pub hashed_template : String → PodTemplate → List Container → PodTemplate
hashed_template hash t containers = record {
  metadata = record t.metadata { labels = add_hash hash t.metadata.labels };
  spec = record t.spec { containers = containers };
}

abbrev pub with_hash : String → SetObject → List Container → SetObject
with_hash hash s containers = record s {
  name = s.name +++ "-" +++ hash;
  metadata = record s.metadata { labels = add_hash hash s.metadata.labels };
  match_labels = select_hash hash s.match_labels;
  template = hashed_template hash s.template containers;
}

-- The ports of an error are nil.
abbrev pub or_nil {ℓ} : {A : Type ℓ} → Result (List A) → List A
or_nil (ok xs) = xs
or_nil (err e) = []

abbrev pub dashboard_of : Hocon → Emqx → List ServicePort
dashboard_of hocon instance' = or_nil (get_dashboard_service_port hocon instance'.spec.config.text)

-- What both functions do with the set that a generator makes.
unfoldable pub named : Printer → List ServicePort → Option ℤ → SetObject → Option SetObject
unfolding compute_hash bind_env clone_selector_and_add_label clone_and_add_label
named p svc_ports count s =
    let hash = compute_hash p s.template count in
    with_first (with_ports svc_ports) s.template.spec.containers >>= λ cs.
    some (with_hash hash s cs)

unfoldable pub get_new_stateful_set : Printer → Hocon → Emqx → Option SetObject
unfolding named generate_stateful_set get_dashboard_service_port
get_new_stateful_set p hocon instance' =
    named p (dashboard_of hocon instance') instance'.status.core_nodes_status.collision_count
      (generate_stateful_set instance')

unfoldable pub get_new_replica_set : Printer → Hocon → Emqx → Template → Option SetObject
unfolding named generate_replica_set get_dashboard_service_port
get_new_replica_set p hocon instance' t =
    named p (dashboard_of hocon instance') instance'.status.replicant_nodes_status.collision_count
      (generate_replica_set instance' t)
