-- ===== src/Handler.antt =====
-- internal/handler/handler.go: how an object of a resource is created, or brought up to date. The
-- client and the patch library are parameters; creation times and managed fields, which are copied
-- from the stored object and never read, are left out.
pub mod Stable
use emqx_operator.Prelude.{
  ℤ, pos, ◌==ℤ◌, ◌+++◌, String, str_eq, Bool, true, false, not, ◌||◌, Option, none, some, List, [],
  ◌∷◌, ◌++◌, map, if◌then◌else◌,
}
use emqx_operator.Errors.{Error, is_not_found, Result, ok, err}
use emqx_operator.Kube.{Labels}
use emqx_operator.Kube.Pods.{ServicePort, ServiceSpec}
use emqx_operator.Api.Labels.{merge_into, insert}
use emqx_operator.Api.Dashboard.{PortMap, put_port}

-- What the code tells apart: a service, and every other object, as its text.
pub data Body : Type 0 where
  service : ServiceSpec → Body
  other : String → Body

-- client.Object
pub record Object : Type 0 where
  pub kind : String
  pub name : String
  pub namespace : String
  pub resource_version : String
  pub annotations : Labels
  pub body : Body

-- What Get finds; `service_spec` is the conversion of the unstructured object to a service.
pub record Stored : Type 0 where
  pub resource_version : String
  pub annotations : Labels
  pub service_spec : Result ServiceSpec

-- SetControllerReference, Get, SetLastAppliedAnnotation, Create, Update, and whether the patch that
-- is calculated is empty.
pub record Api : Type 0 where
  pub owner_error : Object → Option Error
  pub get : Object → Result Stored
  pub with_last_applied : Object → Result Object
  pub create_error : Object → Option Error
  pub update_error : Object → Option Error
  pub is_patch_empty : Stored → Object → Result Bool

pub data Call : Type 0 where
  created updated : Object → Call

-- The calls that change the cluster, in order, and the error.
pub record Handled : Type 0 where
  pub calls : List Call
  pub error : Option Error

abbrev pub failed : Error → Handled
failed e = record { calls = []; error = some e }

abbrev pub untouched : Handled
untouched = record { calls = []; error = none }

-- `nodePortMap`: of ports with the same name the last one counts.
unfoldable pub node_port_map : PortMap → List ServicePort → PortMap
unfolding put_port
node_port_map m [] = m
node_port_map m (p ∷ ps) = node_port_map (put_port p.name p.node_port m) ps

unfoldable pub node_port_of : String → PortMap → Option ℤ
node_port_of name [] = none
node_port_of name ((k, v) ∷ m) = if str_eq k name then some v else node_port_of name m

abbrev pub with_node_port : ServicePort → Option ℤ → ServicePort
with_node_port p none = p
with_node_port p (some n) = record p { node_port = n }

-- A port that has no node port takes the stored one of its name.
unfoldable pub keep_node_port : PortMap → ServicePort → ServicePort
unfolding node_port_of
keep_node_port m p = if p.node_port ==ℤ pos 0 then with_node_port p (node_port_of p.name m) else p

abbrev pub keep_cluster_ip : ServiceSpec → ServiceSpec → ServiceSpec
keep_cluster_ip stored wanted =
    if str_eq wanted.type "" || str_eq wanted.type "ClusterIP"
    then if not (str_eq stored.cluster_ip "")
      then record wanted { cluster_ip = stored.cluster_ip }
      else wanted
    else wanted

abbrev pub keep_node_ports : ServiceSpec → ServiceSpec → ServiceSpec
keep_node_ports stored wanted =
    if str_eq wanted.type "NodePort" || str_eq wanted.type "LoadBalancer"
    then record wanted { ports = map (keep_node_port (node_port_map [] stored.ports)) wanted.ports }
    else wanted

-- What the API server has allocated to the stored service goes into the wanted one.
unfoldable pub keep_allocated : ServiceSpec → ServiceSpec → ServiceSpec
unfolding keep_node_port node_port_map
keep_allocated stored wanted = keep_node_ports stored (keep_cluster_ip stored wanted)

-- The object with the version and the annotations of the stored one.
unfoldable pub with_stored : Stored → Object → Object
unfolding merge_into
with_stored s obj = record obj {
  resource_version = s.resource_version;
  annotations = merge_into obj.annotations s.annotations;
}

abbrev pub completed : Stored → Object → Body → Result Object
completed s obj (other text) = ok obj
completed s obj (service wanted) = elim s.service_spec [
  | err e ↦ err e
  | ok stored ↦ ok (record obj { body = service (keep_allocated stored wanted) })
]

module _ (api : Api) where
  abbrev pub after_create : Object → Option Error → Handled
  after_create obj error = record { calls = created obj ∷ []; error = error }

  unfoldable pub create : Object → Handled
  create obj = elim (api.with_last_applied obj) [
    | err e ↦ failed e
    | ok o ↦ after_create o (api.create_error o)
  ]

  abbrev pub after_update : Object → Option Error → Handled
  after_update obj error = record { calls = updated obj ∷ []; error = error }

  unfoldable pub update : Object → Handled
  update obj = elim (api.with_last_applied obj) [
    | err e ↦ failed e
    | ok o ↦ after_update o (api.update_error o)
  ]

  abbrev pub patch : Object → Result Bool → Handled
  patch obj (err e) = failed e
  patch obj (ok is_empty) = if not is_empty then update obj else untouched

  abbrev pub compare : Stored → Result Object → Handled
  compare s (err e) = failed e
  compare s (ok obj) = patch obj (api.is_patch_empty s obj)

  abbrev pub bring_up : Object → Result Stored → Handled
  bring_up obj (err e) = if is_not_found e then create obj else failed e
  bring_up obj (ok s) = compare s (completed s (with_stored s obj) obj.body)

  unfoldable pub create_or_update : Object → Handled
  unfolding create update with_stored keep_allocated
  create_or_update obj = elim (api.owner_error obj) [
    | some e ↦ failed e
    | none ↦ bring_up obj (api.get obj)
  ]

  abbrev pub then_rest : Handled → Handled → Handled
  then_rest first rest = elim first.error [
    | some e ↦ first
    | none ↦ record rest { calls = first.calls ++ rest.calls }
  ]

  unfoldable pub create_or_update_list : List Object → Handled
  unfolding create_or_update
  create_or_update_list [] = untouched
  create_or_update_list (o ∷ os) = then_rest (create_or_update o) (create_or_update_list os)

abbrev join : List String → String
join [] = ""
join (s ∷ []) = s
join (s ∷ t ∷ ss) = s +++ "," +++ join (t ∷ ss)

-- The names of the containers that the operator manages, in an annotation.
unfoldable pub set_manager_container_annotation : Labels → List String → Labels
unfolding insert
set_manager_container_annotation annotations names =
    insert "apps.emqx.io/manage-containers" (join names) annotations
