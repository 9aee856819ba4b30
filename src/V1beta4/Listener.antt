-- ===== src/V1beta4/Listener.antt =====
-- controllers/apps/v1beta4/add_listener.go and MergeServicePorts of apis/apps/v1beta4/util.go: the
-- service and the endpoints for the listeners that the nodes have. The decoding of the API's answer
-- is a parameter, with `none` for an error.
pub mod Common
use Prim.Native.Char.{code}
use emqx_operator.Prelude.{
  ℕ, ℤ, ◌++◌, ◌==◌, ltb, pos, ◌+++◌, String, str_eq, Bool, true, false, not, ◌&&◌, ◌||◌, Option,
  none, some, List, [], ◌∷◌, map, keep, any, if◌then◌else◌,
}
use emqx_operator.Prelude.Text.{contains, has_text, split_port, atoi, itoa, to_int32}
use emqx_operator.Errors.{Error, other, Result, ok, err}
use emqx_operator.Http.{Requester, Response}
use emqx_operator.Kube.{Client, Pod, PodCondition, status_true}
use emqx_operator.Kube.Pods.{ServicePort, Service, Metadata}
use emqx_operator.Api.Ports.{keep_new}
use emqx_operator.V1beta4.{Emqx}

pub record Listener : Type 0 where
  pub protocol : String
  pub listen_on : String

-- The listeners of each node; the names of the nodes are not read.
abbrev pub Decoder : Type 0
Decoder = String → Option (List (List Listener))

-- MergeServicePorts
unfoldable pub merge_service_ports : List ServicePort → List ServicePort → List ServicePort
unfolding keep_new
merge_service_ports ports1 ports2 = keep_new (λ p. p.name) (λ p. p.port) [] [] (ports1 ++ ports2)

abbrev pub is_in : List String → String → Bool
is_in names name = any (str_eq name) names

-- Those of `ls` on an address that is in the set, which loses it then.
unfoldable pub take_those : List String → List Listener → List Listener
take_those on [] = []
take_those on (l ∷ ls) = elim (is_in on l.listen_on) [
  | true ↦ l ∷ take_those (keep (λ a. not (str_eq a l.listen_on)) on) ls
  | false ↦ take_those on ls
]

unfoldable pub intersection : List Listener → List Listener → List Listener
unfolding take_those
intersection listeners1 listeners2 = take_those (map (λ l. l.listen_on) listeners1) listeners2

-- The loop over the nodes, which keeps what its last round has.
unfoldable pub neighbours : List Listener → List Listener → List (List Listener) → List Listener
unfolding intersection
neighbours found a [] = found
neighbours found a (b ∷ rest) = neighbours (intersection a b) b rest

unfoldable pub common_listeners : List (List Listener) → List Listener
unfolding neighbours
common_listeners [] = []
common_listeners (a ∷ []) = a
common_listeners (a ∷ b ∷ rest) = neighbours [] a (b ∷ rest)

abbrev is_digit : ℕ → Bool
is_digit c = not (ltb c b'0') && not (ltb b'9' c)

abbrev starts_with_digit : String → Bool
starts_with_digit String.[] = false
starts_with_digit (String.◌∷◌ c s) = is_digit (code c)

-- The text less each colon before digits, with these: at a place within such digits, and elsewhere.
unfoldable pub without_numbers : String → String × String
without_numbers String.[] = ("", "")
without_numbers (String.◌∷◌ c s) =
    let rest = without_numbers s in
    let outside = if code c == b':' && starts_with_digit s then rest.0 else String.◌∷◌ c rest.1 in
    (if is_digit (code c) then rest.0 else outside, outside)

unfoldable pub with_dashes : String → String
with_dashes String.[] = ""
with_dashes (String.◌∷◌ c s) =
    let rest = with_dashes s in if code c == b':' then "-" +++ rest else String.◌∷◌ c rest

abbrev is_udp : String → Bool
is_udp protocol = has_text protocol "udp" || has_text protocol "dtls" || has_text protocol "sn"

abbrev port_or_all : String → Option String → String
port_or_all listen_on none = listen_on
port_or_all listen_on (some port) = port

-- The text of the port of an address.
unfoldable pub port_text : String → String
unfolding contains split_port
port_text listen_on =
    if contains b':' listen_on then port_or_all listen_on (split_port listen_on) else listen_on

unfoldable pub service_port_of : Listener → ServicePort
unfolding without_numbers with_dashes port_text atoi to_int32 itoa
service_port_of l =
    let port = port_text l.listen_on in
    let number = to_int32 (atoi port) in
    record {
      name = with_dashes (without_numbers l.protocol).1 +++ "-" +++ port;
      protocol = if is_udp l.protocol then "UDP" else "TCP";
      port = number;
      target_port = itoa number;
      node_port = pos 0;
    }

abbrev pub ports_in : Decoder → Result Response → Result (List ServicePort)
ports_in decode (err x) = err x
ports_in decode (ok resp) = elim (decode resp.body) [
  | none ↦ err (other "failed to unmarshal node statuses")
  | some nodes ↦ ok (map service_port_of (common_listeners nodes))
]

unfoldable pub get_listener_ports_by_api : Requester → Decoder → Result (List ServicePort)
unfolding service_port_of common_listeners
get_listener_ports_by_api r decode = ports_in decode (r.request "GET" "api/v4/listeners" [])

-- The template's service, without a selector; `none` is nil.
unfoldable pub generate_listener_service : Emqx → List ServicePort → Option Service
unfolding merge_service_ports
generate_listener_service e listener_ports =
    let template = e.service_template in
    elim (merge_service_ports template.spec.ports listener_ports) [
      | [] ↦ none
      | p ∷ ps ↦ some (record template {
        namespace = e.namespace;
        spec = record (template.spec) { selector = []; ports = p ∷ ps };
      })
    ]

-- corev1.EndpointPort, corev1.EndpointAddress with the pod that it refers to, and corev1.Endpoints,
-- which has one subset.
pub record EndpointPort : Type 0 where
  pub name : String
  pub port : ℤ
  pub protocol : String

pub record EndpointAddress : Type 0 where
  pub ip : String
  pub node_name : String
  pub target_namespace : String
  pub target_name : String
  pub target_uid : String

pub record Endpoints : Type 0 where
  pub name : String
  pub namespace : String
  pub metadata : Metadata
  pub ports : List EndpointPort
  pub addresses : List EndpointAddress

abbrev endpoint_port : ServicePort → EndpointPort
endpoint_port p = record { name = p.name; port = p.port; protocol = p.protocol }

abbrev endpoint_address : Pod → EndpointAddress
endpoint_address p = record {
  ip = p.pod_ip;
  node_name = p.node_name;
  target_namespace = p.namespace;
  target_name = p.name;
  target_uid = p.uid;
}

unfoldable pub generate_endpoints : Service → List Pod → Endpoints
generate_endpoints svc pods = record {
  name = svc.name;
  namespace = svc.namespace;
  metadata = svc.metadata;
  ports = map endpoint_port svc.spec.ports;
  addresses = map endpoint_address pods;
}

-- A pod for each of its conditions that says it is ready.
abbrev each_ready : Pod → List PodCondition → List Pod → List Pod
each_ready p [] rest = rest
each_ready p (c ∷ cs) rest =
    let more = each_ready p cs rest in
    if str_eq c.type "Ready" && status_true c.status then p ∷ more else more

unfoldable pub ready_pods : List Pod → List Pod
ready_pods [] = []
ready_pods (p ∷ ps) = each_ready p p.conditions (ready_pods ps)

abbrev pub or_nil : Result (List ServicePort) → List ServicePort
or_nil (err x) = []
or_nil (ok ports) = ports

abbrev pub published : List Pod → Option Service → Option (Endpoints × Service)
published pods none = none
published pods (some svc) = some (generate_endpoints svc pods, svc)

-- addListener.reconcile: the objects that it hands to CreateOrUpdateList, if any.
unfoldable pub reconcile : Client → Requester → Decoder → Emqx → Option (Endpoints × Service)
unfolding ready_pods get_listener_ports_by_api generate_listener_service generate_endpoints
reconcile c r decode e = elim (ready_pods (c.pods e.namespace e.labels)) [
  | [] ↦ none
  | p ∷ ps ↦
      published (p ∷ ps) (generate_listener_service e (or_nil (get_listener_ports_by_api r decode)))
]
