-- ===== src/Controllers/Nodes.antt =====
-- controllers/apps/v2beta1/update_emqx_status.go: the nodes and evacuations that the management API
-- reports, and the pods on which the nodes run.
pub mod Claims
use Prim.Native.Char.{code}
use emqx_operator.Prelude.{
  ltb_ℤ, String, str_eq, starts_with, Bool, not, ◌&&◌, Option, none, some, List, [], ◌∷◌, ◌++◌,
  ◌==◌, if◌then◌else◌,
}
use emqx_operator.Prelude.Sort.{sort}
use emqx_operator.Errors.{other, Result, ok, err}
use emqx_operator.Http.{Requester, Response, Decoder}
use emqx_operator.Kube.{Client, Pod}
use emqx_operator.Api.Types.{Emqx, EmqxNode, NodeEvacuationStatus}
use emqx_operator.Api.Labels.{default_labels}

abbrev decode {ℓ} : {A : Type ℓ} → Option A → Result A
decode none = err (other "failed to unmarshal node statuses")
decode (some a) = ok a

abbrev checked {ℓ} : {A : Type ℓ} → (String → Option A) → Result Response → Result A
checked f (err e) = err e
checked f (ok resp) =
    if not (resp.status_code == 200) then err (other "failed to get API") else decode (f resp.body)

unfoldable pub get_emqx_nodes_by_api : Requester → Decoder → Result (List EmqxNode)
get_emqx_nodes_by_api r d = checked d.nodes (r.request "GET" "api/v5/nodes" [])

unfoldable pub get_node_evacuation_status_by_api :
    Requester → Decoder → Result (List NodeEvacuationStatus)
get_node_evacuation_status_by_api r d =
    checked d.evacuations (r.request "GET" "api/v5/load_rebalance/global_status" [])

-- node.Node[strings.Index(node.Node, "@")+1:]: all of the name, if it has no "@".
after_at : String → String → String
after_at whole String.[] = whole
after_at whole (String.◌∷◌ c s) = if code c == b'@' then s else after_at whole s

-- strings.Split(s, ":")[0]
before_colon : String → String
before_colon String.[] = ""
before_colon (String.◌∷◌ c s) = if code c == b':' then "" else String.◌∷◌ c (before_colon s)

unfoldable pub host_of : String → String
unfolding after_at before_colon
host_of node = before_colon (after_at node node)

abbrev owned_by : EmqxNode → Pod → String → EmqxNode
owned_by node pod uid = record node { pod_uid = pod.uid; controller_uid = uid }

-- The node, for a pod that has a controller; the loop passes over the others.
abbrev claim : EmqxNode → Pod → List EmqxNode
claim node pod = elim pod.controller_uid [ none ↦ [] | some uid ↦ owned_by node pod uid ∷ [] ]

abbrev pub runs_core : EmqxNode → Pod → Bool
runs_core node pod = str_eq node.role "core" && starts_with (host_of node.node) pod.name

abbrev pub runs_replicant : EmqxNode → Pod → Bool
runs_replicant node pod = str_eq node.role "replicant" && str_eq (host_of node.node) pod.pod_ip

-- The inner loop, over the pods, for either role.
unfoldable pub claims : (EmqxNode → Pod → Bool) → EmqxNode → List Pod → List EmqxNode
claims runs node [] = []
claims runs node (p ∷ ps) = (if runs node p then claim node p else []) ++ claims runs node ps

unfoldable pub all_claims : (EmqxNode → Pod → Bool) → List EmqxNode → List Pod → List EmqxNode
unfolding claims
all_claims runs [] pods = []
all_claims runs (n ∷ ns) pods = claims runs n pods ++ all_claims runs ns pods

abbrev by_uptime : EmqxNode → EmqxNode → Bool
by_uptime a b = ltb_ℤ a.uptime b.uptime

-- The two lists that the method returns, core nodes first; both are nil beside an error.
unfoldable pub get_emqx_nodes :
    Client → Requester → Decoder → Emqx → Result (List EmqxNode × List EmqxNode)
unfolding get_emqx_nodes_by_api host_of all_claims sort default_labels
get_emqx_nodes client r d e = elim (get_emqx_nodes_by_api r d) [
  | err x ↦ err x
  | ok nodes ↦
      let pods = client.pods e.namespace (default_labels e) in
      ok (
        sort by_uptime (all_claims runs_core nodes pods),
        sort by_uptime (all_claims runs_replicant nodes pods),
      )
]
