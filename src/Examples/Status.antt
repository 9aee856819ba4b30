-- ===== src/Examples/Status.antt =====
-- The theorems on the update of the status and on the sets and nodes that it reads.
use emqx_operator.Prelude.{pos, length, keep, true, ◌≡◌, refl, none, some, [], ◌∷◌, arith}
use emqx_operator.Prelude.Sort.{sort}
use emqx_operator.Errors.{ok}
use emqx_operator.Kube.{Client}
use emqx_operator.Api.Types.{Emqx, EmqxNode}
use emqx_operator.Api.Status.Conditions.{IsLog}
use emqx_operator.Controllers.Sets.{Sets, get_stateful_set_list, get_replica_set_list}
use emqx_operator.Controllers.Sets.Roles.{HasRoles, get_sets-HasRoles}
use emqx_operator.Controllers.Nodes.{get_emqx_nodes_by_api, get_emqx_nodes, claims}
use emqx_operator.Controllers.Nodes.Claims.{AllClaimed, get_emqx_nodes-AllClaimed}
use emqx_operator.Controllers.UpdateStatus.{Outcome, prepare, reconcile, count_nodes}
use emqx_operator.Controllers.UpdateStatus.Counts.{is_running, is_of, count_nodes_lem}
use emqx_operator.Controllers.UpdateStatus.Conditions.{reconcile-IsLog}
use emqx_operator.Controllers.UpdateStatus.Revisions.{
  core_revision, reconcile-core_revision, or_update,
}
use emqx_operator.Api.Status.{set_condition, get_last_true_condition}
use emqx_operator.Controllers.StatusMachine.{new_emqx_status_machine, next_status, put, core_ready}
use emqx_operator.Examples.Fixtures.{
  status_of, emqx_of, set_of, client_of, pod_of, node_of, requester, decoder_of,
}
use emqx_operator.Examples.Conditions.{progressing, progressing-IsLog}

abbrev client : Client
client = client_of (set_of "core" "v1" 1 ∷ []) [] (pod_of "core-0" "core" ∷ [])

abbrev emqx : Emqx
emqx = emqx_of none (status_of progressing "v1" "v1")

abbrev node : EmqxNode
node = node_of "emqx@core-0.headless" "core"

abbrev sets : Sets
sets = record {
  update = some (set_of "core" "v1" 1);
  current = some (set_of "core" "v1" 1);
  old = [];
}

abbrev counted : EmqxNode
counted = record node { controller_uid = "core" }

get_sets-HasRoles_example :
    HasRoles "v1" "v1" (set_of "core" "v1" 1 ∷ []) (get_stateful_set_list client emqx)
    × HasRoles "" "" [] (get_replica_set_list client emqx)
get_sets-HasRoles_example = get_sets-HasRoles client emqx

abbrev placed : EmqxNode
placed = record node { pod_uid = "core-0"; controller_uid = "core" }

found : get_emqx_nodes client requester (decoder_of (node ∷ [])) emqx ≡ ok (placed ∷ [], [])
unfolding get_emqx_nodes claims sort
found = refl

reported : get_emqx_nodes_by_api requester (decoder_of (node ∷ [])) ≡ ok (node ∷ [])
unfolding get_emqx_nodes_by_api
reported = refl

get_emqx_nodes-AllClaimed_example :
    AllClaimed client requester (decoder_of (node ∷ [])) emqx (node ∷ []) (placed ∷ [], [])
get_emqx_nodes-AllClaimed_example =
    get_emqx_nodes-AllClaimed client requester (decoder_of (node ∷ [])) emqx (node ∷ [])
      (placed ∷ [], []) reported found

-- The core node is up, and the machine moves on.
abbrev updated : Outcome
updated = record {
  emqx =
      put 7 core_ready (record emqx { status = record (emqx.status) { core_nodes = placed ∷ [] } });
  sent = true;
  error = none;
}

prepared : prepare emqx ≡ some emqx
unfolding prepare
prepared = refl

ended : reconcile client (decoder_of (node ∷ [])) 6 7 none (some requester) emqx ≡ some updated
unfolding reconcile get_stateful_set_list get_replica_set_list next_status new_emqx_status_machine
    get_last_true_condition set_condition
ended = refl

reconcile-IsLog_example : IsLog 8 updated.emqx.status.conditions
reconcile-IsLog_example =
    reconcile-IsLog client (decoder_of (node ∷ [])) 6 7 8 none (some requester) emqx updated
      (omega arith) (omega arith) progressing-IsLog ended

current_set : (get_stateful_set_list client emqx).current ≡ some (set_of "core" "v1" 1)
unfolding get_stateful_set_list
current_set = refl

reconcile-core_revision_example :
    core_revision updated.emqx ≡ or_update emqx.status.core_nodes_status
unfolding set_condition
reconcile-core_revision_example =
    reconcile-core_revision client (decoder_of (node ∷ [])) 6 7 none (some requester) emqx emqx
      (set_of "core" "v1" 1) updated (omega arith) progressing-IsLog prepared current_set refl ended

count_nodes_lem_example :
    let t = count_nodes sets (counted ∷ []) emqx.status.core_nodes_status in
    (t.ready_replicas ≡ pos (length (keep is_running (counted ∷ []))))
    × (t.current_replicas ≡ pos (length (keep (is_of sets.current) (counted ∷ []))))
    × (t.update_replicas ≡ pos (length (keep (is_of sets.update) (counted ∷ []))))
count_nodes_lem_example =
    count_nodes_lem sets (counted ∷ []) emqx.status.core_nodes_status (omega arith)
