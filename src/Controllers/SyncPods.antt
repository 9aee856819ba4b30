-- ===== src/Controllers/SyncPods.antt =====
-- controllers/apps/v2beta1/sync_pods.go: the scale-down of the sets of the previous revision. What
-- the cluster answers is a parameter; the result has the calls that change it, in order. Events and
-- logs are left out; `none` is a panic.
pub mod Exclusive
pub mod Plan
pub mod Evacuated
use emqx_operator.Prelude.{
  ◌+++◌, ℕ, ℤ, pos, is_positive, dec_int32, ◌==ℤ◌, String, str_eq, Bool, true, false, not, ◌&&◌,
  ◌||◌, Option, none, some, List, [], ◌∷◌, ◌++◌, map, keep, head?, ◌==◌, ◌>>=◌, if◌then◌else◌,
}
use emqx_operator.Prelude.Sort.{sort}
use emqx_operator.Errors.{Error, other, Result, ok, err, is_not_found}
use emqx_operator.Http.{Requester, Response, Decoder, Body, Json, number, texts}
use emqx_operator.Kube.{Client, Workload, Pod, Event, Labels}
use emqx_operator.Api.Types.{Emqx, EmqxNode, NodeEvacuationStatus, EvacuationStrategy}
use emqx_operator.Api.Status
use emqx_operator.Api.Status.{is_condition_true}
use emqx_operator.Api.Labels.{is_exist_replicant, lookup, insert}
use emqx_operator.Controllers.Sets.{
  Sets, get_stateful_set_list, get_replica_set_list, get_rs_pod_map, pods_of, name_older,
  check_initial_delay_seconds_ready, check_wait_takeover_ready, handler_event_list,
}
use emqx_operator.Controllers.Evacuation.{
  Cluster, Action, Reply, Effect, deletion_cost, stopped_node, node_from, get_emqx_node_info_by_api,
  wait_takeover, evacuation_body, started, start_evacuation_by_api, names_on, targeted_names,
  needs_evacuation, not_yet, evacuate, evacuate_or_wait, start_evacuation, update_pod, update_set,
}

abbrev pub is_marked : Pod → Bool
is_marked pod = elim (lookup deletion_cost pod.annotations) [ none ↦ false | some v ↦ true ]

abbrev pub is_deleted : Pod → Bool
is_deleted pod = elim pod.deletion_timestamp [ none ↦ false | some t ↦ true ]

unfoldable pub first_leaving : List Pod → Option Pod
first_leaving [] = none
first_leaving (p ∷ ps) = if is_deleted p || is_marked p then some p else first_leaving ps

find_uid : String → List Pod → Option Pod
find_uid uid [] = none
find_uid uid (p ∷ ps) = if str_eq p.uid uid then some p else find_uid uid ps

-- The loop FindPod: the evacuated node, with its pod.
unfoldable pub find_pod : String → List EmqxNode → List Pod → Option (EmqxNode × Pod)
unfolding find_uid
find_pod name [] pods = none
find_pod name (n ∷ ns) pods =
    let rest = find_pod name ns pods in
    if str_eq n.node name
    then elim (find_uid n.pod_uid pods) [ none ↦ rest | some p ↦ some (n, p) ]
    else rest

abbrev core_node_name : Workload → Pod → String
core_node_name w p =
    "emqx@" +++ p.name +++ "." +++ w.service_name +++ "." +++ w.namespace +++ ".svc.cluster.local"

-- The previous set, where it differs from the updated one.
abbrev pub previous : Sets → Option Workload
previous sets =
    sets.update >>= λ u. sets.current >>= λ w. if str_eq u.uid w.uid then none else some w

module _ (c : Cluster) (client : Client) (r : Requester) (d : Decoder) (now : ℕ) (e : Emqx) where
  abbrev after_info :
      {A : Type 0} → List String → Workload → Result EmqxNode → (nothing found : A) → Effect A
  after_info names w (err x) nothing found = ([], err x)
  after_info names w (ok node) nothing found =
      if str_eq node.node_status "stopped"
      then ([], ok found)
      else evacuate_or_wait c r d now e names w node nothing found

  leaving_or : List String → Workload → Pod → Option Pod → Effect (Option Pod)
  unfolding get_emqx_node_info_by_api evacuate_or_wait
  leaving_or names w p (some q) = ([], ok (some q))
  leaving_or names w p none =
      after_info names w (get_emqx_node_info_by_api r d ("emqx@" +++ p.pod_ip)) none (some p)

  -- The branch with no evacuation, for the sorted pods.
  by_name : List String → Workload → List Pod → Effect (Option Pod)
  unfolding first_leaving leaving_or
  by_name names w [] = ([], ok none)
  by_name names w (p ∷ ps) = leaving_or names w p (first_leaving (p ∷ ps))

  -- The branch with an evacuation; a node that is not found is a nil pointer.
  evacuated : List String → Workload → Option (EmqxNode × Pod) → Option (Effect (Option Pod))
  unfolding evacuate_or_wait
  evacuated names w none = none
  evacuated names w (some (node, p)) =
      some (evacuate_or_wait c r d now e names w node none (some p))

  pick_from :
      List String → Workload → List Pod → List NodeEvacuationStatus → Option (Effect (Option Pod))
  unfolding by_name evacuated find_pod sort
  pick_from names w pods [] = some (by_name names w (sort name_older pods))
  pick_from names w pods (v ∷ _) =
      if not (str_eq v.state "prohibiting")
      then some ([], ok none)
      else evacuated names w (find_pod v.node e.status.replicant_nodes pods)

  pick_pod : List String → Workload → List Pod → Option (Effect (Option Pod))
  unfolding pick_from
  pick_pod names w [] = some ([], ok none)
  pick_pod names w (p ∷ ps) = pick_from names w (p ∷ ps) e.status.node_evacuations_status

  abbrev or_nil : Option (List Pod) → List Pod
  or_nil none = []
  or_nil (some ps) = ps

  unfoldable pub can_be_scale_down_rs : Workload → List String → Option (Effect (Option Pod))
  unfolding pick_pod
  can_be_scale_down_rs old names =
      if not (check_initial_delay_seconds_ready now e)
      then some ([], ok none)
      else pick_pod names old (or_nil (pods_of old.uid (get_rs_pod_map client e)))

  -- The end of canBeScaleDownSts, from the pod of the highest ordinal.
  last_pod : Workload → List String → Result Pod → Effect Bool
  unfolding get_emqx_node_info_by_api evacuate_or_wait
  last_pod old names (err x) = if is_not_found x then ([], ok false) else ([], err x)
  last_pod old names (ok p) =
      if is_deleted p
      then ([], ok false)
      else after_info names old (get_emqx_node_info_by_api r d (core_node_name old p)) false true

  abbrev is_evacuating : Bool
  is_evacuating = elim e.status.node_evacuations_status [
    | [] ↦ false
    | v ∷ _ ↦ not (str_eq v.state "prohibiting")
  ]

  abbrev replicants_lag : Bool
  replicants_lag =
      is_exist_replicant e
      && not (
          str_eq e.status.replicant_nodes_status.current_revision
            e.status.replicant_nodes_status.update_revision)

  unfoldable pub can_be_scale_down_sts : Workload → List String → Option (Effect Bool)
  unfolding is_exist_replicant last_pod
  can_be_scale_down_sts old names =
      if replicants_lag
        || not (check_initial_delay_seconds_ready now e)
        || is_evacuating
        || old.status_replicas ==ℤ pos 0
      then some ([], ok false)
      else old.spec_replicas >>= λ n.
          some (last_pod old names (c.get_pod (old.name +++ "-" +++ c.digits (dec_int32 n))))

  abbrev done : List Action → Option Error → Option Reply
  done actions error = some (record { actions = actions; error = error })

  -- `Spec.Replicas` less one, sent to the API server.
  abbrev scale_down : List Action → Workload → Option Reply
  scale_down actions w = w.spec_replicas >>= λ n.
      done (actions ++ update_set (record w { spec_replicas = some (dec_int32 n) }) ∷ [])
        c.update_set_error

  abbrev pub mark : Pod → Pod
  mark p = record p { annotations = insert deletion_cost "-99999" p.annotations }

  -- After the update of the pod, which is read again; not found, it has no annotation.
  abbrev after_mark : List Action → Workload → Result Pod → Option Reply
  after_mark actions current (err x) =
      if is_not_found x then done actions none else done actions (some x)
  after_mark actions current (ok p) =
      if is_marked p then scale_down actions current else done actions none

  after_update : List Action → Workload → Pod → Option Error → Option Reply
  unfolding dec_int32
  after_update actions current p (some x) = done actions (some x)
  after_update actions current p none = after_mark actions current (c.get_annotated p)

  mark_and_scale : List Action → Workload → Pod → Option Reply
  unfolding after_update
  mark_and_scale actions current p =
      after_update (actions ++ update_pod (mark p) ∷ []) current (mark p) c.update_pod_error

  scale_down_rs : Workload → Effect (Option Pod) → Option Reply
  unfolding mark_and_scale
  scale_down_rs current (actions, err x) = done actions (some x)
  scale_down_rs current (actions, ok none) = done actions none
  scale_down_rs current (actions, ok (some p)) =
      if is_deleted p then done actions none else mark_and_scale actions current p

  scale_down_sts : Workload → Effect Bool → Option Reply
  unfolding dec_int32
  scale_down_sts current (actions, err x) = done actions (some x)
  scale_down_sts current (actions, ok false) = done actions none
  scale_down_sts current (actions, ok true) = scale_down actions current

  sync : List String → Option Workload → Option Workload → Option Reply
  unfolding can_be_scale_down_rs can_be_scale_down_sts scale_down_rs scale_down_sts
  sync names (some rs) sts = can_be_scale_down_rs rs names >>= scale_down_rs rs
  sync names none (some sts) = can_be_scale_down_sts sts names >>= scale_down_sts sts
  sync names none none = done [] none

  -- The method, after its test of the requester.
  unfoldable pub run : Option Reply
  unfolding sync targeted_names
  run =
      if not (is_condition_true e.status Status.available)
      then done [] none
      else let sts = get_stateful_set_list client e in
        let rs = get_replica_set_list client e in
        sync (targeted_names e sts rs) (previous rs) (previous sts)

unfoldable pub reconcile : Cluster → Client → Option Requester → Decoder → ℕ → Emqx → Option Reply
unfolding run
reconcile c client none d now e = some (record { actions = []; error = none })
reconcile c client (some r) d now e = run c client r d now e
