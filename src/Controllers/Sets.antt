-- ===== src/Controllers/Sets.antt =====
-- controllers/apps/v2beta1/util.go: what the reconcilers ask the cluster for, and the orders in
-- which they walk the answers.
pub mod Roles
use emqx_operator.Prelude.{
  ℕ, ◌-◌, ◌/◌, ◌%◌, ℤ, pos, negsuc, zero, suc, ltb_ℤ, String, str_eq, is_lt, compare_str, Bool,
  true, false, not, ◌&&◌, Option, none, some, List, [], ◌∷◌, ◌++◌, ltb, leb, ◌==◌, keep,
  if◌then◌else◌,
}
use emqx_operator.Prelude.Sort.{sort}
use emqx_operator.Kube.{Client, Workload, Pod, Event}
use emqx_operator.Api.Types.{Emqx}
use emqx_operator.Api.Status.{get_condition, available}
use emqx_operator.Api.Labels.{
  lookup, default_core_labels, default_replicant_labels, labels_pod_template_hash_key,
}

abbrev pub str_lt : String → String → Bool
str_lt a b = is_lt (compare_str a b)

-- StatefulSetsByCreationTimestamp.Less and ReplicaSetsByCreationTimestamp.Less.
abbrev pub workload_less : Workload → Workload → Bool
workload_less a b =
    if a.creation_timestamp == b.creation_timestamp
    then str_lt a.name b.name
    else ltb a.creation_timestamp b.creation_timestamp

-- The three results of getStateFulSetList and getReplicaSetList.
pub record Sets : Type 0 where
  pub update : Option Workload
  pub current : Option Workload
  pub old : List Workload

abbrev pub note_hash : String → String → Workload → String → Sets → Sets
note_hash update_revision current_revision w hash found =
    let is_update = str_eq hash update_revision in
    let is_current = str_eq hash current_revision in
    record {
      update = if is_update then some w else found.update;
      current = if is_current then some w else found.current;
      old = if not is_update && not is_current then found.old ++ w ∷ [] else found.old;
    }

abbrev pub note : String → String → Workload → Sets → Sets
note update_revision current_revision w found =
    elim (lookup labels_pod_template_hash_key w.labels) [
      | none ↦ found
      | some hash ↦ note_hash update_revision current_revision w hash found
    ]

-- The loop over `list.Items`, the same in both functions.
scan : String → String → Sets → List Workload → Sets
scan update_revision current_revision found [] = found
scan update_revision current_revision found (w ∷ ws) =
    scan update_revision current_revision (note update_revision current_revision w found) ws

assign_roles : String → String → List Workload → Sets
unfolding scan sort
assign_roles update_revision current_revision items =
    let found =
      scan update_revision current_revision (record { update = none; current = none; old = [] })
        items in
    record found { old = sort workload_less found.old }

unfoldable pub get_stateful_set_list : Client → Emqx → Sets
unfolding assign_roles default_core_labels lookup
get_stateful_set_list client instance' =
    assign_roles instance'.status.core_nodes_status.update_revision
      instance'.status.core_nodes_status.current_revision
      (client.stateful_sets instance'.namespace (default_core_labels instance'))

unfoldable pub get_replica_set_list : Client → Emqx → Sets
unfolding assign_roles default_replicant_labels lookup
get_replica_set_list client instance' =
    assign_roles instance'.status.replicant_nodes_status.update_revision
      instance'.status.replicant_nodes_status.current_revision
      (client.replica_sets instance'.namespace (default_replicant_labels instance'))

-- map[types.UID][]*corev1.Pod
abbrev pub PodMap : Type 0
PodMap = List (String × List Pod)

unfoldable pub pods_of : String → PodMap → Option (List Pod)
pods_of uid [] = none
pods_of uid ((k, ps) ∷ m) = if str_eq k uid then some ps else pods_of uid m

put_pods : String → List Pod → PodMap → PodMap
put_pods uid ps [] = (uid, ps) ∷ []
put_pods uid ps ((k, qs) ∷ m) = if str_eq k uid then (uid, ps) ∷ m else (k, qs) ∷ put_pods uid ps m

unfoldable pub empty_entries : PodMap → List Workload → PodMap
unfolding put_pods
empty_entries m [] = m
empty_entries m (rs ∷ items) = empty_entries (put_pods rs.uid [] m) items

add_pod_to : Pod → String → PodMap → PodMap
unfolding pods_of put_pods
add_pod_to pod uid m = elim (pods_of uid m) [ none ↦ m | some ps ↦ put_pods uid (ps ++ pod ∷ []) m ]

add_pod : Pod → PodMap → PodMap
unfolding add_pod_to
add_pod pod m = elim pod.controller_uid [ none ↦ m | some uid ↦ add_pod_to pod uid m ]

unfoldable pub add_pods : PodMap → List Pod → PodMap
unfolding add_pod
add_pods m [] = m
add_pods m (p ∷ items) = add_pods (add_pod p m) items

unfoldable pub get_rs_pod_map : Client → Emqx → PodMap
unfolding empty_entries add_pods default_replicant_labels
get_rs_pod_map client instance' =
    let labels = default_replicant_labels instance' in
    add_pods (empty_entries [] (client.replica_sets instance'.namespace labels))
      (client.pods instance'.namespace labels)

abbrev pub nanoseconds : ℕ
nanoseconds = 1000000000

abbrev pub negative : ℕ → ℤ
negative zero = pos 0
negative (suc n) = negsuc n

-- int32(time.Since(t).Seconds()) at the reading `now`: whole seconds, cut off towards zero. The
-- rounding of the float and spans that do not fit an int32 (68 years) are left out.
unfoldable pub seconds_since : ℕ → ℕ → ℤ
seconds_since now t =
    if leb t now then pos ((now - t) / nanoseconds) else negative ((t - now) / nanoseconds)

unfoldable pub check_initial_delay_seconds_ready : ℕ → Emqx → Bool
unfolding seconds_since get_condition
check_initial_delay_seconds_ready now instance' = elim (get_condition instance'.status available) [
  | none ↦ false
  | some (i, c) ↦
      if not (str_eq c.type available)
      then false
      else ltb_ℤ instance'.spec.update_strategy.initial_delay_seconds
          (seconds_since now c.last_transition_time)
]

-- Time.Second(): the second within the minute.
abbrev pub second_of_minute : ℕ → ℕ
second_of_minute t = t / nanoseconds % 60

-- EventsByLastTimestamp.Less
abbrev pub event_less : Event → Event → Bool
event_less a b =
    if a.last_timestamp == b.last_timestamp
    then ltb (second_of_minute a.creation_timestamp) (second_of_minute b.creation_timestamp)
    else ltb a.last_timestamp b.last_timestamp

unfoldable pub handler_event_list : List Event → List Event
unfolding sort
handler_event_list items = sort event_less (keep (λ e. str_eq e.reason "SuccessfulDelete") items)

abbrev last_event : List Event → Option Event
last_event [] = none
last_event (e ∷ []) = some e
last_event (e ∷ f ∷ es) = last_event (f ∷ es)

unfoldable pub check_wait_takeover_ready : ℕ → Emqx → List Event → Bool
unfolding seconds_since
check_wait_takeover_ready now instance' events = elim (last_event events) [
  | none ↦ true
  | some e ↦
      ltb_ℤ instance'.spec.update_strategy.evacuation_strategy.wait_takeover
        (seconds_since now e.last_timestamp)
]

-- PodsByCreationTimestamp.Less
abbrev pub pod_less : Pod → Pod → Bool
pod_less a b =
    if a.creation_timestamp == b.creation_timestamp
    then str_lt a.name b.name
    else ltb a.creation_timestamp b.creation_timestamp

-- PodsByNameOlder.Less
abbrev pub name_older : Pod → Pod → Bool
name_older a b = if str_eq a.name b.name then pod_less a b else str_lt b.name a.name

-- PodsByNameNewer.Less
abbrev pub name_newer : Pod → Pod → Bool
name_newer a b = if str_eq a.name b.name then pod_less b a else str_lt b.name a.name
