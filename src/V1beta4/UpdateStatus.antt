-- ===== src/V1beta4/UpdateStatus.antt =====
-- controllers/apps/v1beta4/update_emqx_status.go: the status of an instance, from the nodes that the
-- API reports and the sets in the cluster. The decoding of the API's answers is a parameter, with
-- `none` for an error and a nil list for JSON's null; `none` is else a panic.
pub mod Written
use emqx_operator.Prelude.{
  ℕ, ℤ, pos, ◌==ℤ◌, inc_int32, String, str_eq, Bool, true, false, not, Option, none, some, ◌>>=◌,
  List, [], ◌∷◌, if◌then◌else◌,
}
use emqx_operator.Errors.{Error, other, Result, ok, err}
use emqx_operator.Http.{Requester, Response}
use emqx_operator.Kube.{ConditionStatus, is_true, is_false, Workload}
use emqx_operator.V1beta4.{Emqx, EmqxNode, EmqxStatus, EvacuationStatus, BlueGreenStatus, Cluster}
use emqx_operator.V1beta4.Status.{add_condition, running, blue_green_updating}
use emqx_operator.V1beta4.Sets.{get_in_cluster_stateful_sets}

pub record Decoder : Type 0 where
  pub nodes : String → Option (List EmqxNode)
  pub evacuations : String → Option (Option (List EvacuationStatus))

-- The instance as a function has left it, and the error.
abbrev pub Outcome : Type 0
Outcome = Emqx × Option Error

abbrev pub with_status : Emqx → EmqxStatus → Emqx
with_status e s = record e { status = s }

abbrev pub with_blue_green : Option BlueGreenStatus → Emqx → Emqx
with_blue_green b e = with_status e (record (e.status) { blue_green = b })

abbrev pub with_version : String → Emqx → Emqx
with_version v e = with_status e (record (e.status) { current_stateful_set_version = v })

unfoldable pub count_running : ℤ → List EmqxNode → ℤ
unfolding inc_int32
count_running n [] = n
count_running n (v ∷ vs) =
    count_running (if str_eq v.node_status "Running" then inc_int32 n else n) vs

abbrev decoded {ℓ} : {A : Type ℓ} → Option A → Result A
decoded none = err (other "failed to unmarshal node statuses")
decoded (some a) = ok a

abbrev pub on_body {ℓ} : {A : Type ℓ} → (String → Option A) → Result Response → Result A
on_body decode (err x) = err x
on_body decode (ok resp) = decoded (decode resp.body)

-- The last set and the one before it.
abbrev pub last_two : Workload → Workload → List Workload → Workload × Workload
last_two a b [] = (a, b)
last_two a b (c ∷ ws) = last_two b c ws

abbrev no_blue_green : BlueGreenStatus
no_blue_green = record {
  origin_stateful_set = "";
  current_stateful_set = "";
  started_at = none;
  evacuations_status = none;
}

abbrev pub or_empty : Option BlueGreenStatus → BlueGreenStatus
or_empty none = no_blue_green
or_empty (some b) = b

abbrev or_now : ℕ → Option ℕ → Option ℕ
or_now now none = some now
or_now now (some t) = some t

abbrev pub started : ℕ → Workload → Workload → BlueGreenStatus → BlueGreenStatus
started now origin current b = record b {
  current_stateful_set = current.name;
  origin_stateful_set = origin.name;
  started_at = or_now now b.started_at;
}

-- What subResult says: an error with `cont` is reported, and the next sub-reconciler runs.
pub data Ended : Type 0 where
  continued stopped : Error → Ended
  written : Ended

-- The instance, and whether its status was sent to the cluster.
pub record Reconciled : Type 0 where
  pub emqx : Emqx
  pub is_sent : Bool
  pub ends : Ended

abbrev pub stays : Emqx → Error → Reconciled
stays e x = record { emqx = e; is_sent = false; ends = continued x }

module _ (c : Cluster) (r : Requester) (decoder : Decoder) (now : ℕ) where
  unfoldable pub get_node_statuses_by_api : Result (List EmqxNode)
  get_node_statuses_by_api = on_body decoder.nodes (r.request "GET" "api/v4/nodes" [])

  unfoldable pub get_evacuation_status_by_api : Result (Option (List EvacuationStatus))
  get_evacuation_status_by_api =
      on_body decoder.evacuations (r.request "GET" "api/v4/load_rebalance/global_status" [])

  abbrev pub count_nodes : Emqx → Result (List EmqxNode) → Option Outcome
  count_nodes e (err x) = some (e, some x)
  count_nodes e (ok nodes) = e.replicas >>= λ n. some (
    with_status e (record (e.status) {
      emqx_nodes = nodes;
      ready_replicas = count_running (pos 0) nodes;
      replicas = n;
    }),
    none,
  )

  unfoldable pub update_ready_replicas : Emqx → Option Outcome
  unfolding count_running get_node_statuses_by_api
  update_ready_replicas e = count_nodes e get_node_statuses_by_api

  unfoldable pub add_running : Emqx → Emqx
  unfolding add_condition
  add_running e = with_status e (
      if e.status.ready_replicas ==ℤ e.status.replicas
      then add_condition now running is_true "ClusterReady" "All resources are ready" e.status
      else add_condition now running is_false "ClusterNotReady" "Some resources are not ready"
          e.status)

  -- An EmqxBroker has no status of a blue-green update.
  abbrev pub one_set : Emqx → Workload → Outcome
  one_set e w = (with_blue_green none (add_running (with_version w.current_revision e)), none)

  abbrev pub write_evacuations :
      Emqx → BlueGreenStatus → Result (Option (List EvacuationStatus)) → Outcome
  write_evacuations e b (err x) = (with_blue_green (some b) e, some x)
  write_evacuations e b (ok vs) =
      (with_blue_green (some (record b { evacuations_status = vs })) e, none)

  abbrev pub write_start : Emqx → Workload → Workload → Outcome
  write_start e origin current =
      write_evacuations e (started now origin current (or_empty e.status.blue_green))
        get_evacuation_status_by_api

  abbrev pub updating : Emqx → Workload → Emqx
  updating e current =
      let versioned = with_version current.current_revision e in
      with_status versioned (add_condition now blue_green_updating is_true "" "" versioned.status)

  -- Until all replicas of the current set are ready the status says no more.
  unfoldable pub two_sets : Emqx → Workload × Workload → Option Outcome
  unfolding add_condition get_evacuation_status_by_api
  two_sets e (current, origin) =
      if not e.is_enterprise
      then some (e, some (other "blueGreenUpdatingStatus only support EmqxEnterprise"))
      else (current.spec_replicas >>= λ n. some (
          if not (current.ready_replicas ==ℤ n)
          then (updating e current, none)
          else write_start (updating e current) origin current))

  abbrev pub with_sets : Emqx → Result (List Workload) → Option Outcome
  with_sets e (err x) = some (e, some x)
  with_sets e (ok []) = some (e, none)
  with_sets e (ok (w ∷ [])) = some (one_set e w)
  with_sets e (ok (a ∷ b ∷ ws)) = two_sets e (last_two a b ws)

  unfoldable pub update_condition : Emqx → Option Outcome
  unfolding get_in_cluster_stateful_sets two_sets add_running
  update_condition e = get_in_cluster_stateful_sets c e >>= λ sets. with_sets e sets

  module _ (write_error : Emqx → Option Error) where
    abbrev pub write : Emqx → Reconciled
    write e = elim (write_error e) [
      | some x ↦ record { emqx = e; is_sent = true; ends = stopped x }
      | none ↦ record { emqx = e; is_sent = true; ends = written }
    ]

    abbrev pub after_condition : Outcome → Reconciled
    after_condition (e, some x) = stays e x
    after_condition (e, none) = write e

    abbrev pub after_replicas : Outcome → Option Reconciled
    after_replicas (e, some x) = some (stays e x)
    after_replicas (e, none) = update_condition e >>= λ o. some (after_condition o)

    unfoldable pub reconcile : Emqx → Option Reconciled
    unfolding update_ready_replicas update_condition
    reconcile e = update_ready_replicas e >>= λ o. after_replicas o
