-- ===== src/Controllers/AddSets.antt =====
-- controllers/apps/v2beta1/add_emqx_core.go and add_emqx_repl.go: the creation and the update of the
-- set of core nodes and of the set of replicant nodes, which differ in the fields that a kind of set
-- stands for. The owner references, the logs and the errors that the code drops are left out; `none`
-- is a panic.
pub mod Reported
pub mod Branches
pub mod Sent
pub mod Outcome
pub mod Settled
use emqx_operator.Prelude.{
  ℕ, ℤ, pos, inc_int32, String, str_eq, Bool, true, false, not, ◌&&◌, Option, none, some, ◌>>=◌,
  List, [], ◌∷◌, if◌then◌else◌,
}
use emqx_operator.Errors.{Error, is_already_exists}
use emqx_operator.Kube.{Client, Workload, Labels}
use emqx_operator.Kube.Pods.{SetKind, stateful_set, replica_set, SetObject, PodTemplate, Metadata}
use emqx_operator.Api.Types.{Emqx, EmqxNodesStatus, Template}
use emqx_operator.Api.Status
use emqx_operator.Api.Status.{
  is_condition_true, get_last_true_condition, set_condition, remove_condition,
}
use emqx_operator.Api.Labels.{lookup, clone_and_remove_label, labels_pod_template_hash_key}
use emqx_operator.Api.Dashboard.{Hocon}
use emqx_operator.Controllers.Sets.{get_stateful_set_list, get_replica_set_list}
use emqx_operator.Controllers.StatusMachine.{condition, put, drop_condition}
use emqx_operator.Controllers.Reconcile.{SubResult, after, fail}
use emqx_operator.Controllers.Builders.Named.{Printer, get_new_stateful_set, get_new_replica_set}

-- The cluster: the lists of sets, the stored object of a listed set, and what the calls answer.
-- patch.Maker is not under the repository's sources: `none` is a panic in it or in its result.
-- The retries on a conflict end in an attempt whose Get finds `fetched`, and in `update_error`.
pub record Cluster : Type 0 where
  pub client : Client
  pub object_of : Workload → SetObject
  pub is_template_patch_empty : PodTemplate → PodTemplate → Option Bool
  pub is_set_patch_empty : SetObject → SetObject → Option Bool
  pub create_error : SetObject → Option Error
  pub update_error : SetObject → Option Error
  pub fetched : Emqx

pub data Call : Type 0 where
  create_set update_set : SetObject → Call
  update_status : Emqx → Call

-- The instance that the method leaves behind, the calls that it made in order, and its result.
pub record Added : Type 0 where
  pub emqx : Emqx
  pub calls : List Call
  pub result : SubResult

abbrev pub unchanged : Emqx → Added
unchanged e = record { emqx = e; calls = []; result = after 0 }

-- The condition types, and the status of the nodes, of a kind of set.
abbrev pub progressing : SetKind → String
progressing stateful_set = Status.core_nodes_progressing
progressing replica_set = Status.replicant_nodes_progressing

abbrev pub nodes_ready : SetKind → String
nodes_ready stateful_set = Status.core_nodes_ready
nodes_ready replica_set = Status.replicant_nodes_ready

abbrev pub nodes_status : SetKind → Emqx → EmqxNodesStatus
nodes_status stateful_set e = e.status.core_nodes_status
nodes_status replica_set e = e.status.replicant_nodes_status

abbrev pub put_nodes_status : SetKind → EmqxNodesStatus → Emqx → Emqx
put_nodes_status stateful_set s e = record e { status = record e.status { core_nodes_status = s } }
put_nodes_status replica_set s e = record e {
  status = record e.status { replicant_nodes_status = s };
}

abbrev put_update_revision : SetKind → String → Emqx → Emqx
put_update_revision kind hash e =
    put_nodes_status kind (record (nodes_status kind e) { update_revision = hash }) e

-- The closure of updateEMQXStatus, on the instance that its Get finds.
unfoldable pub update_emqx_status : SetKind → ℕ → String → String → String → Emqx → Emqx
unfolding set_condition remove_condition
update_emqx_status kind now reason message hash e = put_update_revision kind hash (
    drop_condition (nodes_ready kind) (
      drop_condition Status.available
        (drop_condition Status.ready (put now (condition (progressing kind) reason message) e))))

abbrev or_zero : Option ℤ → ℤ
or_zero none = pos 0
or_zero (some n) = n

-- `CollisionCount++`, from 0 where it is nil.
abbrev pub count_collision : SetKind → Emqx → Emqx
count_collision kind e =
    let s = nodes_status kind e in
    put_nodes_status kind
      (record s { collision_count = some (inc_int32 (or_zero s.collision_count)) }) e

-- The label of a set; the empty string where it has none.
abbrev pub hash_of : SetObject → String
hash_of s = elim (lookup labels_pod_template_hash_key s.metadata.labels) [ none ↦ "" | some h ↦ h ]

-- justCheckPodTemplate: what it compares of a set.
unfoldable pub without_hash : PodTemplate → PodTemplate
unfolding clone_and_remove_label lookup
without_hash t = elim (lookup labels_pod_template_hash_key t.metadata.labels) [
  | none ↦ t
  | some h ↦ record t {
    metadata = record t.metadata {
      labels = clone_and_remove_label t.metadata.labels labels_pod_template_hash_key;
    };
  }
]

-- A set that the status says is being rolled out, or not.
abbrev pub is_rolling_out : Emqx → Bool
is_rolling_out e = elim (get_last_true_condition e.status) [
  | none ↦ false
  | some c ↦ not (str_eq c.type Status.available) && not (str_eq c.type Status.ready)
]

-- The stored set's identity on the new set: its metadata, its pods' metadata and its selector.
abbrev pub adopt : SetObject → SetObject → SetObject
adopt new stored = record new {
  name = stored.name;
  namespace = stored.namespace;
  metadata = stored.metadata;
  match_labels = stored.match_labels;
  template = record new.template { metadata = stored.template.metadata };
}

-- The reason and message of the three changes, for a kind of set.
abbrev pub Texts : Type 0
Texts = String × String

abbrev create_texts : SetKind → Texts
create_texts stateful_set = ("CreateNewStatefulSet", "Create new statefulSet")
create_texts replica_set = ("CreateReplicaSet", "Create new replicaSet")

abbrev revert_texts : SetKind → Texts
revert_texts stateful_set = ("RevertStatefulSet", "Revert to current statefulSet")
revert_texts replica_set = ("RevertReplicaSet", "Revert to current replicaSet")

abbrev update_texts : SetKind → Texts
update_texts stateful_set = ("UpdateStatefulSet", "Update exist statefulSet")
update_texts replica_set = ("UpdateReplicaSet", "Update exist replicaSet")

module _ (c : Cluster) (kind : SetKind) (now : ℕ) (instance' : Emqx) (new : SetObject) where
  -- A change, reported in the status.
  abbrev pub report : Texts → List Call → Added
  report texts calls =
      let e = update_emqx_status kind now texts.0 texts.1 (hash_of new) c.fetched in
      record { emqx = e; calls = calls; result = after 0 }

  abbrev pub collide : Added
  collide = record {
    emqx = count_collision kind instance';
    calls = create_set new ∷ update_status (count_collision kind instance') ∷ [];
    result = record (after 0) { result = record { requeue = true; requeue_after = 0 } };
  }

  abbrev pub written : Texts → Emqx
  written texts = update_emqx_status kind now texts.0 texts.1 (hash_of new) c.fetched

  -- The name is taken.
  abbrev pub resolve : Added
  resolve =
      if is_rolling_out instance'
        && str_eq (hash_of new) (nodes_status kind instance').current_revision
      then report (revert_texts kind)
          (create_set new ∷ update_status (written (revert_texts kind)) ∷ [])
      else collide

  unfoldable pub create : Added
  unfolding update_emqx_status
  create = elim (c.create_error new) [
    | none ↦
        report (create_texts kind)
          (create_set new ∷ update_status (written (create_texts kind)) ∷ [])
    | some e ↦
        if is_already_exists e
        then resolve
        else record { emqx = instance'; calls = create_set new ∷ []; result = fail e }
  ]

  abbrev pub send : SetObject → Added
  send s = elim (c.update_error s) [
    | none ↦
        report (update_texts kind) (update_set s ∷ update_status (written (update_texts kind)) ∷ [])
    | some e ↦ record { emqx = instance'; calls = update_set s ∷ []; result = fail e }
  ]

  unfoldable pub update : SetObject → Option Added
  unfolding update_emqx_status
  update stored = c.is_set_patch_empty stored (adopt new stored) >>= λ is_empty.
      (some (if is_empty then unchanged instance' else send (adopt new stored)))

  -- What the method does once it knows the set of the update revision.
  unfoldable pub add_set : Option Workload → Option Added
  unfolding create update without_hash
  add_set none = some create
  add_set (some w) =
      let stored = c.object_of w in
      c.is_template_patch_empty (without_hash stored.template) (without_hash new.template)
      >>= λ is_empty. (if is_empty then update stored else some create)

-- addCore.reconcile
unfoldable pub reconcile_core : Cluster → Printer → Hocon → ℕ → Emqx → Option Added
unfolding add_set get_new_stateful_set get_stateful_set_list
reconcile_core c p hocon now instance' = get_new_stateful_set p hocon instance' >>= λ new.
    (add_set c stateful_set now instance' new (get_stateful_set_list c.client instance').update)

-- addRepl.reconcile
unfoldable pub reconcile_replicant : Cluster → Printer → Hocon → ℕ → Emqx → Option Added
unfolding add_set get_new_replica_set get_replica_set_list is_condition_true
reconcile_replicant c p hocon now instance' = elim instance'.spec.replicant_template [
  | none ↦ some (unchanged instance')
  | some t ↦
      if not (is_condition_true instance'.status Status.core_nodes_ready)
      then some (unchanged instance')
      else (get_new_replica_set p hocon instance' t >>= λ new.
          (add_set c replica_set now instance' new
            (get_replica_set_list c.client instance').update))
]
