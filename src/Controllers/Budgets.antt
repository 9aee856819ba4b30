-- ===== src/Controllers/Budgets.antt =====
-- controllers/apps/v2beta1/add_pdb.go: the pod disruption budgets, for the two versions of the API.
-- The version of the cluster is a parameter.
pub mod Selecting
use emqx_operator.Prelude.{
  String, Bool, true, false, Option, none, some, ◌>>=◌, List, [], ◌∷◌, if◌then◌else◌,
}
use emqx_operator.Errors.{Error}
use emqx_operator.Kube.{Labels}
use emqx_operator.Api.Types.{Emqx, Template}
use emqx_operator.Api.Labels.{
  clone_and_merge_map, default_labels, default_core_labels, default_replicant_labels,
  is_exist_replicant,
}
use emqx_operator.Api.Names.{core_namespaced_name, replicant_namespaced_name}
use emqx_operator.Controllers.Reconcile.{SubResult, after, fail}

-- policyv1.PodDisruptionBudget and policyv1beta1.PodDisruptionBudget.
pub record BudgetSpec : Type 0 where
  pub match_labels : Labels
  pub min_available : Option String
  pub max_unavailable : Option String

pub record Budget : Type 0 where
  pub api_version : String
  pub name : String
  pub namespace : String
  pub labels : Labels
  pub spec : BudgetSpec

pub record BudgetV1beta1 : Type 0 where
  pub api_version : String
  pub name : String
  pub namespace : String
  pub labels : Labels
  pub spec : BudgetSpec

abbrev own_labels : Emqx → Labels
own_labels instance' = clone_and_merge_map (default_labels instance') (instance'.labels ∷ [])

abbrev pub core_budget : Emqx → Budget
core_budget instance' = record {
  api_version = "policy/v1";
  name = (core_namespaced_name instance').name;
  namespace = instance'.namespace;
  labels = own_labels instance';
  spec = record {
    match_labels =
        clone_and_merge_map (default_core_labels instance')
          (instance'.spec.core_template.labels ∷ []);
    min_available = instance'.spec.core_template.spec.min_available;
    max_unavailable = instance'.spec.core_template.spec.max_unavailable;
  };
}

abbrev pub replicant_spec : Emqx → Template → BudgetSpec
replicant_spec instance' t = record {
  match_labels = clone_and_merge_map (default_replicant_labels instance') (t.labels ∷ []);
  min_available = t.spec.min_available;
  max_unavailable = t.spec.max_unavailable;
}

-- The copy of the first budget for the replicants, which exist only with a template.
abbrev pub replicant_budget : Emqx → Option Template → Option Budget
replicant_budget instance' none = none
replicant_budget instance' (some t) = some (record (core_budget instance') {
  name = (replicant_namespaced_name instance').name;
  spec = replicant_spec instance' t;
})

unfoldable pub generate_pod_disruption_budget : Emqx → Budget × Option Budget
unfolding is_exist_replicant
generate_pod_disruption_budget instance' = (
  core_budget instance',
  if is_exist_replicant instance'
      then replicant_budget instance' instance'.spec.replicant_template
      else none,
)

abbrev core_budget_v1beta1 : Emqx → BudgetV1beta1
core_budget_v1beta1 instance' = record {
  api_version = "policy/v1";
  name = (core_namespaced_name instance').name;
  namespace = instance'.namespace;
  labels = own_labels instance';
  spec = record {
    match_labels =
        clone_and_merge_map (default_core_labels instance')
          (instance'.spec.core_template.labels ∷ []);
    min_available = instance'.spec.core_template.spec.min_available;
    max_unavailable = instance'.spec.core_template.spec.max_unavailable;
  };
}

abbrev replicant_budget_v1beta1 : Emqx → Option Template → Option BudgetV1beta1
replicant_budget_v1beta1 instance' none = none
replicant_budget_v1beta1 instance' (some t) = some (record (core_budget_v1beta1 instance') {
  name = (replicant_namespaced_name instance').name;
  spec = replicant_spec instance' t;
})

unfoldable pub generate_pod_disruption_budget_v1beta1 : Emqx → BudgetV1beta1 × Option BudgetV1beta1
unfolding is_exist_replicant
generate_pod_disruption_budget_v1beta1 instance' = (
  core_budget_v1beta1 instance',
  if is_exist_replicant instance'
      then replicant_budget_v1beta1 instance' instance'.spec.replicant_template
      else none,
)

-- An object of the list.
pub data PdbObject : Type 0 where
  v1 : Budget → PdbObject
  v1beta1 : BudgetV1beta1 → PdbObject

abbrev pub listed {ℓ} : {A : Type ℓ} → (A → PdbObject) → A × Option A → List PdbObject
listed f (core, none) = f core ∷ []
listed f (core, some repl) = f core ∷ f repl ∷ []

abbrev pub result_of : Option Error → SubResult
result_of none = after 0
result_of (some e) = fail e

-- The list of objects that is handed to CreateOrUpdateList.
unfoldable pub pdb_list : Bool → Emqx → List PdbObject
unfolding generate_pod_disruption_budget generate_pod_disruption_budget_v1beta1
pdb_list is_before_1_21 instance' =
    if is_before_1_21
    then listed v1beta1 (generate_pod_disruption_budget_v1beta1 instance')
    else listed v1 (generate_pod_disruption_budget instance')

unfoldable pub reconcile :
    (List PdbObject → Option Error) → Bool → Emqx → List PdbObject × SubResult
unfolding pdb_list
reconcile create_or_update_list is_before_1_21 instance' =
    let objects = pdb_list is_before_1_21 instance' in
    (objects, result_of (create_or_update_list objects))
