-- ===== src/Controllers/Builders/Core.antt =====
-- controllers/apps/v2beta1/add_emqx_core.go: generateStatefulSet.
use emqx_operator.Prelude.{String, ◌+++◌, Option, none, some, List, [], ◌∷◌, ◌++◌}
use emqx_operator.Kube.{Labels}
use emqx_operator.Kube.Pods.{
  EnvVar, field_ref, Volume, empty_dir, Container, PodTemplate, ClaimSpec, ClaimTemplate, SetObject,
  stateful_set,
}
use emqx_operator.Api.Types.{Emqx}
use emqx_operator.Api.Labels.{clone_and_merge_map, default_core_labels}
use emqx_operator.Api.Names.{core_namespaced_name, headless_service_namespaced_name}
use emqx_operator.Controllers.Builders.{
  env, discovery_env, node_env, volume, bootstrap_volumes, emqx_container, pod_spec, pod_template,
}

-- The variables of a core pod.
abbrev pub core_env : Emqx → List EnvVar
core_env instance' =
    record { name = "POD_NAME"; source = field_ref "metadata.name" } ∷ discovery_env instance'
    ++ env "EMQX_HOST" "$(POD_NAME).$(EMQX_CLUSTER__DNS__NAME)" ∷ node_env instance' "core"

-- The claim has the file system's volume mode, if the template gives none.
abbrev with_volume_mode : ClaimSpec → ClaimSpec
with_volume_mode c = elim c.volume_mode [
  | none ↦ record c { volume_mode = some "Filesystem" }
  | some mode ↦ c
]

abbrev pub claim_templates : Emqx → Labels → Option ClaimSpec → List ClaimTemplate
claim_templates instance' labels none = []
claim_templates instance' labels (some c) =
    record {
      name = (core_namespaced_name instance').name +++ "-data";
      namespace = instance'.namespace;
      labels = labels;
      spec = with_volume_mode c;
    }
    ∷ []

-- The data directory, where no claim holds the data.
abbrev pub data_volumes : String → Option ClaimSpec → List Volume
data_volumes name none = volume (name +++ "-data") empty_dir ∷ []
data_volumes name (some c) = []

abbrev pub core_container : Emqx → Container
core_container instance' =
    emqx_container instance' instance'.spec.core_template (core_namespaced_name instance').name
      (core_env instance')

abbrev pub core_pod_template : Emqx → Labels → PodTemplate
core_pod_template instance' labels =
    let t = instance'.spec.core_template in
    let name = (core_namespaced_name instance').name in
    pod_template t labels (
      pod_spec instance' t (core_container instance') (
        data_volumes name t.spec.volume_claim_templates
        ++ bootstrap_volumes instance' name
        ++ t.spec.extra_volumes))

abbrev pub core_labels : Emqx → Labels
core_labels instance' =
    clone_and_merge_map (default_core_labels instance') (instance'.spec.core_template.labels ∷ [])

unfoldable pub generate_stateful_set : Emqx → SetObject
generate_stateful_set instance' =
    let t = instance'.spec.core_template in
    let labels = core_labels instance' in
    record {
      kind = stateful_set;
      name = (core_namespaced_name instance').name;
      namespace = instance'.namespace;
      metadata = record { annotations = t.annotations; labels = labels };
      service_name = (headless_service_namespaced_name instance').name;
      replicas = t.replicas;
      match_labels = labels;
      pod_management_policy = "Parallel";
      template = core_pod_template instance' labels;
      volume_claim_templates = claim_templates instance' labels t.spec.volume_claim_templates;
    }
