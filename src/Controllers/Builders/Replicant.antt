-- ===== src/Controllers/Builders/Replicant.antt =====
-- controllers/apps/v2beta1/add_emqx_repl.go: generateReplicaSet, of a resource that has a replicant
-- template.
use emqx_operator.Prelude.{◌+++◌, List, [], ◌∷◌, ◌++◌}
use emqx_operator.Kube.{Labels}
use emqx_operator.Kube.Pods.{
  EnvVar, field_ref, empty_dir, Container, PodTemplate, SetObject, replica_set,
}
use emqx_operator.Api.Types.{Emqx, Template}
use emqx_operator.Api.Labels.{clone_and_merge_map, default_replicant_labels}
use emqx_operator.Api.Names.{replicant_namespaced_name}
use emqx_operator.Controllers.Builders.{
  discovery_env, node_env, volume, bootstrap_volumes, emqx_container, pod_spec, pod_template,
}

-- The variables of a replicant pod.
abbrev pub replicant_env : Emqx → List EnvVar
replicant_env instance' =
    discovery_env instance'
    ++ record { name = "EMQX_HOST"; source = field_ref "status.podIP" }
      ∷ node_env instance' "replicant"

abbrev pub replicant_container : Emqx → Template → Container
replicant_container instance' t =
    emqx_container instance' t (replicant_namespaced_name instance').name (replicant_env instance')

abbrev pub replicant_pod_template : Emqx → Template → Labels → PodTemplate
replicant_pod_template instance' t labels =
    let name = (replicant_namespaced_name instance').name in
    pod_template t labels (
      pod_spec instance' t (replicant_container instance' t) (
        bootstrap_volumes instance' name
        ++ volume (name +++ "-data") empty_dir ∷ t.spec.extra_volumes))

abbrev pub replicant_labels : Emqx → Template → Labels
replicant_labels instance' t =
    clone_and_merge_map (default_replicant_labels instance') (t.labels ∷ [])

unfoldable pub generate_replica_set : Emqx → Template → SetObject
generate_replica_set instance' t =
    let labels = replicant_labels instance' t in
    record {
      kind = replica_set;
      name = (replicant_namespaced_name instance').name;
      namespace = instance'.namespace;
      metadata = record { annotations = t.annotations; labels = labels };
      service_name = "";
      replicas = t.replicas;
      match_labels = labels;
      pod_management_policy = "";
      template = replicant_pod_template instance' t labels;
      volume_claim_templates = [];
    }
