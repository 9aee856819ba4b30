-- ===== src/Examples/Writing.antt =====
-- The theorems on the runs that write sets, secrets and configurations.
use emqx_operator.Prelude.{String, true, ◌≡◌, refl, subst, none, some, List, [], ◌∷◌, All, arith}
use emqx_operator.Prelude.Text.{contains}
use emqx_operator.Errors.{ok}
use emqx_operator.Kube.{Workload}
use emqx_operator.Kube.Pods.{SetObject, stateful_set}
use emqx_operator.Api.Types.{Emqx}
use emqx_operator.Api.Status
use emqx_operator.Api.Status.{get_condition, is_condition_true}
use emqx_operator.Controllers.Builders.Named.{get_new_stateful_set}
use emqx_operator.Controllers.AddSets.{Cluster, unchanged, reconcile_core, reconcile_replicant}
use emqx_operator.Controllers.AddSets.Branches.{Answers, Ends}
use emqx_operator.Controllers.AddSets.Outcome.{core_set, reconcile-Ends}
use emqx_operator.Controllers.AddSets.Settled.{reported, HasCreated, reconcile_core-settled}
use emqx_operator.Controllers.Bootstrap.{
  GetSecret, default_bootstrap_api_key, get_api_key_string, get_bootstrap_api_key,
  generate_bootstrap_api_key_secret,
}
use emqx_operator.Controllers.Bootstrap.RoundTrip.{IsPlain, get_bootstrap_api_key-generate}
use emqx_operator.Controllers.SyncConfig
use emqx_operator.Controllers.SyncConfig.{
  World, Put, Synced, done, annotated, last_config_key, put_configs, update_config_map,
  update_instance, query_of, generate_config_map, merge_default_config,
}
use emqx_operator.Controllers.SyncConfig.Applied.{Sends, reconcile-AllSend}
use emqx_operator.Controllers.SyncConfig.Settled.{reconcile_once}
use emqx_operator.Examples.Fixtures.{set_of, client_of, node_of, true_at}
use emqx_operator.Examples.Conditions.{progressing-IsLog}
use emqx_operator.Examples.Building.{printer, hocon, emqx, sts, new_sts}

-- A cluster without sets, in which every call succeeds and no object differs from another.
abbrev cluster_of : List Workload → SetObject → Emqx → Cluster
cluster_of sets object e = record {
  client = client_of sets [] [];
  object_of = λ w. object;
  is_template_patch_empty = λ s t. some true;
  is_set_patch_empty = λ s t. some true;
  create_error = λ s. none;
  update_error = λ s. none;
  fetched = e;
}

answers : (sets : List Workload) → Answers (cluster_of sets sts emqx)
answers sets = record { template = λ s t. (true, refl); set = λ s t. (true, refl) }

reconcile-Ends_example :
    ((new : SetObject) × (get_new_stateful_set printer hocon emqx ≡ some new)
      × Ends
          (cluster_of [] sts emqx)
          (core_set (cluster_of [] sts emqx) emqx)
          7
          stateful_set
          emqx
          new
          (reconcile_core (cluster_of [] sts emqx) printer hocon 6 emqx))
    × (reconcile_replicant (cluster_of [] sts emqx) printer hocon 6 emqx ≡ some (unchanged emqx))
reconcile-Ends_example =
    reconcile-Ends (cluster_of [] sts emqx) printer hocon 6 7 emqx (omega arith) progressing-IsLog
      (answers [])

-- The set as it is listed after its creation.
abbrev created : Workload
created = record (set_of "emqx-core-5d4" "5d4" 1) { labels = sts.metadata.labels }

created_is_listed :
    HasCreated
      (cluster_of (set_of "emqx-core-v1" "v1" 1 ∷ created ∷ []) sts emqx)
      (set_of "emqx-core-v1" "v1" 1 ∷ [])
      created
      sts
      emqx
created_is_listed = record {
  is_listed = refl;
  has_labels = refl;
  is_stored = refl;
  template_is_same = refl;
  set_is_same = refl;
}

reconcile_core-settled_example :
    reconcile_core
      (cluster_of (set_of "emqx-core-v1" "v1" 1 ∷ created ∷ []) sts emqx)
      printer
      hocon
      8
      (reported 6 "CreateNewStatefulSet" "Create new statefulSet" sts emqx)
    ≡ some (unchanged (reported 6 "CreateNewStatefulSet" "Create new statefulSet" sts emqx))
reconcile_core-settled_example =
    reconcile_core-settled (cluster_of (set_of "emqx-core-v1" "v1" 1 ∷ created ∷ []) sts emqx)
      printer hocon emqx (set_of "emqx-core-v1" "v1" 1 ∷ []) created sts new_sts created_is_listed 6
      8 "CreateNewStatefulSet" "Create new statefulSet"

-- A resource with a key of its own.
abbrev keyed : Emqx
keyed = record emqx {
  spec = record emqx.spec {
    bootstrap_api_keys = record { key = "me"; secret = "secret"; secret_ref = none } ∷ [];
  };
}

abbrev no_secrets : GetSecret
no_secrets = λ namespace name. ok []

abbrev written : GetSecret
written =
    λ namespace name. ok (generate_bootstrap_api_key_secret "word" keyed "me:secret\n").entries

me-IsPlain : IsPlain ("me", "secret")
unfolding contains
me-IsPlain = record { key_has_no_colon = refl; is_one_line = refl; is_not_default = refl }

keys : get_api_key_string no_secrets keyed ≡ ok "me:secret\n"
unfolding get_api_key_string
keys = refl

get_bootstrap_api_key-generate_example :
    get_bootstrap_api_key written keyed ≡ ok (default_bootstrap_api_key, "word")
unfolding get_api_key_string contains
get_bootstrap_api_key-generate_example =
    get_bootstrap_api_key-generate no_secrets written "word" "me:secret\n" keyed keys
      (λ pair e. subst IsPlain (ok-eq e) me-IsPlain, tt) refl refl
  where
    ok-eq : {pair : String × String} → ok ("me", "secret") ≡ ok pair → ("me", "secret") ≡ pair
    ok-eq e = cc

-- A core node of version 5.6, and a configuration that has changed.
abbrev world : World
world = record {
  is_before_5_7 = λ version. some true;
  root = λ text. some (("node", "{}") ∷ ("mqtt", "{}") ∷ []);
  print = λ root. "mqtt {}";
  config_map_error = none;
  create_error = none;
  update_error = none;
  instance_error = none;
}

abbrev changed : Emqx
changed = record emqx {
  annotations = (last_config_key, "old") ∷ [];
  status = record emqx.status {
    conditions = true_at 5 Status.core_nodes_ready ∷ [];
    core_nodes = node_of "core-0" "core" ∷ [];
  };
}

abbrev put : Put
put = λ path query text. ok (record { status_code = 200; body = "" })

abbrev applied : Synced
applied =
    done (annotated changed)
      (put_configs (query_of "Merge") "mqtt {}"
        ∷ update_config_map (generate_config_map changed "mqtt {}")
        ∷ update_instance (annotated changed)
        ∷ [])
      none

applies : SyncConfig.reconcile world (some put) changed ≡ some applied
unfolding SyncConfig.reconcile
applies = refl

reconcile-AllSend_example : All (Sends world changed) applied.calls
reconcile-AllSend_example = reconcile-AllSend world (some put) changed applied applies

reconcile_once_example :
    SyncConfig.reconcile world none (annotated changed) ≡ some (done (annotated changed) [] none)
reconcile_once_example = reconcile_once world refl (some put) none changed applied applies refl
