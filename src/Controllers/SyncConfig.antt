-- ===== src/Controllers/SyncConfig.antt =====
-- controllers/apps/v2beta1/sync_emqx_config.go: the configuration goes to the config map, and
-- through the management API to the running nodes. The HOCON and semver libraries are parameters;
-- the events, and a failure to set the owner, are left out. `none` is a panic.
pub mod Applied
pub mod Settled
use emqx_operator.Prelude.{
  ◌+++◌, String, str_eq, Bool, true, false, not, ◌||◌, Option, none, some, ◌>>=◌, List, [], ◌∷◌,
  head?, ◌==◌, if◌then◌else◌,
}
use emqx_operator.Prelude.Text.{to_lower}
use emqx_operator.Errors.{Error, other, is_not_found, Result, ok, err}
use emqx_operator.Http.{Response}
use emqx_operator.Kube.{Labels, Condition}
use emqx_operator.Kube.Pods.{DataObject}
use emqx_operator.Api.Types.{Emqx, EmqxNode}
use emqx_operator.Api.Status
use emqx_operator.Api.Status.{get_condition, is_condition_true}
use emqx_operator.Api.Labels.{lookup, insert, delete, clone_and_merge_map, default_labels}
use emqx_operator.Api.Names.{configs_namespaced_name}
use emqx_operator.Controllers.Reconcile.{SubResult, after, fail}

abbrev pub last_config_key : String
last_config_key = "apps.emqx.io/last-emqx-configuration"

-- Request("PUT", GetURL(path, query), text).
abbrev pub Put : Type 0
Put = (path query text : String) → Result Response

-- What the libraries and the API server answer. `is_before_5_7` compares a version that is parsed,
-- and `none` is the nil version of one that is not; `root` is the object that a text parses to,
-- `none` for a text that has none; `print` is its String().
pub record World : Type 0 where
  pub is_before_5_7 : String → Option Bool
  pub root : String → Option Labels
  pub print : Labels → String
  pub config_map_error : Option Error
  pub create_error : Option Error
  pub update_error : Option Error
  pub instance_error : Option Error

pub data Call : Type 0 where
  create_config_map update_config_map : DataObject → Call
  update_instance : Emqx → Call
  put_configs : (query text : String) → Call

-- The instance that the method leaves behind, the calls that it made in order, and its result.
pub record Synced : Type 0 where
  pub emqx : Emqx
  pub calls : List Call
  pub result : SubResult

unfoldable pub merge_default_config : String → String
merge_default_config config =
    "listeners.tcp.default.bind = 1883\n" +++ "listeners.ssl.default.bind = 8883\n"
    +++ "listeners.ws.default.bind  = 8083\n" +++ "listeners.wss.default.bind = 8084\n" +++ "\n"
    +++ config

unfoldable pub generate_config_map : Emqx → String → DataObject
generate_config_map instance' text =
    let name = configs_namespaced_name instance' in
    record {
      name = name.name;
      namespace = name.namespace;
      labels = clone_and_merge_map (default_labels instance') (instance'.labels ∷ []);
      entries = ("emqx.conf", text) ∷ [];
    }

abbrev checked : Result Response → Option Error
checked (err e) = some e
checked (ok resp) = if not (resp.status_code == 200) then some (other "failed to put API") else none

abbrev pub query_of : String → String
query_of mode = "mode=" +++ to_lower mode +++ "&ignore_readonly=true"

-- A call through a nil requester panics.
unfoldable pub put_emqx_configs_by_api : Option Put → String → String → Option (Option Error)
unfolding to_lower
put_emqx_configs_by_api none mode config = none
put_emqx_configs_by_api (some put) mode config =
    some (checked (put "api/v5/configs" (query_of mode) config))

-- The roots that versions before 5.7.0 do not accept.
abbrev pub without_readonly : Labels → Labels
without_readonly root = delete "rpc" (delete "dashboard" (delete "cluster" (delete "node" root)))

unfoldable pub accepted_config : World → String → String → Option String
unfolding delete
accepted_config w version text = w.is_before_5_7 version >>= λ before.
    (if before then (w.root text >>= λ root. some (w.print (without_readonly root))) else some text)

abbrev pub annotated : Emqx → Emqx
annotated e = record e { annotations = insert last_config_key e.spec.config.text e.annotations }

abbrev pub done : Emqx → List Call → Option Error → Synced
done e calls none = record { emqx = e; calls = calls; result = after 0 }
done e calls (some error) = record { emqx = e; calls = calls; result = fail error }

module _ (w : World) (r : Option Put) (instance' : Emqx) where
  -- What follows the answer to the update of the config map; the instance is changed before it is
  -- sent to the API server.
  abbrev pub annotate : String → Option Error → Synced
  annotate text (some e) =
      done instance'
        (put_configs (query_of instance'.spec.config.mode) text
          ∷ update_config_map (generate_config_map instance' text)
          ∷ [])
        (some e)
  annotate text none =
      done (annotated instance')
        (put_configs (query_of instance'.spec.config.mode) text
          ∷ update_config_map (generate_config_map instance' text)
          ∷ update_instance (annotated instance')
          ∷ [])
        w.instance_error

  -- What follows the answer to the request.
  abbrev pub store : String → Option Error → Synced
  store text (some e) =
      done instance' (put_configs (query_of instance'.spec.config.mode) text ∷ []) (some e)
  store text none = annotate text w.update_error

  unfoldable pub apply : Option Synced
  unfolding accepted_config put_emqx_configs_by_api generate_config_map insert merge_default_config
  apply = head? instance'.status.core_nodes >>= λ node.
      (accepted_config w node.version (merge_default_config instance'.spec.config.text) >>= λ text.
      (put_emqx_configs_by_api r instance'.spec.config.mode text >>= λ e. some (store text e)))

  abbrev pub is_core_ready : Bool
  is_core_ready = elim (get_condition instance'.status Status.core_nodes_ready) [
    | none ↦ false
    | some found ↦ is_condition_true instance'.status Status.core_nodes_ready
  ]

  unfoldable pub compare : Option String → Option Synced
  unfolding apply insert get_condition is_condition_true
  compare none =
      some
        (done (annotated instance') (update_instance (annotated instance') ∷ []) w.instance_error)
  compare (some last) =
      if not (str_eq last instance'.spec.config.text)
      then if not is_core_ready then some (done instance' [] none) else apply
      else some (done instance' [] none)

  abbrev pub create_map : Synced
  create_map =
      done instance'
        (create_config_map
            (generate_config_map instance' (merge_default_config instance'.spec.config.text))
          ∷ [])
        w.create_error

  unfoldable pub reconcile : Option Synced
  unfolding compare lookup
  reconcile = elim w.config_map_error [
    | none ↦ compare (lookup last_config_key instance'.annotations)
    | some e ↦ some (if is_not_found e then create_map else done instance' [] (some e))
  ]
