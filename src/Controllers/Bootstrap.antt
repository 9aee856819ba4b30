-- ===== src/Controllers/Bootstrap.antt =====
-- controllers/apps/v2beta1/add_bootstrap_resource.go, and the reader of its secret in
-- emqx_controller.go. The password generator and the HOCON library are parameters; the events are
-- left out, and so is a failure to set the owner, which is one of `create_error`.
pub mod RoundTrip
use emqx_operator.Prelude.{
  ◌+++◌, String, str_eq, Bool, true, false, not, ◌&&◌, Option, none, some, List, [], ◌∷◌,
  if◌then◌else◌,
}
use emqx_operator.Prelude.Text.Lines.{split_lines, cut_colon}
use emqx_operator.Errors.{Error, other, Result, ok, err, is_already_exists}
use emqx_operator.Kube.{Labels}
use emqx_operator.Kube.Pods.{DataObject}
use emqx_operator.Api.Types.{Emqx, BootstrapApiKey, KeyRef, SecretRef}
use emqx_operator.Api.Labels.{lookup, clone_and_merge_map, default_labels}
use emqx_operator.Api.Names.{bootstrap_api_key_namespaced_name, node_cookie_namespaced_name}
use emqx_operator.Controllers.Reconcile.{SubResult, after, fail}

abbrev pub default_bootstrap_api_key : String
default_bootstrap_api_key = "emqx-operator-controller"

-- client.Client.Get of a secret, by namespace and name: its data.
abbrev pub GetSecret : Type 0
GetSecret = String → String → Result Labels

abbrev pub found {ℓ} : {A : Type ℓ} → Error → Option A → Result A
found e none = err e
found e (some a) = ok a

abbrev pub and_then {ℓ κ} : {A : Type ℓ} {B : Type κ} → Result A → (A → Result B) → Result B
and_then (err e) f = err e
and_then (ok a) f = f a

unfoldable pub read_secret : GetSecret → String → KeyRef → Result String
unfolding lookup
read_secret get namespace r =
    and_then (get namespace r.secret_name)
      λ entries. found (other "secret does not contain the key") (lookup r.secret_key entries)

-- The key and the secret of an entry, from the secrets that it refers to or its own.
unfoldable pub key_pair : GetSecret → String → BootstrapApiKey → Result (String × String)
unfolding read_secret
key_pair get namespace k = elim k.secret_ref [
  | none ↦ ok (k.key, k.secret)
  | some r ↦ and_then (read_secret get namespace r.key) λ key_value.
      and_then (read_secret get namespace r.secret) λ secret_value. ok (key_value, secret_value)
]

-- The line of one entry, before those that follow.
abbrev pub add_line : String × String → String → String
add_line (key, secret) rest = (key +++ ":" +++ secret) +++ "\n" +++ rest

unfoldable pub key_lines : GetSecret → String → List BootstrapApiKey → Result String
unfolding key_pair
key_lines get namespace [] = ok ""
key_lines get namespace (k ∷ ks) =
    and_then (key_pair get namespace k)
      λ pair. and_then (key_lines get namespace ks) λ rest. ok (add_line pair rest)

unfoldable pub get_api_key_string : GetSecret → Emqx → Result String
unfolding key_lines
get_api_key_string get instance' =
    key_lines get instance'.namespace instance'.spec.bootstrap_api_keys

abbrev own_labels : Emqx → Labels
own_labels instance' = clone_and_merge_map (default_labels instance') (instance'.labels ∷ [])

unfoldable pub generate_bootstrap_api_key_secret : String → Emqx → String → DataObject
generate_bootstrap_api_key_secret password instance' keys =
    let name = bootstrap_api_key_namespaced_name instance' in
    record {
      name = name.name;
      namespace = name.namespace;
      labels = own_labels instance';
      entries = ("bootstrap_api_key", keys +++ default_bootstrap_api_key +++ ":" +++ password) ∷ [];
    }

-- `get_string` is GetString("node.cookie") on the parsed configuration.
unfoldable pub generate_node_cookie_secret : (String → String) → String → Emqx → DataObject
generate_node_cookie_secret get_string password instance' =
    let cookie = get_string instance'.spec.config.text in
    let name = node_cookie_namespaced_name instance' in
    record {
      name = name.name;
      namespace = name.namespace;
      labels = own_labels instance';
      entries = ("node_cookie", if str_eq cookie "" then password else cookie) ∷ [];
    }

-- The secrets that were created, in order, and the result.
pub record Bootstrapped : Type 0 where
  pub created : List DataObject
  pub result : SubResult

module _ (create_error : DataObject → Option Error) where
  -- The loop: an object that exists already is no error.
  unfoldable pub create_all : List DataObject → Bootstrapped
  create_all [] = record { created = []; result = after 0 }
  create_all (o ∷ os) =
      let rest = create_all os in
      elim (create_error o) [
        | none ↦ record rest { created = o ∷ rest.created }
        | some e ↦ if is_already_exists e then rest else record { created = []; result = fail e }
      ]

  unfoldable pub reconcile :
      GetSecret → (String → String) → (cookie password : String) → Emqx → Bootstrapped
  unfolding create_all get_api_key_string generate_node_cookie_secret
      generate_bootstrap_api_key_secret
  reconcile get get_string cookie password instance' = elim (get_api_key_string get instance') [
    | err e ↦ record { created = []; result = fail e }
    | ok keys ↦ create_all (
        generate_node_cookie_secret get_string cookie instance'
        ∷ generate_bootstrap_api_key_secret password instance' keys
        ∷ [])
  ]

-- getBootstrapAPIKey: the loop over the lines. An index of at least 1 is a key that is not empty.
unfoldable pub find_user : List String → Option (String × String)
unfolding cut_colon
find_user [] = none
find_user (l ∷ ls) =
    let rest = find_user ls in
    elim (cut_colon l) [
      | none ↦ rest
      | some (username, password) ↦
          if not (str_eq username "") && str_eq username default_bootstrap_api_key
          then some (username, password)
          else rest
    ]

abbrev no_key : Error
no_key = other "the secret does not contain the bootstrap_api_key"

unfoldable pub get_bootstrap_api_key : GetSecret → Emqx → Result (String × String)
unfolding find_user lookup split_lines
get_bootstrap_api_key get instance' =
    and_then (get instance'.namespace (instance'.name +++ "-bootstrap-api-key")) λ entries.
      elim (lookup "bootstrap_api_key" entries) [
        | none ↦ err no_key
        | some text ↦ found no_key (find_user (split_lines text))
      ]
