-- ===== src/Controllers/SyncConfig/Applied.antt =====
-- What syncConfig sends to the nodes.
use emqx_operator.Prelude.{
  String, str_eq, eq_refl, Bool, true, false, not, ◌≡◌, refl, subst, Option, none, some, some-eq,
  ◌>>=◌, >>=-eq-some, List, [], All, head?, arith, if◌then◌else◌, if_lem,
}
use emqx_operator.Errors.{Error, is_not_found}
use emqx_operator.Kube.{Labels}
use emqx_operator.Api.Types.{Emqx, EmqxNode}
use emqx_operator.Api.Labels.{lookup, delete}
use emqx_operator.Api.Labels.Lookup.{lookup-insert, lookup-delete}
use emqx_operator.Controllers.SyncConfig.{
  World, Put, Call, put_configs, Synced, done, annotated, annotate, store, apply, compare,
  create_map, is_core_ready, reconcile, accepted_config, merge_default_config, without_readonly,
  put_emqx_configs_by_api, last_config_key,
}

-- The text that nodes of the version take: as it is from 5.7.0 on, and before it the print of a root
-- that has none of the four keys.
pub data IsAccepted (w : World) (version text : String) : String → Type 0 where
  whole : w.is_before_5_7 version ≡ some false → IsAccepted w version text text
  stripped :
      (root : Labels)
      → w.is_before_5_7 version ≡ some true
      → lookup "node" root ≡ none
      → lookup "cluster" root ≡ none
      → lookup "dashboard" root ≡ none
      → lookup "rpc" root ≡ none
      → IsAccepted w version text (w.print root)

lookup-without_readonly :
    (key : String) (root : Labels)
    → lookup key (without_readonly root) ≡ (
        if str_eq "rpc" key
        then none
        else if str_eq "dashboard" key
        then none
        else if str_eq "cluster" key
        then none
        else if str_eq "node" key
        then none
        else lookup key root)
lookup-without_readonly key root = ground (
  arith,
  lookup-delete "rpc" key (delete "dashboard" (delete "cluster" (delete "node" root))),
  lookup-delete "dashboard" key (delete "cluster" (delete "node" root)),
  lookup-delete "cluster" key (delete "node" root),
  lookup-delete "node" key root,
)

accepted_config-IsAccepted :
    (w : World) (version text t : String)
    → accepted_config w version text ≡ some t
    → IsAccepted w version text t
unfolding accepted_config
accepted_config-IsAccepted w version text t h =
    by_version (w.is_before_5_7 version) refl (w.root text) h
  where
    by_version :
        (o : Option Bool)
        → w.is_before_5_7 version ≡ o
        → (root : Option Labels)
        → (o >>= λ before.
            (if before
              then (root >>= λ root. some (w.print (without_readonly root)))
              else some text))
          ≡ some t
        → IsAccepted w version text t
    by_version none e root h = cc
    by_version (some false) e root h = subst (IsAccepted w version text) (some-eq h) (whole e)
    by_version (some true) e none h = cc
    by_version (some true) e (some root) h = subst (IsAccepted w version text) (some-eq h) (
        stripped (without_readonly root) e (lookup-without_readonly "node" root)
          (lookup-without_readonly "cluster" root) (lookup-without_readonly "dashboard" root)
          (lookup-without_readonly "rpc" root))

-- A call that sends a configuration sends one that the version of the first core node accepts, made
-- of the resource's with the default listeners before it.
abbrev pub Sends : World → Emqx → Call → Type 0
Sends w e (put_configs query text) =
    (node : EmqxNode) × (head? e.status.core_nodes ≡ some node)
    × IsAccepted w node.version (merge_default_config e.spec.config.text) text
Sends w e _ = Unit

module _ (w : World) (r : Option Put) (e : Emqx) where
  abbrev AllSend : Synced → Type 0
  AllSend s = All (Sends w e) s.calls

  done-AllSend :
      (e2 : Emqx) (calls : List Call) (error : Option Error)
      → All (Sends w e) calls
      → AllSend (done e2 calls error)
  done-AllSend e2 calls none h = h
  done-AllSend e2 calls (some x) h = h

  annotate-AllSend :
      (text : String) (error : Option Error) (node : EmqxNode)
      → head? e.status.core_nodes ≡ some node
      → IsAccepted w node.version (merge_default_config e.spec.config.text) text
      → AllSend (annotate w r e text error)
  annotate-AllSend text (some x) node h a = ((node, h, a), (tt, tt))
  annotate-AllSend text none node h a =
      done-AllSend _ _ w.instance_error ((node, h, a), (tt, (tt, tt)))

  store-AllSend :
      (text : String) (error : Option Error) (node : EmqxNode)
      → head? e.status.core_nodes ≡ some node
      → IsAccepted w node.version (merge_default_config e.spec.config.text) text
      → AllSend (store w r e text error)
  store-AllSend text (some x) node h a = ((node, h, a), tt)
  store-AllSend text none node h a = annotate-AllSend text w.update_error node h a

  apply-AllSend : (s : Synced) → apply w r e ≡ some s → AllSend s
  unfolding apply
  apply-AllSend s h =
      let (node, first, h1) = >>=-eq-some (head? e.status.core_nodes) _ h in
      let (text, accepted, h2) = >>=-eq-some (accepted_config w node.version _) _ h1 in
      let (error, sent, h3) = >>=-eq-some (put_emqx_configs_by_api r _ text) _ h2 in
      subst AllSend (some-eq h3) (
        store-AllSend text error node first
          (accepted_config-IsAccepted w node.version _ text accepted))

  waits-AllSend :
      (differs is_ready : Bool) (s : Synced)
      → (if differs
          then if not is_ready then some (done e [] none) else apply w r e
          else some (done e [] none))
        ≡ some s
      → AllSend s
  waits-AllSend true true s h = apply-AllSend s h
  waits-AllSend true false s h = subst AllSend (some-eq h) tt
  waits-AllSend false is_ready s h = subst AllSend (some-eq h) tt

  compare-AllSend : (last : Option String) (s : Synced) → compare w r e last ≡ some s → AllSend s
  unfolding compare
  compare-AllSend none s h =
      subst AllSend (some-eq h) (done-AllSend (annotated e) _ w.instance_error (tt, tt))
  compare-AllSend (some last) s h =
      waits-AllSend (not (str_eq last e.spec.config.text)) (is_core_ready w r e) s h

  -- In every run that ends, a configuration that syncConfig sends is one that the version of the
  -- first core node accepts: before 5.7.0 it has none of the roots node, cluster, dashboard and rpc,
  -- and otherwise it is the text of the resource after the default listeners.
  pub reconcile-AllSend : (s : Synced) → reconcile w r e ≡ some s → AllSend s
  unfolding reconcile
  reconcile-AllSend s = by_map w.config_map_error
    where
      by_map :
          (o : Option Error)
          → (elim o [
            | none ↦ compare w r e (lookup last_config_key e.annotations)
            | some x ↦ some (if is_not_found x then create_map w r e else done e [] (some x))
          ])
            ≡ some s
          → AllSend s
      by_map none h = compare-AllSend (lookup last_config_key e.annotations) s h
      by_map (some x) h =
          subst AllSend (some-eq h)
            (if_lem AllSend (is_not_found x) (done-AllSend e _ w.create_error (tt, tt)) tt)

-- The configuration that the annotation holds is the resource's.
abbrev pub IsCurrent : Emqx → Type 0
IsCurrent e = lookup last_config_key e.annotations ≡ some e.spec.config.text

pub annotated-IsCurrent : (e : Emqx) → IsCurrent (annotated e)
annotated-IsCurrent e = ground (
  arith,
  lookup-insert last_config_key last_config_key e.spec.config.text e.annotations,
  eq_refl last_config_key,
)
