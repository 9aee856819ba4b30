-- ===== src/Controllers/SyncPods/Exclusive.antt =====
-- A run that starts an evacuation scales nothing down.
use emqx_operator.Prelude.{
  ◌+++◌, ℕ, ℤ, dec_int32, String, str_eq, true, false, not, Option, none, some, List, [], ◌∷◌,
  ◌>>=◌, if_lem,
}
use emqx_operator.Errors.{Error, Result, ok, err}
use emqx_operator.Http.{Requester, Decoder, Body}
use emqx_operator.Kube.{Client, Workload, Pod}
use emqx_operator.Api.Types.{Emqx, EmqxNode, NodeEvacuationStatus}
use emqx_operator.Controllers.Sets.{name_older}
use emqx_operator.Prelude.Sort.{sort}
use emqx_operator.Controllers.Evacuation.{
  Cluster, start_evacuation, Effect, evacuate, evacuate_or_wait, start_evacuation_by_api,
  get_emqx_node_info_by_api,
}
use emqx_operator.Controllers.SyncPods.{
  after_info, first_leaving, core_node_name, leaving_or, by_name, evacuated, pick_from, pick_pod,
  find_pod, can_be_scale_down_rs, last_pod, can_be_scale_down_sts, is_deleted,
}

-- An effect that starts an evacuation finds nothing to scale down.
pub data IsExclusive {A : Type 0} (nothing : A) : Effect A → Type 0 where
  calm : {x : Result A} → IsExclusive nothing ([], x)
  starts :
      {node : String} {body : Body}
      → IsExclusive nothing (start_evacuation node body ∷ [], ok nothing)
  fails :
      {node : String} {body : Body} {x : Error}
      → IsExclusive nothing (start_evacuation node body ∷ [], err x)

pub data Exclusive {A : Type 0} (nothing : A) : Option (Effect A) → Type 0 where
  panics : Exclusive nothing none
  answers : {x : Effect A} → IsExclusive nothing x → Exclusive nothing (some x)

evacuate-IsExclusive :
    {A : Type 0} (nothing : A) (node : String) (body : Body) (answer : Result (Unit {0}))
    → IsExclusive nothing (evacuate nothing (start_evacuation node body ∷ [], answer))
evacuate-IsExclusive nothing node body (ok _) = starts
evacuate-IsExclusive nothing node body (err x) = fails

module _ (c : Cluster) (client : Client) (r : Requester) (d : Decoder) (now : ℕ) (e : Emqx) where
  evacuate_or_wait-IsExclusive :
      {A : Type 0} (names : List String) (w : Workload) (node : EmqxNode) (nothing found : A)
      → IsExclusive nothing (evacuate_or_wait c r d now e names w node nothing found)
  unfolding evacuate_or_wait start_evacuation_by_api
  evacuate_or_wait-IsExclusive names w node nothing found =
      if_lem (IsExclusive nothing) _ (evacuate-IsExclusive nothing _ _ _)
        (if_lem (IsExclusive nothing) _ calm calm)

  after_info-IsExclusive :
      {A : Type 0} (names : List String) (w : Workload) (node : Result EmqxNode) (nothing found : A)
      → IsExclusive nothing (after_info c client r d now e names w node nothing found)
  after_info-IsExclusive names w (err x) nothing found = calm
  after_info-IsExclusive names w (ok node) nothing found =
      if_lem (IsExclusive nothing) _ calm (evacuate_or_wait-IsExclusive names w node nothing found)

  leaving_or-IsExclusive :
      (names : List String) (w : Workload) (p : Pod) (o : Option Pod)
      → IsExclusive none (leaving_or c client r d now e names w p o)
  unfolding leaving_or
  leaving_or-IsExclusive names w p none =
      after_info-IsExclusive names w (get_emqx_node_info_by_api r d ("emqx@" +++ p.pod_ip)) none
        (some p)
  leaving_or-IsExclusive names w p (some q) = calm

  by_name-IsExclusive :
      (names : List String) (w : Workload) (pods : List Pod)
      → IsExclusive none (by_name c client r d now e names w pods)
  unfolding by_name
  by_name-IsExclusive names w [] = calm
  by_name-IsExclusive names w (p ∷ ps) = leaving_or-IsExclusive names w p (first_leaving (p ∷ ps))

  evacuated-Exclusive :
      (names : List String) (w : Workload) (o : Option (EmqxNode × Pod))
      → Exclusive none (evacuated c client r d now e names w o)
  unfolding evacuated
  evacuated-Exclusive names w none = panics
  evacuated-Exclusive names w (some (node, p)) =
      answers (evacuate_or_wait-IsExclusive names w node none (some p))

  pick_from-Exclusive :
      (names : List String) (w : Workload) (pods : List Pod) (vs : List NodeEvacuationStatus)
      → Exclusive none (pick_from c client r d now e names w pods vs)
  unfolding pick_from
  pick_from-Exclusive names w pods [] = answers (by_name-IsExclusive names w (sort name_older pods))
  pick_from-Exclusive names w pods (v ∷ vs) =
      if_lem (Exclusive none) (not (str_eq v.state "prohibiting")) (answers calm)
        (evacuated-Exclusive names w (find_pod v.node e.status.replicant_nodes pods))

  pick_pod-Exclusive :
      (names : List String) (w : Workload) (pods : List Pod)
      → Exclusive none (pick_pod c client r d now e names w pods)
  unfolding pick_pod
  pick_pod-Exclusive names w [] = answers calm
  pick_pod-Exclusive names w (p ∷ ps) =
      pick_from-Exclusive names w (p ∷ ps) e.status.node_evacuations_status

  pub can_be_scale_down_rs-Exclusive :
      (w : Workload) (names : List String)
      → Exclusive none (can_be_scale_down_rs c client r d now e w names)
  unfolding can_be_scale_down_rs
  can_be_scale_down_rs-Exclusive w names =
      if_lem (Exclusive none) _ (answers calm) (pick_pod-Exclusive names w _)

  last_pod-IsExclusive :
      (w : Workload) (names : List String) (o : Result Pod)
      → IsExclusive false (last_pod c client r d now e w names o)
  unfolding last_pod
  last_pod-IsExclusive w names (err x) = if_lem (IsExclusive false) _ calm calm
  last_pod-IsExclusive w names (ok p) = if_lem (IsExclusive false) (is_deleted p) calm (
      after_info-IsExclusive names w (get_emqx_node_info_by_api r d (core_node_name w p)) false
        true)

  pub can_be_scale_down_sts-Exclusive :
      (w : Workload) (names : List String)
      → Exclusive false (can_be_scale_down_sts c client r d now e w names)
  unfolding can_be_scale_down_sts
  can_be_scale_down_sts-Exclusive w names =
      if_lem (Exclusive false) _ (answers calm) (by_replicas w.spec_replicas)
    where
      by_replicas :
          (o : Option ℤ)
          → Exclusive false (
              o >>= λ n. some (
                last_pod c client r d now e w names
                  (c.get_pod (w.name +++ "-" +++ c.digits (dec_int32 n)))))
      by_replicas none = panics
      by_replicas (some n) =
          answers
            (last_pod-IsExclusive w names (c.get_pod (w.name +++ "-" +++ c.digits (dec_int32 n))))
