-- ===== src/V1beta4/BlueGreen/Plan.antt =====
-- What one synchronisation of a blue-green update may do to the cluster.
use emqx_operator.Prelude.{
  ℤ, dec_int32, Bool, true, false, Option, none, some, >>=-eq-some, List, [], ◌∷◌, ◌++◌, head?, ◌≡◌,
  refl, sym, ap, subst, some-eq, if◌then◌else◌,
}
use emqx_operator.Errors.{Error, is_not_found, Result, ok, err}
use emqx_operator.Http.{Requester, Body}
use emqx_operator.Kube.{Workload, Pod}
use emqx_operator.Controllers.Sets.{PodMap}
use emqx_operator.V1beta4.{Emqx, EvacuationStatus, BlueGreenStatus, Cluster}
use emqx_operator.V1beta4.Sets.{get_emqx_node_name, get_in_cluster_stateful_sets, get_pod_map}
use emqx_operator.V1beta4.BlueGreen.{
  newest_pods, evacuations, can_be_scaled_down, Action, scale, start_evacuation, Synced, ends,
  evacuate_next, read_again, scale_down, scale_to, after_scale, start_on, sync_sets, with_pods,
  with_sets, sync_from, sync_stateful_set, evacuation_path,
}
use emqx_operator.V1beta4.BlueGreen.Last.{IsLast, newest_pods-IsLast}
use emqx_operator.V1beta4.BlueGreen.Justified.{IsDue, can_be_scaled_down-IsDue}

-- The start of an evacuation, of the pod of the origin set that is last by its name, while none is
-- listed.
pub data IsStart (e : Emqx) (s : BlueGreenStatus) (m : PodMap) (origin : Workload)
    : Action → Type 0 where
  last :
      {p : Pod} {body : Body}
      → evacuations s ≡ []
      → IsLast m origin p
      → IsStart e s m origin (start_evacuation (evacuation_path (get_emqx_node_name e p)) body)

-- A set as it is read again, or as it was before if it is gone.
pub data IsReread (origin : Workload) : Result Workload → Workload → Type 0 where
  found : {w : Workload} → IsReread origin (ok w) w
  gone : {x : Error} → is_not_found x ≡ true → IsReread origin (err x) origin

-- The scale-down of the origin set, as it is read again, by one replica.
pub data IsScale (c : Cluster) (s : BlueGreenStatus) (m : PodMap) (origin : Workload)
    : Action → Type 0 where
  by_one :
      {n : ℤ} {w : Workload}
      → IsDue s m origin
      → origin.spec_replicas ≡ some n
      → IsReread origin (c.get_set origin.name) w
      → IsScale c s m origin (scale (record w { spec_replicas = some (dec_int32 n) }))

-- The actions of one run.
pub data IsSync (c : Cluster) (e : Emqx) (s : BlueGreenStatus) (m : PodMap) (origin : Workload)
    : List Action → Type 0 where
  rests : IsSync c e s m origin []
  starts : {a : Action} → IsStart e s m origin a → IsSync c e s m origin (a ∷ [])
  scales : {a : Action} → IsScale c s m origin a → IsSync c e s m origin (a ∷ [])
  scales_and_starts :
      {a b : Action}
      → IsScale c s m origin a
      → IsStart e s m origin b
      → IsSync c e s m origin (a ∷ b ∷ [])

-- The actions of a run on the cluster as it is read.
pub data Syncs (c : Cluster) (e : Emqx) : List Action → Type 0 where
  idle : Syncs c e []
  acts :
      {s : BlueGreenStatus} {sets : List Workload} {m : PodMap} {current origin : Workload}
      {actions : List Action}
      → e.status.blue_green ≡ some s
      → get_in_cluster_stateful_sets c e ≡ some (ok sets)
      → get_pod_map c e sets ≡ ok m
      → c.get_set s.current_stateful_set ≡ ok current
      → c.get_set s.origin_stateful_set ≡ ok origin
      → IsSync c e s m origin actions
      → Syncs c e actions

module _ (c : Cluster) (update_error : Workload → Option Error) (r : Requester) (e : Emqx) where
  module _ (s : BlueGreenStatus) (current origin : Workload) (m : PodMap) where
    -- What the start of an evacuation adds to the actions before it.
    data Adds (done : List Action) : List Action → Type 0 where
      nothing : Adds done done
      one : {a : Action} → IsStart e s m origin a → Adds done (done ++ a ∷ [])

    start_on-Adds :
        (done : List Action) (p : Pod) {o : Synced}
        → evacuations s ≡ []
        → head? (newest_pods m origin) ≡ some p
        → start_on c update_error r e done current m p ≡ some o
        → Adds done o.actions
    start_on-Adds done p none_listed first h =
        let (update, is, h1) = >>=-eq-some e.blue_green_update _ h in
        subst (λ (o : Synced). Adds done o.actions) (some-eq h1)
          (one (last none_listed (newest_pods-IsLast m origin p first)))

    evacuate_next-Adds :
        (done : List Action) {o : Synced}
        → evacuate_next c update_error r e done s current origin m ≡ some o
        → Adds done o.actions
    unfolding evacuate_next
    evacuate_next-Adds done {o} h = by_list (evacuations s) refl h
      where
        by_pods :
            (ps : List Pod)
            → newest_pods m origin ≡ ps
            → evacuations s ≡ []
            → (elim ps [
              | [] ↦ some (ends done none)
              | p ∷ ps ↦ start_on c update_error r e done current m p
            ])
              ≡ some o
            → Adds done o.actions
        by_pods [] is none_listed h =
            subst (λ (o : Synced). Adds done o.actions) (some-eq h) nothing
        by_pods (p ∷ ps) is none_listed h = start_on-Adds done p none_listed (ap head? is) h

        by_list :
            (vs : List EvacuationStatus)
            → evacuations s ≡ vs
            → (elim vs [
              | v ∷ vs ↦ some (ends done none)
              | [] ↦ elim (newest_pods m origin) [
                | [] ↦ some (ends done none)
                | p ∷ ps ↦ start_on c update_error r e done current m p
              ]
            ])
              ≡ some o
            → Adds done o.actions
        by_list [] is h = by_pods (newest_pods m origin) refl is h
        by_list (v ∷ vs) is h = subst (λ (o : Synced). Adds done o.actions) (some-eq h) nothing

    -- The actions before the start of an evacuation, and after it.
    Adds-IsSync-none : {actions : List Action} → Adds [] actions → IsSync c e s m origin actions
    Adds-IsSync-none nothing = rests
    Adds-IsSync-none (one is) = starts is

    Adds-IsSync-scale :
        {a : Action} {actions : List Action}
        → IsScale c s m origin a
        → Adds (a ∷ []) actions
        → IsSync c e s m origin actions
    Adds-IsSync-scale is nothing = scales is
    Adds-IsSync-scale is (one start) = scales_and_starts is start

    abbrev next : List Action → Option Synced
    next done = evacuate_next c update_error r e done s current origin m

    after_scale-IsSync :
        (w : Workload) (error : Option Error) {o : Synced}
        → IsScale c s m origin (scale w)
        → after_scale c update_error r e w next error ≡ some o
        → IsSync c e s m origin o.actions
    after_scale-IsSync w none is h = Adds-IsSync-scale is (evacuate_next-Adds (scale w ∷ []) h)
    after_scale-IsSync w (some x) is h =
        subst (λ (o : Synced). IsSync c e s m origin o.actions) (some-eq h) (scales is)

    scale_to-IsSync :
        (n : ℤ) {o : Synced}
        → IsDue s m origin
        → origin.spec_replicas ≡ some n
        → scale_to c update_error r e n next
            (read_again c update_error r e origin (c.get_set origin.name))
          ≡ some o
        → IsSync c e s m origin o.actions
    scale_to-IsSync n {o} due has_n h = by_read (c.get_set origin.name) refl h
      where
        scaled :
            (w : Workload)
            → IsReread origin (c.get_set origin.name) w
            → scale_to c update_error r e n next (ok w) ≡ some o
            → IsSync c e s m origin o.actions
        scaled w is h = after_scale-IsSync _ _ (by_one due has_n is) h

        by_missing :
            (x : Error) (b : Bool)
            → c.get_set origin.name ≡ err x
            → is_not_found x ≡ b
            → scale_to c update_error r e n next (if b then ok origin else err x) ≡ some o
            → IsSync c e s m origin o.actions
        by_missing x true is missing h =
            scaled origin (subst (λ y. IsReread origin y origin) (sym is) (gone missing)) h
        by_missing x false is missing h =
            subst (λ (o : Synced). IsSync c e s m origin o.actions) (some-eq h) rests

        by_read :
            (x : Result Workload)
            → c.get_set origin.name ≡ x
            → scale_to c update_error r e n next (read_again c update_error r e origin x) ≡ some o
            → IsSync c e s m origin o.actions
        by_read (ok w) is h = scaled w (subst (λ x. IsReread origin x w) (sym is) found) h
        by_read (err x) is h = by_missing x (is_not_found x) is refl h

    scale_down-IsSync :
        (can : Bool) {o : Synced}
        → can_be_scaled_down s origin m ≡ some can
        → scale_down c update_error r e origin next can ≡ some o
        → IsSync c e s m origin o.actions
    unfolding scale_down
    scale_down-IsSync false is h = Adds-IsSync-none (evacuate_next-Adds [] h)
    scale_down-IsSync true is h =
        let (n, has_n, h1) = >>=-eq-some origin.spec_replicas _ h in
        scale_to-IsSync n (can_be_scaled_down-IsDue s origin m is) has_n h1

  stops_idle : (x : Option Error) {o : Synced} → some (ends [] x) ≡ some o → Syncs c e o.actions
  stops_idle x h = subst (λ (o : Synced). Syncs c e o.actions) (some-eq h) idle

  sync_sets-Syncs :
      (s : BlueGreenStatus) (sets : List Workload) (m : PodMap) (x y : Result Workload) {o : Synced}
      → e.status.blue_green ≡ some s
      → get_in_cluster_stateful_sets c e ≡ some (ok sets)
      → get_pod_map c e sets ≡ ok m
      → c.get_set s.current_stateful_set ≡ x
      → c.get_set s.origin_stateful_set ≡ y
      → sync_sets c update_error r e s m x y ≡ some o
      → Syncs c e o.actions
  sync_sets-Syncs s sets m (err x) y updating all pods is_x is_y h = stops_idle (some x) h
  sync_sets-Syncs s sets m (ok current) (err x) updating all pods is_x is_y h =
      stops_idle (some x) h
  sync_sets-Syncs s sets m (ok current) (ok origin) updating all pods is_x is_y h =
      let (can, is, h1) = >>=-eq-some (can_be_scaled_down s origin m) _ h in
      acts updating all pods is_x is_y (scale_down-IsSync s current origin m can is h1)

  with_pods-Syncs :
      (s : BlueGreenStatus) (sets : List Workload) (x : Result PodMap) {o : Synced}
      → e.status.blue_green ≡ some s
      → get_in_cluster_stateful_sets c e ≡ some (ok sets)
      → get_pod_map c e sets ≡ x
      → with_pods c update_error r e s x ≡ some o
      → Syncs c e o.actions
  with_pods-Syncs s sets (err x) updating all pods h = stops_idle (some x) h
  with_pods-Syncs s sets (ok m) updating all pods h =
      sync_sets-Syncs s sets m _ _ updating all pods refl refl h

  with_sets-Syncs :
      (s : BlueGreenStatus) (x : Result (List Workload)) {o : Synced}
      → e.status.blue_green ≡ some s
      → get_in_cluster_stateful_sets c e ≡ some x
      → with_sets c update_error r e s x ≡ some o
      → Syncs c e o.actions
  with_sets-Syncs s (err x) updating all h = stops_idle (some x) h
  with_sets-Syncs s (ok sets) updating all h = with_pods-Syncs s sets _ updating all refl h

  sync_from-Syncs :
      (b : Option BlueGreenStatus) {o : Synced}
      → e.status.blue_green ≡ b
      → sync_from c update_error r e b ≡ some o
      → Syncs c e o.actions
  sync_from-Syncs none is h = stops_idle none h
  sync_from-Syncs (some s) is h =
      let (sets, all, h1) = >>=-eq-some (get_in_cluster_stateful_sets c e) _ h in
      with_sets-Syncs s sets is all h1

  -- syncStatefulSet does nothing without a blue-green update in the status. With one it scales the
  -- origin set down by at most one replica, and only if no list of evacuations is there or a listed
  -- evacuation has emptied the pod of that set whose name is last in the order of strings; and it
  -- starts at most one evacuation, after that, of this pod and only while none is listed.
  pub sync_stateful_set-Syncs :
      {o : Synced} → sync_stateful_set c update_error r e ≡ some o → Syncs c e o.actions
  unfolding sync_stateful_set
  sync_stateful_set-Syncs h = sync_from-Syncs e.status.blue_green refl h
