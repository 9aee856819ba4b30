-- ===== src/V1beta4/BlueGreen.antt =====
-- controllers/apps/v1beta4/add_emqx_statefulset.go: the blue-green update of an EmqxEnterprise. The
-- nodes of the origin set are evacuated one by one, and the set is scaled down behind them. Events
-- are left out; `none` is a panic.
pub mod Last
pub mod Justified
pub mod Plan
use Prim.Native.Char.{code}
use emqx_operator.Prelude.{
  ℕ, ◌+◌, ◌-◌, ℤ, pos, negsuc, is_positive, dec_int32, ◌==ℤ◌, ◌+++◌, String, str_eq, Bool, true,
  false, not, ◌&&◌, ◌||◌, Option, none, some, ◌>>=◌, List, [], ◌∷◌, ◌++◌, map, head?, leb, ◌==◌,
  if◌then◌else◌,
}
use emqx_operator.Prelude.Text.{to_int32, has_text}
use emqx_operator.Prelude.Sort.{sort}
use emqx_operator.Errors.{Error, is_not_found, Result, ok, err}
use emqx_operator.Http.{Requester, Response, Body, Json, number, texts}
use emqx_operator.Kube.{Workload, Pod}
use emqx_operator.Api.Types.{EvacuationStrategy}
use emqx_operator.Controllers.Sets.{PodMap, pods_of, name_newer, seconds_since}
use emqx_operator.Controllers.Reconcile.{SubResult, after, fail}
use emqx_operator.V1beta4.{Emqx, EvacuationStatus, BlueGreenStatus, BlueGreenUpdate, Cluster}
use emqx_operator.V1beta4.Sets.{
  get_emqx_node_name, get_pod_map, get_in_cluster_stateful_sets, pods_in,
}

-- strings.Split(s, b)[0] and, for an s that has b, strings.Split(s, b)[1].
unfoldable pub before : ℕ → String → String
before b String.[] = ""
before b (String.◌∷◌ c s) = let rest = before b s in if code c == b then "" else String.◌∷◌ c rest

unfoldable pub second_part : ℕ → String → Option String
unfolding before
second_part b String.[] = none
second_part b (String.◌∷◌ c s) =
    let rest = second_part b s in if code c == b then some (before b s) else rest

unfoldable pub extract_pod_name : String → Option String
unfolding second_part before
extract_pod_name node = second_part b'@' node >>= λ host. some (before b'.' host)

-- The pods of a set, the last one first.
unfoldable pub newest_pods : PodMap → Workload → List Pod
unfolding sort pods_of
newest_pods m w = sort name_newer (pods_in w.uid m)

-- The node has no connection and no session left; the numbers are read one after the other, and a
-- missing one panics.
unfoldable pub is_evacuated : EvacuationStatus → Option Bool
is_evacuated v = v.stats.current_connected >>= λ connected.
    (if not (connected ==ℤ pos 0)
      then some false
      else (v.stats.current_sessions >>= λ sessions.
          some (sessions ==ℤ pos 0 && str_eq v.state "prohibiting")))

-- One round of the loop: whether the evacuated node is on the newest pod of the set.
unfoldable pub is_newest : PodMap → Workload → String → Option Bool
unfolding newest_pods
is_newest m origin pod_name =
    if not (has_text pod_name origin.name)
    then some false
    else (head? (newest_pods m origin) >>= λ p. some (str_eq p.name pod_name))

unfoldable pub any_evacuated : PodMap → Workload → List EvacuationStatus → Option Bool
unfolding is_evacuated is_newest extract_pod_name
any_evacuated m origin [] = some false
any_evacuated m origin (v ∷ vs) =
    let rest = any_evacuated m origin vs in
    is_evacuated v >>= λ gone.
    (if not gone
      then rest
      else (extract_pod_name v.node >>= λ name.
          (is_newest m origin name >>= λ newest. (if newest then some true else rest))))

abbrev is_started : BlueGreenStatus → Bool
is_started s = elim s.started_at [
  | none ↦ false
  | some t ↦ not (str_eq s.origin_stateful_set "") && not (str_eq s.current_stateful_set "")
]

abbrev pub evacuations : BlueGreenStatus → List EvacuationStatus
evacuations s = elim s.evacuations_status [ none ↦ [] | some vs ↦ vs ]

abbrev is_nil : BlueGreenStatus → Bool
is_nil s = elim s.evacuations_status [ none ↦ true | some vs ↦ false ]

unfoldable pub can_be_scaled_down : BlueGreenStatus → Workload → PodMap → Option Bool
unfolding any_evacuated
can_be_scaled_down s origin m =
    if is_started s && is_nil s then some true else any_evacuated m origin (evacuations s)

-- A change of the cluster, and what ends a run.
pub data Action : Type 0 where
  scale : Workload → Action
  start_evacuation : (path : String) → Body → Action

pub record Synced : Type 0 where
  pub actions : List Action
  pub error : Option Error

abbrev pub ends : List Action → Option Error → Synced
ends actions error = record { actions = actions; error = error }

abbrev evacuation_body : EvacuationStrategy → List String → Body
evacuation_body s nodes =
    ("conn_evict_rate", number s.conn_evict_rate)
    ∷ ("sess_evict_rate", number s.sess_evict_rate)
    ∷ ("migrate_to", texts nodes)
    ∷ (if is_positive s.wait_takeover then ("wait_takeover", number s.wait_takeover) ∷ [] else [])

abbrev pub evacuation_path : String → String
evacuation_path node = "api/v4/load_rebalance/" +++ node +++ "/evacuation/start"

module _ (c : Cluster) (update_error : Workload → Option Error) (r : Requester) (e : Emqx) where
  abbrev answer_error : Result Response → Option Error
  answer_error (err x) = some x
  answer_error (ok resp) = none

  -- startEvacuateNodeByAPI, of an instance without a strategy a panic.
  abbrev pub start_on : List Action → Workload → PodMap → Pod → Option Synced
  start_on done current m p = e.blue_green_update >>= λ update.
      (let path = evacuation_path (get_emqx_node_name e p) in
        let body =
          evacuation_body update.evacuation_strategy
            (map (get_emqx_node_name e) (pods_in current.uid m)) in
        some (
          ends (done ++ start_evacuation path body ∷ [])
            (answer_error (r.request "POST" path body))))

  unfoldable pub evacuate_next :
      List Action → BlueGreenStatus → Workload → Workload → PodMap → Option Synced
  unfolding newest_pods get_emqx_node_name pods_of
  evacuate_next done s current origin m = elim (evacuations s) [
    | v ∷ vs ↦ some (ends done none)
    | [] ↦ elim (newest_pods m origin) [
      | [] ↦ some (ends done none)
      | p ∷ ps ↦ start_on done current m p
    ]
  ]

  -- The set as it is read again for the update.
  abbrev pub read_again : Workload → Result Workload → Result Workload
  read_again origin (ok w) = ok w
  read_again origin (err x) = if is_not_found x then ok origin else err x

  abbrev pub after_scale : Workload → (List Action → Option Synced) → Option Error → Option Synced
  after_scale w next none = next (scale w ∷ [])
  after_scale w next (some x) = some (ends (scale w ∷ []) (some x))

  abbrev pub scale_to : ℤ → (List Action → Option Synced) → Result Workload → Option Synced
  scale_to n next (err x) = some (ends [] (some x))
  scale_to n next (ok w) =
      let scaled = record w { spec_replicas = some (dec_int32 n) } in
      after_scale scaled next (update_error scaled)

  unfoldable pub scale_down : Workload → (List Action → Option Synced) → Bool → Option Synced
  scale_down origin next false = next []
  scale_down origin next true =
      origin.spec_replicas >>= λ n. scale_to n next (read_again origin (c.get_set origin.name))

  abbrev pub sync_sets :
      BlueGreenStatus → PodMap → Result Workload → Result Workload → Option Synced
  sync_sets s m (err x) origin = some (ends [] (some x))
  sync_sets s m (ok current) (err x) = some (ends [] (some x))
  sync_sets s m (ok current) (ok origin) = can_be_scaled_down s origin m >>= λ can.
      scale_down origin (λ done. evacuate_next done s current origin m) can

  abbrev pub with_pods : BlueGreenStatus → Result PodMap → Option Synced
  with_pods s (err x) = some (ends [] (some x))
  with_pods s (ok m) =
      sync_sets s m (c.get_set s.current_stateful_set) (c.get_set s.origin_stateful_set)

  abbrev pub with_sets : BlueGreenStatus → Result (List Workload) → Option Synced
  with_sets s (err x) = some (ends [] (some x))
  with_sets s (ok sets) = with_pods s (get_pod_map c e sets)

  abbrev pub sync_from : Option BlueGreenStatus → Option Synced
  sync_from none = some (ends [] none)
  sync_from (some s) = get_in_cluster_stateful_sets c e >>= λ sets. with_sets s sets

  -- syncStatefulSet
  unfoldable pub sync_stateful_set : Option Synced
  unfolding get_in_cluster_stateful_sets get_pod_map can_be_scaled_down scale_down evacuate_next
  sync_stateful_set = sync_from e.status.blue_green

-- `x - y` on int32.
abbrev minus : ℤ → ℤ → ℤ
minus (pos a) (pos b) = if leb b a then pos (a - b) else negsuc (b - a - 1)
minus (pos a) (negsuc b) = pos (a + b + 1)
minus (negsuc a) (pos b) = negsuc (a + b)
minus (negsuc a) (negsuc b) = if leb a b then pos (b - a) else negsuc (a - b - 1)

abbrev whole : ℤ → ℕ
whole (pos n) = n
whole (negsuc n) = 0

module _ (sync : Option Synced) (now : ℕ) where
  abbrev result_of : Option Error → SubResult
  result_of none = after 0
  result_of (some x) = fail x

  abbrev wait_or_sync : ℤ → Option (List Action × SubResult)
  wait_or_sync delay =
      if is_positive delay
      then some ([], after (whole delay))
      else (sync >>= λ s. some (s.actions, result_of s.error))

  -- handleBlueGreenUpdate: nothing happens within the delay after the start.
  unfoldable pub handle_blue_green_update :
      Option BlueGreenStatus → Option BlueGreenUpdate → Option (List Action × SubResult)
  unfolding seconds_since to_int32
  handle_blue_green_update none update = some ([], after 0)
  handle_blue_green_update (some s) update = elim s.started_at [
    | none ↦ some ([], after 0)
    | some t ↦ update >>= λ u.
        wait_or_sync (to_int32 (minus u.initial_delay_seconds (seconds_since now t)))
  ]
