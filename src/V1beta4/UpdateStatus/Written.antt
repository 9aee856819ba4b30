-- ===== src/V1beta4/UpdateStatus/Written.antt =====
-- How updateEmqxStatus moves the record of a blue-green update.
use emqx_operator.Prelude.{
  arith, ℕ, ℤ, ◌==ℤ◌, ==ℤ_iff, Bool, true, false, not, Option, none, some, ◌>>=◌, >>=-eq-some, List,
  [], ◌∷◌, ◌++◌, ◌≡◌, refl, sym, ap, ◌∙◌, subst, some-eq, if◌then◌else◌,
}
use emqx_operator.Errors.{Error, other, Result, ok, err}
use emqx_operator.Http.{Requester}
use emqx_operator.Kube.{Workload}
use emqx_operator.V1beta4.{Emqx, EmqxNode, EvacuationStatus, BlueGreenStatus, Cluster}
use emqx_operator.V1beta4.Status.{add_condition}
use emqx_operator.V1beta4.Sets.{get_in_cluster_stateful_sets}
use emqx_operator.V1beta4.UpdateStatus.{
  Decoder, Outcome, stopped, written, last_two, or_empty, started, count_nodes,
  update_ready_replicas, get_node_statuses_by_api, get_evacuation_status_by_api, add_running,
  write_evacuations, two_sets, with_sets, update_condition, updating, Reconciled, after_condition,
  after_replicas, reconcile, write_start,
}

abbrev pub start_of : Option BlueGreenStatus → Option ℕ
start_of b = b >>= λ s. s.started_at

-- When an update has started: as the status says, or now.
pub data StartsAt (now : ℕ) (b : Option BlueGreenStatus) : Option ℕ → Type 0 where
  first : start_of b ≡ none → StartsAt now b (some now)
  kept : {t : ℕ} → start_of b ≡ some t → StartsAt now b (some t)

-- The evacuations that the API reports, or after an error those of the record.
abbrev pub evacuations_after :
    Result (Option (List EvacuationStatus))
    → Option BlueGreenStatus
    → Option (List EvacuationStatus)
evacuations_after (ok vs) b = vs
evacuations_after (err x) b = b >>= λ s. s.evacuations_status

evacuations_kept :
    (now : ℕ) (origin current : Workload) (b : Option BlueGreenStatus)
    → (started now origin current (or_empty b)).evacuations_status
      ≡ (b >>= λ s. s.evacuations_status)
evacuations_kept now origin current none = refl
evacuations_kept now origin current (some s) = refl

-- The set has as many ready replicas as it wants, or another number.
abbrev pub IsUp : Workload → Type 0
IsUp w = w.spec_replicas ≡ some w.ready_replicas

-- The step from the record `b`, on the sets in the cluster, which are in descending order of their
-- sizes, and of one size the newest first: a single set ends the update, and of more the last is the
-- origin and the one before it the current one.
pub data IsStep (answer : Result (Option (List EvacuationStatus))) (is_enterprise : Bool) (now : ℕ)
    (b : Option BlueGreenStatus) : List Workload → Option BlueGreenStatus → Type 0 where
  no_set : IsStep answer is_enterprise now b [] b
  clears : {w : Workload} → IsStep answer is_enterprise now b (w ∷ []) none
  refuses :
      {sets : List Workload} (before : List Workload) (current origin : Workload)
      → sets ≡ before ++ current ∷ origin ∷ []
      → is_enterprise ≡ false
      → IsStep answer is_enterprise now b sets b
  waits :
      {sets : List Workload} (before : List Workload) (current origin : Workload)
      → sets ≡ before ++ current ∷ origin ∷ []
      → is_enterprise ≡ true
      → ¬ IsUp current
      → IsStep answer is_enterprise now b sets b
  renews :
      {sets : List Workload} {t : Option ℕ} {vs : Option (List EvacuationStatus)}
      (before : List Workload) (current origin : Workload)
      → sets ≡ before ++ current ∷ origin ∷ []
      → is_enterprise ≡ true
      → IsUp current
      → StartsAt now b t
      → vs ≡ evacuations_after answer b
      → IsStep answer is_enterprise now b sets (
          some (record {
            origin_stateful_set = origin.name;
            current_stateful_set = current.name;
            started_at = t;
            evacuations_status = vs;
          }))

abbrev pub blue_green : Emqx → Option BlueGreenStatus
blue_green e = e.status.blue_green

last_two_lem :
    (a b : Workload) (ws : List Workload)
    → (before : List Workload) × (a ∷ b ∷ ws
        ≡ before ++ (last_two a b ws).0 ∷ (last_two a b ws).1 ∷ [])
last_two_lem a b [] = ([], refl)
last_two_lem a b (c ∷ ws) =
    let (before, h) = last_two_lem b c ws in (a ∷ before, ap (λ ws. a ∷ ws) h)

or_now-StartsAt :
    (now : ℕ) (origin current : Workload) (b : Option BlueGreenStatus)
    → StartsAt now b (started now origin current (or_empty b)).started_at
or_now-StartsAt now origin current none = first refl
or_now-StartsAt now origin current (some s) = by_start s.started_at refl
  where
    by_start :
        (t : Option ℕ)
        → s.started_at ≡ t
        → StartsAt now (some s) (elim t [ none ↦ some now | some t ↦ some t ])
    by_start none h = first h
    by_start (some t) h = kept h

module _ (c : Cluster) (r : Requester) (d : Decoder) (now : ℕ) where
  abbrev answer : Result (Option (List EvacuationStatus))
  answer = get_evacuation_status_by_api c r d now

  abbrev Steps : Emqx → List Workload → Emqx → Type 0
  Steps e sets e1 = IsStep answer e.is_enterprise now (blue_green e) sets (blue_green e1)

  write_start-Steps :
      (e : Emqx) (sets before : List Workload) (current origin : Workload)
      → sets ≡ before ++ current ∷ origin ∷ []
      → e.is_enterprise ≡ true
      → current.spec_replicas ≡ some current.ready_replicas
      → Steps e sets (write_start c r d now (updating c r d now e current) origin current).0
  unfolding add_condition
  write_start-Steps e sets before current origin cut is ready = by_answer answer refl
    where
      by_answer :
          (x : Result (Option (List EvacuationStatus)))
          → answer ≡ x
          → Steps e sets
              (write_evacuations c r d now
                (updating c r d now e current)
                (started now origin current (or_empty (blue_green e)))
                x).0
      by_answer (err x) h =
          renews before current origin cut is ready
            (or_now-StartsAt now origin current (blue_green e))
            (evacuations_kept now origin current (blue_green e)
              ∙ ap (λ a. evacuations_after a (blue_green e)) (sym h))
      by_answer (ok vs) h =
          renews before current origin cut is ready
            (or_now-StartsAt now origin current (blue_green e))
            (ap (λ a. evacuations_after a (blue_green e)) (sym h))

  two_sets-Steps :
      (e : Emqx) (sets before : List Workload) (current origin : Workload) {o : Outcome}
      → sets ≡ before ++ current ∷ origin ∷ []
      → two_sets c r d now e (current, origin) ≡ some o
      → Steps e sets o.0
  unfolding two_sets
  two_sets-Steps e sets before current origin {o} cut h = by_kind e.is_enterprise refl h
    where
      by_ready :
          (n : ℤ) (b : Bool)
          → e.is_enterprise ≡ true
          → current.spec_replicas ≡ some n
          → (current.ready_replicas ==ℤ n) ≡ b
          → some (
              if not b
              then (updating c r d now e current, none)
              else write_start c r d now (updating c r d now e current) origin current)
            ≡ some o
          → Steps e sets o.0
      by_ready n true is has_n same h =
          subst (λ (o : Outcome). Steps e sets o.0) (some-eq h)
            (write_start-Steps e sets before current origin cut is
              (has_n ∙ ap some (sym ((==ℤ_iff current.ready_replicas n).0 same))))
      by_ready n false is has_n same h =
          subst (λ (o : Outcome). Steps e sets o.0) (some-eq h)
            (waits before current origin cut is λ up. absurd (
              ground (
                arith,
                same,
                (==ℤ_iff current.ready_replicas n).1 (sym (some-eq (sym has_n ∙ up))),
              )))

      by_kind :
          (b : Bool)
          → e.is_enterprise ≡ b
          → (if not b
              then some (e, some (other "blueGreenUpdatingStatus only support EmqxEnterprise"))
              else (current.spec_replicas >>= λ n. some (
                  if not (current.ready_replicas ==ℤ n)
                  then (updating c r d now e current, none)
                  else write_start c r d now (updating c r d now e current) origin current)))
            ≡ some o
          → Steps e sets o.0
      by_kind false is h =
          subst (λ (o : Outcome). Steps e sets o.0) (some-eq h)
            (refuses before current origin cut is)
      by_kind true is h =
          let (n, has_n, h1) = >>=-eq-some current.spec_replicas _ h in
          by_ready n (current.ready_replicas ==ℤ n) is has_n refl h1

  with_sets-Steps :
      (e : Emqx) (sets : List Workload) {o : Outcome}
      → with_sets c r d now e (ok sets) ≡ some o
      → Steps e sets o.0
  unfolding add_running
  with_sets-Steps e [] h = subst (λ (o : Outcome). Steps e [] o.0) (some-eq h) no_set
  with_sets-Steps e (w ∷ []) h = subst (λ (o : Outcome). Steps e (w ∷ []) o.0) (some-eq h) clears
  with_sets-Steps e (a ∷ b ∷ ws) h =
      let (before, cut) = last_two_lem a b ws in two_sets-Steps e _ before _ _ cut h

  -- The record is as it was, or makes a step on the sets in the cluster, which are those of the
  -- instance `e1` with the reported nodes.
  pub data Updates (e : Emqx) : Emqx → Type 0 where
    uncounted :
        {e1 e2 : Emqx} {x : Error}
        → update_ready_replicas c r d now e ≡ some (e1, some x)
        → blue_green e2 ≡ blue_green e
        → Updates e e2
    unlisted :
        {e1 e2 : Emqx} {x : Error}
        → update_ready_replicas c r d now e ≡ some (e1, none)
        → get_in_cluster_stateful_sets c e1 ≡ some (err x)
        → blue_green e2 ≡ blue_green e
        → Updates e e2
    steps :
        {e1 e2 : Emqx} {sets : List Workload}
        → update_ready_replicas c r d now e ≡ some (e1, none)
        → get_in_cluster_stateful_sets c e1 ≡ some (ok sets)
        → IsStep answer e.is_enterprise now (blue_green e) sets (blue_green e2)
        → Updates e e2

  update_condition-Updates :
      (e e1 : Emqx) {o : Outcome}
      → update_ready_replicas c r d now e ≡ some (e1, none)
      → e1.is_enterprise ≡ e.is_enterprise
      → blue_green e1 ≡ blue_green e
      → update_condition c r d now e1 ≡ some o
      → Updates e o.0
  unfolding update_condition
  update_condition-Updates e e1 {o} counted kind before h =
      let (sets, all, h1) = >>=-eq-some (get_in_cluster_stateful_sets c e1) _ h in
      by_sets sets all h1
    where
      by_sets :
          (x : Result (List Workload))
          → get_in_cluster_stateful_sets c e1 ≡ some x
          → with_sets c r d now e1 x ≡ some o
          → Updates e o.0
      by_sets (err x) all h =
          subst (λ (o : Outcome). Updates e o.0) (some-eq h) (unlisted counted all before)
      by_sets (ok sets) all h = steps counted all (
          subst (λ k. IsStep answer k now (blue_green e) sets (blue_green o.0)) kind
            (subst (λ b. IsStep answer e1.is_enterprise now b sets (blue_green o.0)) before
              (with_sets-Steps e1 sets h)))

  count_nodes-same :
      (e : Emqx) (x : Result (List EmqxNode)) {o : Outcome}
      → count_nodes c r d now e x ≡ some o
      → (o.0.is_enterprise ≡ e.is_enterprise) × (blue_green o.0 ≡ blue_green e)
  count_nodes-same e (err x) h =
      subst
        (λ (o : Outcome). (o.0.is_enterprise ≡ e.is_enterprise) × (blue_green o.0 ≡ blue_green e))
        (some-eq h) (refl, refl)
  count_nodes-same e (ok nodes) h =
      let (n, has_n, h1) = >>=-eq-some e.replicas _ h in
      subst
        (λ (o : Outcome). (o.0.is_enterprise ≡ e.is_enterprise) × (blue_green o.0 ≡ blue_green e))
        (some-eq h1) (refl, refl)

  update_ready_replicas-same :
      (e : Emqx) {o : Outcome}
      → update_ready_replicas c r d now e ≡ some o
      → (o.0.is_enterprise ≡ e.is_enterprise) × (blue_green o.0 ≡ blue_green e)
  unfolding update_ready_replicas
  update_ready_replicas-same e h = count_nodes-same e (get_node_statuses_by_api c r d now) h

  module _ (write_error : Emqx → Option Error) where
    after_condition-emqx : (o : Outcome) → (after_condition c r d now write_error o).emqx ≡ o.0
    after_condition-emqx (e, some x) = refl
    after_condition-emqx (e, none) = by_error (write_error e)
      where
        by_error :
            (x : Option Error)
            → (elim x as (λ x. Reconciled) [
              | some x ↦ record { emqx = e; is_sent = true; ends = stopped x }
              | none ↦ record { emqx = e; is_sent = true; ends = written }
            ]).emqx
              ≡ e
        by_error none = refl
        by_error (some x) = refl

    after_replicas-Updates :
        (e : Emqx) (counted : Outcome) {o : Reconciled}
        → update_ready_replicas c r d now e ≡ some counted
        → after_replicas c r d now write_error counted ≡ some o
        → Updates e o.emqx
    after_replicas-Updates e (e1, some x) is h =
        subst (λ (o : Reconciled). Updates e o.emqx) (some-eq h)
          (uncounted is (update_ready_replicas-same e is).1)
    after_replicas-Updates e (e1, none) is h =
        let (kind, before) = update_ready_replicas-same e is in
        let (o, updated, h1) = >>=-eq-some (update_condition c r d now e1) _ h in
        subst (λ (q : Reconciled). Updates e q.emqx) (some-eq h1)
          (subst (Updates e) (sym (after_condition-emqx o))
            (update_condition-Updates e e1 is kind before updated))

    -- updateEmqxStatus leaves the record of a blue-green update as it was if it cannot read the nodes
    -- or the sets in the cluster. With one set in the cluster it clears the record. With more it leaves
    -- it as it was for an EmqxBroker, or while the set before the last has not all its replicas ready;
    -- else the record names the last set as the origin and the one before it as the current one, with
    -- the evacuations that the API reports, or the former ones if it answers an error, and keeps the
    -- time at which the update started, or starts now.
    pub reconcile-Updates :
        (e : Emqx) {o : Reconciled} → reconcile c r d now write_error e ≡ some o → Updates e o.emqx
    unfolding reconcile
    reconcile-Updates e {o} h =
        let (counted, is, h1) = >>=-eq-some (update_ready_replicas c r d now e) _ h in
        after_replicas-Updates e counted is h1
