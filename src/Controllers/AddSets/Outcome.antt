-- ===== src/Controllers/AddSets/Outcome.antt =====
-- What a run of addCore or addRepl ends in, on each of its branches.
use emqx_operator.Prelude.{
  ℕ, ◌<◌, Bool, true, false, not, ◌≡◌, refl, ap, ◌∙◌, Option, none, some, ◌>>=◌, if◌then◌else◌,
}
use emqx_operator.Kube.{Workload}
use emqx_operator.Kube.Pods.{SetKind, stateful_set, replica_set, SetObject}
use emqx_operator.Api.Types.{Emqx, Template}
use emqx_operator.Api.Status
use emqx_operator.Api.Status.{is_condition_true}
use emqx_operator.Api.Status.Conditions.{IsLog}
use emqx_operator.Api.Dashboard.{Hocon}
use emqx_operator.Controllers.Sets.{get_stateful_set_list, get_replica_set_list}
use emqx_operator.Controllers.Builders.Core.{generate_stateful_set}
use emqx_operator.Controllers.Builders.Replicant.{generate_replica_set}
use emqx_operator.Controllers.Builders.Named.{
  Printer, named, get_new_stateful_set, get_new_replica_set,
}
use emqx_operator.Controllers.AddSets.{
  Cluster, Added, unchanged, add_set, reconcile_core, reconcile_replicant,
}
use emqx_operator.Controllers.AddSets.Branches.{Answers, Ends}
use emqx_operator.Controllers.AddSets.Sent.{add_set-Ends}

-- The wanted set can always be built, as a generated pod template has the EMQX container.
get_new_stateful_set-some :
    (p : Printer) (hocon : Hocon) (e : Emqx)
    → (new : SetObject) × (get_new_stateful_set p hocon e ≡ some new)
unfolding get_new_stateful_set named generate_stateful_set
get_new_stateful_set-some p hocon e = (_, refl)

get_new_replica_set-some :
    (p : Printer) (hocon : Hocon) (e : Emqx) (t : Template)
    → (new : SetObject) × (get_new_replica_set p hocon e t ≡ some new)
unfolding get_new_replica_set named generate_replica_set
get_new_replica_set-some p hocon e t = (_, refl)

Ends-bind :
    {c : Cluster} {listed : Option Workload} {later : ℕ} {kind : SetKind} {e : Emqx}
    {new : SetObject} {o : Option SetObject} (f : SetObject → Option Added)
    → o ≡ some new
    → Ends c listed later kind e new (f new)
    → Ends c listed later kind e new (o >>= f)
Ends-bind f found (a, h, is) = (a, ap (λ o. o >>= f) found ∙ h, is)

-- The sets of the update revision.
abbrev pub core_set : Cluster → Emqx → Option Workload
core_set c e = (get_stateful_set_list c.client e).update

abbrev pub replicant_set_of : Cluster → Emqx → Option Workload
replicant_set_of c e = (get_replica_set_list c.client e).update

-- The replicant run for a template: nothing happens before the core nodes are ready.
abbrev pub ReplicantEnds :
    Cluster → ℕ → Printer → Hocon → Emqx → Option Template → Option Added → Type 0
ReplicantEnds c later p hocon e none r = r ≡ some (unchanged e)
ReplicantEnds c later p hocon e (some t) r =
    (new : SetObject) × (get_new_replica_set p hocon e t ≡ some new)
    × (is_condition_true e.status Status.core_nodes_ready ≡ true
        → Ends c (replicant_set_of c e) later replica_set e new r)
    × (is_condition_true e.status Status.core_nodes_ready ≡ false → r ≡ some (unchanged e))

module _ (c : Cluster) (p : Printer) (hocon : Hocon) (now later : ℕ) (e : Emqx) (h : now < later)
    (log : IsLog now c.fetched.status.conditions) (answers : Answers c) where
  core-Ends :
      (new : SetObject) × (get_new_stateful_set p hocon e ≡ some new)
      × Ends c (core_set c e) later stateful_set e new (reconcile_core c p hocon now e)
  unfolding reconcile_core
  core-Ends =
      let (new, found) = get_new_stateful_set-some p hocon e in
      (
        new,
        found,
        Ends-bind (λ s. add_set c stateful_set now e s (core_set c e)) found
            (add_set-Ends c stateful_set now later e new h log answers _),
      )

  -- The run for a template, by whether the core nodes are ready.
  abbrev template_run : Template → Bool → Option Added
  template_run t is_ready =
      if not is_ready
      then some (unchanged e)
      else (get_new_replica_set p hocon e t >>= λ s.
          (add_set c replica_set now e s (replicant_set_of c e)))

  template-Ends :
      (t : Template) (is_ready : Bool)
      → (new : SetObject) × (get_new_replica_set p hocon e t ≡ some new)
        × (is_ready ≡ true
            → Ends c (replicant_set_of c e) later replica_set e new (template_run t is_ready))
        × (is_ready ≡ false → template_run t is_ready ≡ some (unchanged e))
  template-Ends t true =
      let (new, found) = get_new_replica_set-some p hocon e t in
      (
        new,
        found,
        λ is_ready.
            Ends-bind (λ s. add_set c replica_set now e s (replicant_set_of c e)) found
              (add_set-Ends c replica_set now later e new h log answers _),
        λ not_ready. cc,
      )
  template-Ends t false =
      let (new, found) = get_new_replica_set-some p hocon e t in
      (new, found, λ is_ready. cc, λ not_ready. refl)

  replicant-Ends :
      ReplicantEnds c later p hocon e e.spec.replicant_template
        (reconcile_replicant c p hocon now e)
  unfolding reconcile_replicant
  replicant-Ends = by_template e.spec.replicant_template
    where
      by_template :
          (o : Option Template)
          → ReplicantEnds c later p hocon e o (elim o as (λ o. Option Added) [
            | none ↦ some (unchanged e)
            | some t ↦ template_run t (is_condition_true e.status Status.core_nodes_ready)
          ])
      by_template none = refl
      by_template (some t) = template-Ends t (is_condition_true e.status Status.core_nodes_ready)

  -- If the patch library answers, and the conditions of the resource that is read back before its
  -- status is written are in order, addCore and addRepl return. Each has kept the resource and made no
  -- call, as the listed set is as it is wanted; or written the set, as it is not, and reported a
  -- roll-out of its hash (the status machine is in the Progressing status of these nodes, and the
  -- conditions are in order again); or found that the name of a new set exists already, and reported the
  -- return to that set, if the roll-out is from it, and else counted a collision and asked to be run
  -- again; or reported any other error of its call. addRepl makes no call without a replicant template
  -- or before the core nodes are ready.
  pub reconcile-Ends :
      ((new : SetObject) × (get_new_stateful_set p hocon e ≡ some new)
        × Ends c (core_set c e) later stateful_set e new (reconcile_core c p hocon now e))
      × ReplicantEnds c later p hocon e e.spec.replicant_template
          (reconcile_replicant c p hocon now e)
  reconcile-Ends = (core-Ends, replicant-Ends)
