-- ===== src/Controllers/UpdateStatus/Revisions.antt =====
-- When the current revision moves, and where to.
use emqx_operator.Prelude.{
  pos, ◌==ℤ◌, String, Bool, true, false, ◌≡◌, refl, sym, ap, ◌∙◌, Option, none, some, List, [], ◌∷◌,
  arith, ℕ, ◌<◌, some-eq, >>=-eq-some, str_eq, eq_iff, if◌then◌else◌,
}
use emqx_operator.Errors.{Error}
use emqx_operator.Http.{Requester, Decoder}
use emqx_operator.Kube.{Client, Workload}
use emqx_operator.Api.Types.{Emqx, EmqxNode, EmqxNodesStatus, Template}
use emqx_operator.Api.Status.Conditions.{IsLog}
use emqx_operator.Controllers.StatusMachine.{
  EmqxStatusMachine, next_status, new_emqx_status_machine,
}
use emqx_operator.Controllers.StatusMachine.Invariant.{new_emqx_status_machine-IsSynced}
use emqx_operator.Controllers.StatusMachine.Frame.{next_status-Same, new_emqx_status_machine-Same}
use emqx_operator.Controllers.Sets.{Sets, get_stateful_set_list, get_replica_set_list}
use emqx_operator.Controllers.Nodes.{get_emqx_nodes}
use emqx_operator.Controllers.UpdateStatus.{
  Outcome, default_revision, set_replicant_replicas, pick_current, prepare, proceed, refresh,
  reconcile, nodes_or_nil, count_from, count_node, count_nodes, finish, outcome, record_evacuations,
  record_nodes, evacuate_and_finish,
}

count_from-current_revision :
    (u c : Option Workload) (s : EmqxNodesStatus) (ns : List EmqxNode)
    → (count_from u c s ns).current_revision ≡ s.current_revision
unfolding count_from
count_from-current_revision u c s [] = refl
count_from-current_revision u c s (n ∷ ns) = count_from-current_revision u c (count_node u c n s) ns

abbrev pub core_revision : Emqx → String
core_revision e = e.status.core_nodes_status.current_revision

record_evacuations-core_revision :
    (b : Bool) (r : Requester) (d : Decoder) (e : Emqx)
    → core_revision (record_evacuations b r d e) ≡ core_revision e
record_evacuations-core_revision true r d e = refl
record_evacuations-core_revision false r d e = refl

module _ (client : Client) (d : Decoder) (now later : ℕ) (update_error : Option Error)
    (first : now < later) where
  finish-core_revision :
      (e : Emqx) (m : Option EmqxStatusMachine) {o : Outcome}
      → IsLog now e.status.conditions
      → next_status client later (new_emqx_status_machine now e) ≡ m
      → outcome update_error m ≡ some o
      → core_revision o.emqx ≡ core_revision e
  finish-core_revision e none log moved h = absurd (ground arith)
  finish-core_revision e (some m) log moved h =
      ap (λ (q : Outcome). core_revision q.emqx) (sym (some-eq h))
      ∙ ap core_revision (
          next_status-Same client later _ m (new_emqx_status_machine-IsSynced now later e first log)
            moved)
      ∙ ap core_revision (new_emqx_status_machine-Same now e)

  evacuate_and_finish-core_revision :
      (r : Requester) (e : Emqx) (b : Option Bool) {o : Outcome}
      → IsLog now e.status.conditions
      → evacuate_and_finish client d now later update_error r e b ≡ some o
      → core_revision o.emqx ≡ core_revision e
  unfolding finish
  evacuate_and_finish-core_revision r e none log h = absurd (ground arith)
  evacuate_and_finish-core_revision r e (some true) log h =
      finish-core_revision (record_evacuations true r d e) _ log refl h
  evacuate_and_finish-core_revision r e (some false) log h = finish-core_revision e _ log refl h

  proceed-core_revision :
      (sts rs : Sets) (e : Emqx) (rs_pick : Option Workload) (r : Option Requester) {o : Outcome}
      → IsLog now e.status.conditions
      → proceed client d now later update_error sts rs e none rs_pick r ≡ some o
      → core_revision o.emqx ≡ core_revision e
  unfolding proceed refresh count_nodes
  proceed-core_revision sts rs e (some w) r log h =
      ap (λ (q : Outcome). core_revision q.emqx) (sym (some-eq h))
  proceed-core_revision sts rs e none none log h =
      ap (λ (q : Outcome). core_revision q.emqx) (sym (some-eq h))
  proceed-core_revision sts rs e none (some req) log h =
      let nodes = nodes_or_nil (get_emqx_nodes client req d e) in
      evacuate_and_finish-core_revision req (record_nodes sts rs nodes e) _ log h
      ∙ count_from-current_revision _ _ _ nodes.0

not_vacant :
    (sets : Sets) (c : Workload)
    → sets.current ≡ some c
    → (c.status_replicas ==ℤ pos 0) ≡ false
    → pick_current sets ≡ none
unfolding pick_current
not_vacant sets c h z = ground arith

with_replicas-cores :
    (o : Option Template) (e : Emqx) {e1 : Emqx}
    → set_replicant_replicas o e ≡ some e1
    → (e1.status.core_nodes_status ≡ e.status.core_nodes_status)
with_replicas-cores none e h = ap (λ (x : Emqx). x.status.core_nodes_status) (sym (some-eq h))
with_replicas-cores (some t) e h =
    let (n, found, h1) = >>=-eq-some t.replicas _ h in
    ap (λ (x : Emqx). x.status.core_nodes_status) (sym (some-eq h1))

-- The current revision, or the update revision where there is none yet.
abbrev pub or_update : EmqxNodesStatus → String
or_update s = if str_eq s.current_revision "" then s.update_revision else s.current_revision

default_revision-or_update :
    (s : EmqxNodesStatus) → (default_revision s).current_revision ≡ or_update s
default_revision-or_update s =
    ground (arith, eq_iff s.update_revision "", eq_iff s.current_revision "")

prepare-core_revision :
    (e e1 : Emqx) → prepare e ≡ some e1 → core_revision e1 ≡ or_update e.status.core_nodes_status
unfolding prepare
prepare-core_revision e e1 h =
    let (n, found, h1) = >>=-eq-some e.spec.core_template.replicas _ h in
    let (e2, filled, h2) = >>=-eq-some (set_replicant_replicas e.spec.replicant_template _) _ h1 in
    ap core_revision (sym (some-eq h2))
    ∙ default_revision-or_update e2.status.core_nodes_status
    ∙ ap or_update (with_replicas-cores e.spec.replicant_template _ filled)

-- While the stateful set of the current revision has replicas, and the conditions are in order and no
-- later than the run, updateStatus.reconcile leaves the current revision of the core nodes as it is, or
-- sets it to the update revision where the status has none yet.
pub reconcile-core_revision :
    (client : Client) (d : Decoder) (now later : ℕ) (update_error : Option Error)
    (r : Option Requester) (e e1 : Emqx) (c : Workload) (o : Outcome)
    → now < later
    → IsLog now e1.status.conditions
    → prepare e ≡ some e1
    → (get_stateful_set_list client e1).current ≡ some c
    → (c.status_replicas ==ℤ pos 0) ≡ false
    → reconcile client d now later update_error r e ≡ some o
    → core_revision o.emqx ≡ or_update e.status.core_nodes_status
unfolding reconcile
reconcile-core_revision client d now later update_error r e e1 c o first log prepared found z h =
    proceed-core_revision client d now later update_error first (get_stateful_set_list client e1)
      (get_replica_set_list client e1) e1 (pick_current (get_replica_set_list client e1)) r log
      (rw (prepared, not_vacant (get_stateful_set_list client e1) c found z) at h)
    ∙ prepare-core_revision e e1 prepared
