-- ===== src/Controllers/StatusMachine/Progress.antt =====
-- How the machine reaches Ready.
use emqx_operator.Prelude.{
  ℕ, ◌<◌, ◌≤◌, ◌≡◌, refl, Bool, true, false, Option, some, List, [], ◌∷◌, length, Bool-cases, arith,
  ◌-◌, if◌then◌else◌, inl, inr, ◌>>=◌,
}
use emqx_operator.Kube.{Client, Condition}
use emqx_operator.Api.Types.{Emqx}
use emqx_operator.Api.Status.{set_condition, remove_condition}
use emqx_operator.Api.Labels.{is_exist_replicant}
use emqx_operator.Controllers.Sets.{get_stateful_set_list, get_replica_set_list}
use emqx_operator.Controllers.StatusMachine.{
  Stage, EmqxStatusMachine, put, cleared, core_progressing, core_ready, replicant_progressing,
  replicant_ready, cluster_available, cluster_ready, next_status, dispatch, is_updating,
  initialized, core_nodes_progressing, core_nodes_ready, replicant_nodes_progressing,
  replicant_nodes_ready, available, ready, next_core_nodes_progressing,
  next_replicant_nodes_progressing, next_initialized, set_current_status,
}
use emqx_operator.Controllers.StatusMachine.Invariant.{IsSynced}
use emqx_operator.Controllers.StatusMachine.Diagram.{
  Move, restarted, start, await_cores, cores_up, start_replicants, serve_cores, await_replicants,
  replicants_up, forget_replicants, serve_replicants, await_update, settle, lose_cores,
  lose_replicants, rest, cores_ready, replicants_ready, replicants_updating, cores_lost,
  replicants_lost,
}
use emqx_operator.Controllers.StatusMachine.Moves.{next_status-Move, Move-IsSynced}

-- A cluster in which every node that the resource asks for is ready and of the update revision.
pub record Settled (client : Client) (e : Emqx) : Type 0 where
  pub cores : cores_ready client e ≡ some true
  pub replicants : is_exist_replicant e ≡ true → replicants_ready client e ≡ some true
  pub cores_updated : is_updating e.status.core_nodes_status ≡ false
  pub replicants_updated : replicants_updating e ≡ false
  pub cores_kept : cores_lost client e ≡ false
  pub replicants_kept : replicants_lost client e ≡ false

Settled-put :
    (client : Client) (now : ℕ) (c : Condition) (e : Emqx)
    → Settled client e
    → Settled client (put now c e)
unfolding set_condition get_stateful_set_list get_replica_set_list is_exist_replicant
Settled-put client now c e v = record {
  cores = v.cores;
  replicants = v.replicants;
  cores_updated = v.cores_updated;
  replicants_updated = v.replicants_updated;
  cores_kept = v.cores_kept;
  replicants_kept = v.replicants_kept;
}

Settled-cleared : (client : Client) (e : Emqx) → Settled client e → Settled client (cleared e)
unfolding remove_condition get_stateful_set_list get_replica_set_list is_exist_replicant
Settled-cleared client e v = record {
  cores = v.cores;
  replicants = v.replicants;
  cores_updated = v.cores_updated;
  replicants_updated = v.replicants_updated;
  cores_kept = v.cores_kept;
  replicants_kept = v.replicants_kept;
}

exist-put :
    (now : ℕ) (c : Condition) (e : Emqx) → is_exist_replicant (put now c e) ≡ is_exist_replicant e
unfolding set_condition is_exist_replicant
exist-put now c e = refl

exist-cleared : (e : Emqx) → is_exist_replicant (cleared e) ≡ is_exist_replicant e
unfolding remove_condition is_exist_replicant
exist-cleared e = refl

-- How many calls of NextStatus lead from a status to Ready, with and without replicants.
unfoldable pub rank : Bool → Stage → ℕ
rank replicant ready = 0
rank replicant available = 1
rank replicant core_nodes_progressing = if replicant then 5 else 3
rank replicant core_nodes_ready = if replicant then 4 else 2
rank replicant initialized = if replicant then 6 else 4
rank replicant replicant_nodes_progressing = if replicant then 3 else 4
rank replicant replicant_nodes_ready = if replicant then 2 else 4

abbrev distance : EmqxStatusMachine → ℕ
distance s = rank (is_exist_replicant s.emqx) s.current_status

module _ {client : Client} (now : ℕ) {e : Emqx} (stage : Stage) {n : ℕ} where
  put_lem :
      (c : Condition)
      → Settled client e
      → rank (is_exist_replicant e) stage ≤ n
      → Settled client (put now c e) × (rank (is_exist_replicant (put now c e)) stage ≤ n)
  put_lem c v h = (Settled-put client now c e v, rw (exist-put now c e) h)

restart_lem :
    {client : Client} (now : ℕ) {e : Emqx} {n : ℕ}
    → Settled client e
    → rank (is_exist_replicant e) core_nodes_progressing ≤ n
    → Settled client (restarted now e).emqx
      × (rank (is_exist_replicant (restarted now e).emqx) core_nodes_progressing ≤ n)
restart_lem {client} now {e} v h = (
  Settled-put client now core_progressing (cleared e) (Settled-cleared client e v),
  rw (exist-put now core_progressing (cleared e), exist-cleared e) h,
)

Move-distance :
    {client : Client} {now : ℕ} {s s' : EmqxStatusMachine}
    → Settled client s.emqx
    → Move client now s s'
    → Settled client s'.emqx × (distance s' ≤ distance s - 1)
unfolding rank
Move-distance {client} {now} {s} v (start a e) = rw (e, a) (restart_lem now v (ground arith))
Move-distance {client} {s = s} v (await_cores a b e) = absurd (ground (arith, v.cores))
Move-distance {client} {now} {s} v (cores_up a b e) =
    rw (e, a) (put_lem now core_nodes_ready core_ready v (ground arith))
Move-distance {client} {now} {s} v (start_replicants a b e) =
    rw (e, a) (put_lem now replicant_nodes_progressing replicant_progressing v (ground arith))
Move-distance {client} {now} {s} v (serve_cores a b e) =
    rw (e, a) (put_lem now available cluster_available v (ground arith))
Move-distance v (await_replicants a b c e) = absurd (ground (arith, v.replicants b))
Move-distance {client} {now} {s} v (replicants_up a b c e) =
    rw (e, a) (put_lem now replicant_nodes_ready replicant_ready v (ground arith))
Move-distance {client} {now} {s} v (forget_replicants (inl a) b e) =
    rw (e, a) (restart_lem now v (ground arith))
Move-distance {client} {now} {s} v (forget_replicants (inr a) b e) =
    rw (e, a) (restart_lem now v (ground arith))
Move-distance {client} {now} {s} v (serve_replicants a b e) =
    rw (e, a) (put_lem now available cluster_available v (ground arith))
Move-distance v (await_update a (inl b) e) = absurd (ground (arith, v.cores_updated))
Move-distance v (await_update a (inr b) e) = absurd (ground (arith, v.replicants_updated))
Move-distance {client} {now} {s} v (settle a b c e) =
    rw (e, a) (put_lem now ready cluster_ready v (ground arith))
Move-distance v (lose_cores a b e) = absurd (ground (arith, v.cores_kept))
Move-distance v (lose_replicants a b c e) = absurd (ground (arith, v.replicants_kept))
Move-distance v (rest a b c e) = rw (e, a) (v, omega arith)

dispatch_total :
    (client : Client) (now : ℕ) (s : EmqxStatusMachine) (stage : Stage)
    → Settled client s.emqx
    → (s' : EmqxStatusMachine) × (dispatch stage client now s ≡ some s')
unfolding dispatch next_core_nodes_progressing next_replicant_nodes_progressing
dispatch_total client now s initialized v = (_, refl)
dispatch_total client now s core_nodes_progressing v =
    (set_current_status now (put now core_ready s.emqx), rw v.cores)
dispatch_total client now s core_nodes_ready v = (_, refl)
dispatch_total client now s replicant_nodes_progressing v =
    elim (Bool-cases (is_exist_replicant s.emqx)) [
      | inl e ↦ (set_current_status now (put now replicant_ready s.emqx), rw (e, v.replicants e))
      | inr e ↦ (next_initialized now s.emqx, rw e)
    ]
dispatch_total client now s replicant_nodes_ready v = (_, refl)
dispatch_total client now s available v = (_, refl)
dispatch_total client now s ready v = (_, refl)

-- Calls of NextStatus at the given readings of the clock, one reconciliation after another.
pub next_statuses : Client → List ℕ → EmqxStatusMachine → Option EmqxStatusMachine
next_statuses client [] s = some s
next_statuses client (t ∷ ts) s = next_status client t s >>= next_statuses client ts

abbrev pub Increasing : List ℕ → Type 0
Increasing [] = Unit {0}
Increasing (t ∷ []) = Unit {0}
Increasing (t ∷ u ∷ ts) = (t < u) × Increasing (u ∷ ts)

abbrev pub SyncedFor : List ℕ → EmqxStatusMachine → Type 0
SyncedFor [] s = Unit {0}
SyncedFor (t ∷ ts) s = IsSynced t s

at_zero : (b : Bool) (stage : Stage) → rank b stage ≤ 0 → stage ≡ ready
unfolding rank
at_zero b stage h = ground arith

after_first :
    {client : Client} {t : ℕ} (ts : List ℕ) {s s' : EmqxStatusMachine}
    → Increasing (t ∷ ts)
    → IsSynced t s
    → Move client t s s'
    → SyncedFor ts s'
after_first [] i v m = tt
after_first (u ∷ ts) i v m = Move-IsSynced i.0 v m

Increasing-tail : (t : ℕ) (ts : List ℕ) → Increasing (t ∷ ts) → Increasing ts
Increasing-tail t [] i = tt
Increasing-tail t (u ∷ ts) i = i.1

-- In a settled cluster NextStatus never panics, and leads to Ready and stays there, within as many
-- calls as the rank of the status that it starts from: six at most, and four without replicants.
pub next_statuses-ready :
    (client : Client) (ts : List ℕ) (s : EmqxStatusMachine)
    → Settled client s.emqx
    → SyncedFor ts s
    → Increasing ts
    → rank (is_exist_replicant s.emqx) s.current_status ≤ length ts
    → (s' : EmqxStatusMachine) × (next_statuses client ts s ≡ some s') × (s'.current_status ≡ ready)
unfolding next_statuses next_status
next_statuses-ready client [] s v y i h =
    (s, refl, at_zero (is_exist_replicant s.emqx) s.current_status h)
next_statuses-ready client (t ∷ ts) s v y i h =
    let (s1, e) = dispatch_total client t s s.current_status v in
    let m = next_status-Move client t s s1 y e in
    let (v1, d) = Move-distance v m in
    let (s2, run, done) =
      next_statuses-ready client ts s1 v1 (after_first ts i y m) (Increasing-tail t ts i)
        (omega arith) in
    (s2, rw e run, done)
