-- ===== src/Controllers/StatusMachine/Tests.antt =====
-- The tests of the status machine, written out.
use emqx_operator.Prelude.{
  ℤ, pos, ◌==ℤ◌, ==ℤ_iff, ◌≡◌, refl, sym, ap, ◌∙◌, eq_iff, Bool, true, false, Option, none, some,
  some-eq, >>=-eq-some, ◌>>=◌, arith, if◌then◌else◌,
}
use emqx_operator.Kube.{Workload}
use emqx_operator.Api.Types.{EmqxNodesStatus}
use emqx_operator.Controllers.StatusMachine.{all_ready, is_updating, has_lost}

-- A set is there, some of its replicas are ready, and as many as are wanted.
pub record AreReady (set : Option Workload) (wanted : Option ℤ) : Type 0 where
  pub workload : Workload
  pub listed : set ≡ some workload
  pub any : ¬ (workload.ready_replicas ≡ pos 0)
  pub all : wanted ≡ some workload.ready_replicas

-- All wanted nodes are ready, and of the current revision.
pub record IsSettled (s : EmqxNodesStatus) : Type 0 where
  pub all_ready : s.ready_replicas ≡ s.replicas
  pub one_revision : s.update_revision ≡ s.current_revision

-- A set, if it is there, has as many ready replicas as the status wants.
abbrev pub AreKept : Option Workload → EmqxNodesStatus → Type 0
AreKept none s = Unit
AreKept (some w) s = w.ready_replicas ≡ s.replicas

pub all_ready-AreReady :
    (set : Option Workload) (n : Option ℤ) → all_ready set n ≡ some true → AreReady set n
all_ready-AreReady none n h = absurd (ground arith)
all_ready-AreReady (some w) n h = by_zero (w.ready_replicas ==ℤ pos 0) refl h
  where
    by_zero :
        (b : Bool)
        → (w.ready_replicas ==ℤ pos 0) ≡ b
        → (if b then some false else (n >>= λ n. some (w.ready_replicas ==ℤ n))) ≡ some true
        → AreReady (some w) n
    by_zero true e h = absurd (ground arith)
    by_zero false e h =
        let (m, has, h1) = >>=-eq-some n _ h in
        record {
          workload = w;
          listed = refl;
          any = λ z. absurd (ground (arith, (==ℤ_iff w.ready_replicas (pos 0)).1 z));
          all = has ∙ ap some (sym ((==ℤ_iff w.ready_replicas m).0 (some-eq h1)));
        }

pub all_ready-not :
    (set : Option Workload) (n : Option ℤ) → all_ready set n ≡ some false → ¬ AreReady set n
all_ready-not set n h r = absurd (
    ground (
      arith,
      h,
      ap (λ o. all_ready o n) r.listed,
      ap (all_ready (some r.workload)) r.all,
      ==ℤ_iff r.workload.ready_replicas (pos 0),
      ==ℤ_iff r.workload.ready_replicas r.workload.ready_replicas,
      r.any,
    ))

pub is_updating-IsSettled : (s : EmqxNodesStatus) → is_updating s ≡ false → IsSettled s
is_updating-IsSettled s h = record {
  all_ready = ground (arith, ==ℤ_iff s.ready_replicas s.replicas);
  one_revision = ground (arith, eq_iff s.update_revision s.current_revision);
}

pub is_updating-not : (s : EmqxNodesStatus) → is_updating s ≡ true → ¬ IsSettled s
is_updating-not s h r = absurd (
    ground (
      arith,
      r.all_ready,
      r.one_revision,
      ==ℤ_iff s.ready_replicas s.replicas,
      eq_iff s.update_revision s.current_revision,
    ))

pub has_lost-AreKept :
    (set : Option Workload) (s : EmqxNodesStatus) → has_lost set s ≡ false → AreKept set s
has_lost-AreKept none s h = tt
has_lost-AreKept (some w) s h = ground (arith, ==ℤ_iff w.ready_replicas s.replicas)

pub has_lost-not :
    (set : Option Workload) (s : EmqxNodesStatus) → has_lost set s ≡ true → ¬ AreKept set s
has_lost-not none s h k = absurd (ground arith)
has_lost-not (some w) s h k = absurd (ground (arith, ==ℤ_iff w.ready_replicas s.replicas))
