-- ===== src/Examples/Conditions.antt =====
-- The theorems on conditions and labels, at a list of two conditions and at a few labels.
use emqx_operator.Prelude.{true, false, ◌≡◌, refl, List, [], ◌∷◌, arith}
use emqx_operator.Kube.{Condition, Labels}
use emqx_operator.Api.Types.{EmqxStatus}
use emqx_operator.Api.Status
use emqx_operator.Api.Status.{
  set_condition, remove_condition, is_condition_true, get_last_true_condition,
}
use emqx_operator.Api.Status.Conditions.{IsLog}
use emqx_operator.Api.Status.Queries.{
  is_condition_true-set_condition, is_condition_true-remove_condition,
}
use emqx_operator.Api.Labels.{lookup}
use emqx_operator.Api.Labels.Lookup.{Distinct}
use emqx_operator.Examples.Fixtures.{true_at, status_of}

abbrev pub progressing : List Condition
progressing = true_at 5 Status.core_nodes_progressing ∷ true_at 3 Status.initialized ∷ []

pub progressing-IsLog : IsLog 6 progressing
progressing-IsLog = record {
  distinct = ((refl, tt), (tt, tt));
  sorted = ((refl, tt), (tt, tt));
  past = (omega arith, (omega arith, tt));
}

abbrev status : EmqxStatus
status = status_of progressing "v1" "v1"

abbrev labels : Labels
labels = ("app", "emqx") ∷ ("tier", "core") ∷ []

labels-Distinct : Distinct labels
unfolding lookup
labels-Distinct = (refl, (refl, tt))

is_condition_true-set_condition_example :
    is_condition_true (set_condition 6 (true_at 0 Status.available) status) Status.available ≡ true
is_condition_true-set_condition_example =
    is_condition_true-set_condition 6 (true_at 0 Status.available) status Status.available
      progressing-IsLog

is_condition_true-remove_condition_example :
    is_condition_true (remove_condition Status.initialized status) Status.initialized ≡ false
is_condition_true-remove_condition_example =
    is_condition_true-remove_condition 6 status Status.initialized Status.initialized
      progressing-IsLog
