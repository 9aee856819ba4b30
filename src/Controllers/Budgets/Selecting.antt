-- ===== src/Controllers/Budgets/Selecting.antt =====
-- Which sets the budgets of add_pdb.go are for.
use emqx_operator.Prelude.{◌≡◌, none, List, [], ◌∷◌}
use emqx_operator.Kube.{Labels}
use emqx_operator.Kube.Pods.{SetObject}
use emqx_operator.Api.Labels.{lookup, labels_pod_template_hash_key}
use emqx_operator.Api.Labels.Distinct.{Covers}
use emqx_operator.Controllers.Budgets.{PdbObject, v1, v1beta1}

abbrev pub selector_of : PdbObject → Labels
selector_of (v1 b) = b.spec.match_labels
selector_of (v1beta1 b) = b.spec.match_labels

-- One budget for each set, in their order, that selects the set's pods.
abbrev pub AreFor : List PdbObject → List SetObject → Type 0
AreFor [] [] = Unit {0}
AreFor [] (s ∷ ss) = ⊥
AreFor (b ∷ bs) [] = ⊥
AreFor (b ∷ bs) (s ∷ ss) = Covers (selector_of b) s.template.metadata.labels × AreFor bs ss

-- The labels leave the one of the hash to the operator.
abbrev pub HasNoHash : Labels → Type 0
HasNoHash labels = lookup labels_pod_template_hash_key labels ≡ none
