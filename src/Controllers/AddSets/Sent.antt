-- ===== src/Controllers/AddSets/Sent.antt =====
-- The calls of addCore and addRepl that write a set, and what follows their answers.
use emqx_operator.Prelude.{
  ℕ, ◌<◌, str_eq, eq_iff, subst, arith, Bool, true, false, ◌&&◌, ◌≡◌, refl, ap, ◌∙◌, Option, none,
  some, ◌>>=◌, [], ◌∷◌, if◌then◌else◌,
}
use emqx_operator.Errors.{
  Error, is_already_exists, already_exists, eof, pod_not_ready, sts_not_ready, not_found, conflict,
  other,
}
use emqx_operator.Kube.{Workload}
use emqx_operator.Kube.Pods.{SetKind, SetObject}
use emqx_operator.Api.Types.{Emqx}
use emqx_operator.Api.Status.Conditions.{IsLog}
use emqx_operator.Controllers.Reconcile.{fail}
use emqx_operator.Controllers.AddSets.{
  Cluster, create_set, update_set, update_status, Added, unchanged, collide, hash_of, adopt,
  without_hash, is_rolling_out, nodes_status, report, resolve, create, send, update, add_set,
  create_texts, revert_texts, update_texts, Texts, written,
}
use emqx_operator.Controllers.AddSets.Reported.{IsReported, update_emqx_status-IsReported}
use emqx_operator.Controllers.AddSets.Branches.{
  nothing_listed, NeedsNew, other_pods, has_pods, IsWrite, creation, replacement, IsOutcome, kept,
  rolled_out, returned, collided, refused_creation, refused_update, Answers, Ends,
}

taken_iff : (x : Error) → is_already_exists x ≡ true → x ≡ already_exists
taken_iff already_exists h = refl
taken_iff eof h = cc
taken_iff pod_not_ready h = cc
taken_iff sts_not_ready h = cc
taken_iff not_found h = cc
taken_iff conflict h = cc
taken_iff (other s) h = cc

module _ (c : Cluster) (kind : SetKind) (now later : ℕ) (e : Emqx) (new : SetObject)
    (h : now < later) (log : IsLog now c.fetched.status.conditions) (listed : Option Workload) where
  abbrev Outcome : Added → Type 0
  Outcome = IsOutcome c listed later kind e new

  report-IsReported :
      (texts : Texts) → IsReported later kind (hash_of new) (written c kind now e new texts)
  report-IsReported texts =
      update_emqx_status-IsReported now later kind texts.0 texts.1 (hash_of new) c.fetched h log

  resolve-IsOutcome :
      IsWrite c new listed (create_set new) (some already_exists)
      → Outcome (resolve c kind now e new)
  resolve-IsOutcome w =
      by_test (is_rolling_out e) (str_eq (hash_of new) (nodes_status kind e).current_revision) refl
        refl
    where
      by_test :
          (a b : Bool)
          → is_rolling_out e ≡ a
          → str_eq (hash_of new) (nodes_status kind e).current_revision ≡ b
          → Outcome (
              if a && b
              then report c kind now e new (revert_texts kind) (
                  create_set new
                  ∷ update_status (written c kind now e new (revert_texts kind))
                  ∷ [])
              else collide c kind now e new)
      by_test true true x y =
          returned _ w (x, (eq_iff (hash_of new) _).0 y) (report-IsReported (revert_texts kind))
      by_test true false x y =
          collided w λ r. absurd (ground (arith, (eq_iff (hash_of new) _).1 r.1))
      by_test false b x y = collided w λ r. absurd (ground (arith, r.0))

  create-IsOutcome : NeedsNew c new listed → Outcome (create c kind now e new)
  unfolding create
  create-IsOutcome needs = by_answer (c.create_error new) (creation needs)
    where
      by_taken :
          (x : Error) (b : Bool)
          → is_already_exists x ≡ b
          → IsWrite c new listed (create_set new) (some x)
          → Outcome (
              if b
              then resolve c kind now e new
              else record { emqx = e; calls = create_set new ∷ []; result = fail x })
      by_taken x true is w =
          resolve-IsOutcome
            (subst (λ x. IsWrite c new listed (create_set new) (some x)) (taken_iff x is) w)
      by_taken x false is w =
          refused_creation x w λ same. absurd (ground (arith, is, ap is_already_exists same))

      by_answer :
          (o : Option Error)
          → IsWrite c new listed (create_set new) o
          → Outcome (elim o as (λ o. Added) [
            | none ↦
                report c kind now e new (create_texts kind) (
                  create_set new
                  ∷ update_status (written c kind now e new (create_texts kind))
                  ∷ [])
            | some x ↦
                if is_already_exists x
                then resolve c kind now e new
                else record { emqx = e; calls = create_set new ∷ []; result = fail x }
          ])
      by_answer none w = rolled_out _ _ w (report-IsReported (create_texts kind))
      by_answer (some x) w = by_taken x (is_already_exists x) refl w

  send-IsOutcome :
      (s : SetObject)
      → IsWrite c new listed (update_set s) (c.update_error s)
      → Outcome (send c kind now e new s)
  send-IsOutcome s w = by_answer (c.update_error s) w
    where
      by_answer :
          (o : Option Error)
          → IsWrite c new listed (update_set s) o
          → Outcome (elim o as (λ o. Added) [
            | none ↦
                report c kind now e new
                  (update_texts kind)
                  (update_set s ∷ update_status (written c kind now e new (update_texts kind)) ∷ [])
            | some x ↦ record { emqx = e; calls = update_set s ∷ []; result = fail x }
          ])
      by_answer none w = rolled_out _ _ w (report-IsReported (update_texts kind))
      by_answer (some x) w = refused_update x s w

module _ (c : Cluster) (kind : SetKind) (now later : ℕ) (e : Emqx) (new : SetObject)
    (h : now < later) (log : IsLog now c.fetched.status.conditions) (answers : Answers c) where
  update-Ends :
      (w : Workload)
      → c.is_template_patch_empty
          (without_hash (c.object_of w).template)
          (without_hash new.template)
        ≡ some true
      → Ends c (some w) later kind e new (update c kind now e new (c.object_of w))
  unfolding update
  update-Ends w same =
      let stored = c.object_of w in
      let (is_empty, found) = answers.set stored (adopt new stored) in
      (
        _,
        ap
            (λ o.
              o >>= λ b. some (if b then unchanged e else send c kind now e new (adopt new stored)))
            found,
        by_empty is_empty found,
      )
    where
      by_empty :
          (b : Bool)
          → c.is_set_patch_empty (c.object_of w) (adopt new (c.object_of w)) ≡ some b
          → IsOutcome c
              (some w)
              later
              kind
              e
              new
              (if b then unchanged e else send c kind now e new (adopt new (c.object_of w)))
      by_empty true found = kept refl (has_pods same found)
      by_empty false found =
          send-IsOutcome c kind now later e new h log (some w) _ (replacement (has_pods same found))

  pub add_set-Ends :
      (listed : Option Workload) → Ends c listed later kind e new (add_set c kind now e new listed)
  unfolding add_set
  add_set-Ends none = (_, refl, create-IsOutcome c kind now later e new h log none nothing_listed)
  add_set-Ends (some w) =
      let stored = c.object_of w in
      let (is_empty, found) =
        answers.template (without_hash stored.template) (without_hash new.template) in
      by_patch is_empty found (
        ap
          (λ o. o >>= λ b.
            (if b then update c kind now e new stored else some (create c kind now e new)))
          found)
    where
      by_patch :
          (b : Bool) {r : Option Added}
          → c.is_template_patch_empty
              (without_hash (c.object_of w).template)
              (without_hash new.template)
            ≡ some b
          → r ≡ (
              if b then update c kind now e new (c.object_of w) else some (create c kind now e new))
          → Ends c (some w) later kind e new r
      by_patch true found h1 = let (a, is, outcome) = update-Ends w found in (a, h1 ∙ is, outcome)
      by_patch false found h1 =
          (_, h1, create-IsOutcome c kind now later e new h log (some w) (other_pods found))
