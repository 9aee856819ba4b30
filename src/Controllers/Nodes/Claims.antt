-- ===== src/Controllers/Nodes/Claims.antt =====
-- Which pods a node is taken to run on.
use emqx_operator.Prelude.{
  String, Bool, true, false, ◌≡◌, refl, subst, Option, none, some, List, [], ◌∷◌, All, All-append,
  All-mono, if◌then◌else◌,
}
use mathlib.Core.List.{Memᴰ}
use mathlib.Core.List.Memᴰ.{head, tail}
use emqx_operator.Prelude.Sort.{sort, All-sort}
use emqx_operator.Errors.{Result, ok, err}
use emqx_operator.Http.{Requester, Decoder}
use emqx_operator.Kube.{Client, Pod}
use emqx_operator.Api.Types.{Emqx, EmqxNode}
use emqx_operator.Api.Labels.{default_labels}
use emqx_operator.Controllers.Nodes.{
  runs_core, runs_replicant, owned_by, claims, all_claims, by_uptime, get_emqx_nodes_by_api,
  get_emqx_nodes,
}

-- An entry of the result is a reported node of the role, with the pod and the controller that it
-- is taken to belong to.
pub record IsClaimed (runs : EmqxNode → Pod → Bool) (nodes : List EmqxNode) (pods : List Pod)
    (n : EmqxNode) : Type 0 where
  pub node : EmqxNode
  pub pod : Pod
  pub reported : Memᴰ node nodes
  pub listed : Memᴰ pod pods
  pub matches : runs node pod ≡ true
  pub controlled : pod.controller_uid ≡ some n.controller_uid
  pub same : n ≡ owned_by node pod n.controller_uid

ok-eq : {A : Type 0} {a b : A} → ok a ≡ ok b → a ≡ b
ok-eq h = cc

more_nodes :
    {runs : EmqxNode → Pod → Bool} {nodes : List EmqxNode} {pods : List Pod} (m n : EmqxNode)
    → IsClaimed runs nodes pods n
    → IsClaimed runs (m ∷ nodes) pods n
more_nodes m n c = record {
  node = c.node;
  pod = c.pod;
  reported = tail c.reported;
  listed = c.listed;
  matches = c.matches;
  controlled = c.controlled;
  same = c.same;
}

more_pods :
    {runs : EmqxNode → Pod → Bool} {nodes : List EmqxNode} {pods : List Pod} (p : Pod)
    (n : EmqxNode)
    → IsClaimed runs nodes pods n
    → IsClaimed runs nodes (p ∷ pods) n
more_pods p n c = record {
  node = c.node;
  pod = c.pod;
  reported = c.reported;
  listed = tail c.listed;
  matches = c.matches;
  controlled = c.controlled;
  same = c.same;
}

claims-IsClaimed :
    (runs : EmqxNode → Pod → Bool) (n : EmqxNode) (ns : List EmqxNode) (ps : List Pod)
    → All (IsClaimed runs (n ∷ ns) ps) (claims runs n ps)
unfolding claims
claims-IsClaimed runs n ns [] = tt
claims-IsClaimed runs n ns (p ∷ ps) =
    All-append _ _ (claims runs n ps) (by_test (runs n p) p.controller_uid refl refl)
      (All-mono _ _ (claims runs n ps) (more_pods p) (claims-IsClaimed runs n ns ps))
  where
    by_test :
        (b : Bool) (o : Option String)
        → runs n p ≡ b
        → p.controller_uid ≡ o
        → All
            (IsClaimed runs (n ∷ ns) (p ∷ ps))
            (if b then (elim o [ none ↦ [] | some uid ↦ owned_by n p uid ∷ [] ]) else [])
    by_test false o e c = tt
    by_test true none e c = tt
    by_test true (some uid) e c = (
      record {
        node = n;
        pod = p;
        reported = head refl;
        listed = head refl;
        matches = e;
        controlled = c;
        same = refl;
      },
      tt,
    )

all_claims-IsClaimed :
    (runs : EmqxNode → Pod → Bool) (ns : List EmqxNode) (ps : List Pod)
    → All (IsClaimed runs ns ps) (all_claims runs ns ps)
unfolding all_claims
all_claims-IsClaimed runs [] ps = tt
all_claims-IsClaimed runs (n ∷ ns) ps =
    All-append _ (claims runs n ps) (all_claims runs ns ps) (claims-IsClaimed runs n ns ps)
      (All-mono _ _ (all_claims runs ns ps) (more_nodes n) (all_claims-IsClaimed runs ns ps))

module _ (client : Client) (r : Requester) (d : Decoder) (e : Emqx) where
  abbrev pods : List Pod
  pods = client.pods e.namespace (default_labels e)

  -- What the two lists hold, where these are the nodes that the API reports.
  abbrev pub AllClaimed : List EmqxNode → List EmqxNode × List EmqxNode → Type 0
  AllClaimed nodes lists =
      All (IsClaimed runs_core nodes pods) lists.0
      × All (IsClaimed runs_replicant nodes pods) lists.1

  -- Every node that getEMQXNodes returns is one that the API reported, matched with one of the pods of
  -- the EMQX: as a core node it has the role core and a host that begins with the name of the pod, as
  -- a replicant node the role replicant and the address of the pod; and it is put down to the
  -- controller of the pod.
  pub get_emqx_nodes-AllClaimed :
      (nodes : List EmqxNode) (lists : List EmqxNode × List EmqxNode)
      → get_emqx_nodes_by_api r d ≡ ok nodes
      → get_emqx_nodes client r d e ≡ ok lists
      → AllClaimed nodes lists
  unfolding get_emqx_nodes
  get_emqx_nodes-AllClaimed nodes lists a h = by_answer (get_emqx_nodes_by_api r d) a h
    where
      by_answer :
          (x : Result (List EmqxNode))
          → x ≡ ok nodes
          → elim x [
            | err y ↦ err y
            | ok ns ↦ ok (
              sort by_uptime (all_claims runs_core ns pods),
              sort by_uptime (all_claims runs_replicant ns pods),
            )
          ]
            ≡ ok lists
          → AllClaimed nodes lists
      by_answer (err y) q h = cc
      by_answer (ok ns) q h =
          subst (λ ns. AllClaimed ns lists) (ok-eq q)
            (subst (AllClaimed ns) (ok-eq h) (
              All-sort by_uptime _ _ (all_claims-IsClaimed runs_core ns pods),
              All-sort by_uptime _ _ (all_claims-IsClaimed runs_replicant ns pods),
            ))
