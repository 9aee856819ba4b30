-- ===== src/Handler/Stable.antt =====
-- CreateOrUpdate of a service that is stored already.
use emqx_operator.Prelude.{
  ℤ, pos, ◌==ℤ◌, String, str_eq, eq_iff, eq_refl, true, false, ◌≡◌, refl, ap, ◌∙◌, Option, none,
  some, inl, inr, List, [], ◌∷◌, map, All, All-mono, arith, Bool-cases, if◌then◌else◌,
}
use emqx_operator.Errors.{Result, ok, err}
use emqx_operator.Kube.Pods.{ServicePort, ServiceSpec}
use emqx_operator.Api.Dashboard.{PortMap, put_port}
use emqx_operator.Handler.{
  node_port_map, node_port_of, with_node_port, keep_node_port, keep_allocated, Api, Object, Stored,
  service, with_stored, completed, compare, patch, bring_up, untouched, create_or_update,
}

-- The port with a node port that is allocated to its name, unless it has one.
abbrev pub allocated : (String → ℤ) → ServicePort → ServicePort
allocated f p = if p.node_port ==ℤ pos 0 then record p { node_port = f p.name } else p

-- No two ports of a list have the same name, as the API server wants it.
abbrev pub HasNames : List ServicePort → Type 0
HasNames [] = Unit
HasNames (p ∷ ps) = All (λ q. str_eq q.name p.name ≡ false) ps × HasNames ps

-- The node port of the last port of a name.
last_port : String → List ServicePort → Option ℤ → Option ℤ
last_port name [] found = found
last_port name (p ∷ ps) found =
    last_port name ps (if str_eq p.name name then some p.node_port else found)

node_port_of-put_port :
    (key name : String) (port : ℤ) (m : PortMap)
    → node_port_of key (put_port name port m)
      ≡ (if str_eq name key then some port else node_port_of key m)
unfolding node_port_of put_port
node_port_of-put_port key name port [] = refl
node_port_of-put_port key name port ((k, v) ∷ m) =
    ground
      (arith, eq_iff name key, eq_iff k name, eq_iff k key, node_port_of-put_port key name port m)

node_port_of-node_port_map :
    (key : String) (m : PortMap) (ps : List ServicePort)
    → node_port_of key (node_port_map m ps) ≡ last_port key ps (node_port_of key m)
unfolding node_port_map last_port
node_port_of-node_port_map key m [] = refl
node_port_of-node_port_map key m (p ∷ ps) =
    node_port_of-node_port_map key (put_port p.name p.node_port m) ps
    ∙ ap (last_port key ps) (node_port_of-put_port key p.name p.node_port m)

module _ (f : String → ℤ) where
  allocated-name : (p : ServicePort) → (allocated f p).name ≡ p.name
  allocated-name p = ground arith

  last_port-absent :
      (name : String) (ps : List ServicePort) (found : Option ℤ)
      → All (λ q. str_eq q.name name ≡ false) ps
      → last_port name (map (allocated f) ps) found ≡ found
  unfolding last_port
  last_port-absent name [] found h = refl
  last_port-absent name (p ∷ ps) found h =
      ap
        (λ n.
          last_port name (map (allocated f) ps)
            (if str_eq n name then some (allocated f p).node_port else found))
        (allocated-name p)
      ∙ rw h.0 (last_port-absent name ps found h.1)

  -- Each port finds the node port that was allocated to it.
  last_port-allocated :
      (ps : List ServicePort) (found : ServicePort → Option ℤ)
      → HasNames ps
      → All
          (λ p.
            (o : Option ℤ)
            → last_port p.name (map (allocated f) ps) o ≡ some (allocated f p).node_port)
          ps
  unfolding last_port
  last_port-allocated [] found h = tt
  last_port-allocated (p ∷ ps) found h = (
    λ o.
        ap
          (λ n.
            last_port p.name (map (allocated f) ps)
              (if str_eq n p.name then some (allocated f p).node_port else o))
          (allocated-name p)
        ∙ rw (eq_refl p.name) (last_port-absent p.name ps (some (allocated f p).node_port) h.0),
    All-mono _ _ ps (λ q at o. at _) (last_port-allocated ps found h.1),
  )

  allocated_port :
      (p : ServicePort)
      → (p.node_port ==ℤ pos 0) ≡ true
      → some (allocated f p).node_port ≡ some (f p.name)
  allocated_port p e = rw e refl

  keep-allocated :
      (m : PortMap) (p : ServicePort)
      → node_port_of p.name m ≡ some (allocated f p).node_port
      → keep_node_port m p ≡ allocated f p
  unfolding keep_node_port
  keep-allocated m p h = elim (Bool-cases (p.node_port ==ℤ pos 0)) [
    | inl e ↦ rw (e, keep_node_port) (ap (with_node_port p) (h ∙ allocated_port p e))
    | inr e ↦ rw (e, keep_node_port) refl
  ]

  map-eq :
      (m : PortMap) (ps : List ServicePort)
      → All (λ p. node_port_of p.name m ≡ some (allocated f p).node_port) ps
      → map (keep_node_port m) ps ≡ map (allocated f) ps
  map-eq m [] h = refl
  map-eq m (p ∷ ps) h = cc (keep-allocated m p h.0, map-eq m ps h.1)

  ports_are_kept :
      (ps : List ServicePort)
      → HasNames ps
      → map (keep_node_port (node_port_map [] (map (allocated f) ps))) ps ≡ map (allocated f) ps
  ports_are_kept ps h = map-eq (node_port_map [] (map (allocated f) ps)) ps (
      All-mono _ _ ps
        (λ p at.
          node_port_of-node_port_map p.name [] (map (allocated f) ps) ∙ at (node_port_of p.name []))
        (last_port-allocated ps (λ p. none) h))

-- The stored service is the wanted one with a cluster address, for a type that asks for one, or with
-- a node port for each port that asks for one.
pub data IsAllocated : ServiceSpec → ServiceSpec → Type 0 where
  cluster_ip :
      (ip : String) (wanted : ServiceSpec)
      → str_eq ip "" ≡ false
      → IsAllocated
          (record wanted { type = "ClusterIP"; cluster_ip = "" })
          (record wanted { type = "ClusterIP"; cluster_ip = ip })
  node_ports :
      (f : String → ℤ) (wanted : ServiceSpec)
      → HasNames wanted.ports
      → IsAllocated
          (record wanted { type = "NodePort" })
          (record wanted { type = "NodePort"; ports = map (allocated f) wanted.ports })

keep_allocated-stable :
    (wanted stored : ServiceSpec)
    → IsAllocated wanted stored
    → keep_allocated stored wanted ≡ stored
unfolding keep_allocated
keep_allocated-stable w s (cluster_ip ip wanted is_set) = rw (is_set, keep_allocated) refl
keep_allocated-stable w s (node_ports f wanted h) =
    ap (λ ports. record wanted { type = "NodePort"; ports = ports })
      (ports_are_kept f wanted.ports h)

-- CreateOrUpdate leaves a service alone that is stored as it is wanted, with the cluster address or
-- the node ports that the API server has allocated, if the patch between the stored service and one
-- with the same spec is empty.
pub create_or_update_stable :
    (api : Api) (obj : Object) (s : Stored) (wanted stored : ServiceSpec)
    → IsAllocated wanted stored
    → obj.body ≡ service wanted
    → api.owner_error obj ≡ none
    → api.get obj ≡ ok s
    → s.service_spec ≡ ok stored
    → api.is_patch_empty s (record (with_stored s obj) { body = service stored }) ≡ ok true
    → create_or_update api obj ≡ untouched
unfolding create_or_update
create_or_update_stable api obj s wanted stored is body owned found converted same =
    rw (owned, create_or_update)
      (ap (bring_up api obj) found
        ∙ ap (λ b. compare api s (completed s (with_stored s obj) b)) body
        ∙ ap (compare api s) (spec (s.service_spec) converted)
        ∙ ap (patch api (record (with_stored s obj) { body = service stored })) same)
  where
    spec :
        (r : Result ServiceSpec)
        → r ≡ ok stored
        → (elim r [
          | err e ↦ err e
          | ok st ↦ ok (record (with_stored s obj) { body = service (keep_allocated st wanted) })
        ])
          ≡ ok (record (with_stored s obj) { body = service stored })
    spec r e =
        ap
          (λ r. elim r [
            | err e ↦ err e
            | ok st ↦ ok (record (with_stored s obj) { body = service (keep_allocated st wanted) })
          ])
          e
        ∙ ap (λ st. ok (record (with_stored s obj) { body = service st }))
            (keep_allocated-stable wanted stored is)
