-- ===== src/Api/Ports.antt =====
-- apis/apps/v2beta1/util.go: the merge of two lists of ports, and the container ports of a service's.
-- That `append` may write behind the end of its first argument is left out.
pub mod Merge
use emqx_operator.Prelude.{
  ℤ, ◌==ℤ◌, String, str_eq, Bool, true, false, ◌||◌, List, [], ◌∷◌, ◌++◌, map, any,
}
use emqx_operator.Kube.Pods.{ServicePort, ContainerPort}

module _ {A : Type 0} (name : A → String) (port : A → ℤ) where
  -- The name or the port is in one of the two sets.
  abbrev pub is_taken : List String → List ℤ → A → Bool
  is_taken names ports x = any (str_eq (name x)) names || any (◌==ℤ◌ (port x)) ports

  -- The loop, which is the same in both functions.
  unfoldable pub keep_new : List String → List ℤ → List A → List A
  keep_new names ports [] = []
  keep_new names ports (x ∷ xs) = elim (is_taken names ports x) [
    | true ↦ keep_new names ports xs
    | false ↦ x ∷ keep_new (name x ∷ names) (port x ∷ ports) xs
  ]

unfoldable pub merge_service_ports : List ServicePort → List ServicePort → List ServicePort
unfolding keep_new
merge_service_ports ports1 ports2 = keep_new (λ p. p.name) (λ p. p.port) [] [] (ports1 ++ ports2)

unfoldable pub merge_container_ports : List ContainerPort → List ContainerPort → List ContainerPort
unfolding keep_new
merge_container_ports ports1 ports2 =
    keep_new (λ p. p.name) (λ p. p.container_port) [] [] (ports1 ++ ports2)

abbrev container_port_of : ServicePort → ContainerPort
container_port_of p = record { name = p.name; container_port = p.port; protocol = p.protocol }

unfoldable pub trans_service_ports_to_container_ports : List ServicePort → List ContainerPort
trans_service_ports_to_container_ports = map container_port_of
