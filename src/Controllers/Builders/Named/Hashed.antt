-- ===== src/Controllers/Builders/Named/Hashed.antt =====
-- The bytes that a collision count adds to the hash, and what scaling a template leaves alone.
use emqx_operator.Prelude.{
  ℕ, ◌+◌, ◌*◌, ◌/◌, ◌%◌, ◌^◌, ◌<◌, ℤ, pos, negsuc, ◌≡◌, refl, Option, none, some, List, ◌∷◌, All,
  arith, ap, ◌∙◌, ◌>>=◌,
}
use emqx_operator.Prelude.Text.{to_int32, signed, unsigned}
use emqx_operator.Kube.Pods.{SetObject, Container, ServicePort}
use emqx_operator.Api.Types.{Emqx, Template}
use emqx_operator.Api.Labels.{default_core_labels}
use emqx_operator.Api.Dashboard.{Hocon}
use emqx_operator.Api.Dashboard.Bounds.{IsInt32, to_int32_of_IsInt32}
use emqx_operator.Controllers.Builders.Core.{generate_stateful_set}
use emqx_operator.Controllers.Builders.Replicant.{generate_replica_set}
use emqx_operator.Controllers.Builders.Named.{
  Printer, counted_bytes, named, get_new_stateful_set, get_new_replica_set, with_first, with_ports,
  with_hash, compute_hash, dashboard_of,
}

-- binary.LittleEndian.Uint32, as an int32.
abbrev pub read_count : List ℕ → Option ℤ
read_count (a ∷ b ∷ c ∷ d ∷ rest) = some (signed (a + b * 256 + c * 65536 + d * 16777216))
read_count _ = none

unsigned-lt : (x : ℤ) → unsigned x < 2 ^ 32
unsigned-lt (pos n) = omega arith
unsigned-lt (negsuc n) = omega arith

join_bytes :
    (n : ℕ)
    → n < 2 ^ 32
    → n % 256 + n / 256 % 256 * 256 + n / 65536 % 256 * 65536 + n / 16777216 % 256 * 16777216 ≡ n
join_bytes n h = omega arith

-- The eight bytes that a collision count adds to the hashed text are bytes, and the count, an int32,
-- can be read back from them: two counts never add the same bytes.
pub read-counted_bytes :
    (count : ℤ)
    → IsInt32 count
    → (read_count (counted_bytes (some count)) ≡ some count)
      × All (λ b. b < 256) (counted_bytes (some count))
unfolding to_int32
read-counted_bytes count h = (
  rw (join_bytes (unsigned count) (unsigned-lt count), to_int32_of_IsInt32 count h) refl,
  (
    omega arith,
    (
      omega arith,
      (omega arith, (omega arith, (omega arith, (omega arith, (omega arith, (omega arith, tt)))))),
    ),
  ),
)

-- A resource with another number of core nodes, and a template with another number of replicas.
abbrev pub scaled : Option ℤ → Template → Template
scaled n t = record t { replicas = n }

abbrev pub scaled_core : Option ℤ → Emqx → Emqx
scaled_core n e = record e {
  spec = record e.spec { core_template = scaled n e.spec.core_template };
}

abbrev pub with_replicas : Option ℤ → SetObject → SetObject
with_replicas n s = record s { replicas = n }

named-scaled :
    (p : Printer) (ports : List ServicePort) (count : Option ℤ) (s : SetObject) (n : Option ℤ)
    → named p ports count (with_replicas n s)
      ≡ named p ports count s >>= λ r. some (with_replicas n r)
unfolding named
named-scaled p ports count s n =
    by_containers (with_first (with_ports ports) s.template.spec.containers)
  where
    by_containers :
        (o : Option (List Container))
        → (o >>= λ cs. some (with_hash (compute_hash p s.template count) (with_replicas n s) cs))
          ≡ (o >>= λ cs. some (with_hash (compute_hash p s.template count) s cs)) >>= λ r.
              some (with_replicas n r)
    by_containers none = refl
    by_containers (some cs) = refl

generate-scaled :
    (e : Emqx) (n : Option ℤ)
    → generate_stateful_set (scaled_core n e) ≡ with_replicas n (generate_stateful_set e)
unfolding generate_stateful_set default_core_labels
generate-scaled e n = refl

generate_replicas-scaled :
    (e : Emqx) (t : Template) (n : Option ℤ)
    → generate_replica_set e (scaled n t) ≡ with_replicas n (generate_replica_set e t)
unfolding generate_replica_set
generate_replicas-scaled e t n = refl

-- Scaling the core nodes, or the replicant nodes, changes the number of replicas of the set that the
-- operator asks for and nothing else: its name and its pods stay, so no new set is rolled out.
pub get_new_sets-scaled :
    (p : Printer) (hocon : Hocon) (e : Emqx) (t : Template) (n : Option ℤ)
    → (get_new_stateful_set p hocon (scaled_core n e)
        ≡ get_new_stateful_set p hocon e >>= λ s. some (with_replicas n s))
      × (get_new_replica_set p hocon e (scaled n t)
          ≡ get_new_replica_set p hocon e t >>= λ s. some (with_replicas n s))
unfolding get_new_stateful_set get_new_replica_set
get_new_sets-scaled p hocon e t n = (
  ap (named p (dashboard_of hocon e) e.status.core_nodes_status.collision_count)
        (generate-scaled e n)
      ∙ named-scaled p (dashboard_of hocon e) _ (generate_stateful_set e) n,
  ap (named p (dashboard_of hocon e) e.status.replicant_nodes_status.collision_count)
        (generate_replicas-scaled e t n)
      ∙ named-scaled p (dashboard_of hocon e) _ (generate_replica_set e t) n,
)
