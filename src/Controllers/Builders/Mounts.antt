-- ===== src/Controllers/Builders/Mounts.antt =====
-- The volumes that the EMQX container mounts exist.
use emqx_operator.Prelude.{
  ℤ, String, str_eq, eq_refl, ◌+++◌, Bool, true, ◌||◌, ◌≡◌, subst, Option, none, some, some-eq,
  ◌>>=◌, List, [], ◌∷◌, ◌++◌, any, All, All-append, All-mono, arith,
}
use emqx_operator.Kube.Pods.{
  SetObject, ServicePort, Container, VolumeMount, Volume, ClaimTemplate, ClaimSpec, empty_dir,
}
use emqx_operator.Api.Types.{Emqx, Template}
use emqx_operator.Api.Dashboard.{Hocon}
use emqx_operator.Controllers.Builders.{volume_mounts, bootstrap_volumes, volume}
use emqx_operator.Controllers.Builders.Core.{
  generate_stateful_set, data_volumes, claim_templates, core_labels,
}
use emqx_operator.Controllers.Builders.Replicant.{generate_replica_set}
use emqx_operator.Controllers.Builders.Named.{
  Printer, named, compute_hash, with_first, with_ports, with_hash, get_new_stateful_set,
  get_new_replica_set, dashboard_of,
}

abbrev pub is_volume : String → Volume → Bool
is_volume name v = str_eq v.name name

abbrev pub is_claim : String → ClaimTemplate → Bool
is_claim name c = str_eq c.name name

-- A volume or a claim template has the mount's name.
abbrev pub is_backed : List Volume → List ClaimTemplate → VolumeMount → Bool
is_backed volumes claims m = any (is_volume m.name) volumes || any (is_claim m.name) claims

abbrev pub first_mounts : List Container → List VolumeMount
first_mounts [] = []
first_mounts (c ∷ cs) = c.volume_mounts

-- Every mount of the first container has its volume.
abbrev pub IsBacked : SetObject → Type 0
IsBacked s =
    All (λ m. is_backed s.template.spec.volumes s.volume_claim_templates m ≡ true)
      (first_mounts s.template.spec.containers)

-- Every extra mount of a template has an extra volume.
abbrev pub HasExtraVolumes : Template → Type 0
HasExtraVolumes t =
    All (λ m. any (is_volume m.name) t.spec.extra_volumes ≡ true) t.spec.extra_volume_mounts

any-append_right :
    {A : Type 0} (p : A → Bool) (xs ys : List A) → any p ys ≡ true → any p (xs ++ ys) ≡ true
any-append_right p [] ys h = h
any-append_right p (x ∷ xs) ys h = ground (arith, any-append_right p xs ys h)

in_first : (a b : Bool) → a ≡ true → (a || b) ≡ true
in_first a b h = ground arith

-- The container's own mounts, where the data is in a volume or in a claim.
core_mounts :
    (e : Emqx) (extra : List Volume) (c : Option ClaimSpec)
    → All
        (λ m.
          is_backed
            (data_volumes (e.name +++ "-core") c
              ++ bootstrap_volumes e (e.name +++ "-core")
              ++ extra)
            (claim_templates e (core_labels e) c)
            m
          ≡ true)
        (volume_mounts (e.name +++ "-core"))
core_mounts e extra none = (
  ground arith,
  (
    ground arith,
    (
      ground (arith, eq_refl ((e.name +++ "-core") +++ "-log")),
      (ground (arith, eq_refl ((e.name +++ "-core") +++ "-data")), tt),
    ),
  ),
)
core_mounts e extra (some c) = (
  ground arith,
  (
    ground arith,
    (
      ground (arith, eq_refl ((e.name +++ "-core") +++ "-log")),
      (ground (arith, eq_refl ((e.name +++ "-core") +++ "-data")), tt),
    ),
  ),
)

-- An extra volume is found behind the operator's own.
behind :
    (own more extra : List Volume) (claims : List ClaimTemplate) (m : VolumeMount)
    → any (is_volume m.name) extra ≡ true
    → is_backed (own ++ more ++ extra) claims m ≡ true
behind own more extra claims m found =
    in_first _ (any (is_claim m.name) claims)
      (any-append_right (is_volume m.name) (own ++ more) extra found)

-- What both generators do with the extra mounts.
with_extra :
    (own more : List Volume) (claims : List ClaimTemplate) (mounts : List VolumeMount)
    (t : Template)
    → All (λ m. is_backed (own ++ more ++ t.spec.extra_volumes) claims m ≡ true) mounts
    → HasExtraVolumes t
    → All
        (λ m. is_backed (own ++ more ++ t.spec.extra_volumes) claims m ≡ true)
        (mounts ++ t.spec.extra_volume_mounts)
with_extra own more claims mounts t hm he =
    All-append (λ m. is_backed (own ++ more ++ t.spec.extra_volumes) claims m ≡ true) mounts
      t.spec.extra_volume_mounts hm
      (All-mono (λ m. any (is_volume m.name) t.spec.extra_volumes ≡ true) _
        t.spec.extra_volume_mounts (behind own more t.spec.extra_volumes claims) he)

generate-IsBacked :
    (e : Emqx) → HasExtraVolumes e.spec.core_template → IsBacked (generate_stateful_set e)
unfolding generate_stateful_set
generate-IsBacked e h =
    let t = e.spec.core_template in
    let claim = t.spec.volume_claim_templates in
    let name = e.name +++ "-core" in
    with_extra (data_volumes name claim) (bootstrap_volumes e name)
      (claim_templates e (core_labels e) claim) (volume_mounts name) t
      (core_mounts e t.spec.extra_volumes claim) h

replicant_mounts :
    (e : Emqx) (extra : List Volume)
    → All
        (λ m.
          is_backed
            (bootstrap_volumes e (e.name +++ "-replicant")
              ++ (volume ((e.name +++ "-replicant") +++ "-data") empty_dir ∷ [])
              ++ extra)
            []
            m
          ≡ true)
        (volume_mounts (e.name +++ "-replicant"))
replicant_mounts e extra = (
  ground arith,
  (
    ground arith,
    (
      ground (arith, eq_refl ((e.name +++ "-replicant") +++ "-log")),
      (ground (arith, eq_refl ((e.name +++ "-replicant") +++ "-data")), tt),
    ),
  ),
)

generate_replicas-IsBacked :
    (e : Emqx) (t : Template) → HasExtraVolumes t → IsBacked (generate_replica_set e t)
unfolding generate_replica_set
generate_replicas-IsBacked e t h =
    let name = e.name +++ "-replicant" in
    with_extra (bootstrap_volumes e name) (volume (name +++ "-data") empty_dir ∷ []) []
      (volume_mounts name) t (replicant_mounts e t.spec.extra_volumes) h

named-IsBacked :
    (p : Printer) (ports : List ServicePort) (count : Option ℤ) (s r : SetObject)
    → IsBacked s
    → named p ports count s ≡ some r
    → IsBacked r
unfolding named
named-IsBacked p ports count s r b h = by_containers s.template.spec.containers b h
  where
    hash : String
    hash = compute_hash p s.template count

    by_containers :
        (cs : List Container)
        → All
            (λ m. is_backed s.template.spec.volumes s.volume_claim_templates m ≡ true)
            (first_mounts cs)
        → (with_first (with_ports ports) cs >>= λ ds. some (with_hash hash s ds)) ≡ some r
        → IsBacked r
    by_containers (c ∷ cs) b e = subst IsBacked (some-eq e) b
    by_containers [] b e = cc

-- Every volume that the EMQX container of a new set mounts is one of the pod's volumes or of the
-- set's claims, with a data volume or a data claim as the template has it, if each extra mount of the
-- template has an extra volume.
pub get_new_sets-IsBacked :
    (p : Printer) (hocon : Hocon) (e : Emqx) (t : Template) (sts rs : SetObject)
    → HasExtraVolumes e.spec.core_template
    → HasExtraVolumes t
    → get_new_stateful_set p hocon e ≡ some sts
    → get_new_replica_set p hocon e t ≡ some rs
    → IsBacked sts × IsBacked rs
unfolding get_new_stateful_set get_new_replica_set
get_new_sets-IsBacked p hocon e t sts rs h k new_sts new_rs = (
  named-IsBacked p (dashboard_of hocon e) _ (generate_stateful_set e) sts (generate-IsBacked e h)
      new_sts,
  named-IsBacked p (dashboard_of hocon e) _ (generate_replica_set e t) rs
      (generate_replicas-IsBacked e t k) new_rs,
)
