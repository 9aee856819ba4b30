-- ===== src/V1beta4/BlueGreen/Justified.antt =====
-- On what grounds the origin set of a blue-green update may lose a replica.
use emqx_operator.Prelude.{
  pos, ◌==ℤ◌, ==ℤ_iff, String, str_eq, eq_iff, Bool, true, false, not, ◌&&◌, ◌⊎◌, Option, none,
  some, ◌>>=◌, >>=-eq-some, List, [], ◌∷◌, head?, ◌≡◌, refl, ap, ◌∙◌, some-eq, arith, inl, inr,
  if◌then◌else◌,
}
use emqx_operator.Kube.{Workload, Pod}
use emqx_operator.Controllers.Sets.{PodMap}
use emqx_operator.V1beta4.{EvacuationStatus, BlueGreenStatus}
use emqx_operator.V1beta4.BlueGreen.Last.{IsLast, newest_pods-IsLast}
use emqx_operator.V1beta4.BlueGreen.{
  extract_pod_name, newest_pods, is_evacuated, is_newest, any_evacuated, evacuations,
  can_be_scaled_down,
}

-- Nothing is left on the node.
pub data IsEmpty : EvacuationStatus → Type 0 where
  empty :
      {v : EvacuationStatus}
      → v.stats.current_connected ≡ some (pos 0)
      → v.stats.current_sessions ≡ some (pos 0)
      → str_eq v.state "prohibiting" ≡ true
      → IsEmpty v

-- Some evacuation of a list has emptied the pod of the set that is last by its name.
pub data HasEmptied (m : PodMap) (origin : Workload) : List EvacuationStatus → Type 0 where
  here :
      {v : EvacuationStatus} {vs : List EvacuationStatus} {name : String} {p : Pod}
      → IsEmpty v
      → extract_pod_name v.node ≡ some name
      → IsLast m origin p
      → p.name ≡ name
      → HasEmptied m origin (v ∷ vs)
  there :
      {v : EvacuationStatus} {vs : List EvacuationStatus}
      → HasEmptied m origin vs
      → HasEmptied m origin (v ∷ vs)

-- Why the origin set may lose a replica.
pub data IsDue (s : BlueGreenStatus) (m : PodMap) (origin : Workload) : Type 0 where
  nothing_listed : s.evacuations_status ≡ none → IsDue s m origin
  emptied : HasEmptied m origin (evacuations s) → IsDue s m origin

passes :
    (b : Bool) (x : Option Bool)
    → (if not b then some false else x) ≡ some true
    → (b ≡ true) × (x ≡ some true)
passes true x h = (refl, h)
passes false x h = absurd (ground arith)

both_true : (a b : Bool) → (a && b) ≡ true → (a ≡ true) × (b ≡ true)
both_true true b h = (refl, h)
both_true false b h = absurd (ground arith)

is_evacuated-IsEmpty : (v : EvacuationStatus) → is_evacuated v ≡ some true → IsEmpty v
unfolding is_evacuated
is_evacuated-IsEmpty v h =
    let (c, has_c, h1) = >>=-eq-some v.stats.current_connected _ h in
    let (no_c, h2) = passes (c ==ℤ pos 0) _ h1 in
    let (n, has_n, h3) = >>=-eq-some v.stats.current_sessions _ h2 in
    let (no_n, state) = both_true (n ==ℤ pos 0) (str_eq v.state "prohibiting") (some-eq h3) in
    empty (has_c ∙ ap some ((==ℤ_iff c (pos 0)).0 no_c))
      (has_n ∙ ap some ((==ℤ_iff n (pos 0)).0 no_n)) state

any_evacuated-HasEmptied :
    (m : PodMap) (origin : Workload) (vs : List EvacuationStatus)
    → any_evacuated m origin vs ≡ some true
    → HasEmptied m origin vs
unfolding any_evacuated is_newest
any_evacuated-HasEmptied m origin [] h = absurd (ground arith)
any_evacuated-HasEmptied m origin (v ∷ vs) h =
    let (gone, is_gone, h1) = >>=-eq-some (is_evacuated v) _ h in
    by_gone (any_evacuated-HasEmptied m origin vs) gone is_gone h1
  where
    by_newest :
        (rest : any_evacuated m origin vs ≡ some true → HasEmptied m origin vs) (name : String)
        (newest : Bool)
        → IsEmpty v
        → extract_pod_name v.node ≡ some name
        → is_newest m origin name ≡ some newest
        → (if newest then some true else any_evacuated m origin vs) ≡ some true
        → HasEmptied m origin (v ∷ vs)
    by_newest rest name false is_empty named is h1 = there (rest h1)
    by_newest rest name true is_empty named is h1 =
        let (contained, h2) = passes _ _ is in
        let (p, first, h3) = >>=-eq-some (head? (newest_pods m origin)) _ h2 in
        here is_empty named (newest_pods-IsLast m origin p first)
          ((eq_iff p.name name).0 (some-eq h3))

    by_gone :
        (rest : any_evacuated m origin vs ≡ some true → HasEmptied m origin vs) (gone : Bool)
        → is_evacuated v ≡ some gone
        → (if not gone
            then any_evacuated m origin vs
            else (extract_pod_name v.node >>= λ name.
                (is_newest m origin name >>= λ newest.
                (if newest then some true else any_evacuated m origin vs))))
          ≡ some true
        → HasEmptied m origin (v ∷ vs)
    by_gone rest false is h1 = there (rest h1)
    by_gone rest true is h1 =
        let (name, named, h2) = >>=-eq-some (extract_pod_name v.node) _ h1 in
        let (newest, is_first, h3) = >>=-eq-some (is_newest m origin name) _ h2 in
        by_newest rest name newest (is_evacuated-IsEmpty v is) named is_first h3

pub can_be_scaled_down-IsDue :
    (s : BlueGreenStatus) (origin : Workload) (m : PodMap)
    → can_be_scaled_down s origin m ≡ some true
    → IsDue s m origin
unfolding can_be_scaled_down
can_be_scaled_down-IsDue s origin m h = elim (by_list _ s.evacuations_status h) [
  | inl e ↦ nothing_listed e
  | inr at ↦ emptied at
]
  where
    by_list :
        (b : Bool) (o : Option (List EvacuationStatus))
        → (if b && (elim o [ none ↦ true | some vs ↦ false ])
            then some true
            else any_evacuated m origin (elim o [ none ↦ [] | some vs ↦ vs ]))
          ≡ some true
        → (o ≡ none) ⊎ HasEmptied m origin (elim o [ none ↦ [] | some vs ↦ vs ])
    by_list b none h = inl refl
    by_list true (some vs) h = inr (any_evacuated-HasEmptied m origin vs h)
    by_list false (some vs) h = inr (any_evacuated-HasEmptied m origin vs h)
