-- ===== src/Errors.antt =====
-- internal/errors/errors.go. An error is its cause, which emperror.Wrap keeps: the sentinel errors
-- that the code tells apart, and all others by the constant part
-- of their text.
use emqx_operator.Prelude.{String, Bool, true, false, ◌||◌}

pub data Error : Type 0 where
  eof pod_not_ready sts_not_ready not_found conflict already_exists : Error
  other : String → Error

pub data Result {ℓ} (A : Type ℓ) : Type ℓ where
  ok : A → Result A
  err : Error → Result A

is_eof : Error → Bool
is_eof eof = true
is_eof _ = false

is_pod_not_ready : Error → Bool
is_pod_not_ready pod_not_ready = true
is_pod_not_ready _ = false

is_sts_not_ready : Error → Bool
is_sts_not_ready sts_not_ready = true
is_sts_not_ready _ = false

-- k8sErrors.IsNotFound, IsAlreadyExists and IsConflict.
abbrev pub is_not_found : Error → Bool
is_not_found not_found = true
is_not_found _ = false

abbrev pub is_already_exists : Error → Bool
is_already_exists already_exists = true
is_already_exists _ = false

abbrev is_conflict : Error → Bool
is_conflict conflict = true
is_conflict _ = false

unfoldable pub is_common_error : Error → Bool
unfolding is_eof is_pod_not_ready is_sts_not_ready
is_common_error e =
    is_eof e || is_pod_not_ready e || is_sts_not_ready e || is_not_found e || is_conflict e
