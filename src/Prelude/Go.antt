-- ===== src/Prelude/Go.antt =====
-- What Go programs share. A computation that may panic: `none` is a nil dereference or an index out of range.
use Prim.Native.String.{String}
use Prim.Native.String.{◌++◌ as append_str}
use mathlib.Core.Path.{◌≡◌, refl}
use mathlib.Core.Option.{Option, none, some}

infixl 5 ◌>>=◌
abbrev pub ◌>>=◌ {ℓ κ} : {A : Type ℓ} {B : Type κ} → Option A → (A → Option B) → Option B
none >>= f = none
some a >>= f = f a

pub >>=-eq-some {ℓ κ} :
    {A : Type ℓ} {B : Type κ} (m : Option A) (f : A → Option B) {b : B}
    → (m >>= f) ≡ some b
    → (a : A) × (m ≡ some a) × (f a ≡ some b)
>>=-eq-some (some a) f h = (a, refl, h)
>>=-eq-some none f h = cc

pub some-eq {ℓ} : {A : Type ℓ} {a b : A} → some a ≡ some b → a ≡ b
some-eq h = cc

-- Strings one after the other, as in fmt.Sprintf.
infixr 65 ◌+++◌
abbrev pub ◌+++◌ : String → String → String
a +++ b = append_str a b
