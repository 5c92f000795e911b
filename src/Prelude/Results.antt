-- ===== src/Prelude/Results.antt =====
-- What a Go call comes to: a value, an error value, or a run-time panic.
use Prim.Native.Nat.{ℕ, ◌-◌}
use mathlib.Core.Bool.{◌&&◌}
use mathlib.Core.Option.{Option, none, some}
use mathlib.Core.List.{List}
use unity_gaming_services_go.Prelude.Tests.{leb, if◌then◌else◌}
use unity_gaming_services_go.Prelude.Lists.{length, take, drop, get_elem?}

pub data Outcome {ℓ κ} (E : Type ℓ) (A : Type κ) : Type (ℓ ⊔ κ) where
  ok : A → Outcome E A
  err : E → Outcome E A
  panic : Outcome E A

infixl 5 ◌>>=◌ ◌>>◌
abbrev pub ◌>>=◌ {ℓ κ ι} :
    {E : Type ℓ} {A : Type κ} {B : Type ι} → Outcome E A → (A → Outcome E B) → Outcome E B
ok a >>= f = f a
err e >>= f = err e
panic >>= f = panic

abbrev pub ◌>>◌ {ℓ κ} : {E : Type ℓ} {B : Type κ} → Outcome E (Unit {0}) → Outcome E B → Outcome E B
m >> k = m >>= λ _. k

abbrev pub or_panic {ℓ κ} : {E : Type ℓ} {A : Type κ} → Option A → Outcome E A
or_panic none = panic
or_panic (some a) = ok a

-- `xs[lo:hi]` on a slice whose capacity is its length.
abbrev pub subslice {ℓ κ} : {E : Type ℓ} {A : Type κ} → List A → ℕ → ℕ → Outcome E (List A)
subslice xs lo hi =
    if leb lo hi && leb hi (length xs) then ok (take (hi - lo) (drop lo xs)) else panic

-- `xs[i]`.
abbrev pub index {ℓ κ} : {E : Type ℓ} {A : Type κ} → List A → ℕ → Outcome E A
index xs i = or_panic (get_elem? xs i)
