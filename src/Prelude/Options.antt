-- ===== src/Prelude/Options.antt =====
-- Chains of fallible steps, read backwards from a result.
use mathlib.Core.Path.{◌≡◌, refl, ap, ◌∙◌}
use mathlib.Core.Option.{Option, none, some}
use mathlib.Core.Bool.{Bool, true, false}
use m99_riscv_emulator.Prelude.Tests.{◌>>=◌, ◌>>◌, assert}

-- A chain that succeeds has a first step that succeeds.
pub bind_some {ℓ κ} :
    {A : Type ℓ} {B : Type κ} (o : Option A) (f : A → Option B) {b : B}
    → (o >>= f) ≡ some b
    → (a : A) × (o ≡ some a) × (f a ≡ some b)
bind_some none f e = absurd cc
bind_some (some a) f e = (a, refl, e)

pub assert-some {ℓ} :
    {B : Type ℓ} (t : Bool) (o : Option B) {b : B}
    → (assert t >> o) ≡ some b
    → (t ≡ true) × (o ≡ some b)
assert-some true o e = (refl, e)
assert-some false o e = absurd cc

pub some_injective {ℓ} : {A : Type ℓ} {a b : A} → some a ≡ some b → a ≡ b
some_injective e = cc

-- A chain whose first step succeeds goes on from there.
pub bind_to {ℓ κ} :
    {A : Type ℓ} {B : Type κ} {o : Option A} {a : A} (f : A → Option B) {r : Option B}
    → o ≡ some a
    → f a ≡ r
    → (o >>= f) ≡ r
bind_to f e h = ap (λ o. o >>= f) e ∙ h
