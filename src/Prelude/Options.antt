-- ===== src/Prelude/Options.antt =====
-- Options in sequence.
use mathlib.Core.Path.{◌≡◌, refl}
use mathlib.Core.Logic.{◌≢◌}
use mathlib.Core.Option.{Option, none, some}

infixl 5 ◌>>=◌
abbrev pub ◌>>=◌ {ℓ κ} : {A : Type ℓ} {B : Type κ} → Option A → (A → Option B) → Option B
none >>= f = none
some a >>= f = f a

pub bind_assoc {ℓ κ μ} :
    {A : Type ℓ} {B : Type κ} {C : Type μ} (o : Option A) (f : A → Option B) (g : B → Option C)
    → ((o >>= f) >>= g) ≡ (o >>= (λ a. f a >>= g))
bind_assoc none f g = refl
bind_assoc (some a) f g = refl

pub none-some {ℓ} : {A : Type ℓ} {a : A} → none ≢ some a
none-some h = cc

-- A chain with a result has a first result.
pub bind-some {ℓ κ} :
    {A : Type ℓ} {B : Type κ} (o : Option A) (f : A → Option B) (b : B)
    → (o >>= f) ≡ some b
    → (a : A) × (o ≡ some a) × (f a ≡ some b)
bind-some (some a) f b h = (a, refl, h)
bind-some none f b h = absurd (none-some h)
