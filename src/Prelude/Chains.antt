-- ===== src/Prelude/Chains.antt =====
-- Rules for what holds of the result of a chain of steps that may fail.
use mathlib.Core.Path.{◌≡◌, refl, subst}
use mathlib.Core.Bool.{Bool, true, false}
use mathlib.Core.Option.{Option, none, some}
use network_programming_c.Prelude.Tests.{◌>>=◌, if◌then◌else◌}

-- The result satisfies `P`, unless there is none.
abbrev pub Ensures {ℓ} : {A : Type ℓ} → (A → Type 0) → Option A → Type 0
Ensures P none = Unit
Ensures P (some a) = P a

pub bind-Ensures {ℓ κ} :
    {A : Type ℓ} {B : Type κ} (P : B → Type 0) (m : Option A) (f : A → Option B)
    → ((a : A) → m ≡ some a → Ensures P (f a))
    → Ensures P (m >>= f)
bind-Ensures P none f h = tt
bind-Ensures P (some a) f h = h a refl

pub if-Ensures {ℓ} :
    {A : Type ℓ} (P : A → Type 0) (b : Bool) (x y : Option A)
    → (b ≡ true → Ensures P x)
    → (b ≡ false → Ensures P y)
    → Ensures P (if b then x else y)
if-Ensures P true x y h k = h refl
if-Ensures P false x y h k = k refl

pub Ensures-some {ℓ} :
    {A : Type ℓ} (P : A → Type 0) (m : Option A) (a : A) → Ensures P m → m ≡ some a → P a
Ensures-some P m a e p = subst (Ensures P) p e

-- Both branches satisfy `P`.
pub if-holds {ℓ} :
    {A : Type ℓ} (P : A → Type 0) (b : Bool) (x y : A) → P x → P y → P (if b then x else y)
if-holds P true x y h k = h
if-holds P false x y h k = k

pub Ensures-weaken {ℓ} :
    {A : Type ℓ} (P Q : A → Type 0) (m : Option A)
    → ((a : A) → P a → Q a)
    → Ensures P m
    → Ensures Q m
Ensures-weaken P Q none f h = tt
Ensures-weaken P Q (some a) f h = f a h

-- There is a result, and it satisfies `P`.
abbrev pub Yields {ℓ} : {A : Type ℓ} → (A → Type 0) → Option A → Type 0
Yields P none = ⊥
Yields P (some a) = P a

pub bind-Yields {ℓ κ} :
    {A : Type ℓ} {B : Type κ} (P : A → Type 0) (Q : B → Type 0) (m : Option A) (f : A → Option B)
    → Yields P m
    → ((a : A) → P a → Yields Q (f a))
    → Yields Q (m >>= f)
bind-Yields P Q none f y h = absurd y
bind-Yields P Q (some a) f y h = h a y

pub Yields-weaken {ℓ} :
    {A : Type ℓ} (P Q : A → Type 0) (m : Option A) → ((a : A) → P a → Q a) → Yields P m → Yields Q m
Yields-weaken P Q none h y = y
Yields-weaken P Q (some a) h y = h a y

pub Yields-result {ℓ} :
    {A : Type ℓ} (P : A → Type 0) (m : Option A) → Yields P m → (a : A) × (m ≡ some a) × P a
Yields-result P none y = absurd y
Yields-result P (some a) y = (a, refl, y)
