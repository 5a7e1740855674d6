-- ===== src/Base/Fault.antt =====
-- A computation that may fault: `none` is an access outside the memory that it may touch, or a
-- lock that it waits for forever.
use mathlib.Core.Path.{◌≡◌, refl, subst}
use mathlib.Core.Option.{Option, none, some}

infixl 5 ◌>>=◌
abbrev pub ◌>>=◌ {ℓ κ} : {A : Type ℓ} {B : Type κ} → Option A → (A → Option B) → Option B
none >>= f = none
some a >>= f = f a

-- It runs to its end, with a result that has the property.
abbrev pub Runs {ℓ} : {A : Type ℓ} → (A → Type 0) → Option A → Type 0
Runs P none = ⊥
Runs P (some a) = P a

module _ {ℓ} {A : Type ℓ} where
  pub Runs-bind {κ} :
      {B : Type κ} (P : A → Type 0) (Q : B → Type 0) (m : Option A) (f : A → Option B)
      → Runs P m
      → ((a : A) → P a → Runs Q (f a))
      → Runs Q (m >>= f)
  Runs-bind P Q none f h k = absurd h
  Runs-bind P Q (some a) f h k = k a h

  pub Runs-mono : (P Q : A → Type 0) (m : Option A) → Runs P m → ((a : A) → P a → Q a) → Runs Q m
  Runs-mono P Q none h k = absurd h
  Runs-mono P Q (some a) h k = k a h

  pub Runs-some : (P : A → Type 0) (m : Option A) → Runs P m → (a : A) × (m ≡ some a) × P a
  Runs-some P none h = absurd h
  Runs-some P (some a) h = (a, refl, h)

  pub Runs-and : (P Q : A → Type 0) (m : Option A) → Runs P m → Runs Q m → Runs (λ a. P a × Q a) m
  Runs-and P Q none h g = absurd h
  Runs-and P Q (some a) h g = (h, g)

  -- what holds of the result, once the result is known
  pub Runs-eq : (P : A → Type 0) (m : Option A) (a : A) → Runs P m → m ≡ some a → P a
  Runs-eq P m a h e = subst (λ (x : Option A). Runs P x) e h

-- Whenever it runs to its end, its result has the property.
abbrev pub Whenever {ℓ} : {A : Type ℓ} → (A → Type 0) → Option A → Type 0
Whenever P none = Unit
Whenever P (some a) = P a

module _ {ℓ} {A : Type ℓ} where
  pub Whenever-bind {κ} :
      {B : Type κ} (P : A → Type 0) (Q : B → Type 0) (m : Option A) (f : A → Option B)
      → Whenever P m
      → ((a : A) → P a → Whenever Q (f a))
      → Whenever Q (m >>= f)
  Whenever-bind P Q none f h k = tt
  Whenever-bind P Q (some a) f h k = k a h

  pub Whenever-any : (m : Option A) → Whenever (λ _. Unit {0}) m
  Whenever-any none = tt
  Whenever-any (some a) = tt

  pub Whenever-eq : (P : A → Type 0) (m : Option A) (a : A) → Whenever P m → m ≡ some a → P a
  Whenever-eq P m a h e = subst (λ (x : Option A). Whenever P x) e h

pub Runs-Whenever {ℓ} :
    {A : Type ℓ} (P Q : A → Type 0) (m : Option A)
    → Runs P m
    → Whenever Q m
    → Runs (λ a. P a × Q a) m
Runs-Whenever P Q none h g = absurd h
Runs-Whenever P Q (some a) h g = (h, g)

pub Whenever-self : {A : Type 0} (m : Option A) → Whenever (λ a. m ≡ some a) m
Whenever-self none = tt
Whenever-self (some a) = refl

pub bind_assoc {ℓ κ μ} :
    {A : Type ℓ} {B : Type κ} {C : Type μ} (m : Option A) (f : A → Option B) (g : B → Option C)
    → ((m >>= f) >>= g) ≡ (m >>= λ a. f a >>= g)
bind_assoc none f g = refl
bind_assoc (some a) f g = refl

pub bind_cong {ℓ κ} :
    {A : Type ℓ} {B : Type κ} (m : Option A) (f g : A → Option B)
    → ((a : A) → f a ≡ g a)
    → (m >>= f) ≡ (m >>= g)
bind_cong none f g h = refl
bind_cong (some a) f g h = h a

pub bind_some {ℓ} : {A : Type ℓ} (m : Option A) → (m >>= some) ≡ m
bind_some none = refl
bind_some (some a) = refl

-- a result of two steps comes from a result of the first
pub bind-eq_some {ℓ κ} :
    {A : Type ℓ} {B : Type κ} (m : Option A) (f : A → Option B) {b : B}
    → (m >>= f) ≡ some b
    → (a : A) × (m ≡ some a) × (f a ≡ some b)
bind-eq_some none f e = cc
bind-eq_some (some a) f e = (a, refl, e)
