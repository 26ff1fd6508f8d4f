-- ===== src/Base/Results.antt =====
-- What holds of every result that a chain of fallible steps ends with.
use mathlib.Core.Path.{◌≡◌, refl, subst}
use mathlib.Core.Bool.{Bool, true, false}
use mathlib.Core.Option.{Option, none, some}
use ix.Base.Tests.{if◌then◌else◌, ◌>>=◌}

abbrev pub AllSome {ℓ κ} : {A : Type ℓ} → (A → Type κ) → Option A → Type κ
AllSome P none = Unit
AllSome P (some a) = P a

module _ {ℓ κ} {A : Type ℓ} (P : A → Type κ) where
  pub AllSome-if :
      (b : Bool) (x y : Option A) → AllSome P x → AllSome P y → AllSome P (if b then x else y)
  AllSome-if true x y p q = p
  AllSome-if false x y p q = q

  pub of_AllSome : (o : Option A) (a : A) → AllSome P o → o ≡ some a → P a
  of_AllSome o a p e = subst (AllSome P) e p

pub AllSome-bind {ℓ κ μ ν} :
    {A : Type ℓ} {B : Type κ} (P : A → Type μ) (Q : B → Type ν) (o : Option A) (f : A → Option B)
    → AllSome P o
    → ((a : A) → P a → AllSome Q (f a))
    → AllSome Q (o >>= f)
AllSome-bind P Q none f p q = tt
AllSome-bind P Q (some a) f p q = q a p

pub AllSome-imp {ℓ κ μ} :
    {A : Type ℓ} (P : A → Type κ) (Q : A → Type μ) (o : Option A)
    → ((a : A) → P a → Q a)
    → AllSome P o
    → AllSome Q o
AllSome-imp P Q none f p = tt
AllSome-imp P Q (some a) f p = f a p

pub AllSome-any {ℓ} : {A : Type ℓ} (o : Option A) → AllSome {ℓ, 0} (λ a. Unit) o
AllSome-any none = tt
AllSome-any (some a) = tt

pub bind_cong {ℓ κ μ} :
    {A : Type ℓ} {B : Type κ} (P : A → Type μ) (o : Option A) (f g : A → Option B)
    → AllSome P o
    → ((a : A) → P a → f a ≡ g a)
    → (o >>= f) ≡ (o >>= g)
bind_cong P none f g p same = refl
bind_cong P (some a) f g p same = same a p
