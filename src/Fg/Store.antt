-- ===== src/Fg/Store.antt =====
-- The functions that hold the groups and the cores, after a write at one index.
use ix.Base.{ℕ, ◌≡◌, refl, sym, ap, ◌∙◌, false, ◌==◌, Bool-cases, inl, inr, eq_of_==, ==-refl}
use ix.Fg.{update}

module _ {ℓ κ} {A : Type ℓ} {B : Type κ} where
  -- What a write leaves as it was at its index is as it was at every index.
  pub update-keeps :
      (P : A → B) (i j : ℕ) (a : A) (f : ℕ → A) → P a ≡ P (f i) → P (update i a f j) ≡ P (f j)
  update-keeps P i j a f h = elim (Bool-cases (j == i)) [
    | inl e ↦ rw e (h ∙ ap (λ x. P (f x)) (sym (eq_of_== j i e)))
    | inr e ↦ rw e refl
  ]

pub update_self {ℓ} : {A : Type ℓ} (i : ℕ) (a : A) (f : ℕ → A) → update i a f i ≡ a
update_self i a f = rw (==-refl i) refl

pub update_ne {ℓ} :
    {A : Type ℓ} (i j : ℕ) (a : A) (f : ℕ → A) → (j == i) ≡ false → update i a f j ≡ f j
update_ne i j a f e = rw e refl

-- a write at one index, and then a change at another
pub two_writes {ℓ} :
    {A : Type ℓ} (i j : ℕ) (a : A) (F : A → A) (f : ℕ → A)
    → (i == j) ≡ false
    → (j == i) ≡ false
    → (update j (F (update i a f j)) (update i a f) j ≡ F (f j))
      × (update j (F (update i a f j)) (update i a f) i ≡ a)
two_writes i j a F f e e' = (
  update_self j (F (update i a f j)) (update i a f) ∙ ap F (update_ne i j a f e'),
  update_ne j i (F (update i a f j)) (update i a f) e ∙ update_self i a f,
)
