-- ===== src/Blk/Device/Copy.antt =====
-- What copies do to the bytes of the device.
use mathlib.Core.Path.{fun_ext}
use ix.Base.{
  ℕ, zero, suc, ◌+◌, ◌-◌, ◌*◌, ◌≤◌, ◌<◌, ◌≡◌, true, none, some, List, [], ◌∷◌, ◌++◌, arith, leb,
  in_range, length, get_or, get_or-append, Bool-cases, inl, inr, length-append, concat, ap, ◌∙◌,
  sym, drop, drop-all, some_inj, not_some, drop-get_or,
}
use ix.Blk.{lba_size, storage_size}
use ix.Blk.Device.{Device, poke, peek, copy_in, writev_from, dummy_dev_writev}

poke-poke :
    (dev : Device) (at : ℕ) (xs ys : List ℕ)
    → poke (poke dev at xs) (at + length xs) ys ≡ poke dev at (xs ++ ys)
poke-poke dev at xs ys =
    fun_ext (λ a. ground (arith, length-append xs ys, get_or-append xs ys (a - at) 0, split a))
  where
    split : (a : ℕ) → a - (at + length xs) ≡ a - at - length xs
    split a = omega arith

-- Where the entries fit both the device and the blocks given, `dummy_dev_writev` writes them one
-- behind the other, from its block on.
writev_from-poke :
    (lba n : ℕ) (ents : List (List ℕ)) (k : ℕ) (dev : Device)
    → lba * lba_size + k + length (concat ents) ≤ storage_size
    → k + length (concat ents) ≤ n * lba_size
    → writev_from lba n ents k dev ≡ some (poke dev (lba * lba_size + k) (concat ents))
unfolding writev_from copy_in
writev_from-poke lba n [] k dev fits room = ap some (fun_ext (λ a. ground arith))
writev_from-poke lba n (e ∷ ents) k dev fits room =
    let base = lba * lba_size + k in
    let whole = length-append e (concat ents) in
    let dev' = poke dev base e in
    let copied : leb (base + length e) storage_size ≡ true = ground arith in
    let roomy : leb (k + length e) (n * lba_size) ≡ true = ground arith in
    rw (copied, roomy)
      (writev_from-poke lba n ents (k + length e) dev' (omega arith) (omega arith)
        ∙ ap (λ at. some (poke dev' at (concat ents))) (omega arith)
        ∙ ap some (poke-poke dev base e (concat ents)))

-- Where the entries do not fit the blocks given, the assertion of `dummy_dev_writev` fails.
writev_from-too_long :
    (lba n : ℕ) (ents : List (List ℕ)) (k : ℕ) (dev : Device)
    → k ≤ n * lba_size
    → n * lba_size < k + length (concat ents)
    → writev_from lba n ents k dev ≡ none
unfolding writev_from copy_in
writev_from-too_long lba n [] k dev so_far over = absurd (omega arith)
writev_from-too_long lba n (e ∷ ents) k dev so_far over =
    let whole = length-append e (concat ents) in
    let dev' = poke dev (lba * lba_size + k) e in
    elim (Bool-cases (leb (lba * lba_size + k + length e) storage_size)) [
      | inr outside ↦ rw outside
      | inl inside ↦ elim (Bool-cases (leb (k + length e) (n * lba_size))) [
        | inr more ↦ rw (inside, more)
        | inl less ↦
            rw (inside, less)
              (writev_from-too_long lba n ents (k + length e) dev' (ground arith) (omega arith))
      ]
    ]

pub dummy_dev_writev-poke :
    (lba n : ℕ) (ents : List (List ℕ)) (dev : Device)
    → lba * lba_size + length (concat ents) ≤ storage_size
    → length (concat ents) ≤ n * lba_size
    → dummy_dev_writev ents lba n dev ≡ some (poke dev (lba * lba_size) (concat ents))
unfolding dummy_dev_writev
dummy_dev_writev-poke lba n ents dev fits room =
    writev_from-poke lba n ents 0 dev (omega arith) (omega arith)
    ∙ ap (λ at. some (poke dev at (concat ents))) (omega arith)

pub dummy_dev_writev-too_long :
    (lba n : ℕ) (ents : List (List ℕ)) (dev : Device)
    → n * lba_size < length (concat ents)
    → dummy_dev_writev ents lba n dev ≡ none
unfolding dummy_dev_writev
dummy_dev_writev-too_long lba n ents dev over =
    writev_from-too_long lba n ents 0 dev (omega arith) (omega arith)

-- A read of bytes that were just written.
pub peek-poke :
    (dev : Device) (at k n : ℕ) (xs : List ℕ)
    → n + k ≡ length xs
    → peek (poke dev at xs) (at + k) n ≡ drop k xs
peek-poke dev at k zero xs e = sym (drop-all xs k (omega arith))
peek-poke dev at k (suc n) xs e =
    let next : at + k + 1 ≡ at + suc k = omega arith in
    let inside : in_range at (length xs) (at + k) ≡ true = ground arith in
    let place : at + k - at ≡ k = omega arith in
    rw (next, inside, place, drop-get_or xs k 0 (omega arith))
      (ap (λ l. get_or xs k 0 ∷ l) (peek-poke dev at (suc k) n xs (omega arith)))

writev_from-eq_some :
    (lba n : ℕ) (ents : List (List ℕ)) (k : ℕ) (dev dev' : Device)
    → writev_from lba n ents k dev ≡ some dev'
    → dev' ≡ poke dev (lba * lba_size + k) (concat ents)
unfolding writev_from copy_in
writev_from-eq_some lba n [] k dev dev' done = some_inj (sym done) ∙ fun_ext (λ a. ground arith)
writev_from-eq_some lba n (e ∷ ents) k dev dev' done =
    let base = lba * lba_size + k in
    elim (Bool-cases (leb (base + length e) storage_size)) [
      | inr outside ↦ not_some (rw outside at done)
      | inl inside ↦ elim (Bool-cases (leb (k + length e) (n * lba_size))) [
        | inr more ↦ not_some (rw (inside, more) at done)
        | inl less ↦
            let later = rw (inside, less) at done in
            writev_from-eq_some lba n ents (k + length e) (poke dev base e) dev' later
            ∙ ap (λ at. poke (poke dev base e) at (concat ents)) (omega arith)
            ∙ poke-poke dev base e (concat ents)
      ]
    ]

-- What a `dummy_dev_writev` that ends has written.
pub dummy_dev_writev-eq_some :
    (lba n : ℕ) (ents : List (List ℕ)) (dev dev' : Device)
    → dummy_dev_writev ents lba n dev ≡ some dev'
    → dev' ≡ poke dev (lba * lba_size) (concat ents)
unfolding dummy_dev_writev
dummy_dev_writev-eq_some lba n ents dev dev' done =
    writev_from-eq_some lba n ents 0 dev dev' done
    ∙ ap (λ at. poke dev at (concat ents)) (omega arith)
