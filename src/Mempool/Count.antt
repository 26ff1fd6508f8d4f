-- ===== src/Mempool/Count.antt =====
-- No element of a pool is lost, and none is given out twice.
use ix.Base.{
  ℕ, ◌+◌, ◌≤◌, ◌≡◌, refl, Option, none, some, List, [], ◌∷◌, arith, ◌==◌, if◌then◌else◌, AllSome,
  AllSome-if, of_AllSome, ==-refl, ap,
}
use mathlib.Core.Path.{subst}
use ix.Mempool.{
  Chunk, Mempool, chunk_of, int_lt, mempool_alloc, mempool_alloc_2, give_back, mempool_free,
  mempool_free_2,
}

-- how often an element is free
abbrev pub one_if : ℕ → ℕ → ℕ
one_if y x = if y == x then 1 else 0

abbrev count_list : ℕ → List ℕ → ℕ
count_list y [] = 0
count_list y (x ∷ xs) = one_if y x + count_list y xs

abbrev count_chunk : ℕ → Option Chunk → ℕ
count_chunk y none = 0
count_chunk y (some c) = one_if y c.first + count_list y c.rest

abbrev count_chunks : ℕ → List Chunk → ℕ
count_chunks y [] = 0
count_chunks y (c ∷ cs) = count_chunk y (some c) + count_chunks y cs

abbrev pub count_free : ℕ → Mempool → ℕ
count_free y m = count_list y m.head + count_chunk y m.private_chunk + count_chunks y m.chunks

-- what an allocation may come to
abbrev Allocated : Mempool → Option ℕ × Mempool → Type 0
Allocated m (none, m') = (y : ℕ) → (count_free y m ≡ 0) × (count_free y m' ≡ 0)
Allocated m (some x, m') = (y : ℕ) → count_free y m ≡ count_free y m' + one_if y x

-- `mempool_alloc` gives an element that was free, which is then free once less, as no other is; or
-- it gives null, and then no element is free, in the pool or in the datastore.
mempool_alloc_lem : (m : Mempool) → Allocated m (mempool_alloc m)
unfolding mempool_alloc mempool_alloc_2
mempool_alloc_lem m = go m.head refl m.private_chunk refl m.chunks refl
  where
    go :
        (h : List ℕ)
        → m.head ≡ h
        → (p : Option Chunk) → m.private_chunk ≡ p
        → (cs : List Chunk) → m.chunks ≡ cs
        → Allocated m (mempool_alloc m)
    go (x ∷ xs) eh p ep cs ec = rw eh (λ y. omega arith)
    go [] eh (some c) ep cs ec = rw (eh, ep) (λ y. omega arith)
    go [] eh none ep [] ec =
        rw (eh, ep, ec)
          (λ y. (omega arith, omega (arith, ap (count_chunk y) ep, ap (count_chunks y) ec)))
    go [] eh none ep (c ∷ cs) ec = rw (eh, ep, ec) (λ y. omega (arith, ap (count_chunk y) ep))

count_chunk_of : (y : ℕ) (xs : List ℕ) → count_chunk y (chunk_of xs) ≡ count_list y xs
count_chunk_of y [] = refl
count_chunk_of y (x ∷ xs) = refl

count-give_back :
    (y : ℕ) (m : Mempool)
    → (count_chunks y (give_back m).chunks
        ≡ count_chunks y m.chunks + count_chunk y m.private_chunk)
      × ((give_back m).head ≡ m.head)
unfolding give_back
count-give_back y m = go m.private_chunk refl
  where
    go :
        (p : Option Chunk)
        → m.private_chunk ≡ p
        → (count_chunks y (give_back m).chunks
            ≡ count_chunks y m.chunks + count_chunk y m.private_chunk)
          × ((give_back m).head ≡ m.head)
    go none e = rw e (omega arith, refl)
    go (some c) e = rw e (omega arith, refl)

Freed : ℕ → Mempool → Mempool → Type 0
Freed ptr m m' = (y : ℕ) → count_free y m' ≡ count_free y m + one_if y ptr

mempool_free_2-Freed : (ptr : ℕ) (m : Mempool) → AllSome (Freed ptr m) (mempool_free_2 ptr m)
unfolding mempool_free_2 Freed
mempool_free_2-Freed ptr m =
    AllSome-if (Freed ptr m) (m.num_free == m.chunk_size) _ none
      (λ y. omega (arith, count-give_back y m, count_chunk_of y m.head)) tt

-- Where `mempool_free` meets no failed assertion, the element is free once more than before, and no
-- other is more or less often, whether it goes to the list, or the pool hands a chunk back first.
pub mempool_free_lem :
    (ptr : ℕ) (m m' : Mempool)
    → mempool_free ptr m ≡ some m'
    → (y : ℕ) → count_free y m' ≡ count_free y m + one_if y ptr
unfolding mempool_free Freed
mempool_free_lem ptr m m' done =
    of_AllSome (Freed ptr m) _ m'
      (AllSome-if (Freed ptr m) (int_lt m.num_free m.chunk_size) _ (mempool_free_2 ptr m)
        (λ y. omega arith) (mempool_free_2-Freed ptr m))
      done

-- Every element of the pool is free at most once.
abbrev pub IsPool : Mempool → Type 0
IsPool m = (y : ℕ) → count_free y m ≤ 1

-- Where every element is free at most once, what `mempool_alloc` gives is free no more, and
-- everything is again free at most once; until it is freed no other allocation gives it.
pub mempool_alloc-IsPool :
    (m m' : Mempool) (x : ℕ)
    → IsPool m
    → mempool_alloc m ≡ (some x, m')
    → (count_free x m ≡ 1) × (count_free x m' ≡ 0) × IsPool m'
mempool_alloc-IsPool m m' x i done =
    let given = subst (Allocated m) done (mempool_alloc_lem m) in
    let same : one_if x x ≡ 1 = rw ==-refl refl in
    (
      omega (arith, given x, i x, same),
      omega (arith, given x, i x, same),
      λ y. omega (arith, given y, i y),
    )
