-- ===== src/Blk/FreeList/Alloc.antt =====
-- `alloc_block`, which marks given blocks as used while the index is built.
use ix.Base.{
  ℕ, ◌+◌, ◌-◌, ◌≤◌, ◌<◌, ◌≡◌, refl, true, false, ◌&&◌, not, some, List, [], ◌∷◌, arith, in_range,
  Bool-cases, inl, inr,
}
use ix.Blk.FreeList.{Extent, alloc_block, alloc_at, holds}
use ix.Blk.FreeList.Inv.{
  is_free, IsSortedFrom, IsValid, IsSortedFrom-mono, is_free-below, put, put-IsSortedFrom,
  is_free-put,
}

-- `l'` is the list `l` less the `n` blocks from `lba` on.
pub record Marked (lo lba n : ℕ) (l l' : List Extent) : Type 0 where
  pub sorted : IsSortedFrom lo l'
  pub now_free : (b : ℕ) → is_free l' b ≡ (is_free l b && not (in_range lba n b))

abbrev AllFree : ℕ → ℕ → List Extent → Type 0
AllFree lba n l = (b : ℕ) → in_range lba n b ≡ true → is_free l b ≡ true

module _ (lo lba n : ℕ) (e : Extent) (rest : List Extent) where
  -- Blocks of a valid list that are free and lie in a row lie in one entry.
  in_one_entry :
      0 < n
      → IsSortedFrom lo (e ∷ rest)
      → AllFree lba n (e ∷ rest)
      → holds e lba ≡ true
      → (e.start_lba ≤ lba) × (lba + n ≤ e.start_lba + e.lba_count)
  in_one_entry pos s free h =
      let end = e.start_lba + e.lba_count in
      ground (arith, free end, is_free-below (end + 1) end rest s.3)

  -- the list with the blocks cut out of its first entry
  cut : List Extent
  cut =
      put e.start_lba (lba - e.start_lba)
        (put (lba + n) (e.start_lba + e.lba_count - (lba + n)) rest)

  alloc_at-cut :
      0 < n
      → IsSortedFrom lo (e ∷ rest)
      → e.start_lba ≤ lba
      → lba + n ≤ e.start_lba + e.lba_count
      → alloc_at lba n e rest ≡ some cut
  unfolding alloc_at cut
  alloc_at-cut pos s from to = ground arith

  cut-Marked :
      0 < n
      → IsSortedFrom lo (e ∷ rest)
      → e.start_lba ≤ lba
      → lba + n ≤ e.start_lba + e.lba_count
      → Marked lo lba n (e ∷ rest) cut
  unfolding cut
  cut-Marked pos s from to =
      let end = e.start_lba + e.lba_count in
      let tail = put (lba + n) (end - (lba + n)) rest in
      record {
        sorted = put-IsSortedFrom lo _ _ tail s.0 (omega arith) (
            put-IsSortedFrom _ _ _ rest (omega arith) (omega arith)
              (IsSortedFrom-mono (end + 1) _ rest (omega arith) s.3));
        now_free = λ b. ground (
          arith,
          is_free-put e.start_lba (lba - e.start_lba) tail b,
          is_free-put (lba + n) (end - (lba + n)) rest b,
          is_free-below (end + 1) b rest s.3,
        );
      }

  alloc_at-Marked :
      0 < n
      → IsSortedFrom lo (e ∷ rest)
      → (e.start_lba ≤ lba) × (lba + n ≤ e.start_lba + e.lba_count)
      → (l' : List Extent) × (alloc_at lba n e rest ≡ some l') × Marked lo lba n (e ∷ rest) l'
  alloc_at-Marked pos s (from, to) = (cut, alloc_at-cut pos s from to, cut-Marked pos s from to)

  -- where the first entry does not hold `lba`, it holds none of the blocks
  skips :
      0 < n
      → IsSortedFrom lo (e ∷ rest)
      → AllFree lba n (e ∷ rest)
      → holds e lba ≡ false
      → AllFree lba n rest
  skips pos s free h b i =
      let end = e.start_lba + e.lba_count in
      ground (arith, free b, free lba, is_free-below (end + 1) lba rest s.3)

  Marked-later :
      (l : List Extent)
      → IsSortedFrom lo (e ∷ rest)
      → AllFree lba n rest
      → 0 < n
      → Marked (e.start_lba + e.lba_count + 1) lba n rest l
      → Marked lo lba n (e ∷ rest) (e ∷ l)
  Marked-later l s free pos m = record {
    sorted = (s.0, s.1, s.2, m.sorted);
    now_free = λ b.
        ground
          (arith, m.now_free b, free b, is_free-below (e.start_lba + e.lba_count + 1) b rest s.3);
  }

alloc_block-Marked :
    (lo lba n : ℕ) (l : List Extent)
    → 0 < n
    → IsSortedFrom lo l
    → AllFree lba n l
    → (l' : List Extent) × (alloc_block lba n l ≡ some l') × Marked lo lba n l l'
unfolding alloc_block
alloc_block-Marked lo lba n [] pos s free = absurd (ground (arith, free lba))
alloc_block-Marked lo lba n (e ∷ []) pos s free = elim (Bool-cases (holds e lba)) [
  | inl here ↦ alloc_at-Marked lo lba n e [] pos s (in_one_entry lo lba n e [] pos s free here)
  | inr past ↦ absurd (ground (arith, skips lo lba n e [] pos s free past lba))
]
alloc_block-Marked lo lba n (e ∷ e' ∷ rest) pos s free = elim (Bool-cases (holds e lba)) [
  | inl here ↦ rw here (
      alloc_at-Marked lo lba n e (e' ∷ rest) pos s
        (in_one_entry lo lba n e (e' ∷ rest) pos s free here))
  | inr past ↦
      let free' = skips lo lba n e (e' ∷ rest) pos s free past in
      let (l, done, m) =
        alloc_block-Marked (e.start_lba + e.lba_count + 1) lba n (e' ∷ rest) pos s.3 free' in
      rw (past, done) (e ∷ l, refl, Marked-later lo lba n e (e' ∷ rest) l s free' pos m)
]

-- On a valid free list, `alloc_block` of at least one block, all free, meets no failed assertion
-- and leaves a valid list in which exactly these blocks are no longer free.
pub alloc_block_lem :
    (lba n : ℕ) (l : List Extent)
    → 0 < n
    → IsValid l
    → AllFree lba n l
    → (l' : List Extent) × (alloc_block lba n l ≡ some l') × Marked 0 lba n l l'
alloc_block_lem = alloc_block-Marked 0
