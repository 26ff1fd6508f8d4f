-- ===== src/Blk/FreeList/Free.antt =====
-- `free_blk`: it gives blocks back, and keeps touching entries together.
use ix.Base.{
  ℕ, ◌+◌, ◌^◌, ◌≤◌, ◌<◌, ◌≡◌, refl, true, false, ◌||◌, none, some, List, [], ◌∷◌, arith, in_range,
  ltb, Bool-cases, inl, inr, ◌==◌, add32,
}
use native.Mathlib.Nat.{le_refl}
use ix.Blk.{max_lba_num}
use ix.Blk.FreeList.{
  Extent, free_blk, free_front, free_after, free_between, free_finish, coalesce_blks,
  coalesce_entries, end32,
}
use ix.Blk.FreeList.Inv.{is_free, IsSortedFrom, IsValid, IsSortedFrom-mono}

-- where the last entry starts
abbrev pub last_start : List Extent → ℕ
last_start [] = 0
last_start (e ∷ []) = e.start_lba
last_start (e ∷ e' ∷ rest) = last_start (e' ∷ rest)

last_start-ge :
    (lo : ℕ) (e : Extent) (rest : List Extent)
    → IsSortedFrom lo (e ∷ rest)
    → e.start_lba ≤ last_start (e ∷ rest)
last_start-ge lo e [] s = omega arith
last_start-ge lo e (e' ∷ rest) s =
    omega (arith, last_start-ge (e.start_lba + e.lba_count + 1) e' rest s.3)

last_start-lt : (lo : ℕ) (l : List Extent) → IsSortedFrom lo l → last_start l < max_lba_num
last_start-lt lo [] s = omega arith
last_start-lt lo (e ∷ []) s = omega arith
last_start-lt lo (e ∷ e' ∷ rest) s = last_start-lt (e.start_lba + e.lba_count + 1) (e' ∷ rest) s.3

-- `l'` is the list `l` with the `n` blocks from `lba` on given back.
pub record Freed (lo lba n : ℕ) (l l' : List Extent) : Type 0 where
  pub sorted : IsSortedFrom lo l'
  pub now_free : (b : ℕ) → is_free l' b ≡ (is_free l b || in_range lba n b)

abbrev pub AllUsed : ℕ → ℕ → List Extent → Type 0
AllUsed lba n l = (b : ℕ) → in_range lba n b ≡ true → is_free l b ≡ false

abbrev extent : ℕ → ℕ → Extent
extent start count = record { start_lba = start; lba_count = count }

module _ (lba n : ℕ) (e : Extent) (small : e.lba_count + n < 2 ^ 32) where
  coalesce_blks-before : lba < e.start_lba → coalesce_blks lba n e ≡ extent lba (e.lba_count + n)
  unfolding coalesce_blks
  coalesce_blks-before h = ground arith

  coalesce_blks-behind :
      e.start_lba ≤ lba → coalesce_blks lba n e ≡ extent e.start_lba (e.lba_count + n)
  unfolding coalesce_blks
  coalesce_blks-behind h = ground arith

-- the blocks end before the entry behind them
room :
    (lba n : ℕ) (iter : Extent) (rest : List Extent)
    → lba < iter.start_lba
    → 0 < iter.lba_count
    → AllUsed lba n (iter ∷ rest)
    → lba + n ≤ iter.start_lba
room lba n iter rest before full used = ground (arith, used iter.start_lba)

module _ (lo lba n : ℕ) (iter : Extent) (rest : List Extent) where
  free_front-Freed :
      0 < n
      → lo ≤ lba
      → lba < iter.start_lba
      → IsSortedFrom lo (iter ∷ rest)
      → AllUsed lba n (iter ∷ rest)
      → Freed lo lba n (iter ∷ rest) (free_front lba n iter rest)
  unfolding free_front
  free_front-Freed pos from before s used =
      let fits = room lba n iter rest before s.1 used in
      elim (Bool-cases (add32 lba n == iter.start_lba)) [
        | inl touch ↦
            rw (touch, coalesce_blks-before lba n iter (ground arith) before)
              (record {
                sorted = (
                  from,
                  ground arith,
                  ground arith,
                  IsSortedFrom-mono (iter.start_lba + iter.lba_count + 1) _ rest (ground arith) s.3,
                );
                now_free = λ b. ground arith;
              })
        | inr apart ↦ rw apart (record {
          sorted = (from, pos, ground arith, (ground arith, s.1, s.2, s.3));
          now_free = λ b. ground arith;
        })
      ]

  free_finish-Freed :
      (prev : Extent) (l : List Extent)
      → IsSortedFrom lo (prev ∷ [])
      → prev.start_lba + prev.lba_count ≤ iter.start_lba
      → IsSortedFrom iter.start_lba (iter ∷ rest)
      → ((b : ℕ) → is_free (prev ∷ iter ∷ rest) b ≡ (is_free l b || in_range lba n b))
      → Freed lo lba n l (free_finish prev iter rest)
  unfolding free_finish coalesce_entries
  free_finish-Freed prev l s order s' same = elim (Bool-cases (end32 prev == iter.start_lba)) [
    | inl touch ↦
        let sum : add32 prev.lba_count iter.lba_count ≡ prev.lba_count + iter.lba_count =
          ground arith in
        rw (touch, sum)
          (record {
            sorted = (
              s.0,
              ground arith,
              ground arith,
              IsSortedFrom-mono (iter.start_lba + iter.lba_count + 1) _ rest (ground arith) s'.3,
            );
            now_free = λ b. ground (arith, same b);
          })
    | inr apart ↦
        rw apart
          (record { sorted = (s.0, s.1, s.2, (ground arith, s'.1, s'.2, s'.3)); now_free = same })
  ]

module _ (lo lba n : ℕ) (prev iter : Extent) (rest : List Extent) where
  free_between-Freed :
      0 < n
      → prev.start_lba ≤ lba
      → lba < iter.start_lba
      → IsSortedFrom lo (prev ∷ iter ∷ rest)
      → AllUsed lba n (prev ∷ iter ∷ rest)
      → (l' : List Extent) × (free_between lba n prev iter rest ≡ some l')
        × Freed lo lba n (prev ∷ iter ∷ rest) l'
  unfolding free_between
  free_between-Freed pos from before s used =
      let s' : IsSortedFrom iter.start_lba (iter ∷ rest) = (omega arith, s.3.1, s.3.2, s.3.3) in
      let fits = room lba n iter rest before s.3.1 (λ b i. ground (arith, used b)) in
      let past : prev.start_lba + prev.lba_count ≤ lba = ground (arith, used lba) in
      elim (Bool-cases (end32 prev == lba)) [
        | inl front ↦
            rw (front, coalesce_blks-behind lba n prev (ground arith) from)
              (
                _,
                refl,
                free_finish-Freed lo lba n iter rest _ _ (s.0, ground arith, ground arith, tt)
                    (ground arith) s' (λ b. ground arith),
              )
        | inr gap ↦ elim (Bool-cases (add32 lba n == iter.start_lba)) [
          | inl back ↦
              rw (gap, back, coalesce_blks-before lba n iter (ground arith) before)
                (
                  _,
                  refl,
                  free_finish-Freed lo lba n _ rest prev _ (s.0, s.1, s.2, tt) past
                      (
                        le_refl lba,
                        ground arith,
                        ground arith,
                        IsSortedFrom-mono (iter.start_lba + iter.lba_count + 1) _ rest
                            (ground arith) s'.3,
                      )
                      (λ b. ground arith),
                )
          | inr alone ↦
              let above : ltb prev.start_lba lba ≡ true = ground arith in
              let apart : (end32 prev == iter.start_lba) ≡ false = ground arith in
              rw (gap, alone, above, apart)
                (
                  _,
                  refl,
                  record {
                    sorted = (
                      s.0,
                      s.1,
                      s.2,
                      (ground arith, pos, ground arith, (ground arith, s'.1, s'.2, s'.3)),
                    );
                    now_free = λ b. ground arith;
                  },
                )
        ]
      ]

-- The list behind `prev`, which starts at or before `lba`.
free_after-Freed :
    (lo lba n : ℕ) (prev : Extent) (rest : List Extent)
    → 0 < n
    → prev.start_lba ≤ lba
    → lba < last_start (prev ∷ rest)
    → IsSortedFrom lo (prev ∷ rest)
    → AllUsed lba n (prev ∷ rest)
    → (l' : List Extent) × (free_after lba n prev rest ≡ some l') × Freed lo lba n (prev ∷ rest) l'
unfolding free_after
free_after-Freed lo lba n prev [] pos from before s used = absurd (omega arith)
free_after-Freed lo lba n prev (iter ∷ rest) pos from before s used =
    elim (Bool-cases (ltb lba iter.start_lba)) [
      | inl here ↦
          rw here (free_between-Freed lo lba n prev iter rest pos from (ground arith) s used)
      | inr further ↦
          let (l, done, f) =
            free_after-Freed (prev.start_lba + prev.lba_count + 1) lba n iter rest pos
              (ground arith) before s.3 (λ b i. ground (arith, used b)) in
          rw (further, done)
            (
              prev ∷ l,
              refl,
              record {
                sorted = (s.0, s.1, s.2, f.sorted);
                now_free = λ b. ground (arith, f.now_free b);
              },
            )
    ]

free_blk-Freed :
    (lba n : ℕ) (l : List Extent)
    → 0 < n
    → lba < last_start l
    → IsValid l
    → AllUsed lba n l
    → (l' : List Extent) × (free_blk lba n l ≡ some l') × Freed 0 lba n l l'
unfolding free_blk
free_blk-Freed lba n [] pos before s used = absurd (omega arith)
free_blk-Freed lba n (e ∷ rest) pos before s used =
    let inside : ltb lba max_lba_num ≡ true = ground (arith, last_start-lt 0 (e ∷ rest) s) in
    rw inside (elim (Bool-cases (ltb lba e.start_lba)) [
      | inl front ↦
          rw front
            (_, refl, free_front-Freed 0 lba n e rest pos (omega arith) (ground arith) s used)
      | inr behind ↦ rw behind (free_after-Freed 0 lba n e rest pos (ground arith) before s used)
    ])

-- On a valid free list, `free_blk` of at least one block, all in use, with a free entry somewhere
-- behind them, ends without a fault, and leaves a valid list, so one in which no two entries
-- touch, in which exactly these blocks are free besides those that were.
pub free_blk_lem :
    (lba n : ℕ) (l : List Extent)
    → 0 < n
    → lba < last_start l
    → IsValid l
    → AllUsed lba n l
    → (l' : List Extent) × (free_blk lba n l ≡ some l') × Freed 0 lba n l l'
free_blk_lem = free_blk-Freed

free_after-fault :
    (lba n lo : ℕ) (prev : Extent) (rest : List Extent)
    → IsSortedFrom lo (prev ∷ rest)
    → last_start (prev ∷ rest) ≤ lba
    → free_after lba n prev rest ≡ none
unfolding free_after
free_after-fault lba n lo prev [] s h = refl
free_after-fault lba n lo prev (iter ∷ rest) s h =
    let up = last_start-ge (prev.start_lba + prev.lba_count + 1) iter rest s.3 in
    ground (arith, free_after-fault lba n (prev.start_lba + prev.lba_count + 1) iter rest s.3)

-- From a valid free list, `free_blk` of blocks with no free entry behind them always faults: its
-- loop ends with `iter` null, and `iter->start_lba` is read.
pub free_blk-fault :
    (lba n : ℕ) (l : List Extent) → IsValid l → last_start l ≤ lba → free_blk lba n l ≡ none
unfolding free_blk
free_blk-fault lba n [] s h = refl
free_blk-fault lba n (e ∷ rest) s h =
    let up = last_start-ge 0 e rest s in ground (arith, free_after-fault lba n 0 e rest s)

-- A block in use with a free block behind it lies before the start of the last entry.
pub last_start-above :
    (lo b top : ℕ) (l : List Extent)
    → IsSortedFrom lo l
    → is_free l b ≡ false
    → is_free l top ≡ true
    → b < top
    → b < last_start l
last_start-above lo b top [] s used free above = absurd (ground arith)
last_start-above lo b top (e ∷ []) s used free above = ground arith
last_start-above lo b top (e ∷ e' ∷ rest) s used free above = ground (
  arith,
  last_start-above (e.start_lba + e.lba_count + 1) b top (e' ∷ rest) s.3,
  last_start-ge (e.start_lba + e.lba_count + 1) e' rest s.3,
)
