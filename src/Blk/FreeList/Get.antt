-- ===== src/Blk/FreeList/Get.antt =====
-- `get_blk`: what it takes, and when it finds nothing.
use ix.Base.{
  ℕ, ◌+◌, ◌≤◌, ◌<◌, ◌≡◌, true, ◌&&◌, not, Option, none, some, List, [], ◌∷◌, arith, in_range, leb,
  ltb, Bool-cases, inl, inr, ◌>>=◌,
}
use native.Mathlib.Decide.{dec_lt}
use ix.Blk.FreeList.{Extent, get_blk, mark_used_blk}
use ix.Blk.FreeList.Inv.{is_free, IsSortedFrom, IsValid, IsSortedFrom-mono, is_free-below}

-- `lba` and `l'` are an allocation of `n` blocks from the list `l`.
pub record Took (lo n : ℕ) (l : List Extent) (lba : ℕ) (l' : List Extent) : Type 0 where
  pub sorted : IsSortedFrom lo l'
  pub above : lo ≤ lba
  pub was_free : (b : ℕ) → in_range lba n b ≡ true → is_free l b ≡ true
  pub now_free : (b : ℕ) → is_free l' b ≡ (is_free l b && not (in_range lba n b))

mark_used_blk-IsSortedFrom :
    (lo n : ℕ) (e : Extent) (rest : List Extent)
    → n ≤ e.lba_count
    → IsSortedFrom lo (e ∷ rest)
    → IsSortedFrom lo (mark_used_blk n e rest)
unfolding mark_used_blk
mark_used_blk-IsSortedFrom lo n e rest fits s = elim (Bool-cases (ltb n e.lba_count)) [
  | inl less ↦ rw less (
    ground arith,
    ground arith,
    ground arith,
    IsSortedFrom-mono (e.start_lba + e.lba_count + 1) _ rest (ground arith) s.3,
  )
  | inr all ↦ rw all (IsSortedFrom-mono (e.start_lba + e.lba_count + 1) lo rest (omega arith) s.3)
]

mark_used_blk-Took :
    (lo n : ℕ) (e : Extent) (rest : List Extent)
    → 0 < n
    → n ≤ e.lba_count
    → IsSortedFrom lo (e ∷ rest)
    → Took lo n (e ∷ rest) e.start_lba (mark_used_blk n e rest)
unfolding mark_used_blk
mark_used_blk-Took lo n e rest pos fits s = record {
  sorted = mark_used_blk-IsSortedFrom lo n e rest fits s;
  above = s.0;
  was_free = λ b h. ground arith;
  now_free = λ b. ground (arith, is_free-below (e.start_lba + e.lba_count + 1) b rest s.3);
}

-- No `n` blocks in a row are free.
abbrev NoRun : ℕ → List Extent → Type 0
NoRun n l = (lba : ℕ) → ¬ ((b : ℕ) → in_range lba n b ≡ true → is_free l b ≡ true)

abbrev pub Outcome : ℕ → ℕ → List Extent → Option (ℕ × List Extent) → Type 0
Outcome lo n l none = NoRun n l
Outcome lo n l (some (lba, l')) = Took lo n l lba l'

-- An entry of fewer than `n` blocks gives no run of `n` blocks, since the next does not touch it.
small-NoRun :
    (lo n : ℕ) (e : Extent) (rest : List Extent)
    → 0 < n
    → e.lba_count < n
    → IsSortedFrom lo (e ∷ rest)
    → NoRun n rest
    → NoRun n (e ∷ rest)
small-NoRun lo n e rest pos less s none_later lba run =
    let end = e.start_lba + e.lba_count in
    let gap = λ (b : ℕ). is_free-below (end + 1) b rest s.3 in
    elim (dec_lt lba end) [
      | yes before ↦ ground (arith, run lba, run end, gap lba, gap end)
      | no behind ↦ none_later lba (λ b i. ground (arith, run b))
    ]

small-Outcome :
    (lo n : ℕ) (e : Extent) (rest : List Extent) (r : Option (ℕ × List Extent))
    → 0 < n
    → e.lba_count < n
    → IsSortedFrom lo (e ∷ rest)
    → Outcome (e.start_lba + e.lba_count + 1) n rest r
    → Outcome lo n (e ∷ rest) (r >>= λ (lba, l). some (lba, e ∷ l))
small-Outcome lo n e rest none pos less s o = small-NoRun lo n e rest pos less s o
small-Outcome lo n e rest (some (lba, l)) pos less s o = record {
  sorted = (s.0, s.1, s.2, o.sorted);
  above = omega (arith, o.above);
  was_free = λ b h. ground (arith, o.was_free b);
  now_free = λ b. ground (arith, o.now_free b, o.above);
}

get_blk-Outcome :
    (lo n : ℕ) (l : List Extent) → 0 < n → IsSortedFrom lo l → Outcome lo n l (get_blk n l)
unfolding get_blk
get_blk-Outcome lo n [] pos s = λ lba run. ground (arith, run lba)
get_blk-Outcome lo n (e ∷ rest) pos s = elim (Bool-cases (leb n e.lba_count)) [
  | inl fits ↦ rw fits (mark_used_blk-Took lo n e rest pos (ground arith) s)
  | inr small ↦ rw small (
      small-Outcome lo n e rest (get_blk n rest) pos (ground arith) s
        (get_blk-Outcome (e.start_lba + e.lba_count + 1) n rest pos s.3))
]

-- From a valid free list, `get_blk` of a positive number of blocks either returns the first of
-- that many blocks in a row, which were all free, and leaves a valid list in which exactly these
-- are no longer free; or it returns -1, and then there is no such run of free blocks.
pub get_blk_lem : (n : ℕ) (l : List Extent) → 0 < n → IsValid l → Outcome 0 n l (get_blk n l)
get_blk_lem n l = get_blk-Outcome 0 n l
