-- ===== src/Blk/FreeList/Inv.antt =====
-- The invariant of the free list, and the set of blocks that it stands for.
use ix.Base.{
  ℕ, ◌+◌, ◌≤◌, ◌<◌, ◌≡◌, refl, Bool, true, false, ◌||◌, List, [], ◌∷◌, arith, in_range, ◌==◌,
  if◌then◌else◌, Bool-cases, inl, inr,
}
use ix.Blk.{max_lba_num}
use ix.Blk.FreeList.{Extent, freelist_init}

abbrev pub covers : Extent → ℕ → Bool
covers e b = in_range e.start_lba e.lba_count b

-- the abstract view: is block `b` free?
abbrev pub is_free : List Extent → ℕ → Bool
is_free [] b = false
is_free (e ∷ rest) b = covers e b || is_free rest b

-- Entries are not empty, ascend, lie on the device, and no two touch.
abbrev pub IsSortedFrom : ℕ → List Extent → Type 0
IsSortedFrom lo [] = Unit
IsSortedFrom lo (e ∷ rest) =
    (lo ≤ e.start_lba)
    × (0 < e.lba_count)
    × (e.start_lba + e.lba_count ≤ max_lba_num)
    × IsSortedFrom (e.start_lba + e.lba_count + 1) rest

abbrev pub IsValid : List Extent → Type 0
IsValid = IsSortedFrom 0

freelist_init-IsValid : IsValid freelist_init
unfolding freelist_init
freelist_init-IsValid = omega arith

pub IsSortedFrom-mono :
    (lo lo' : ℕ) (l : List Extent) → lo' ≤ lo → IsSortedFrom lo l → IsSortedFrom lo' l
IsSortedFrom-mono lo lo' [] h s = tt
IsSortedFrom-mono lo lo' (e ∷ rest) h (a, b, c, d) = (omega arith, b, c, d)

-- Below its bound a list holds no free block.
pub is_free-below : (lo b : ℕ) (l : List Extent) → IsSortedFrom lo l → b < lo → is_free l b ≡ false
is_free-below lo b [] s h = refl
is_free-below lo b (e ∷ rest) s h =
    ground (arith, is_free-below (e.start_lba + e.lba_count + 1) b rest s.3)

-- An entry in front of a list, unless it would be empty.
abbrev pub put : ℕ → ℕ → List Extent → List Extent
put start count l = if count == 0 then l else record { start_lba = start; lba_count = count } ∷ l

pub put-IsSortedFrom :
    (lo start count : ℕ) (l : List Extent)
    → lo ≤ start
    → start + count ≤ max_lba_num
    → IsSortedFrom (start + count + 1) l
    → IsSortedFrom lo (put start count l)
put-IsSortedFrom lo start count l a b s = elim (Bool-cases (count == 0)) [
  | inl empty ↦ rw empty (IsSortedFrom-mono (start + count + 1) lo l (omega arith) s)
  | inr some_left ↦ rw some_left (a, ground arith, b, s)
]

pub is_free-put :
    (start count : ℕ) (l : List Extent) (b : ℕ)
    → is_free (put start count l) b ≡ (in_range start count b || is_free l b)
is_free-put start count l b = ground arith

-- Free blocks lie on the device.
pub is_free-lt :
    (lo b : ℕ) (l : List Extent) → IsSortedFrom lo l → is_free l b ≡ true → b < max_lba_num
is_free-lt lo b [] s h = absurd (ground arith)
is_free-lt lo b (e ∷ rest) s h =
    ground (arith, is_free-lt (e.start_lba + e.lba_count + 1) b rest s.3)
