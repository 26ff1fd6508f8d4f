-- ===== src/Blk/FreeList/RoundTrip.antt =====
-- A valid free list is determined by its set of free blocks, so giving an allocation back undoes it.
use mathlib.Core.Path.{ap₂, subst}
use ix.Base.{ℕ, ◌+◌, ◌<◌, ◌≡◌, refl, some, List, [], ◌∷◌, arith, ap, ◌∙◌}
use ix.Blk.FreeList.{Extent, get_blk, free_blk}
use ix.Blk.FreeList.Inv.{is_free, IsSortedFrom, IsValid, IsSortedFrom-mono, is_free-below}
use ix.Blk.FreeList.Get.{Took, Outcome, get_blk_lem}
use ix.Blk.FreeList.Free.{last_start, free_blk_lem}

abbrev SameFree : List Extent → List Extent → Type 0
SameFree l l' = (b : ℕ) → is_free l b ≡ is_free l' b

module _ (e e' : Extent) (r r' : List Extent) where
  first-eq :
      (lo : ℕ)
      → IsSortedFrom lo (e ∷ r)
      → IsSortedFrom lo (e' ∷ r')
      → SameFree (e ∷ r) (e' ∷ r')
      → e ≡ e'
  first-eq lo s s' same =
      let end = e.start_lba + e.lba_count in
      let end' = e'.start_lba + e'.lba_count in
      ground (
        arith,
        same e.start_lba,
        same e'.start_lba,
        same end,
        same end',
        is_free-below (end + 1) e'.start_lba r s.3,
        is_free-below (end' + 1) e.start_lba r' s'.3,
        is_free-below (end + 1) end r s.3,
        is_free-below (end' + 1) end' r' s'.3,
      )

unique :
    (lo lo' : ℕ) (l l' : List Extent)
    → IsSortedFrom lo l
    → IsSortedFrom lo l'
    → SameFree l l'
    → l ≡ l'
unique lo lo' [] [] s s' same = refl
unique lo lo' [] (e ∷ r) s s' same = absurd (ground (arith, same e.start_lba))
unique lo lo' (e ∷ r) [] s s' same = absurd (ground (arith, same e.start_lba))
unique lo lo' (e ∷ r) (e' ∷ r') s s' same =
    let end = e.start_lba + e.lba_count in
    let first = first-eq e e' r r' lo s s' same in
    let sorted' : IsSortedFrom (end + 1) r' =
      IsSortedFrom-mono (e'.start_lba + e'.lba_count + 1) (end + 1) r' (ground arith) s'.3 in
    ap₂ ◌∷◌ first (
      unique (end + 1) 0 r r' s.3 sorted' (λ b.
        ground
          (arith, same b, is_free-below (end + 1) b r s.3, is_free-below (end + 1) b r' sorted')))

-- Two valid free lists with the same free blocks are equal.
IsValid-unique : (l l' : List Extent) → IsValid l → IsValid l' → SameFree l l' → l ≡ l'
IsValid-unique l l' = unique 0 0 l l'

-- What `get_blk` took, `free_blk` gives back: the list is again the one before, if a free entry
-- is left behind the blocks.
pub free_blk-get_blk :
    (n lba : ℕ) (l l' : List Extent)
    → 0 < n
    → IsValid l
    → get_blk n l ≡ some (lba, l')
    → lba < last_start l'
    → free_blk lba n l' ≡ some l
free_blk-get_blk n lba l l' pos v got before =
    let took : Took 0 n l lba l' = subst (Outcome 0 n l) got (get_blk_lem n l pos v) in
    let (l'', done, f) =
      free_blk_lem lba n l' pos before took.sorted (λ b i. ground (arith, took.now_free b)) in
    done
    ∙ ap some (
        IsValid-unique l'' l f.sorted v
          (λ b. ground (arith, f.now_free b, took.now_free b, took.was_free b)))
