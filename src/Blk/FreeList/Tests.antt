-- ===== src/Blk/FreeList/Tests.antt =====
-- The free list: tests, and its theorems at a list of two entries.
use ix.Base.{ℕ, ◌≡◌, refl, some, List, [], ◌∷◌, arith}
use ix.Blk.FreeList.{
  Extent, get_blk, free_blk, free_after, free_between, free_finish, coalesce_blks, coalesce_entries,
}
use ix.Blk.FreeList.Inv.{IsValid}
use ix.Blk.FreeList.Get.{Outcome, get_blk_lem}
use ix.Blk.FreeList.Free.{Freed, free_blk_lem}
use ix.Blk.FreeList.RoundTrip.{free_blk-get_blk}

abbrev extent : ℕ → ℕ → Extent
extent start count = record { start_lba = start; lba_count = count }

abbrev two : List Extent
two = extent 10 5 ∷ extent 20 100 ∷ []

two-IsValid : IsValid two
two-IsValid = omega arith

get_blk-first_fit : get_blk 5 two ≡ some (10, extent 20 100 ∷ [])
unfolding get_blk
get_blk-first_fit = refl

get_blk-later : get_blk 6 two ≡ some (20, extent 10 5 ∷ extent 26 94 ∷ [])
unfolding get_blk
get_blk-later = refl

free_blk-joins_three : free_blk 15 5 two ≡ some (extent 10 110 ∷ [])
unfolding free_blk free_after free_between free_finish coalesce_blks coalesce_entries
free_blk-joins_three = refl

get_blk_lem_example : Outcome 0 6 two (get_blk 6 two)
get_blk_lem_example = get_blk_lem 6 two (omega arith) two-IsValid

free_blk_lem_example : (l' : List Extent) × (free_blk 15 5 two ≡ some l') × Freed 0 15 5 two l'
free_blk_lem_example =
    free_blk_lem 15 5 two (omega arith) (omega arith) two-IsValid (λ b i. ground arith)

free_blk-get_blk_example : free_blk 20 6 (extent 10 5 ∷ extent 26 94 ∷ []) ≡ some two
unfolding get_blk
free_blk-get_blk_example =
    free_blk-get_blk 6 20 two (extent 10 5 ∷ extent 26 94 ∷ []) (omega arith) two-IsValid refl
      (omega arith)
