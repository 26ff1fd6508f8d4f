-- ===== src/Sandbox/Umm/Sequence.antt =====
-- Any sequence of memory calls, and where a fresh mapping lies.
use ix.Base.{ℕ, ◌+◌, ◌-◌, ◌^◌, ◌≤◌, ◌<◌, ◌≡◌, false, List, [], ◌∷◌, arith, sub64}
use ix.Sandbox.Umm.{
  Umm, Host, ok, umm_addr_start, umm_addr_end, umm_space_left, umm_get_map_pos, page_up, wants_big,
}
use ix.Sandbox.Umm.Calls.{
  umm_brk, umm_mmap, umm_munmap, umm_mprotect, umm_shmat, umm_mremap, umm_alloc_stack,
}
use ix.Sandbox.Umm.Space.{IsSpace, mmap_at-SameLens}

-- the calls of an application
pub data Op : Type 0 where
  brk : (at : ℕ) → Op
  map : (addr len prot flags fd offset : ℕ) → Op
  unmap : (addr len : ℕ) → Op
  protect : (addr len prot : ℕ) → Op
  attach : (shmid addr shmflg : ℕ) → Op
  remap : (old_address old_size new_size flags new_address : ℕ) → Op
  stack : Op

-- Sizes below 2 ^ 63, where rounding up to pages does not wrap; addresses are words; and no mapping
-- asks for big pages.
abbrev pub IsModest : Host → Op → Type 0
IsModest host (brk at) = at < 2 ^ 64
IsModest host (map addr len prot flags fd offset) =
    (len < 2 ^ 63) × (wants_big addr len prot flags ≡ false)
IsModest host (unmap addr len) = Unit
IsModest host (protect addr len prot) = Unit
IsModest host (attach shmid addr shmflg) = host.shm_segsz shmid < 2 ^ 63
IsModest host (remap a b new_size c d) = new_size < 2 ^ 63
IsModest host stack = Unit

abbrev pub AllModest : Host → List Op → Type 0
AllModest host [] = Unit
AllModest host (op ∷ ops) = IsModest host op × AllModest host ops

unfoldable pub apply : Host → Op → Umm → Umm
apply host (brk at) u = (umm_brk host at u).1
apply host (map addr len prot flags fd offset) u = (umm_mmap host addr len prot flags fd offset u).1
apply host (unmap addr len) u = (umm_munmap host addr len u).1
apply host (protect addr len prot) u = (umm_mprotect host addr len prot u).1
apply host (attach shmid addr shmflg) u = (umm_shmat host shmid addr shmflg u).1
apply host (remap a b c d e) u = (umm_mremap host a b c d e u).1
apply host stack u = (umm_alloc_stack host u).1

unfoldable pub run : Host → List Op → Umm → Umm
unfolding apply
run host [] u = u
run host (op ∷ ops) u = run host ops (apply host op u)

abbrev pub fresh : Umm
fresh = record { brk_len = 0; mmap_len = 0; log = [] }

-- A mapping for which the application names no address, and which is not of big pages, lies above
-- the memory of `brk` and below every earlier mapping, and is accounted for.
pub umm_mmap-fresh :
    (host : Host) (len prot flags fd offset : ℕ) (u : Umm) {a : ℕ}
    → len < 2 ^ 63
    → wants_big 0 len prot flags ≡ false
    → IsSpace u
    → (umm_mmap host 0 len prot flags fd offset u).0 ≡ ok a
    → (umm_addr_start + u.brk_len ≤ a)
      × (a + len ≤ umm_addr_end - u.mmap_len)
      × (umm_addr_end - (umm_mmap host 0 len prot flags fd offset u).1.mmap_len ≡ a)
unfolding umm_mmap umm_space_left
umm_mmap-fresh host len prot flags fd offset u word small i =
    let chosen = sub64 (umm_get_map_pos u) (page_up len) in
    rw small (ground (arith, mmap_at-SameLens host chosen len prot flags fd offset u))
