-- ===== src/Sandbox/Umm/Space.antt =====
-- The two ends of the user area never meet, but for `umm_map_big`.
use Prim.Native.Nat.{bit_or}
use ix.Base.{
  ℕ, ◌+◌, ◌-◌, ◌%◌, ◌^◌, ◌≤◌, ◌<◌, ◌≡◌, Bool, true, false, arith, inl, inr, if◌then◌else◌, sub64,
  add64, ◌↔◌, ◌⊎◌,
}
use ix.Sandbox.{pgsize, big_pgsize, pgaddr, big_pgoff, app_stack_size}
use ix.Sandbox.Umm.{
  Umm, Host, Call, umm_addr_start, umm_addr_end, umm_space_left, umm_get_map_pos, page_up,
  big_page_up, mmap_file, munmap, wants_big, shmat, shmdt, has_flag, shm_rdonly, map_growsdown,
  map_fixed, prot_read, prot_write,
}
use ix.Sandbox.Umm.Calls.{
  map_at, umm_mmap_anom_flags, umm_mmap_file, umm_brk, umm_map_big, mmap_at, umm_mmap, umm_munmap,
  umm_mprotect, umm_shmat, remap_at, umm_mremap, umm_alloc_stack, prot_to_perm,
}

abbrev pub area : ℕ
area = umm_addr_end - umm_addr_start

-- Both parts are whole pages, and fit the area together.
pub record IsSpace (u : Umm) : Type 0 where
  pub brk_pages : u.brk_len % big_pgsize ≡ 0
  pub mmap_pages : u.mmap_len % pgsize ≡ 0
  pub fits : u.brk_len + u.mmap_len ≤ area

-- The same two lengths, whatever was logged.
pub record SameLens (u v : Umm) : Type 0 where
  pub brk : v.brk_len ≡ u.brk_len
  pub mmap : v.mmap_len ≡ u.mmap_len

module _ (host : Host) where
  map_at-SameLens :
      (request : Call) (addr len perm : ℕ) (undo : Call) (u : Umm)
      → SameLens u (map_at host request addr len perm undo u).1
  unfolding map_at
  map_at-SameLens request addr len perm undo u = ground arith

  umm_mmap_anom_flags-SameLens :
      (addr len prot : ℕ) (big : Bool) (extra : ℕ) (u : Umm)
      → SameLens u (umm_mmap_anom_flags host addr len prot big extra u).1
  unfolding umm_mmap_anom_flags
  umm_mmap_anom_flags-SameLens addr len prot big extra u = map_at-SameLens _ addr len _ _ u

  pub mmap_at-SameLens :
      (addr len prot flags fd offset : ℕ) (u : Umm)
      → SameLens u (mmap_at host addr len prot flags fd offset u).1
  unfolding mmap_at umm_mmap_file
  mmap_at-SameLens addr len prot flags fd offset u = ground (
    arith,
    umm_mmap_anom_flags-SameLens addr len prot false 0 u,
    map_at-SameLens (mmap_file addr len prot (bit_or map_fixed flags) fd offset) addr len
        (prot_to_perm host prot) (munmap addr len) u,
  )

  -- `umm_brk` keeps the two ends apart.
  pub umm_brk-IsSpace :
      (brk : ℕ) (u : Umm) → brk < 2 ^ 64 → IsSpace u → IsSpace (umm_brk host brk u).1
  unfolding umm_brk umm_space_left
  umm_brk-IsSpace brk u word i =
      let len = big_page_up (brk - umm_addr_start) in
      ground (
        arith,
        umm_mmap_anom_flags-SameLens (umm_addr_start + u.brk_len) (len - u.brk_len)
            (bit_or prot_read prot_write) true 0 u,
      )

  -- `umm_mmap` keeps the two ends apart where it does not take its branch for big pages.
  pub umm_mmap-IsSpace :
      (addr len prot flags fd offset : ℕ) (u : Umm)
      → len < 2 ^ 63
      → wants_big addr len prot flags ≡ false
      → IsSpace u
      → IsSpace (umm_mmap host addr len prot flags fd offset u).1
  unfolding umm_mmap umm_space_left
  umm_mmap-IsSpace addr len prot flags fd offset u word small i =
      let chosen = sub64 (umm_get_map_pos u) (page_up len) in
      rw small (
        ground (
          arith,
          mmap_at-SameLens addr len prot flags fd offset u,
          mmap_at-SameLens chosen len prot flags fd offset u,
        ))

  pub umm_shmat-IsSpace :
      (shmid addr shmflg : ℕ) (u : Umm)
      → host.shm_segsz shmid < 2 ^ 63
      → IsSpace u
      → IsSpace (umm_shmat host shmid addr shmflg u).1
  unfolding umm_shmat umm_space_left
  umm_shmat-IsSpace shmid addr shmflg u word i =
      let len = host.shm_segsz shmid in
      let perm =
        prot_to_perm host
          (if has_flag shmflg shm_rdonly then prot_read else bit_or prot_read prot_write) in
      let chosen = sub64 (umm_get_map_pos u) (page_up len) in
      let attach = λ (at : ℕ). map_at-SameLens (shmat shmid at shmflg) at len perm (shmdt at) u in
      ground (arith, attach addr, attach chosen)

  pub umm_mremap-IsSpace :
      (old_address old_size new_size flags new_address : ℕ) (u : Umm)
      → new_size < 2 ^ 63
      → IsSpace u
      → IsSpace (umm_mremap host old_address old_size new_size flags new_address u).1
  unfolding umm_mremap remap_at umm_space_left
  umm_mremap-IsSpace old_address old_size new_size flags new_address u word i = ground arith

  pub umm_alloc_stack-IsSpace : (u : Umm) → IsSpace u → IsSpace (umm_alloc_stack host u).1
  unfolding umm_alloc_stack umm_space_left
  umm_alloc_stack-IsSpace u i =
      let base = umm_get_map_pos u in
      ground (
        arith,
        umm_mmap_anom_flags-SameLens (add64 (sub64 (pgaddr base) app_stack_size) pgsize)
            (app_stack_size - pgsize) (bit_or prot_read prot_write) false map_growsdown u,
      )

  pub umm_munmap-SameLens : (addr len : ℕ) (u : Umm) → SameLens u (umm_munmap host addr len u).1
  unfolding umm_munmap
  umm_munmap-SameLens addr len u = ground arith

  pub umm_mprotect-SameLens :
      (addr len prot : ℕ) (u : Umm) → SameLens u (umm_mprotect host addr len prot u).1
  unfolding umm_mprotect
  umm_mprotect-SameLens addr len prot u = ground arith

  abbrev pub full_len : ℕ → Umm → ℕ
  full_len len u = big_page_up len + big_pgoff (umm_get_map_pos u)

  -- what `umm_map_big` leaves
  umm_map_big-lens :
      (len prot : ℕ) (u : Umm)
      → len < 2 ^ 63
      → IsSpace u
      → SameLens u (umm_map_big host len prot u).1
        ⊎ (((umm_map_big host len prot u).1.brk_len ≡ u.brk_len)
            × ((umm_map_big host len prot u).1.mmap_len ≡ u.mmap_len + full_len len u))
  unfolding umm_map_big
  umm_map_big-lens len prot u word i =
      let addr =
        sub64 (umm_get_map_pos u) (add64 (big_page_up len) (big_pgoff (umm_get_map_pos u))) in
      ground (arith, umm_mmap_anom_flags-SameLens addr len prot true 0 u)

  -- `umm_map_big` has no test of the space left: it keeps the two ends apart exactly if it leaves
  -- the lengths alone, as where the host refuses, or the big pages, with those that align them,
  -- still fit.
  pub umm_map_big-IsSpace :
      (len prot : ℕ) (u : Umm)
      → len < 2 ^ 63
      → IsSpace u
      → IsSpace (umm_map_big host len prot u).1 ↔ (
          ((umm_map_big host len prot u).1.mmap_len ≡ u.mmap_len)
          ⊎ (u.brk_len + u.mmap_len + full_len len u ≤ area))
  umm_map_big-IsSpace len prot u word i = elim (umm_map_big-lens len prot u word i) [
    | inl same ↦ (λ j. inl same.mmap, λ h. ground arith)
    | inr grown ↦ (λ j. inr (omega arith), λ h. ground arith)
  ]
