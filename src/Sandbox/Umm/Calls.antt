-- ===== src/Sandbox/Umm/Calls.antt =====
-- dp/sandbox/umm.c: the memory calls.
use Prim.Native.Nat.{bit_or}
use ix.Base.{ℕ, ◌+◌, ◌-◌, ◌^◌, Bool, true, false, ◌&&◌, not, ltb, ◌==◌, if◌then◌else◌, add64, sub64}
use ix.Sandbox.{app_stack_size, pgsize, pgaddr, pgoff, big_pgoff, mem_ref_is_safe}
use ix.Sandbox.Umm.{
  Call, Host, Reply, Umm, big_page_up, dune_vm_map_phys, dune_vm_mprotect, dune_vm_unmap, eacces,
  einval, enomem, err, grow_mmap, has_flag, map_anonymous, map_fixed, map_growsdown, map_hugetlb,
  map_private, mmap, mmap_file, mprotect, mremap, mremap_fixed, mremap_maymove, munmap, note, ok,
  page_up, prot_exec, prot_read, prot_write, shm_rdonly, shmat, shmdt, stopped, umm_addr_start,
  umm_get_map_pos, umm_space_left, wants_big,
}

module _ (host : Host) where
  unfoldable pub prot_to_perm : ℕ → ℕ
  prot_to_perm prot =
      bit_or
        (bit_or (bit_or host.perm_u (if has_flag prot prot_read then host.perm_r else 0))
          (if has_flag prot prot_write then host.perm_w else 0))
        (if has_flag prot prot_exec then host.perm_x else 0)

  -- the two halves of a mapping: `mmap`, then `dune_vm_map_phys`, which is undone where it fails
  -- A host call that fails sets `errno`, which is then not 0; the source gives it back as it is.
  unfoldable pub map_at : Call → ℕ → ℕ → ℕ → Call → Umm → Reply × Umm
  map_at request addr len perm undo u =
      let mapped = note request u in
      let map_phys = dune_vm_map_phys addr len perm in
      if host.place request == addr
      then if host.status map_phys == 0
        then (ok 0, note map_phys mapped)
        else (err (host.status map_phys), note undo (note map_phys mapped))
      else (err host.errno, mapped)

  -- `umm_mmap_anom_flags`
  unfoldable pub umm_mmap_anom_flags : ℕ → ℕ → ℕ → Bool → ℕ → Umm → Reply × Umm
  umm_mmap_anom_flags addr len prot big extra_flags =
      let fixed = bit_or (bit_or map_fixed map_private) map_anonymous in
      let flags = bit_or (if big then bit_or fixed map_hugetlb else fixed) extra_flags in
      let perm = if big then bit_or (prot_to_perm prot) host.perm_big else prot_to_perm prot in
      map_at (mmap addr len prot flags) addr len perm (munmap addr len)

  abbrev umm_mmap_anom : ℕ → ℕ → ℕ → Bool → Umm → Reply × Umm
  umm_mmap_anom addr len prot big = umm_mmap_anom_flags addr len prot big 0

  -- `umm_mmap_file`
  unfoldable pub umm_mmap_file : ℕ → ℕ → ℕ → ℕ → ℕ → ℕ → Umm → Reply × Umm
  umm_mmap_file addr len prot flags fd offset =
      map_at (mmap_file addr len prot (bit_or map_fixed flags) fd offset) addr len
        (prot_to_perm prot) (munmap addr len)

  -- `if (ret) return ret;`, and what follows otherwise
  abbrev and_then : Reply × Umm → (Umm → Reply × Umm) → Reply × Umm
  and_then (ok a, u) next = next u
  and_then (err e, u) next = (err e, u)
  and_then (stopped, u) next = (stopped, u)

  -- `umm_brk`, with `USE_BIG_MEM`
  unfoldable pub umm_brk : ℕ → Umm → Reply × Umm
  umm_brk brk u =
      let len = big_page_up (brk - umm_addr_start) in
      let shrink = munmap (umm_addr_start + len) (u.brk_len - len) in
      let done : Umm → Reply × Umm = λ v. (ok brk, record v { brk_len = len }) in
      let grown =
        umm_mmap_anom (umm_addr_start + u.brk_len) (len - u.brk_len) (bit_or prot_read prot_write)
          true u in
      if brk == 0
      then (ok umm_addr_start, u)
      else if ltb brk umm_addr_start
      then (err einval, u)
      else if not (umm_space_left u len)
      then (err enomem, u)
      else if len == u.brk_len
      then (ok brk, u)
      else if ltb len u.brk_len
      then if host.status shrink == 0
        then done (note (dune_vm_unmap (umm_addr_start + len) (u.brk_len - len)) (note shrink u))
        else (err host.errno, note shrink u)
      else and_then grown done

  -- `umm_map_big`, which does not ask `umm_space_left`
  unfoldable pub umm_map_big : ℕ → ℕ → Umm → Reply × Umm
  umm_map_big len prot u =
      let full_len = add64 (big_page_up len) (big_pgoff (umm_get_map_pos u)) in
      let addr = sub64 (umm_get_map_pos u) full_len in
      and_then (umm_mmap_anom addr len prot true u) (λ v. (ok addr, grow_mmap full_len v))

  -- the end of `umm_mmap` and of its kin, once the address is chosen
  unfoldable pub mmap_at : ℕ → ℕ → ℕ → ℕ → ℕ → ℕ → Umm → Reply × Umm
  mmap_at addr len prot flags fd offset u =
      if has_flag flags map_anonymous
      then umm_mmap_anom addr len prot false u
      else if ltb 0 fd && ltb fd (2 ^ 31)
      then umm_mmap_file addr len prot flags fd offset u
      else (err einval, u)

  -- `umm_mmap`; a null `addr` is 0, and `fd` is the 32-bit pattern of an `int`.
  unfoldable pub umm_mmap : ℕ → ℕ → ℕ → ℕ → ℕ → ℕ → Umm → Reply × Umm
  umm_mmap addr len prot flags fd offset u =
      let chosen = sub64 (umm_get_map_pos u) (page_up len) in
      if wants_big addr len prot flags
      then umm_map_big len prot u
      else if addr == 0
      then if umm_space_left u len
        then and_then (mmap_at chosen len prot flags fd offset u)
            (λ v. (ok chosen, grow_mmap (page_up len) v))
        else (err enomem, u)
      else if mem_ref_is_safe addr len
      then and_then (mmap_at addr len prot flags fd offset u) (λ v. (ok addr, v))
      else (err einval, u)

  -- `umm_munmap`, which tries whole big pages where the host refuses the range
  unfoldable pub umm_munmap : ℕ → ℕ → Umm → Reply × Umm
  umm_munmap addr len u =
      let first = munmap addr len in
      let second = munmap addr (big_page_up len) in
      if not (mem_ref_is_safe addr len)
      then (err eacces, u)
      else if host.status first == 0
      then (ok 0, note (dune_vm_unmap addr len) (note first u))
      else if host.status second == 0
      then (ok 0, note (dune_vm_unmap addr (big_page_up len)) (note second (note first u)))
      else (err host.errno, note second (note first u))

  -- `umm_mprotect`; a failure of libdune is a failed assertion.
  unfoldable pub umm_mprotect : ℕ → ℕ → ℕ → Umm → Reply × Umm
  umm_mprotect addr len prot u =
      let protect = mprotect addr len prot in
      let dune = dune_vm_mprotect addr len (prot_to_perm prot) in
      if not (mem_ref_is_safe addr len)
      then (err eacces, u)
      else if host.status protect == 0
      then if host.status dune == 0
        then (ok 0, note dune (note protect u))
        else (stopped, note dune (note protect u))
      else (err host.errno, note protect u)

  -- `umm_shmat`; without the segment's size it returns -1, which is `err 1` here.
  unfoldable pub umm_shmat : ℕ → ℕ → ℕ → Umm → Reply × Umm
  umm_shmat shmid addr shmflg u =
      let len = host.shm_segsz shmid in
      let perm =
        prot_to_perm
          (if has_flag shmflg shm_rdonly then prot_read else bit_or prot_read prot_write) in
      let chosen = sub64 (umm_get_map_pos u) (page_up len) in
      let attach = λ (at : ℕ). map_at (shmat shmid at shmflg) at len perm (shmdt at) u in
      if not (host.shm_known shmid)
      then (err 1, u)
      else if addr == 0
      then if umm_space_left u len
        then and_then (attach chosen) (λ v. (ok chosen, grow_mmap (page_up len) v))
        else (err enomem, u)
      else if mem_ref_is_safe addr len
      then and_then (attach addr) (λ v. (ok addr, v))
      else (err einval, u)

  -- `umm_mremap` behind the choice of the new address; it ends the program where libdune fails.
  unfoldable pub remap_at : ℕ → ℕ → ℕ → ℕ → ℕ → ℕ → Umm → Reply × Umm
  remap_at old_address old_size new_size flags new_address grown u =
      let request =
        mremap old_address old_size new_size (bit_or flags (bit_or mremap_fixed mremap_maymove))
          new_address in
      let map_phys =
        dune_vm_map_phys new_address new_size (prot_to_perm (bit_or prot_read prot_write)) in
      let moved = note map_phys (note (dune_vm_unmap old_address old_size) (note request u)) in
      if not (has_flag flags mremap_maymove)
      then (err einval, u)
      else if host.place request == new_address
      then if host.status map_phys == 0
        then (ok new_address, grow_mmap grown moved)
        else (stopped, moved)
      else (err host.errno, note request u)

  -- `umm_mremap`
  unfoldable pub umm_mremap : ℕ → ℕ → ℕ → ℕ → ℕ → Umm → Reply × Umm
  umm_mremap old_address old_size new_size flags new_address u =
      let chosen = sub64 (umm_get_map_pos u) (page_up new_size) in
      if not (mem_ref_is_safe old_address old_size)
      then (err eacces, u)
      else if has_flag flags mremap_fixed
      then if mem_ref_is_safe new_address new_size
        then remap_at old_address old_size new_size flags new_address 0 u
        else (err eacces, u)
      else if umm_space_left u new_size
      then remap_at old_address old_size new_size flags chosen (page_up new_size) u
      else (err enomem, u)

  -- `umm_alloc_stack`; the reply is the top of the stack.
  unfoldable pub umm_alloc_stack : Umm → Reply × Umm
  umm_alloc_stack u =
      let base = umm_get_map_pos u in
      if umm_space_left u app_stack_size
      then and_then
          (umm_mmap_anom_flags (add64 (sub64 (pgaddr base) app_stack_size) pgsize)
            (app_stack_size - pgsize) (bit_or prot_read prot_write) false map_growsdown u)
          (λ v. (ok (pgaddr base), grow_mmap (app_stack_size + pgoff base) v))
      else (err enomem, u)
