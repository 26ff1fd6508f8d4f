-- ===== src/Sandbox/Tests.antt =====
-- The sandbox's memory: tests, and its theorems at concrete inputs.
use ix.Base.{ℕ, ◌≡◌, refl, true, List, [], ◌∷◌}
use ix.Sandbox.Umm.{umm_space_left, Host, Call, mmap, mmap_file, shmat, mremap}
use ix.Sandbox.Umm.Calls.{
  mmap_at, umm_mmap_anom_flags, map_at, prot_to_perm, umm_brk, umm_mmap, umm_alloc_stack,
}
use ix.Sandbox.Umm.Sequence.{Op, apply, brk, map, stack, run, fresh}

-- a host that grants everything
abbrev place : Call → ℕ
place (mmap addr len prot flags) = addr
place (mmap_file addr len prot flags fd offset) = addr
place (shmat shmid addr shmflg) = addr
place (mremap old_address old_size new_size flags new_address) = new_address
place _ = 0

abbrev generous : Host
generous = record {
  place = place;
  status = λ c. 0;
  errno = 0;
  shm_segsz = λ i. 4096;
  shm_known = λ i. true;
  perm_u = 16;
  perm_r = 1;
  perm_w = 2;
  perm_x = 4;
  perm_big = 256;
}

abbrev ops : List Op
ops = brk 0x7000000010 ∷ map 0 5000 3 0x22 0 0 ∷ stack ∷ []

run-ops : (run generous ops fresh).mmap_len ≡ 0x802000
unfolding run apply umm_brk umm_mmap umm_alloc_stack umm_space_left mmap_at umm_mmap_anom_flags
    map_at prot_to_perm
run-ops = refl
