-- ===== src/Sandbox/Umm.antt =====
-- dp/sandbox/umm.c: the memory calls of a sandboxed application. Its area of user memory is filled
-- from below by `brk` and from above by mappings. What the host kernel and libdune answer is a
-- parameter; each call made is noted in a log.
pub mod Calls
pub mod Space
pub mod Sequence
use Prim.Native.Nat.{bit_and, bit_or}
use ix.Base.{
  ℕ, ◌+◌, ◌-◌, ◌*◌, ◌/◌, ◌%◌, ◌^◌, Bool, true, false, ◌&&◌, not, List, [], ◌∷◌, ltb, leb, ◌==◌,
  if◌then◌else◌, add64, sub64,
}
use ix.Sandbox.{
  mem_user_direct_base_addr, mem_user_direct_end_addr, app_stack_size, pgsize, big_pgsize, pgaddr,
  pgoff, big_pgaddr, big_pgoff, mem_ref_is_safe,
}

abbrev pub umm_addr_start : ℕ
umm_addr_start = mem_user_direct_base_addr

abbrev pub umm_addr_end : ℕ
umm_addr_end = mem_user_direct_end_addr

-- the host's error numbers and flags
abbrev pub einval : ℕ
einval = 22

abbrev pub enomem : ℕ
enomem = 12

abbrev pub eacces : ℕ
eacces = 13

abbrev pub prot_read : ℕ
prot_read = 1

abbrev pub prot_write : ℕ
prot_write = 2

abbrev pub prot_exec : ℕ
prot_exec = 4

abbrev pub map_private : ℕ
map_private = 0x2

abbrev pub map_fixed : ℕ
map_fixed = 0x10

abbrev pub map_anonymous : ℕ
map_anonymous = 0x20

abbrev pub map_growsdown : ℕ
map_growsdown = 0x100

abbrev map_stack : ℕ
map_stack = 0x20000

abbrev pub map_hugetlb : ℕ
map_hugetlb = 0x40000

abbrev pub shm_rdonly : ℕ
shm_rdonly = 0x1000

abbrev pub mremap_maymove : ℕ
mremap_maymove = 1

abbrev pub mremap_fixed : ℕ
mremap_fixed = 2

-- A request to the host kernel or to libdune.
pub data Call : Type 0 where
  mmap : (addr len prot flags : ℕ) → Call
  mmap_file : (addr len prot flags fd offset : ℕ) → Call
  munmap : (addr len : ℕ) → Call
  mprotect : (addr len prot : ℕ) → Call
  shmat : (shmid addr shmflg : ℕ) → Call
  shmdt : (addr : ℕ) → Call
  mremap : (old_address old_size new_size flags new_address : ℕ) → Call
  dune_vm_map_phys : (addr len perm : ℕ) → Call
  dune_vm_unmap : (addr len : ℕ) → Call
  dune_vm_mprotect : (addr len perm : ℕ) → Call

-- What they answer: an address, or 0 for success and the error otherwise; `errno`; the size of a
-- shared memory segment, if it can be asked for; and the permission bits of libdune.
pub record Host : Type 0 where
  pub place : Call → ℕ
  pub status : Call → ℕ
  pub errno : ℕ
  pub shm_segsz : ℕ → ℕ
  pub shm_known : ℕ → Bool
  pub perm_u : ℕ
  pub perm_r : ℕ
  pub perm_w : ℕ
  pub perm_x : ℕ
  pub perm_big : ℕ

-- `brk_len` and `mmap_len`, and the calls made so far, the last one first
pub record Umm : Type 0 where
  pub brk_len : ℕ
  pub mmap_len : ℕ
  pub log : List Call

-- A call returns a value, or the negative of an error number; `stopped` ends the program.
pub data Reply : Type 0 where
  ok : ℕ → Reply
  err : ℕ → Reply
  stopped : Reply

abbrev pub note : Call → Umm → Umm
note c u = record u { log = c ∷ u.log }

unfoldable pub umm_space_left : Umm → ℕ → Bool
umm_space_left u len = ltb (add64 (add64 u.brk_len u.mmap_len) len) (umm_addr_end - umm_addr_start)

abbrev pub umm_get_map_pos : Umm → ℕ
umm_get_map_pos u = sub64 umm_addr_end u.mmap_len

-- `PGADDR(len + PGSIZE - 1)` and `BIG_PGADDR(len + BIG_PGSIZE - 1)`
abbrev pub page_up : ℕ → ℕ
page_up len = pgaddr (add64 len (pgsize - 1))

abbrev pub big_page_up : ℕ → ℕ
big_page_up len = big_pgaddr (add64 len (big_pgsize - 1))

-- `flags & bit` for a flag of one bit
abbrev pub has_flag : ℕ → ℕ → Bool
has_flag flags bit = not (bit_and flags bit == 0)

abbrev pub grow_mmap : ℕ → Umm → Umm
grow_mmap len u = record u { mmap_len = add64 u.mmap_len len }

-- the test of `umm_mmap` for big pages
abbrev pub wants_big : ℕ → ℕ → ℕ → ℕ → Bool
wants_big addr len prot flags =
    leb (big_pgsize / 2) len
    && has_flag flags map_anonymous
    && addr == 0
    && not (has_flag flags map_stack)
    && not (prot == 0)
