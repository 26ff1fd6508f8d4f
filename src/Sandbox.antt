-- ===== src/Sandbox.antt =====
-- The sandbox of an application: its address space, of inc/ix/mem.h and dp/sandbox/sandbox.h.
pub mod Safe
mod Tests
pub mod Umm
use ix.Base.{ℕ, ◌+◌, ◌-◌, ◌*◌, ◌/◌, ◌%◌, Bool, true, false, ◌&&◌, ltb, leb, if◌then◌else◌, add64}

abbrev pub mem_ix_base_addr : ℕ
mem_ix_base_addr = 0x70000000

abbrev pub mem_user_direct_base_addr : ℕ
mem_user_direct_base_addr = 0x7000000000

abbrev pub mem_user_direct_end_addr : ℕ
mem_user_direct_end_addr = 0x7F00000000

-- `APP_STACK_SIZE`
abbrev pub app_stack_size : ℕ
app_stack_size = 0x800000

-- the page sizes, 4 KB and 2 MB
abbrev pub pgsize : ℕ
pgsize = 4096

abbrev pub big_pgsize : ℕ
big_pgsize = 2097152

-- `PGADDR`, `PGOFF`, `BIG_PGADDR` and `BIG_PGOFF`: the mask of a power of two
abbrev pub pgaddr : ℕ → ℕ
pgaddr a = a / pgsize * pgsize

abbrev pub pgoff : ℕ → ℕ
pgoff a = a % pgsize

abbrev pub big_pgaddr : ℕ → ℕ
big_pgaddr a = a / big_pgsize * big_pgsize

abbrev pub big_pgoff : ℕ → ℕ
big_pgoff a = a % big_pgsize

-- `mem_ref_is_safe`; `ptr + len` wraps.
pub mem_ref_is_safe : ℕ → ℕ → Bool
mem_ref_is_safe begin len =
    let end = add64 begin len in
    if ltb (mem_user_direct_end_addr - mem_user_direct_base_addr) len
    then false
    else if ltb begin mem_ix_base_addr && ltb end mem_ix_base_addr
    then true
    else leb mem_user_direct_base_addr begin && leb end mem_user_direct_end_addr
