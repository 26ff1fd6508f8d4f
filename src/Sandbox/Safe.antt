-- ===== src/Sandbox/Safe.antt =====
-- What `mem_ref_is_safe` lets through.
use ix.Base.{ℕ, ◌+◌, ◌-◌, ◌^◌, ◌≤◌, ◌<◌, ◌≡◌, ◌⊎◌, ◌↔◌, true, arith}
use ix.Sandbox.{
  mem_ref_is_safe, mem_ix_base_addr, mem_user_direct_base_addr, mem_user_direct_end_addr,
}

-- A range is the application's: it lies in the memory below IX, or in the direct user area.
abbrev pub IsUserRange : ℕ → ℕ → Type 0
IsUserRange begin len =
    (begin + len < mem_ix_base_addr)
    ⊎ ((mem_user_direct_base_addr ≤ begin) × (begin + len ≤ mem_user_direct_end_addr))

-- For a range that does not wrap round the address space, `mem_ref_is_safe` holds exactly if the
-- range lies below the IX image or in the direct user area.
pub mem_ref_is_safe_iff :
    (begin len : ℕ)
    → begin + len < 2 ^ 64
    → (mem_ref_is_safe begin len ≡ true) ↔ IsUserRange begin len
unfolding mem_ref_is_safe
mem_ref_is_safe_iff begin len h = ground arith

-- A range of at most 60 GB that wraps round the end of the address space always passes
-- `mem_ref_is_safe`, though no part of it below that end is the application's.
pub mem_ref_is_safe_wraps :
    (begin len : ℕ)
    → begin < 2 ^ 64
    → 2 ^ 64 ≤ begin + len
    → len ≤ mem_user_direct_end_addr - mem_user_direct_base_addr
    → (mem_ref_is_safe begin len ≡ true) × ¬ IsUserRange begin len
unfolding mem_ref_is_safe
mem_ref_is_safe_wraps begin len a b c = ground arith
