-- ===== src/Mempool.antt =====
-- inc/ix/mempool.h and dp/core/mempool.c: the pool of one core over the chunks of its datastore. An
-- element is its number; a list of elements linked by `next` is a list, and a chunk, which is a
-- pointer that is not null, has a first element. `none` is a failed assertion.
pub mod Count
mod Tests
use ix.Base.{
  ℕ, suc, ◌+◌, ◌%◌, ◌^◌, Bool, Option, none, some, List, [], ◌∷◌, ltb, ◌==◌, if◌then◌else◌, add32,
  sub32,
}

pub record Chunk : Type 0 where
  pub first : ℕ
  pub rest : List ℕ

-- `struct mempool` and what it uses of `struct mempool_datastore`. The counts are of type `int`, as
-- 32-bit patterns: `num_free` falls below zero.
pub record Mempool : Type 0 where
  pub head : List ℕ
  pub num_free : ℕ
  pub private_chunk : Option Chunk
  pub chunk_size : ℕ
  pub chunks : List Chunk
  pub free_chunks : ℕ
  pub num_locks : ℕ

-- `a < b` for two values of type `int`
abbrev pub int_lt : ℕ → ℕ → Bool
int_lt a b = ltb ((a + 2 ^ 31) % 2 ^ 32) ((b + 2 ^ 31) % 2 ^ 32)

-- a chunk from a list that may be empty
abbrev pub chunk_of : List ℕ → Option Chunk
chunk_of [] = none
chunk_of (x ∷ xs) = some (record { first = x; rest = xs })

-- `mempool_alloc_2`, called with an empty `head`
pub mempool_alloc_2 : Mempool → Option ℕ × Mempool
mempool_alloc_2 m = elim m.private_chunk [
  | some c ↦ (some c.first, record m { head = c.rest; private_chunk = none })
  | none ↦ elim m.chunks [
    | [] ↦ (none, m)
    | ◌∷◌ c cs ↦ (
      some c.first,
      record m {
        head = c.rest;
        chunks = cs;
        free_chunks = sub32 m.free_chunks 1;
        num_locks = m.num_locks + 1;
      },
    )
  ]
]

pub mempool_alloc : Mempool → Option ℕ × Mempool
mempool_alloc m = elim m.head [
  | [] ↦ mempool_alloc_2 m
  | ◌∷◌ x xs ↦ (some x, record m { head = xs; num_free = sub32 m.num_free 1 })
]

-- the private chunk goes back to the datastore
pub give_back : Mempool → Mempool
give_back m = elim m.private_chunk [
  | none ↦ m
  | some c ↦ record m {
    chunks = c ∷ m.chunks;
    free_chunks = add32 m.free_chunks 1;
    num_locks = m.num_locks + 1;
  }
]

pub mempool_free_2 : ℕ → Mempool → Option Mempool
mempool_free_2 ptr m =
    if m.num_free == m.chunk_size
    then some
        (record (give_back m) { private_chunk = chunk_of m.head; head = ptr ∷ []; num_free = 1 })
    else none

pub mempool_free : ℕ → Mempool → Option Mempool
mempool_free ptr m =
    if int_lt m.num_free m.chunk_size
    then some (record m { num_free = add32 m.num_free 1; head = ptr ∷ m.head })
    else mempool_free_2 ptr m
