-- ===== src/Mempool/Tests.antt =====
-- The pool: the theorems at a small pool.
use ix.Base.{◌+◌, ◌≡◌, refl, some, [], ◌∷◌}
use ix.Mempool.{Mempool, mempool_free, mempool_free_2, give_back}
use ix.Mempool.Count.{count_free, one_if, mempool_free_lem}

-- a full list of two elements, a private chunk and a chunk of the datastore
abbrev pool : Mempool
pool = record {
  head = 1 ∷ 2 ∷ [];
  num_free = 2;
  private_chunk = some (record { first = 3; rest = 4 ∷ [] });
  chunk_size = 2;
  chunks = record { first = 5; rest = 6 ∷ [] } ∷ [];
  free_chunks = 1;
  num_locks = 0;
}

-- the pool behind the hand-over of a chunk
abbrev full : Mempool
full = record {
  head = 7 ∷ [];
  num_free = 1;
  private_chunk = some (record { first = 1; rest = 2 ∷ [] });
  chunk_size = 2;
  chunks = record { first = 3; rest = 4 ∷ [] } ∷ record { first = 5; rest = 6 ∷ [] } ∷ [];
  free_chunks = 2;
  num_locks = 1;
}

full-done : mempool_free 7 pool ≡ some full
unfolding mempool_free mempool_free_2 give_back
full-done = refl

mempool_free_lem_example : count_free 7 full ≡ count_free 7 pool + one_if 7 7
mempool_free_lem_example = mempool_free_lem 7 pool full full-done 7
