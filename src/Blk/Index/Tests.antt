-- ===== src/Blk/Index/Tests.antt =====
-- The index: tests, and its theorems at small stores.
use ix.Base.{
  ℕ, ◌+◌, ◌≤◌, ◌≡◌, ◌≢◌, ◌⊎◌, sym, ◌∙◌, AllSome, Bool, refl, true, false, none, some, List, [], ◌∷◌,
  arith, ◌==◌, in_range, if◌then◌else◌, Bool-cases, inl, inr,
}
use mathlib.Core.Bool.{true≢false}
use ix.Blk.{calc_numblks}
use ix.Blk.FreeList.{
  Extent, free_blk, free_after, free_front, free_between, free_finish, coalesce_blks,
  coalesce_entries,
}
use ix.Blk.FreeList.Inv.{is_free}
use ix.Blk.Crc.{newer_crc}
use ix.Blk.Index.{
  Key, IndexEnt, Store, set_chain, strncmp_eq, chain_lookup, walk, replace, key_lookup,
  update_index, delete_key, num_blks,
}
use ix.Blk.Index.Own.{IsStore, IsFresh, FreedOld, AllPlaced, owned}
use ix.Blk.Index.Keep.{update_index-IsStore}
use ix.Blk.Index.Update.{key_lookup-update_index_prefix}
use ix.Blk.Index.Refine.{PrefixFree, HasKeys, AllKeys, put_all, replay, put_all-refines}
use ix.Blk.Index.Delete.{delete_key-drops_chain}

-- a hash that puts every key into one chain
abbrev one_chain : Key → ℕ
one_chain key = 5

abbrev entry : Key → ℕ → ℕ → IndexEnt
entry key lba version = record {
  magic = 0xd006;
  key = key;
  lba = lba;
  val_len = 10;
  crc = 0;
  version = version;
}

abbrev abc : IndexEnt
abc = entry (b'a' ∷ b'b' ∷ b'c' ∷ []) 7 1

abbrev ab : IndexEnt
ab = entry (b'a' ∷ b'b' ∷ []) 9 1

abbrev xy : IndexEnt
xy = entry (b'x' ∷ b'y' ∷ []) 11 4

abbrev extent : ℕ → ℕ → Extent
extent start count = record { start_lba = start; lba_count = count }

abbrev rest_of_space : List Extent
rest_of_space = extent 20 1953105 ∷ []

abbrev store : List IndexEnt → Store
store chain = record { indx = λ h. if h == 5 then chain else []; freelist = rest_of_space }

once-in :
    (h b : ℕ)
    → owned (if h == 5 then abc ∷ xy ∷ [] else []) b + (if is_free rest_of_space b then 1 else 0)
      ≤ 1
unfolding calc_numblks
once-in h b = elim (Bool-cases (h == 5)) [
  | inl here ↦ rw here (ground arith)
  | inr away ↦ rw away (ground arith)
]

placed-in : (h : ℕ) → AllPlaced (if h == 5 then abc ∷ xy ∷ [] else [])
unfolding calc_numblks
placed-in h = elim (Bool-cases (h == 5)) [
  | inl here ↦ rw here (omega arith)
  | inr away ↦ rw away tt
]

apart-in :
    (h h' b : ℕ)
    → h ≢ h'
    → owned (if h == 5 then abc ∷ xy ∷ [] else []) b
        + owned (if h' == 5 then abc ∷ xy ∷ [] else []) b
      ≤ 1
unfolding calc_numblks
apart-in h h' b ne = elim (Bool-cases (h == 5)) [
  | inl here ↦ let other : (h' == 5) ≡ false = ground arith in rw (here, other) (ground arith)
  | inr away ↦ rw away (elim (Bool-cases (h' == 5)) [
    | inl here ↦ rw here (ground arith)
    | inr away' ↦ rw away' (omega arith)
  ])
]

chain-IsStore : IsStore (store (abc ∷ xy ∷ []))
chain-IsStore = record {
  valid = omega arith;
  top = refl;
  placed = placed-in;
  once = once-in;
  apart = apart-in;
}

-- an entry for the key of `abc` in blocks 12 and so on
abbrev newer : IndexEnt
newer = entry (b'a' ∷ b'b' ∷ b'c' ∷ []) 13 2

unowned-in :
    (h b : ℕ)
    → in_range 13 (num_blks newer) b ≡ true
    → owned (if h == 5 then abc ∷ xy ∷ [] else []) b ≡ 0
unfolding calc_numblks
unowned-in h b inside = elim (Bool-cases (h == 5)) [
  | inl here ↦ rw here (ground arith)
  | inr away ↦ rw away refl
]

newer-IsFresh : IsFresh newer (store (abc ∷ xy ∷ []))
unfolding calc_numblks
newer-IsFresh = record {
  placed = omega arith;
  unowned = unowned-in;
  taken = λ b inside. ground arith;
}

update_index-IsStore_example :
    (s' : Store) × (update_index one_chain newer (store (abc ∷ xy ∷ [])) ≡ some s')
    × IsStore s'
    × FreedOld (replace newer (abc ∷ xy ∷ [])).1 (store (abc ∷ xy ∷ [])) s'
update_index-IsStore_example =
    update_index-IsStore one_chain newer (store (abc ∷ xy ∷ [])) chain-IsStore newer-IsFresh

-- the store once `newer` is in
abbrev updated : Store
updated = record {
  indx = set_chain (store (abc ∷ xy ∷ [])).indx 5 (newer ∷ xy ∷ []);
  freelist = extent 7 1 ∷ rest_of_space;
}

updated-done : update_index one_chain newer (store (abc ∷ xy ∷ [])) ≡ some updated
unfolding update_index calc_numblks replace strncmp_eq free_blk free_after free_front free_between
    free_finish coalesce_blks coalesce_entries
updated-done = refl

abbrev made : IndexEnt
made = record {
  magic = 0xd006;
  key = b'x' ∷ b'y' ∷ [];
  lba = 0;
  val_len = 2;
  crc = newer_crc (1 ∷ 2 ∷ []);
  version = 5;
}

abbrev remade : Store
remade = record {
  indx = set_chain (store (xy ∷ [])).indx 5 (record made { lba = 13 } ∷ []);
  freelist = extent 11 1 ∷ rest_of_space;
}

abbrev evicted : Store
evicted = record {
  indx = set_chain (store (abc ∷ [])).indx 5 (ab ∷ []);
  freelist = extent 7 1 ∷ rest_of_space;
}

key_lookup-update_index_prefix_example :
    (key_lookup one_chain abc.key (store (abc ∷ [])) ≡ some abc)
    × (key_lookup one_chain abc.key evicted ≡ none)
unfolding update_index calc_numblks replace strncmp_eq free_blk free_after free_front free_between
    free_finish coalesce_blks coalesce_entries
key_lookup-update_index_prefix_example =
    key_lookup-update_index_prefix one_chain ab abc (store (abc ∷ [])) evicted refl refl refl refl
      refl

abbrev dropped : Store
dropped = record {
  indx = set_chain (store (abc ∷ xy ∷ [])).indx 5 [];
  freelist = extent 7 1 ∷ rest_of_space;
}

delete_key-drops_chain_example : key_lookup one_chain xy.key dropped ≡ (
    if one_chain xy.key == one_chain abc.key
    then none
    else key_lookup one_chain xy.key (store (abc ∷ xy ∷ [])))
unfolding calc_numblks key_lookup delete_key chain_lookup walk strncmp_eq free_blk free_after
    free_front free_between free_finish coalesce_blks coalesce_entries
delete_key-drops_chain_example =
    delete_key-drops_chain one_chain abc.key (store (abc ∷ xy ∷ [])) abc dropped refl refl xy.key

-- two keys, of which none begins with the other
abbrev TwoKeys : Key → Type 0
TwoKeys key = (key ≡ abc.key) ⊎ (key ≡ xy.key)

TwoKeys-PrefixFree : PrefixFree TwoKeys
unfolding strncmp_eq
TwoKeys-PrefixFree k k' (inl a) (inl b) h = a ∙ sym b
TwoKeys-PrefixFree k k' (inr a) (inr b) h = a ∙ sym b
TwoKeys-PrefixFree k k' (inl a) (inr b) h = absurd (true≢false (sym (rw (a, b) at h)))
TwoKeys-PrefixFree k k' (inr a) (inl b) h = absurd (true≢false (sym (rw (a, b) at h)))

has_abc : (i : ℕ) (b : Bool) → AllKeys TwoKeys (if b then abc ∷ [] else [])
has_abc i true = (inl refl, tt)
has_abc i false = tt

put_all-refines_example :
    AllSome
      (λ s'.
        HasKeys TwoKeys s'
        × ((key : Key)
            → TwoKeys key
            → key_lookup one_chain key s'
              ≡ replay (xy ∷ []) (λ k. key_lookup one_chain k (store (abc ∷ []))) key))
      (put_all one_chain (xy ∷ []) (store (abc ∷ [])))
put_all-refines_example =
    put_all-refines one_chain TwoKeys TwoKeys-PrefixFree (xy ∷ []) (store (abc ∷ []))
      (λ i. has_abc i (i == 5)) (inr refl, tt)
