-- ===== src/Blk/Index/Own.antt =====
-- Who owns a block: the free list, or exactly one entry of the index. `update_index` keeps this.
use ix.Base.{
  ℕ, ◌+◌, ◌-◌, ◌≤◌, ◌<◌, ◌≡◌, ◌≢◌, true, false, ◌||◌, Option, none, some, List, [], ◌∷◌, arith,
  if◌then◌else◌, Bool-cases, inl, inr, ◌==◌, in_range,
}
use ix.Blk.{max_lba_num}
use ix.Blk.FreeList.Inv.{is_free, IsValid}
use ix.Blk.Index.{IndexEnt, Store, strncmp_eq, replace, set_chain, num_blks}

abbrev pub covers : IndexEnt → ℕ → ℕ
covers e b = if in_range e.lba (num_blks e) b then 1 else 0

-- how many entries of a chain own block `b`
abbrev pub owned : List IndexEnt → ℕ → ℕ
owned [] b = 0
owned (e ∷ rest) b = covers e b + owned rest b

abbrev pub free01 : Store → ℕ → ℕ
free01 s b = if is_free s.freelist b then 1 else 0

-- An entry has blocks, below the last one of the device.
abbrev pub IsPlaced : IndexEnt → Type 0
IsPlaced e = (0 < num_blks e) × (e.lba + num_blks e < max_lba_num)

abbrev pub AllPlaced : List IndexEnt → Type 0
AllPlaced [] = Unit
AllPlaced (e ∷ rest) = IsPlaced e × AllPlaced rest

-- The last block stays free: the list always ends in the rest of the space.
pub record IsStore (s : Store) : Type 0 where
  pub valid : IsValid s.freelist
  pub top : is_free s.freelist (max_lba_num - 1) ≡ true
  pub placed : (h : ℕ) → AllPlaced (s.indx h)
  pub once : (h b : ℕ) → owned (s.indx h) b + free01 s b ≤ 1
  pub apart : (h h' b : ℕ) → h ≢ h' → owned (s.indx h) b + owned (s.indx h') b ≤ 1

-- The blocks of `meta` are owned by nobody yet.
pub record IsFresh (meta : IndexEnt) (s : Store) : Type 0 where
  pub placed : IsPlaced meta
  pub unowned : (h b : ℕ) → in_range meta.lba (num_blks meta) b ≡ true → owned (s.indx h) b ≡ 0
  pub taken : (b : ℕ) → in_range meta.lba (num_blks meta) b ≡ true → is_free s.freelist b ≡ false

-- the share of what `replace` takes out
abbrev pub out_covers : Option IndexEnt → ℕ → ℕ
out_covers none b = 0
out_covers (some e) b = covers e b

abbrev pub OutPlaced : Option IndexEnt → Type 0
OutPlaced none = Unit
OutPlaced (some e) = IsPlaced e

pub owned-replace :
    (meta : IndexEnt) (chain : List IndexEnt) (b : ℕ)
    → owned (replace meta chain).0 b + out_covers (replace meta chain).1 b
      ≡ owned chain b + covers meta b
unfolding replace
owned-replace meta [] b = omega arith
owned-replace meta (e ∷ rest) b = elim (Bool-cases (strncmp_eq e.key meta.key)) [
  | inl hit ↦ rw hit (omega arith)
  | inr miss ↦ rw miss (omega (arith, owned-replace meta rest b))
]

pub replace-AllPlaced :
    (meta : IndexEnt) (chain : List IndexEnt)
    → IsPlaced meta
    → AllPlaced chain
    → AllPlaced (replace meta chain).0 × OutPlaced (replace meta chain).1
unfolding replace
replace-AllPlaced meta [] new old = ((new, tt), tt)
replace-AllPlaced meta (e ∷ rest) new old = elim (Bool-cases (strncmp_eq e.key meta.key)) [
  | inl hit ↦ rw hit ((new, old.1), old.0)
  | inr miss ↦
      let later = replace-AllPlaced meta rest new old.1 in rw miss ((old.0, later.0), later.1)
]

pub covers-le-owned-replace :
    (meta : IndexEnt) (chain : List IndexEnt) (b : ℕ)
    → covers meta b ≤ owned (replace meta chain).0 b
unfolding replace
covers-le-owned-replace meta [] b = omega arith
covers-le-owned-replace meta (e ∷ rest) b = elim (Bool-cases (strncmp_eq e.key meta.key)) [
  | inl hit ↦ rw hit (omega arith)
  | inr miss ↦ rw miss (omega (arith, covers-le-owned-replace meta rest b))
]

-- A store whose chain `h0` has `meta` in place of what `replace` takes out, and that has at most
-- the blocks of the latter given back.
module _ (meta : IndexEnt) (s s' : Store) (h0 : ℕ) (i : IsStore s) (f : IsFresh meta s)
    (chains : s'.indx ≡ set_chain s.indx h0 (replace meta (s.indx h0)).0)
    (frees : (b : ℕ) → free01 s' b ≤ free01 s b + out_covers (replace meta (s.indx h0)).1 b) where
  alone : (h b : ℕ) → covers meta b + owned (s.indx h) b ≤ 1
  alone h b = elim (Bool-cases (in_range meta.lba (num_blks meta) b)) [
    | inl inside ↦ rw inside (omega (arith, f.unowned h b inside))
    | inr outside ↦ rw outside (omega (arith, i.once h b))
  ]

  not_free : (b : ℕ) → covers meta b + free01 s b ≤ 1
  not_free b = elim (Bool-cases (in_range meta.lba (num_blks meta) b)) [
    | inl inside ↦ rw (inside, f.taken b inside) (omega arith)
    | inr outside ↦ rw outside (omega (arith, i.once h0 b))
  ]

  -- what is known of the chain `h0` at block `b`
  here :
      (b : ℕ)
      → (owned (replace meta (s.indx h0)).0 b + free01 s' b ≤ 1)
        × (out_covers (replace meta (s.indx h0)).1 b ≤ owned (s.indx h0) b)
        × (owned (replace meta (s.indx h0)).0 b ≤ owned (s.indx h0) b + covers meta b)
  here b = omega (
    arith,
    owned-replace meta (s.indx h0) b,
    covers-le-owned-replace meta (s.indx h0) b,
    frees b,
    alone h0 b,
    not_free b,
    i.once h0 b,
  )

  once' : (h b : ℕ) → owned (s'.indx h) b + free01 s' b ≤ 1
  once' h b = elim (Bool-cases (h == h0)) [
    | inl same ↦ rw (chains, same) (here b).0
    | inr other ↦
        rw (chains, other)
          (omega
            (arith, here b, frees b, i.once h b, i.once h0 b, i.apart h h0 b (λ e. ground arith)))
  ]

  apart' : (h h' b : ℕ) → h ≢ h' → owned (s'.indx h) b + owned (s'.indx h') b ≤ 1
  apart' h h' b ne = elim (Bool-cases (h == h0)) [
    | inl same ↦
        let other : (h' == h0) ≡ false = ground arith in
        rw (chains, same, other)
          (omega (arith, here b, alone h0 b, alone h' b, i.apart h0 h' b (λ e. ground arith)))
    | inr away ↦ elim (Bool-cases (h' == h0)) [
      | inl same ↦
          rw (chains, same, away)
            (omega (arith, here b, alone h0 b, alone h b, i.apart h h0 b (λ e. ground arith)))
      | inr away' ↦ rw (chains, away, away') (i.apart h h' b ne)
    ]
  ]

  placed' : (h : ℕ) → AllPlaced (s'.indx h)
  placed' h = elim (Bool-cases (h == h0)) [
    | inl same ↦ rw (chains, same) (replace-AllPlaced meta (s.indx h0) f.placed (i.placed h0)).0
    | inr other ↦ rw (chains, other) (i.placed h)
  ]

  pub replace-IsStore :
      IsValid s'.freelist → is_free s'.freelist (max_lba_num - 1) ≡ true → IsStore s'
  replace-IsStore v t = record {
    valid = v;
    top = t;
    placed = placed';
    once = once';
    apart = apart';
  }

-- The free list after `update_index`.
abbrev pub FreedOld : Option IndexEnt → Store → Store → Type 0
FreedOld none s s' = (b : ℕ) → is_free s'.freelist b ≡ is_free s.freelist b
FreedOld (some old) s s' =
    (b : ℕ) → is_free s'.freelist b ≡ (is_free s.freelist b || in_range old.lba (num_blks old) b)
